-- ===== src/MockHcm/Filed.antt =====
-- POST /hcm/time-off of mock-hcm/src/server.js against POST /hcm/validate and GET /hcm/balance.
use leave_ledger.Common.{
  ◌≡◌, refl, ◌∙◌, subst, String, Bool, true, false, not, ◌&&◌, ◌||◌, none, some, List, first,
  first-passes, put, Bool-cases, Option-cases, inl, inr, if◌then◌else◌,
}
use leave_ledger.Common.Int.{ℤ, pos, ◌-ℤ◌, ltb_ℤ}
use leave_ledger.Common.Eq.{◌==◌, String-Eq, eq_of_same, eq_self}
use leave_ledger.Common.Keyed.{first-put_key}
use leave_ledger.MockHcm.{
  Place, Holding, Server, Reply, balance_key, at_place, empty_holding, holding_at, ensure, taken,
  is_missing,
}
use leave_ledger.MockHcm.Routes.{Filing, filing_place, validate, file_days, time_off}
use leave_ledger.MockHcm.Sound.{key_of_same}

-- What GET shows of a record's amounts.
abbrev pub amounts : Holding → ℤ × ℤ
amounts r = (r.total_balance, r.available_balance)

pub holding-put :
    (p q : Place) (r : Holding) (rs : List Holding)
    → balance_key r.place ≡ balance_key p
    → holding_at q (put (at_place p) r rs)
      ≡ (if balance_key p == balance_key q then r else holding_at q rs)
holding-put p q r rs e =
    let found = first-put_key (λ x. balance_key x.place) (balance_key p) (balance_key q) r rs e in
    elim (Bool-cases (balance_key p == balance_key q)) [
      | inl same ↦ rw (holding_at, found, same) refl
      | inr other ↦ rw (holding_at, found, other) refl
    ]

pub holding-ensure : (p : Place) (rs : List Holding) → holding_at p (ensure p rs) ≡ holding_at p rs
holding-ensure p rs = elim (Option-cases (first (at_place p) rs)) [
  | inl missing ↦
      rw (ensure, missing)
        (holding-put p p (empty_holding p) rs refl
          ∙ rw (eq_self (balance_key p), holding_at, missing) refl)
  | inr (r, found) ↦ rw (ensure, found) refl
]

-- A record that a handler adds shows what GET showed without it.
pub amounts-ensure :
    (p q : Place) (rs : List Holding)
    → amounts (holding_at q (ensure p rs)) ≡ amounts (holding_at q rs)
amounts-ensure p q rs = elim (Option-cases (first (at_place p) rs)) [
  | inr (r, found) ↦ rw (ensure, found) refl
  | inl missing ↦ elim (Bool-cases (balance_key p == balance_key q)) [
    | inr other ↦
        let shown = holding-put p q (empty_holding p) rs refl in
        rw (ensure, missing, shown, other) refl
    | inl same ↦
        let key = eq_of_same (balance_key p) (balance_key q) same in
        let gone : first (at_place q) rs ≡ none =
          subst (λ k. first (λ x. balance_key x.place == k) rs ≡ none) key missing in
        let shown = holding-put p q (empty_holding p) rs refl in
        rw (ensure, missing, shown, same, holding_at, gone) refl
  ]
]

pub holding-key :
    (p : Place) (rs : List Holding) → balance_key (holding_at p rs).place ≡ balance_key p
holding-key p rs = elim (Option-cases (first (at_place p) rs)) [
  | inl missing ↦ rw (holding_at, missing) refl
  | inr (r, found) ↦ rw (holding_at, found) (key_of_same p r (first-passes (at_place p) rs r found))
]

module _ (f : Filing) (days : ℤ) (version : String) (s : Server) where
  abbrev p : Place
  p = filing_place f

  abbrev old : Holding
  old = holding_at p s.balances

  -- What a filing does, if its days are available (`enough`) and if not.
  pub record IsFiled (enough : Bool) : Type 0 where
    pub predicted : validate p days s ≡ Reply.verdict enough old.available_balance
    pub reply : (time_off f version s).0 ≡ (
        if enough
        then Reply.filed f.reference_id (old.available_balance -ℤ days) version
        else Reply.refused 422 "INSUFFICIENT_BALANCE")
    pub shown :
        (q : Place)
        → amounts (holding_at q (time_off f version s).1.balances) ≡ (
            if enough && (balance_key p == balance_key q)
            then (old.total_balance -ℤ days, old.available_balance -ℤ days)
            else amounts (holding_at q s.balances))

  validate-old :
      s.behavior.validation_override ≡ none
      → ltb_ℤ (pos 0) days ≡ true
      → validate p days s
        ≡ Reply.verdict (not (ltb_ℤ old.available_balance days)) old.available_balance
  unfolding validate
  validate-old honest positive = elim (Option-cases (first (at_place p) s.balances)) [
    | inl missing ↦ rw (validate, honest, missing, holding_at, missing, positive) refl
    | inr (r, found) ↦ rw (validate, honest, found, holding_at, found) refl
  ]

  -- With no override of validations, for a complete body and a positive number of days: the HCM files
  -- the days if and only if it validates them. It then takes them off both amounts of that one record,
  -- and answers with what is left; otherwise it answers with status 422, and no amount changes.
  pub time_off-IsFiled :
      (is_missing f.employee_id || is_missing f.location_id || is_missing f.leave_type) ≡ false
      → f.days_requested ≡ some (some days)
      → ltb_ℤ (pos 0) days ≡ true
      → s.behavior.validation_override ≡ none
      → (enough : Bool) × IsFiled enough
  unfolding time_off file_days
  time_off-IsFiled complete present positive honest =
      let same = holding-ensure p s.balances in
      let predicted = validate-old honest positive in
      elim (Bool-cases (ltb_ℤ old.available_balance days)) [
        | inl short ↦ (
          false,
          record {
            predicted = predicted ∙ rw short refl;
            reply = rw (time_off, complete, present, positive, file_days, same, short) refl;
            shown = λ q.
                rw (time_off, complete, present, positive, file_days, same, short)
                  (amounts-ensure p q s.balances);
          },
        )
        | inr enough ↦ (
          true,
          record {
            predicted = predicted ∙ rw enough refl;
            reply = rw (time_off, complete, present, positive, file_days, same, enough) refl;
            shown = λ q.
                let put_there =
                  holding-put p q (taken days version old) (ensure p s.balances)
                    (holding-key p s.balances) in
                elim (Bool-cases (balance_key p == balance_key q)) [
                  | inl here ↦
                      rw
                        (
                          time_off, complete, present, positive, file_days, same, enough, put_there,
                          here,
                        )
                        refl
                  | inr other ↦
                      rw
                        (
                          time_off, complete, present, positive, file_days, same, enough, put_there,
                          other,
                        )
                        (amounts-ensure p q s.balances)
                ];
          },
        )
      ]
