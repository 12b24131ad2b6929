-- ===== src/MockHcm/Sound.antt =====
-- What holds of the balances of mock-hcm/src/server.js after any requests with sensible amounts.
use leave_ledger.Common.{
  ◌≡◌, ◌≢◌, refl, sym, ◌∙◌, String, true, false, List, [], ◌∷◌, first, put, All, All-put, All-first,
  first-passes, subst, Pairs, Bool-cases, Option-cases, inl, inr, arith,
}
use leave_ledger.Common.Int.{ℤ, pos, ◌≤ℤ◌, ltb_ℤ, not_ltb_ℤ→le, int_laws}
use leave_ledger.Common.Eq.{◌==◌, String-Eq, eq_of_same, eq_self}
use leave_ledger.MockHcm.{
  Place, Holding, balance_key, at_place, empty_holding, holding_at, ensure, moved, taken,
}

-- The days that are left are not negative, and at most the total.
pub record IsCovered (r : Holding) : Type 0 where
  pub not_negative : pos 0 ≤ℤ r.available_balance
  pub within : r.available_balance ≤ℤ r.total_balance

abbrev pub IsKeyed : List Holding → Type 0
IsKeyed = Pairs (λ x y. balance_key x.place ≢ balance_key y.place)

pub record IsSound (rs : List Holding) : Type 0 where
  pub covered : All IsCovered rs
  pub keyed : IsKeyed rs

pub key_of_same :
    (p : Place) (x : Holding) → at_place p x ≡ true → balance_key x.place ≡ balance_key p
key_of_same p x h = eq_of_same (balance_key x.place) (balance_key p) h

put-IsKeyed :
    (p : Place) (r : Holding) (rs : List Holding)
    → balance_key r.place ≡ balance_key p
    → IsKeyed rs
    → IsKeyed (put (at_place p) r rs)
put-IsKeyed p r [] e h = (tt, tt)
put-IsKeyed p r (x ∷ xs) e h = elim (Bool-cases (at_place p x)) [
  | inl here ↦
      let same : balance_key x.place ≡ balance_key r.place = key_of_same p x here ∙ sym e in
      rw here (subst (λ k. All (λ y. k ≢ balance_key y.place) xs) same h.0, h.1)
  | inr later ↦ rw later (
    All-put (λ y. balance_key x.place ≢ balance_key y.place) (at_place p) r xs h.0
        (λ same.
          let found : at_place p x ≡ true =
            subst (λ k. (k == balance_key p) ≡ true) (sym (same ∙ e)) (eq_self (balance_key p)) in
          cc),
    put-IsKeyed p r xs e h.1,
  )
]

pub put-IsSound :
    (p : Place) (r : Holding) (rs : List Holding)
    → balance_key r.place ≡ balance_key p
    → IsCovered r
    → IsSound rs
    → IsSound (put (at_place p) r rs)
put-IsSound p r rs e c s = record {
  covered = All-put IsCovered (at_place p) r rs s.covered c;
  keyed = put-IsKeyed p r rs e s.keyed;
}

empty-IsCovered : (p : Place) → IsCovered (empty_holding p)
empty-IsCovered p = record { not_negative = omega arith; within = omega arith }

pub ensure-IsSound : (p : Place) (rs : List Holding) → IsSound rs → IsSound (ensure p rs)
ensure-IsSound p rs s = elim (Option-cases (first (at_place p) rs)) [
  | inl missing ↦
      rw (ensure, missing) (put-IsSound p (empty_holding p) rs refl (empty-IsCovered p) s)
  | inr (r, found) ↦ rw (ensure, found) s
]

-- The record that a handler works on.
pub holding-IsCovered :
    (p : Place) (rs : List Holding)
    → IsSound rs
    → IsCovered (holding_at p rs) × (balance_key (holding_at p rs).place ≡ balance_key p)
holding-IsCovered p rs s = elim (Option-cases (first (at_place p) rs)) [
  | inl missing ↦ rw (holding_at, missing) (empty-IsCovered p, refl)
  | inr (r, found) ↦
      rw (holding_at, found)
        (
          All-first IsCovered (at_place p) rs r s.covered found,
          key_of_same p r (first-passes (at_place p) rs r found),
        )
]

pub taken-IsCovered :
    (days : ℤ) (version : String) (r : Holding)
    → IsCovered r
    → pos 0 ≤ℤ days
    → ltb_ℤ r.available_balance days ≡ false
    → IsCovered (taken days version r)
taken-IsCovered days version r c positive enough =
    let le = not_ltb_ℤ→le r.available_balance days enough in
    record { not_negative = omega (int_laws, c.not_negative); within = omega (int_laws, c.within) }

pub moved-IsCovered :
    (days : ℤ) (version : String) (r : Holding)
    → IsCovered r
    → pos 0 ≤ℤ days
    → IsCovered (moved days version r)
moved-IsCovered days version r c positive = record {
  not_negative = omega (int_laws, c.not_negative);
  within = omega (int_laws, c.within);
}
