-- ===== src/Ledger/Seed.antt =====
-- Seeding a balance and applying a real-time update (src/modules/balance/balance.service.js) in a
-- state with requests.
use leave_ledger.Common.{
  ℕ, ◌≡◌, refl, subst, false, some, none, inl, inr, Bool-cases, Option-cases, List, [], ◌∷◌, arith,
  All, All-imp, if◌then◌else◌, ◌++◌, first,
}
use leave_ledger.Common.Int.{ℤ, pos, ◌≤ℤ◌, int_laws, parts_of_eq}
use leave_ledger.Constants.{RequestStatus}
use leave_ledger.Result.{ok}
use leave_ledger.Database.{insert-some}
use leave_ledger.Balance.{
  BalanceKey, BalanceView, EmployeeBalance, HcmData, key_eq, has_key, new_balance, real_time,
  upsert_balance, apply_hcm_real_time_update,
}
use leave_ledger.Balance.Conserved.{real_time-IsBalanced, new_balance-IsBalanced}
use leave_ledger.Balance.Moves.{find_key, find_key-key, save-Updated, Updated}
use leave_ledger.Balance.Rows.{key_eq_iff}
use leave_ledger.Balance.Reach.{
  AllBalanced, find_key-IsBalanced, save-AllBalanced, insert-AllBalanced,
}
use leave_ledger.Entities.{TimeOffRequest, request_key}
use leave_ledger.Store.{Database, State}
use leave_ledger.Ledger.{held, IsConsistent}
use leave_ledger.Ledger.Sums.{share-other}

first-append :
    (k : BalanceKey) (xs : List EmployeeBalance) (b : EmployeeBalance)
    → first (has_key k) (xs ++ b ∷ []) ≡ (elim (first (has_key k) xs) [
      | some x ↦ some x
      | none ↦ if key_eq k b.key then some b else none
    ])
first-append k [] b = ground arith
first-append k (x ∷ xs) b = ground (arith, first-append k xs b)

module _ (D : Database) (st : State D) (h : IsConsistent D st) where
  abbrev rows : List TimeOffRequest
  rows = D.requests.rows st.requests

  abbrev Funded : D.balances.Table → TimeOffRequest → Type 0
  Funded t x =
      (pos 0 ≤ℤ x.days_requested)
      × ((y : EmployeeBalance) × (find_key D.balances (request_key x) t ≡ some y))

  -- No request draws on a balance that is missing.
  pub held_missing :
      (s : RequestStatus) (k : BalanceKey) (rs : List TimeOffRequest)
      → find_key D.balances k st.balances ≡ none
      → All (Funded st.balances) rs
      → pos 0 ≡ held s k rs
  unfolding held
  held_missing s k [] missing f = refl
  held_missing s k (x ∷ rs) missing f =
      let other : key_eq k (request_key x) ≡ false =
        ground (arith, key_eq_iff k (request_key x), f.0.1.1) in
      omega (
        int_laws,
        parts_of_eq _ _ (share-other s k x other),
        parts_of_eq _ _ (held_missing s k rs missing f.1),
      )

  module _ (k : BalanceKey) (b' : EmployeeBalance) (t' : D.balances.Table)
      (all : AllBalanced D.balances t') (saved : Updated D.balances k b' st.balances t')
      (pending_link : b'.pending_balance ≡ held RequestStatus.pending k rows)
      (used_link : b'.used_balance ≡ held RequestStatus.approved k rows) where
    abbrev Linked : BalanceKey → EmployeeBalance → Type 0
    Linked j x =
        (x.pending_balance ≡ held RequestStatus.pending j rows)
        × (x.used_balance ≡ held RequestStatus.approved j rows)

    Linked-after :
        (j : BalanceKey) (x : EmployeeBalance) → find_key D.balances j t' ≡ some x → Linked j x
    Linked-after j x own = elim (Bool-cases (key_eq j k)) [
      | inl same ↦
          let is_saved : b' ≡ x = ground (arith, saved j) in
          let is_key : k ≡ j = ground (arith, key_eq_iff j k) in
          subst (λ y. Linked j y) is_saved
            (subst (λ i. Linked i b') is_key (pending_link, used_link))
      | inr other ↦ h.linked j x (ground (arith, saved j))
    ]

    Funded-after : (x : TimeOffRequest) → Funded st.balances x → Funded t' x
    Funded-after x (at_least, (y, own)) = elim (Bool-cases (key_eq (request_key x) k)) [
      | inl same ↦ (at_least, (b', ground (arith, saved (request_key x))))
      | inr other ↦ (at_least, (y, ground (arith, saved (request_key x))))
    ]

    -- A balance that is added or replaced, with its pending and used days in order.
    pub rebalanced-IsConsistent : IsConsistent D (record st { balances = t' })
    rebalanced-IsConsistent = record {
      balanced = all;
      linked = Linked-after;
      funded = All-imp (Funded st.balances) (Funded t') rows Funded-after h.funded;
      apart = h.apart;
    }

  pub insert-Updated :
      (k : BalanceKey) (b : EmployeeBalance) (t' : D.balances.Table)
      → b.key ≡ k
      → find_key D.balances k st.balances ≡ none
      → D.balances.insert b st.balances ≡ some t'
      → Updated D.balances k b st.balances t'
  insert-Updated k b t' e missing stored j = ground (
    arith,
    D.balances.find_one-rows (has_key j) t',
    D.balances.find_one-rows (has_key j) st.balances,
    insert-some D.balances b st.balances t' stored,
    first-append j (D.balances.rows st.balances) b,
    key_eq_iff j k,
  )

  same-IsConsistent :
      (t' : D.balances.Table) → st.balances ≡ t' → IsConsistent D (record st { balances = t' })
  same-IsConsistent t' e = subst (λ t. IsConsistent D (record st { balances = t })) e h

  inserted-IsConsistent :
      (now : ℕ) (k : BalanceKey) (total : ℤ) (t' : D.balances.Table)
      → pos 0 ≤ℤ total
      → find_key D.balances k st.balances ≡ none
      → D.balances.insert (new_balance now k total) st.balances ≡ some t'
      → IsConsistent D (record st { balances = t' })
  unfolding new_balance
  inserted-IsConsistent now k total t' nonneg missing stored =
      let b = new_balance now k total in
      rebalanced-IsConsistent k b t'
        (insert-AllBalanced D.balances b st.balances t' stored h.balanced
          (new_balance-IsBalanced now k total nonneg))
        (insert-Updated k b t' refl missing stored)
        (held_missing RequestStatus.pending k rows missing h.funded)
        (held_missing RequestStatus.approved k rows missing h.funded)

  updated-IsConsistent :
      (now : ℕ) (k : BalanceKey) (hcm : HcmData) (b : EmployeeBalance)
      → find_key D.balances k st.balances ≡ some b
      → IsConsistent D (record st { balances = D.balances.save (real_time now hcm b) st.balances })
  unfolding real_time
  updated-IsConsistent now k hcm b found =
      let b' = real_time now hcm b in
      let t' = D.balances.save b' st.balances in
      rebalanced-IsConsistent k b' t'
        (save-AllBalanced D.balances b' st.balances h.balanced (
          real_time-IsBalanced now hcm b
            (find_key-IsBalanced D.balances k st.balances b h.balanced found)))
        (subst (λ j. Updated D.balances j b' st.balances t')
          (find_key-key D.balances k st.balances b found) (save-Updated D.balances b' st.balances))
        (h.linked k b found).0 (h.linked k b found).1

  pub upsert_balance-IsConsistent :
      (now : ℕ) (k : BalanceKey) (total : ℤ) (v : BalanceView) (t' : D.balances.Table)
      → pos 0 ≤ℤ total
      → upsert_balance D.balances now k total st.balances ≡ ok (v, t')
      → IsConsistent D (record st { balances = t' })
  unfolding upsert_balance
  upsert_balance-IsConsistent now k total v t' nonneg e =
      elim (Option-cases (find_key D.balances k st.balances)) [
        | inr (b, found) ↦ same-IsConsistent t' (ground arith)
        | inl missing ↦
            elim (Option-cases (D.balances.insert (new_balance now k total) st.balances)) [
              | inl refused ↦ absurd (ground arith)
              | inr (u, stored) ↦
                  subst (λ t. IsConsistent D (record st { balances = t })) (ground arith)
                    (inserted-IsConsistent now k total u nonneg missing stored)
            ]
      ]

  pub real_time-IsConsistent :
      (now : ℕ) (k : BalanceKey) (hcm : HcmData)
      → IsConsistent D
          (record st { balances = (apply_hcm_real_time_update D.balances now k hcm st.balances).1 })
  unfolding apply_hcm_real_time_update
  real_time-IsConsistent now k hcm = elim (Option-cases (find_key D.balances k st.balances)) [
    | inl missing ↦ same-IsConsistent _ (ground arith)
    | inr (b, found) ↦
        subst (λ t. IsConsistent D (record st { balances = t })) (ground arith)
          (updated-IsConsistent now k hcm b found)
  ]
