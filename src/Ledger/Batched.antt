-- ===== src/Ledger/Batched.antt =====
-- The balances and requests together under the batch reconciliation of
-- src/modules/hcm/hcm-sync.service.js.
use leave_ledger.Common.{
  ℕ, ◌≡◌, refl, sym, subst, ◌∙◌, String, true, some, Option-cases, Bool-cases, inl, inr, List, [],
  ◌∷◌, arith, All-imp, first, map_where, if◌then◌else◌, some_of, map,
}
use mathlib.Core.Option
use leave_ledger.Common.Eq.{◌==◌, String-Eq}
use leave_ledger.Common.Int.{pos, ◌≤ℤ◌}
use leave_ledger.Constants.{RequestStatus}
use leave_ledger.Balance.{BalanceKey, EmployeeBalance, key_eq, has_key, new_balance}
use leave_ledger.Balance.Rows.{key_eq_iff}
use leave_ledger.Balance.Moves.{find_key, find_key-key}
use leave_ledger.Balance.Reach.{AllBalanced, find_key-IsBalanced, insert-AllBalanced}
use leave_ledger.Store.{Database, State}
use leave_ledger.Hcm.Reconcile.{
  HcmRecord, Tally, reconcile, flag_missing, batch_key, count_record, count_missing, no_tally,
}
use leave_ledger.Hcm.Batch.{reconcile_record, reconcile_all, flag_all, reconcile_batch}
use leave_ledger.Hcm.Batch.Balanced.{
  NonNegative, reconcile-IsBalanced, flag_missing-IsBalanced, created, created-IsBalanced,
  update-AllBalanced,
}
use leave_ledger.Entities.{request_key}
use leave_ledger.Ledger.{held, IsConsistent}
use leave_ledger.Ledger.Seed.{held_missing, insert-Updated, rebalanced-IsConsistent}

first-map_where_key :
    (k : BalanceKey) (f : EmployeeBalance → EmployeeBalance) (j : BalanceKey)
    (xs : List EmployeeBalance)
    → ((x : EmployeeBalance) → x.key ≡ k → (f x).key ≡ k)
    → first (has_key j) (map_where (has_key k) f xs)
      ≡ (if key_eq j k then Option.map f (first (has_key k) xs) else first (has_key j) xs)
first-map_where_key k f j [] keeps = ground arith
first-map_where_key k f j (x ∷ xs) keeps = ground (
  arith,
  first-map_where_key k f j xs keeps,
  keeps x,
  key_eq_iff k x.key,
  key_eq_iff j x.key,
  key_eq_iff j k,
  key_eq_iff j (f x).key,
)

module _ (D : Database) (st : State D) (h : IsConsistent D st) where
  -- An update of the balance under a key that keeps its key, its pending and its used days.
  module _ (k : BalanceKey) (f : EmployeeBalance → EmployeeBalance)
      (keeps : (x : EmployeeBalance) → x.key ≡ k → (f x).key ≡ k)
      (parts : (b : EmployeeBalance)
        → find_key D.balances k st.balances ≡ some b
        → ((f b).pending_balance ≡ b.pending_balance) × ((f b).used_balance ≡ b.used_balance))
      (all : AllBalanced D.balances (D.balances.update (has_key k) f st.balances)) where
    abbrev updated : D.balances.Table
    updated = D.balances.update (has_key k) f st.balances

    find_key-updated :
        (j : BalanceKey)
        → find_key D.balances j updated ≡ (
            if key_eq j k
            then Option.map f (find_key D.balances k st.balances)
            else find_key D.balances j st.balances)
    find_key-updated j =
        rw
          (
            D.balances.find_one-rows (has_key j) updated,
            D.balances.find_one-rows (has_key j) st.balances,
            D.balances.find_one-rows (has_key k) st.balances,
            D.balances.update-rows,
          )
          (first-map_where_key k f j (D.balances.rows st.balances) keeps)

    Linked-updated :
        (j : BalanceKey) (x : EmployeeBalance)
        → find_key D.balances j updated ≡ some x
        → (x.pending_balance ≡ held RequestStatus.pending j (D.requests.rows st.requests))
          × (x.used_balance ≡ held RequestStatus.approved j (D.requests.rows st.requests))
    Linked-updated j x own = elim (Bool-cases (key_eq j k)) [
      | inr other ↦ h.linked j x (ground (arith, find_key-updated j))
      | inl same ↦ elim (Option-cases (find_key D.balances k st.balances)) [
        | inl missing ↦ absurd (ground (arith, find_key-updated j))
        | inr (b, found) ↦
            let is_key : j ≡ k = (key_eq_iff j k).0 same in
            let is_new : f b ≡ x = ground (arith, find_key-updated j) in
            let (pending_link, used_link) = h.linked k b found in
            let (same_pending, same_used) = parts b found in
            subst
              (λ y.
                (y.pending_balance ≡ held RequestStatus.pending j (D.requests.rows st.requests))
                × (y.used_balance ≡ held RequestStatus.approved j (D.requests.rows st.requests)))
              is_new
              (subst
                (λ i.
                  ((f b).pending_balance
                    ≡ held RequestStatus.pending i (D.requests.rows st.requests))
                  × ((f b).used_balance
                      ≡ held RequestStatus.approved i (D.requests.rows st.requests)))
                (sym is_key) (same_pending ∙ pending_link, same_used ∙ used_link))
      ]
    ]

    Funded-updated :
        (j : BalanceKey) (y : EmployeeBalance)
        → find_key D.balances j st.balances ≡ some y
        → (x : EmployeeBalance) × (find_key D.balances j updated ≡ some x)
    Funded-updated j y own = elim (Bool-cases (key_eq j k)) [
      | inr other ↦ (y, ground (arith, find_key-updated j))
      | inl same ↦
          let is_key : j ≡ k = (key_eq_iff j k).0 same in (f y, ground (arith, find_key-updated j))
    ]

    updated-IsConsistent : IsConsistent D (record st { balances = updated })
    updated-IsConsistent = record {
      balanced = all;
      linked = Linked-updated;
      funded =
          All-imp _ _ (D.requests.rows st.requests)
            (λ r (nonneg, (y, own)). (nonneg, Funded-updated (request_key r) y own)) h.funded;
      apart = h.apart;
    }

reconcile-parts :
    (now : ℕ) (r : HcmRecord) (b : EmployeeBalance)
    → ((reconcile now r b).1.key ≡ b.key)
      × ((reconcile now r b).1.pending_balance ≡ b.pending_balance)
      × ((reconcile now r b).1.used_balance ≡ b.used_balance)
unfolding reconcile
reconcile-parts now r b = ground arith

flag_missing-parts :
    (now : ℕ) (loaded b : EmployeeBalance)
    → ((flag_missing now loaded b).key ≡ b.key)
      × ((flag_missing now loaded b).pending_balance ≡ b.pending_balance)
      × ((flag_missing now loaded b).used_balance ≡ b.used_balance)
unfolding flag_missing
flag_missing-parts now loaded b = (refl, refl, refl)

created-parts :
    (D : Database) (now : ℕ) (r : HcmRecord)
    → ((created D.balances now r).key ≡ r.key)
      × ((created D.balances now r).pending_balance ≡ pos 0)
      × ((created D.balances now r).used_balance ≡ pos 0)
unfolding new_balance
created-parts D now r = (refl, refl, refl)

module _ (D : Database) (now : ℕ) where
  reconcile_record-IsConsistent :
      (r : HcmRecord) (st : State D)
      → pos 0 ≤ℤ r.total_balance
      → IsConsistent D st
      → IsConsistent D (record st { balances = (reconcile_record D.balances now r st.balances).1 })
  unfolding reconcile_record
  reconcile_record-IsConsistent r st nonneg h =
      elim (Option-cases (find_key D.balances r.key st.balances)) [
        | inr (b, found) ↦
            let (same_key, same_pending, same_used) = reconcile-parts now r b in
            let b' = (reconcile now r b).1 in
            subst (λ t. IsConsistent D (record st { balances = t })) (ground arith)
              (updated-IsConsistent D st h r.key (λ row. b')
                (λ x e. same_key ∙ find_key-key D.balances r.key st.balances b found)
                (λ c e. (ground arith, ground arith))
                (update-AllBalanced D.balances (has_key r.key) (λ row. b') st.balances h.balanced
                  (λ x hx.
                    reconcile-IsBalanced now r b
                      (find_key-IsBalanced D.balances r.key st.balances b h.balanced found))))
        | inl missing ↦
            let c = created D.balances now r in
            let (same_key, no_pending, no_used) = created-parts D now r in
            elim (Option-cases (D.balances.insert c st.balances)) [
              | inl refused ↦
                  subst (λ t. IsConsistent D (record st { balances = t })) (ground arith) h
              | inr (t', stored) ↦
                  subst (λ t. IsConsistent D (record st { balances = t })) (ground arith)
                    (rebalanced-IsConsistent D st h r.key c t'
                      (insert-AllBalanced D.balances c st.balances t' stored h.balanced
                        (created-IsBalanced D.balances now r nonneg))
                      (insert-Updated D st h r.key c t' same_key missing stored)
                      (no_pending
                        ∙ held_missing D st h RequestStatus.pending r.key
                            (D.requests.rows st.requests) missing h.funded)
                      (no_used
                        ∙ held_missing D st h RequestStatus.approved r.key
                            (D.requests.rows st.requests) missing h.funded))
            ]
      ]

  reconcile_all-IsConsistent :
      (rs : List HcmRecord) (c : Tally) (st : State D)
      → NonNegative D.balances rs
      → IsConsistent D st
      → IsConsistent D (record st { balances = (reconcile_all D.balances now rs c st.balances).1 })
  unfolding reconcile_all
  reconcile_all-IsConsistent [] c st nonneg h = h
  reconcile_all-IsConsistent (r ∷ rs) c st nonneg h =
      let (updated, t') = reconcile_record D.balances now r st.balances in
      reconcile_all-IsConsistent rs (count_record r.key updated c) (record st { balances = t' })
        nonneg.1 (reconcile_record-IsConsistent r st nonneg.0 h)

  flag_all-IsConsistent :
      (keys : List String) (bs : List EmployeeBalance) (c : Tally) (st : State D)
      → IsConsistent D st
      → IsConsistent D (record st { balances = (flag_all D.balances now keys bs c st.balances).1 })
  unfolding flag_all
  flag_all-IsConsistent keys [] c st h = h
  flag_all-IsConsistent keys (b ∷ bs) c st h =
      elim (Bool-cases (some_of (λ k. k == batch_key b.key) keys)) [
        | inl given ↦ rw (flag_all, given) (flag_all-IsConsistent keys bs c st h)
        | inr missing ↦
            rw (flag_all, missing)
              (flag_all-IsConsistent keys bs (count_missing b.key c)
                (record st {
                  balances = D.balances.update (has_key b.key) (flag_missing now b) st.balances;
                })
                (updated-IsConsistent D st h b.key (flag_missing now b)
                  (λ x e. (flag_missing-parts now b x).0 ∙ e)
                  (λ x e. ((flag_missing-parts now b x).1, (flag_missing-parts now b x).2))
                  (update-AllBalanced D.balances (has_key b.key) (flag_missing now b) st.balances
                    h.balanced (λ x hx. flag_missing-IsBalanced now b x hx))))
      ]

  -- What a batch run does to the balances leaves the ledger consistent.
  pub reconcile_batch-IsConsistent :
      (recs : List HcmRecord) (st : State D)
      → NonNegative D.balances recs
      → IsConsistent D st
      → IsConsistent D
          (record st { balances = (reconcile_batch D.balances now recs st.balances).1 })
  unfolding reconcile_batch
  reconcile_batch-IsConsistent recs st nonneg h =
      let (c, t') = reconcile_all D.balances now recs no_tally st.balances in
      flag_all-IsConsistent (map (λ r. batch_key r.key) recs) (D.balances.find (λ b. true) t') c
        (record st { balances = t' }) (reconcile_all-IsConsistent recs no_tally st nonneg h)
