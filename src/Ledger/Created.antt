-- ===== src/Ledger/Created.antt =====
-- The state after a request that createRequest (src/modules/timeoff/timeoff.service.js) committed.
use leave_ledger.Common.{
  ℕ, ◌≡◌, sym, subst, String, false, some, inl, inr, Bool-cases, List, [], ◌∷◌, ◌++◌, arith,
  All-imp, All-append, Pairs-snoc,
}
use leave_ledger.Common.Int.{pos, ◌≤ℤ◌, int_laws, parts_of_eq}
use leave_ledger.Constants.{RequestStatus, RequestStatus-Eq, status_eq_iff}
use leave_ledger.Balance.{BalanceKey, EmployeeBalance, key_eq, deduct}
use leave_ledger.Balance.Conserved.{IsBalanced, deduct-IsBalanced}
use leave_ledger.Balance.Moves.{find_key, deduct-Updated, Updated}
use leave_ledger.Balance.Rows.{key_eq_iff}
use leave_ledger.Balance.Reach.{find_key-IsBalanced, save-AllBalanced}
use leave_ledger.Entities.{TimeOffRequest, CreateDto, request_key}
use leave_ledger.Store.{Database, State, Env}
use leave_ledger.TimeOff.Create.{new_request}
use leave_ledger.Ledger.{share, held, Apart, IsConsistent}
use leave_ledger.Ledger.Sums.{held-snoc, share-other}
use leave_ledger.Ledger.Create.{Created, All-Apart}

module _ (D : Database) (env : Env) (dto : CreateDto) (key : String) (days : ℕ) (st st' : State D)
    (r : TimeOffRequest) (h : IsConsistent D st) (c : Created D env dto key days st r st') where
  abbrev new : TimeOffRequest
  new = new_request env dto key days

  abbrev rows : List TimeOffRequest
  rows = D.requests.rows st.requests

  abbrev b' : EmployeeBalance
  b' = deduct new.days_requested c.balance

  saved : Updated D.balances (request_key new) b' st.balances st'.balances
  saved =
      subst (Updated D.balances (request_key new) b' st.balances) (sym c.deducted)
        (deduct-Updated D.balances (request_key new) new.days_requested st.balances c.balance c.own)

  nonneg : pos 0 ≤ℤ new.days_requested
  unfolding new_request
  nonneg = omega arith

  IsBalanced-after : IsBalanced b'
  IsBalanced-after =
      deduct-IsBalanced new.days_requested c.balance nonneg
        (find_key-IsBalanced D.balances (request_key new) st.balances c.balance h.balanced c.own)
        c.covered

  pending_share :
      (k : BalanceKey)
      → k ≡ request_key new
      → share RequestStatus.pending k new ≡ new.days_requested
  unfolding share new_request
  pending_share k e = ground (
    arith,
    key_eq_iff k (request_key new),
    status_eq_iff RequestStatus.pending RequestStatus.pending,
  )

  approved-share : (k : BalanceKey) → share RequestStatus.approved k new ≡ pos 0
  unfolding share new_request
  approved-share k = ground (arith, status_eq_iff RequestStatus.pending RequestStatus.approved)

  -- The link between a balance and its requests, over the rows that were stored.
  abbrev Linked : BalanceKey → EmployeeBalance → List TimeOffRequest → Type 0
  Linked k x rs =
      (x.pending_balance ≡ held RequestStatus.pending k rs)
      × (x.used_balance ≡ held RequestStatus.approved k rs)

  Linked-own : (k : BalanceKey) → k ≡ request_key new → Linked k b' (rows ++ new ∷ [])
  unfolding deduct
  Linked-own k e =
      let link =
        h.linked k c.balance
          (subst (λ j. find_key D.balances j st.balances ≡ some c.balance) (sym e) c.own) in
      (
        omega (
          int_laws,
          parts_of_eq _ _ (held-snoc RequestStatus.pending k new rows),
          parts_of_eq _ _ (pending_share k e),
          parts_of_eq _ _ link.0,
        ),
        omega (
          int_laws,
          parts_of_eq _ _ (held-snoc RequestStatus.approved k new rows),
          parts_of_eq _ _ (approved-share k),
          parts_of_eq _ _ link.1,
        ),
      )

  Linked-other :
      (k : BalanceKey) (x : EmployeeBalance)
      → key_eq k (request_key new) ≡ false
      → find_key D.balances k st.balances ≡ some x
      → Linked k x (rows ++ new ∷ [])
  Linked-other k x e own =
      let link = h.linked k x own in
      (
        omega (
          int_laws,
          parts_of_eq _ _ (held-snoc RequestStatus.pending k new rows),
          parts_of_eq _ _ (share-other RequestStatus.pending k new e),
          parts_of_eq _ _ link.0,
        ),
        omega (
          int_laws,
          parts_of_eq _ _ (held-snoc RequestStatus.approved k new rows),
          parts_of_eq _ _ (approved-share k),
          parts_of_eq _ _ link.1,
        ),
      )

  Linked-after :
      (k : BalanceKey) (x : EmployeeBalance)
      → find_key D.balances k st'.balances ≡ some x
      → Linked k x (rows ++ new ∷ [])
  Linked-after k x own = elim (Bool-cases (key_eq k (request_key new))) [
    | inl same ↦
        let is_saved : b' ≡ x = ground (arith, saved k) in
        subst (λ y. Linked k y (rows ++ new ∷ [])) is_saved
          (Linked-own k ((key_eq_iff k (request_key new)).0 same))
    | inr other ↦ Linked-other k x other (ground (arith, saved k))
  ]

  abbrev Funded : D.balances.Table → TimeOffRequest → Type 0
  Funded t x =
      (pos 0 ≤ℤ x.days_requested)
      × ((y : EmployeeBalance) × (find_key D.balances (request_key x) t ≡ some y))

  Funded-after : (x : TimeOffRequest) → Funded st.balances x → Funded st'.balances x
  Funded-after x (at_least, (y, own)) =
      elim (Bool-cases (key_eq (request_key x) (request_key new))) [
        | inl same ↦ (at_least, (b', ground (arith, saved (request_key x))))
        | inr other ↦ (at_least, (y, ground (arith, saved (request_key x))))
      ]

  pub Created-IsConsistent : IsConsistent D st'
  unfolding new_request
  Created-IsConsistent = record {
    balanced =
        rw c.deducted (save-AllBalanced D.balances b' st.balances h.balanced IsBalanced-after);
    linked = λ k x own. rw c.requests (Linked-after k x own);
    funded = rw c.requests (
        All-append (Funded st'.balances) rows (new ∷ [])
          (All-imp (Funded st.balances) (Funded st'.balances) rows Funded-after h.funded)
          (Funded-after new (nonneg, (c.balance, c.own)), tt));
    apart = rw c.requests (Pairs-snoc Apart rows new (All-Apart new rows c.free c.unique) h.apart);
  }
