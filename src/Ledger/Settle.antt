-- ===== src/Ledger/Settle.antt =====
-- The sums of the ledger when a pending request is decided and its balance moves days
-- (src/modules/timeoff/timeoff.service.js).
use leave_ledger.Common.{
  ◌≡◌, sym, subst, true, false, some, inl, inr, Bool-cases, List, arith, first, put, All-imp,
  All-put-first, Pairs-put,
}
use leave_ledger.Common.Int.{ℤ, pos, ◌+ℤ◌, ◌≤ℤ◌}
use leave_ledger.Common.Eq.{String-Eq}
use leave_ledger.Constants.{RequestStatus}
use leave_ledger.Balance.{BalanceKey, EmployeeBalance, key_eq}
use leave_ledger.Balance.Conserved.{IsBalanced}
use leave_ledger.Balance.Moves.{find_key, Updated, save-Updated}
use leave_ledger.Balance.Reach.{save-AllBalanced}
use leave_ledger.Balance.Rows.{key_eq_iff}
use leave_ledger.Entities.{TimeOffRequest, request_key, same_request}
use leave_ledger.Store.{Database, State, Task}
use leave_ledger.TimeOff.{is_active}
use leave_ledger.Ledger.{share, held, clash, Apart, IsConsistent}
use leave_ledger.Ledger.Sums.{linked-put, share-other}

-- What a decision may change of a request: it keeps what identifies it, and does not make an
-- inactive request active.
pub record Decided (r new : TimeOffRequest) : Type 0 where
  pub id : new.id ≡ r.id
  pub key : new.idempotency_key ≡ r.idempotency_key
  pub employee : new.employee_id ≡ r.employee_id
  pub location : new.location_id ≡ r.location_id
  pub leave : new.leave_type ≡ r.leave_type
  pub start : new.start_date ≡ r.start_date
  pub end : new.end_date ≡ r.end_date
  pub days : new.days_requested ≡ r.days_requested
  pub active : is_active new ≡ true → is_active r ≡ true

module _ (r new : TimeOffRequest) (d : Decided r new) where
  Apart-left : (y : TimeOffRequest) → Apart r y → Apart new y
  unfolding clash
  Apart-left y h = ground (arith, d.active)

  Apart-right : (y : TimeOffRequest) → Apart y r → Apart y new
  unfolding clash
  Apart-right y h = ground (arith, d.active)

  pub request_key-eq : request_key new ≡ request_key r
  request_key-eq = ground arith

module _ (D : Database) (st : State D) (h : IsConsistent D st) (r new : TimeOffRequest)
    (b b' : EmployeeBalance) (d : Decided r new)
    (found : first (same_request new) (D.requests.rows st.requests) ≡ some r)
    (own : find_key D.balances (request_key r) st.balances ≡ some b)
    (same_key : b'.key ≡ request_key r) (valid : IsBalanced b')
    (moved_pending : b'.pending_balance +ℤ share RequestStatus.pending (request_key r) r
      ≡ b.pending_balance +ℤ share RequestStatus.pending (request_key r) new)
    (moved_used : b'.used_balance +ℤ share RequestStatus.approved (request_key r) r
      ≡ b.used_balance +ℤ share RequestStatus.approved (request_key r) new)
    (tasks : List Task) where
  abbrev rows : List TimeOffRequest
  rows = D.requests.rows st.requests

  saved : Updated D.balances (request_key r) b' st.balances (D.balances.save b' st.balances)
  saved =
      subst (λ j. Updated D.balances j b' st.balances (D.balances.save b' st.balances)) same_key
        (save-Updated D.balances b' st.balances)

  linked_own :
      (k : BalanceKey)
      → k ≡ request_key r
      → (b'.pending_balance ≡ held RequestStatus.pending k (put (same_request new) new rows))
        × (b'.used_balance ≡ held RequestStatus.approved k (put (same_request new) new rows))
  linked_own k e =
      subst
        (λ j.
          (b'.pending_balance ≡ held RequestStatus.pending j (put (same_request new) new rows))
          × (b'.used_balance ≡ held RequestStatus.approved j (put (same_request new) new rows)))
        (sym e)
        (
          linked-put RequestStatus.pending (request_key r) (same_request new) r new rows
              b.pending_balance b'.pending_balance found (h.linked (request_key r) b own).0
              moved_pending,
          linked-put RequestStatus.approved (request_key r) (same_request new) r new rows
              b.used_balance b'.used_balance found (h.linked (request_key r) b own).1 moved_used,
        )

  other_share :
      (s : RequestStatus) (k : BalanceKey) (x : ℤ)
      → key_eq k (request_key r) ≡ false
      → x +ℤ share s k r ≡ x +ℤ share s k new
  other_share s k x e =
      rw (share-other s k r e, share-other s k new (rw (request_key-eq r new d) e))

  linked_other :
      (k : BalanceKey) (c : EmployeeBalance)
      → key_eq k (request_key r) ≡ false
      → find_key D.balances k st.balances ≡ some c
      → (c.pending_balance ≡ held RequestStatus.pending k (put (same_request new) new rows))
        × (c.used_balance ≡ held RequestStatus.approved k (put (same_request new) new rows))
  linked_other k c e own' =
      let (pend, used) = h.linked k c own' in
      (
        linked-put RequestStatus.pending k (same_request new) r new rows c.pending_balance
            c.pending_balance found pend (other_share RequestStatus.pending k c.pending_balance e),
        linked-put RequestStatus.approved k (same_request new) r new rows c.used_balance
            c.used_balance found used (other_share RequestStatus.approved k c.used_balance e),
      )

  linked_after :
      (k : BalanceKey) (c : EmployeeBalance)
      → find_key D.balances k (D.balances.save b' st.balances) ≡ some c
      → (c.pending_balance ≡ held RequestStatus.pending k (put (same_request new) new rows))
        × (c.used_balance ≡ held RequestStatus.approved k (put (same_request new) new rows))
  linked_after k c own' = elim (Bool-cases (key_eq k (request_key r))) [
    | inl same ↦
        let is_saved : b' ≡ c = ground (arith, saved k) in
        subst
          (λ x.
            (x.pending_balance ≡ held RequestStatus.pending k (put (same_request new) new rows))
            × (x.used_balance ≡ held RequestStatus.approved k (put (same_request new) new rows)))
          is_saved (linked_own k ((key_eq_iff k (request_key r)).0 same))
    | inr other ↦ linked_other k c other (ground (arith, saved k))
  ]

  abbrev Funded : D.balances.Table → TimeOffRequest → Type 0
  Funded t x =
      (pos 0 ≤ℤ x.days_requested)
      × ((c : EmployeeBalance) × (find_key D.balances (request_key x) t ≡ some c))

  Funded-after :
      (x : TimeOffRequest) → Funded st.balances x → Funded (D.balances.save b' st.balances) x
  Funded-after x (nonneg, (c, own')) = elim (Bool-cases (key_eq (request_key x) (request_key r))) [
    | inl same ↦ (nonneg, (b', ground (arith, saved (request_key x))))
    | inr other ↦ (nonneg, (c, ground (arith, saved (request_key x))))
  ]

  Funded-new :
      Funded (D.balances.save b' st.balances) r → Funded (D.balances.save b' st.balances) new
  Funded-new (nonneg, (c, own')) = (rw d.days nonneg, (c, rw (request_key-eq r new d) own'))

  pub settled-IsConsistent : IsConsistent D (record {
    balances = D.balances.save b' st.balances;
    requests = D.requests.save new st.requests;
    records = st.records;
    scheduled = tasks;
  })
  settled-IsConsistent = record {
    balanced = save-AllBalanced D.balances b' st.balances h.balanced valid;
    linked = λ k c own'. rw D.requests.save-rows (linked_after k c own');
    funded = rw D.requests.save-rows (
        All-put-first (Funded (D.balances.save b' st.balances)) (same_request new) r new rows found
          Funded-new
          (All-imp (Funded st.balances) (Funded (D.balances.save b' st.balances)) rows Funded-after
            h.funded));
    apart = rw D.requests.save-rows (
        Pairs-put Apart (same_request new) r new _ found (Apart-left r new d) (Apart-right r new d)
          h.apart);
  }
