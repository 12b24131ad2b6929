-- ===== src/Ledger/Effects.antt =====
-- What the decisions of src/modules/timeoff/timeoff.service.js save: the balance and the request.
use leave_ledger.Common.{
  ℕ, ◌≡◌, refl, sym, subst, ◌∙◌, String, some, Option, List, arith, first, first-put_self,
  first-passes, All-imp, All-first,
}
use leave_ledger.Common.Int.{pos, ◌≤ℤ◌, int_laws, parts_of_eq}
use leave_ledger.Common.Eq.{eq_self, eq_of_same, String-Eq}
use leave_ledger.Constants.{RequestStatus, RequestStatus-Eq, status_eq_iff}
use leave_ledger.Balance.{BalanceKey, EmployeeBalance, release, finalize}
use leave_ledger.Balance.Conserved.{IsBalanced, release-IsBalanced, finalize-IsBalanced}
use leave_ledger.Balance.Moves.{find_key, find_key-key}
use leave_ledger.Balance.Rows.{key_eq_iff}
use leave_ledger.Balance.Reach.{find_key-IsBalanced}
use leave_ledger.Entities.{TimeOffRequest, request_key, has_id, same_request}
use leave_ledger.Store.{Database, State, Task}
use leave_ledger.TimeOff.{approve, reject, cancel}
use leave_ledger.Ledger.{share, IsConsistent}
use leave_ledger.Ledger.Sums.{share-le-held}
use leave_ledger.Ledger.Settle.{Decided, request_key-eq, settled-IsConsistent}

module _ (r : TimeOffRequest) (e : r.status ≡ RequestStatus.pending) where
  pub approve-Decided : (now : ℕ) (approver : String) → Decided r (approve now approver r)
  unfolding approve
  approve-Decided now approver = ground (arith, status_eq_iff r.status RequestStatus.pending)

  pub reject-Decided :
      (now : ℕ) (approver reason : String) → Decided r (reject now approver reason r)
  unfolding reject
  reject-Decided now approver reason = ground (arith, status_eq_iff r.status RequestStatus.pending)

  pub cancel-Decided : (reason : Option String) → Decided r (cancel reason r)
  unfolding cancel
  cancel-Decided reason = ground (arith, status_eq_iff r.status RequestStatus.pending)

pub approve-status :
    (now : ℕ) (approver : String) (r : TimeOffRequest)
    → (approve now approver r).status ≡ RequestStatus.approved
unfolding approve
approve-status now approver r = refl

pub reject-not_active :
    (now : ℕ) (approver reason : String) (r : TimeOffRequest)
    → (¬ ((reject now approver reason r).status ≡ RequestStatus.pending))
      × (¬ ((reject now approver reason r).status ≡ RequestStatus.approved))
unfolding reject
reject-not_active now approver reason r = (λ e. cc, λ e. cc)

pub cancel-not_active :
    (reason : Option String) (r : TimeOffRequest)
    → (¬ ((cancel reason r).status ≡ RequestStatus.pending))
      × (¬ ((cancel reason r).status ≡ RequestStatus.approved))
unfolding cancel
cancel-not_active reason r = (λ e. cc, λ e. cc)

share_own :
    (s : RequestStatus) (k : BalanceKey) (r : TimeOffRequest)
    → request_key r ≡ k
    → r.status ≡ s
    → share s k r ≡ r.days_requested
unfolding share
share_own s k r own e = ground (arith, key_eq_iff k (request_key r), status_eq_iff r.status s)

share_none :
    (s : RequestStatus) (k : BalanceKey) (r : TimeOffRequest)
    → ¬ (r.status ≡ s)
    → share s k r ≡ pos 0
unfolding share
share_none s k r e = ground (arith, status_eq_iff r.status s)

module _ (D : Database) (st : State D) (h : IsConsistent D st) (id : String) (r : TimeOffRequest)
    (found : D.requests.find_one (has_id id) st.requests ≡ some r)
    (is_pending : r.status ≡ RequestStatus.pending) where
  in_rows : first (has_id id) (D.requests.rows st.requests) ≡ some r
  in_rows = rw D.requests.find_one-rows at found

  same_id : id ≡ r.id
  same_id = eq_of_same id r.id (first-passes (has_id id) (D.requests.rows st.requests) r in_rows)

  by_id :
      (new : TimeOffRequest)
      → new.id ≡ r.id
      → first (same_request new) (D.requests.rows st.requests) ≡ some r
  by_id new e =
      subst (λ j. first (has_id j) (D.requests.rows st.requests) ≡ some r) (same_id ∙ sym e) in_rows

  -- The request's balance exists, and its pending days cover the request.
  pub own :
      (b : EmployeeBalance) × (find_key D.balances (request_key r) st.balances ≡ some b)
      × IsBalanced b
      × (pos 0 ≤ℤ r.days_requested)
      × (r.days_requested ≤ℤ b.pending_balance)
  own =
      let (nonneg, (b, has)) =
        All-first _ (has_id id) (D.requests.rows st.requests) r h.funded in_rows in
      (
        b,
        has,
        find_key-IsBalanced D.balances (request_key r) st.balances b h.balanced has,
        nonneg,
        omega (
          int_laws,
          parts_of_eq _ _ (h.linked (request_key r) b has).0,
          parts_of_eq _ _ (share_own RequestStatus.pending (request_key r) r refl is_pending),
          share-le-held RequestStatus.pending (request_key r) (has_id id) r
              (D.requests.rows st.requests) in_rows (All-imp _ _ _ (λ x f. f.0) h.funded),
        ),
      )

  module _ (new : TimeOffRequest) (d : Decided r new) (tasks : List Task) where
    -- The state after an approval, and after a rejection or cancellation.
    unfoldable pub finalized : State D
    finalized = record {
      balances = D.balances.save (finalize r.days_requested own.0) st.balances;
      requests = D.requests.save new st.requests;
      records = st.records;
      scheduled = tasks;
    }

    unfoldable pub released : State D
    released = record {
      balances = D.balances.save (release r.days_requested own.0) st.balances;
      requests = D.requests.save new st.requests;
      records = st.records;
      scheduled = tasks;
    }

    pub finalized-IsConsistent : new.status ≡ RequestStatus.approved → IsConsistent D finalized
    unfolding finalized finalize
    finalized-IsConsistent e =
        let (b, has, valid, nonneg, covered) = own in
        settled-IsConsistent D st h r new b (finalize r.days_requested b) d (by_id new d.id) has
          (find_key-key D.balances (request_key r) st.balances b has)
          (finalize-IsBalanced r.days_requested b nonneg valid covered)
          (omega (
            int_laws,
            parts_of_eq _ _ (share_own RequestStatus.pending (request_key r) r refl is_pending),
            parts_of_eq _ _ (share_none RequestStatus.pending (request_key r) new (ground arith)),
          ))
          (omega (
            int_laws,
            parts_of_eq _ _ (share_none RequestStatus.approved (request_key r) r (ground arith)),
            parts_of_eq _ _
                (share_own RequestStatus.approved (request_key r) new (request_key-eq r new d) e),
            parts_of_eq _ _ d.days,
          ))
          tasks

    pub released-IsConsistent :
        ¬ (new.status ≡ RequestStatus.pending)
        → ¬ (new.status ≡ RequestStatus.approved)
        → IsConsistent D released
    unfolding released release
    released-IsConsistent not_pending not_approved =
        let (b, has, valid, nonneg, covered) = own in
        settled-IsConsistent D st h r new b (release r.days_requested b) d (by_id new d.id) has
          (find_key-key D.balances (request_key r) st.balances b has)
          (release-IsBalanced r.days_requested b nonneg valid covered)
          (omega (
            int_laws,
            parts_of_eq _ _ (share_own RequestStatus.pending (request_key r) r refl is_pending),
            parts_of_eq _ _ (share_none RequestStatus.pending (request_key r) new not_pending),
          ))
          (omega (
            int_laws,
            parts_of_eq _ _ (share_none RequestStatus.approved (request_key r) r (ground arith)),
            parts_of_eq _ _ (share_none RequestStatus.approved (request_key r) new not_approved),
          ))
          tasks

    pub saved_found : D.requests.find_one (has_id id) (D.requests.save new st.requests) ≡ some new
    saved_found =
        let stored : first (same_request new) (D.requests.rows (D.requests.save new st.requests))
            ≡ some new =
          rw D.requests.save-rows (
            first-put_self (same_request new) new (D.requests.rows st.requests) (eq_self new.id)) in
        rw D.requests.find_one-rows (
          subst
            (λ j. first (has_id j) (D.requests.rows (D.requests.save new st.requests)) ≡ some new)
            (d.id ∙ sym same_id) stored)
