-- ===== src/Ledger/Decisions.antt =====
-- approveRequest, rejectRequest and cancelRequest of src/modules/timeoff/timeoff.service.js on a
-- pending request of a consistent state.
use leave_ledger.Common.{ℕ, ◌≡◌, refl, String, some, Option, [], ◌∷◌, ◌++◌, arith}
use leave_ledger.Common.Eq.{String-Eq}
use leave_ledger.Constants.{RequestStatus, RequestStatus-Eq}
use leave_ledger.Result.{ok}
use leave_ledger.Balance.Moves.{finalize-ok, release-ok}
use leave_ledger.Balance.Held.{IsReturned, release-IsReturned}
use leave_ledger.Entities.{TimeOffRequest, request_key, has_id, serialize_request}
use leave_ledger.Store.{Database, State, notify_approval}
use leave_ledger.TimeOff.{approve, reject, cancel, approve_request, reject_request, cancel_request}
use leave_ledger.TimeOff.Transitions.{assert_valid_transition_iff}
use leave_ledger.Ledger.{IsConsistent}
use leave_ledger.Ledger.Effects.{
  approve-Decided, reject-Decided, cancel-Decided, approve-status, reject-not_active,
  cancel-not_active, own, finalized, released, finalized-IsConsistent, released-IsConsistent,
  saved_found,
}

module _ (D : Database) (st : State D) (h : IsConsistent D st) (id : String) (r : TimeOffRequest)
    (found : D.requests.find_one (has_id id) st.requests ≡ some r)
    (is_pending : r.status ≡ RequestStatus.pending) where
  -- On a pending request of a consistent state approveRequest always succeeds: it answers with the
  -- approved request, schedules the notification of the HCM, and leaves a consistent state in which
  -- the request is found approved.
  pub approve_request-pending :
      (now : ℕ) (approver : String)
      → (st' : State D) × (approve_request D now id approver st
          ≡ ok (serialize_request (approve now approver r), st'))
        × IsConsistent D st'
        × (D.requests.find_one (has_id id) st'.requests ≡ some (approve now approver r))
        × (st'.scheduled ≡ st.scheduled ++ notify_approval (approve now approver r) id ∷ [])
  unfolding approve_request finalized
  approve_request-pending now approver =
      let new = approve now approver r in
      let d = approve-Decided r is_pending now approver in
      let tasks = st.scheduled ++ notify_approval new id ∷ [] in
      (
        finalized D st h id r found is_pending new d tasks,
        ground (
          arith,
          (assert_valid_transition_iff r.status RequestStatus.approved).1 (is_pending, λ e. cc),
          finalize-ok D.balances (request_key r) r.days_requested st.balances
              (own D st h id r found is_pending).0 (own D st h id r found is_pending).1
              (own D st h id r found is_pending).4,
        ),
        finalized-IsConsistent D st h id r found is_pending new d tasks
            (approve-status now approver r),
        saved_found D st h id r found is_pending new d tasks,
        refl,
      )

  pub reject_request_done :
      (now : ℕ) (approver reason : String)
      → (st' : State D) × (reject_request D now id approver reason st
          ≡ ok (serialize_request (reject now approver reason r), st'))
        × IsConsistent D st'
        × (D.requests.find_one (has_id id) st'.requests ≡ some (reject now approver reason r))
        × (st'.scheduled ≡ st.scheduled)
        × IsReturned D.balances (request_key r) r.days_requested st.balances st'.balances
  unfolding reject_request released
  reject_request_done now approver reason =
      let new = reject now approver reason r in
      let d = reject-Decided r is_pending now approver reason in
      (
        released D st h id r found is_pending new d st.scheduled,
        ground (
          arith,
          (assert_valid_transition_iff r.status RequestStatus.rejected).1 (is_pending, λ e. cc),
          release-ok D.balances (request_key r) r.days_requested st.balances
              (own D st h id r found is_pending).0 (own D st h id r found is_pending).1
              (own D st h id r found is_pending).4,
        ),
        released-IsConsistent D st h id r found is_pending new d st.scheduled
            (reject-not_active now approver reason r).0 (reject-not_active now approver reason r).1,
        saved_found D st h id r found is_pending new d st.scheduled,
        refl,
        release-IsReturned D.balances (request_key r) r.days_requested st.balances
            (own D st h id r found is_pending).0 (own D st h id r found is_pending).1,
      )

  -- On a pending request of a consistent state rejectRequest always succeeds: it answers with the
  -- request, rejected by the approver for the reason and with nothing else changed, which is then
  -- found; it moves the held days from pending back to available in the request's balance, with every
  -- other balance as it was, schedules nothing, and leaves a consistent state.
  pub reject_request-pending :
      (now : ℕ) (approver reason : String)
      → (new : TimeOffRequest) × (st' : State D) × (reject_request D now id approver reason st
          ≡ ok (serialize_request new, st'))
        × (new ≡ record r {
          status = RequestStatus.rejected;
          approved_by = some approver;
          approved_at = some now;
          rejection_reason = some reason;
        })
        × (D.requests.find_one (has_id id) st'.requests ≡ some new)
        × IsReturned D.balances (request_key r) r.days_requested st.balances st'.balances
        × (st'.scheduled ≡ st.scheduled)
        × IsConsistent D st'
  unfolding reject
  reject_request-pending now approver reason =
      let (st', answered, consistent, kept, tasks, returned) =
        reject_request_done now approver reason in
      (reject now approver reason r, st', answered, refl, kept, returned, tasks, consistent)

  -- On a pending request of a consistent state cancelRequest always succeeds: it returns the held
  -- days to the balance, schedules nothing, and leaves a consistent state in which the request is
  -- found cancelled.
  pub cancel_request-pending :
      (reason : Option String)
      → (st' : State D) × (cancel_request D id reason st
          ≡ ok (serialize_request (cancel reason r), st'))
        × IsConsistent D st'
        × (D.requests.find_one (has_id id) st'.requests ≡ some (cancel reason r))
        × (st'.scheduled ≡ st.scheduled)
  unfolding cancel_request released
  cancel_request-pending reason =
      let new = cancel reason r in
      let d = cancel-Decided r is_pending reason in
      (
        released D st h id r found is_pending new d st.scheduled,
        ground (
          arith,
          (assert_valid_transition_iff r.status RequestStatus.cancelled).1 (is_pending, λ e. cc),
          release-ok D.balances (request_key r) r.days_requested st.balances
              (own D st h id r found is_pending).0 (own D st h id r found is_pending).1
              (own D st h id r found is_pending).4,
        ),
        released-IsConsistent D st h id r found is_pending new d st.scheduled
            (cancel-not_active reason r).0 (cancel-not_active reason r).1,
        saved_found D st h id r found is_pending new d st.scheduled,
        refl,
      )
