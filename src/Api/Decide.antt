-- ===== src/Api/Decide.antt =====
-- What the handlers of decisions in src/modules/timeoff/timeoff.controller.js get from the service.
use leave_ledger.Common.{ℕ, ◌≡◌, ◌≢◌, refl, String, none, some, arith}
use leave_ledger.Constants.{RequestStatus, RequestStatus-Eq}
use leave_ledger.Result.{ok, err, invalid_status_transition, request_not_found}
use leave_ledger.Entities.{TimeOffRequest, has_id, serialize_request}
use leave_ledger.Store.{Database, State}
use leave_ledger.TimeOff.{
  approve, reject, cancel, get_request_or_throw, approve_request, reject_request, cancel_request,
}
use leave_ledger.TimeOff.Transitions.{assert_valid_transition_iff}
use leave_ledger.Ledger.{IsConsistent}
use leave_ledger.Ledger.Decisions.{
  approve_request-pending, reject_request_done, cancel_request-pending,
}
use leave_ledger.Api.{Decision, approval, rejection, cancellation, decide}

module _ (D : Database) where
  pub decide-not_found :
      (now : ℕ) (id : String) (d : Decision) (st : State D)
      → D.requests.find_one (has_id id) st.requests ≡ none
      → decide D now id d st ≡ err request_not_found
  unfolding decide approve_request reject_request cancel_request get_request_or_throw
  decide-not_found now id (approval approver) st e = rw e refl
  decide-not_found now id (rejection approver reason) st e = rw e refl
  decide-not_found now id (cancellation reason) st e = rw e refl

  module _ (st : State D) (id : String) (r : TimeOffRequest)
      (found : D.requests.find_one (has_id id) st.requests ≡ some r) where
    pub decide-refused :
        (now : ℕ) (d : Decision)
        → r.status ≢ RequestStatus.pending
        → decide D now id d st ≡ err invalid_status_transition
    unfolding decide approve_request reject_request cancel_request get_request_or_throw
    decide-refused now (approval approver) decided =
        ground (arith, found, assert_valid_transition_iff r.status RequestStatus.approved)
    decide-refused now (rejection approver reason) decided =
        ground (arith, found, assert_valid_transition_iff r.status RequestStatus.rejected)
    decide-refused now (cancellation reason) decided =
        ground (arith, found, assert_valid_transition_iff r.status RequestStatus.cancelled)

    -- The request as a decision leaves it.
    abbrev pub decided_as : ℕ → Decision → TimeOffRequest
    decided_as now (approval approver) = record r {
      status = RequestStatus.approved;
      approved_by = some approver;
      approved_at = some now;
    }
    decided_as now (rejection approver reason) = record r {
      status = RequestStatus.rejected;
      approved_by = some approver;
      approved_at = some now;
      rejection_reason = some reason;
    }
    decided_as now (cancellation reason) = record r {
      status = RequestStatus.cancelled;
      rejection_reason = reason;
    }

    -- A decision that went through: the request is found decided, as the answer says.
    pub record Decided (now : ℕ) (d : Decision) : Type 0 where
      pub after : State D
      pub answered : decide D now id d st ≡ ok (serialize_request (decided_as now d), after)
      pub found_after : D.requests.find_one (has_id id) after.requests ≡ some (decided_as now d)
      pub decided : (decided_as now d).status ≢ RequestStatus.pending

    pub decide-pending :
        (now : ℕ) (d : Decision)
        → IsConsistent D st
        → r.status ≡ RequestStatus.pending
        → Decided now d
    unfolding decide approve reject cancel
    decide-pending now (approval approver) h pending =
        let (after, answered, consistent, kept, rest) =
          approve_request-pending D st h id r found pending now approver in
        record { after = after; answered = answered; found_after = kept; decided = λ e. cc }
    decide-pending now (rejection approver reason) h pending =
        let (after, answered, consistent, kept, tasks, returned) =
          reject_request_done D st h id r found pending now approver reason in
        record { after = after; answered = answered; found_after = kept; decided = λ e. cc }
    decide-pending now (cancellation reason) h pending =
        let (after, answered, consistent, kept, rest) =
          cancel_request-pending D st h id r found pending reason in
        record { after = after; answered = answered; found_after = kept; decided = λ e. cc }
