-- ===== src/TimeOff.antt =====
-- src/modules/timeoff/timeoff.service.js: approving, rejecting, cancelling and reading time-off
-- requests; `TimeOff/Create.antt` has `createRequest`. A call runs to its end before the next one
-- starts (`_withCreateLock` and the database's serializable transactions are there for that);
-- `dataSource.transaction` commits the state that its callback returns, and discards it when the
-- callback throws. Log lines are left out.
pub mod Create
pub mod Transitions
pub mod Outcome
pub mod Notify
pub mod Fresh
pub mod Listing
mod Listed
pub mod Tests
use leave_ledger.Common.{
  ℕ, zero, suc, ◌+◌, String, Bool, true, false, ◌&&◌, ◌||◌, not, Option, none, some, List, [], ◌∷◌,
  ◌++◌, map, ltb, leb, min, some_of, length, if◌then◌else◌,
}
use leave_ledger.Common.Int.{ℤ, pos}
use leave_ledger.Common.Eq.{◌==◌, String-Eq, ℕ-Eq}
use leave_ledger.Constants.{
  RequestStatus, HcmSyncStatus, RequestStatus-Eq, valid_transitions, idempotency_ttl_ms,
}
use leave_ledger.Result.{
  Failure, Result, ok, err, ◌>>=◌, or_throw, throw_if, missing_idempotency_key, invalid_date_range,
  overlapping_request, idempotency_conflict, invalid_status_transition, request_not_found,
  balance_conflict, sqlite_constraint, sqlite_transient, driver_error,
}
use leave_ledger.Dates.{IsoDate, iso_day, calculate_days_requested, is_not_in_past, dates_overlap}
use leave_ledger.Balance.{atomic_deduct, release_from_pending, finalize_used}
use leave_ledger.Entities.{
  TimeOffRequest, IdempotencyRecord, CreateDto, Response, request_key, serialize_request, has_id,
  has_idempotency_key, has_record_key,
}
use leave_ledger.Store.{Database, State, Env, Task, validate, notify_approval}

-- _assertValidTransition
unfoldable pub assert_valid_transition : RequestStatus → RequestStatus → Bool
unfolding valid_transitions
assert_valid_transition current target = some_of (λ s. s == target) (valid_transitions current)

abbrev pub is_active : TimeOffRequest → Bool
is_active r = r.status == RequestStatus.pending || r.status == RequestStatus.approved

-- The assignments of the three decisions to a loaded request.
unfoldable pub approve : ℕ → String → TimeOffRequest → TimeOffRequest
approve now approver r = record r {
  status = RequestStatus.approved;
  approved_by = some approver;
  approved_at = some now;
}

unfoldable pub reject : ℕ → String → String → TimeOffRequest → TimeOffRequest
reject now approver reason r = record r {
  status = RequestStatus.rejected;
  approved_by = some approver;
  approved_at = some now;
  rejection_reason = some reason;
}

unfoldable pub cancel : Option String → TimeOffRequest → TimeOffRequest
cancel reason r = record r { status = RequestStatus.cancelled; rejection_reason = reason }

module _ (D : Database) where
  -- _getRequestLockedOrThrow
  unfoldable pub get_request_or_throw : String → State D → Result TimeOffRequest
  get_request_or_throw id st =
      or_throw (D.requests.find_one (has_id id) st.requests) request_not_found

  -- approveRequest
  unfoldable pub approve_request : ℕ → String → String → State D → Result (Response × State D)
  unfolding get_request_or_throw
  approve_request now id approver st = do
    request ← get_request_or_throw id st
    throw_if (not (assert_valid_transition request.status RequestStatus.approved))
        invalid_status_transition
        do
          let approved = approve now approver request
          balances ←
              finalize_used D.balances (request_key request) request.days_requested st.balances
          ok (
            serialize_request approved,
            record st {
              balances = balances;
              requests = D.requests.save approved st.requests;
              scheduled = st.scheduled ++ notify_approval approved id ∷ [];
            },
          )

  -- rejectRequest
  unfoldable pub reject_request :
      ℕ → String → String → String → State D → Result (Response × State D)
  unfolding get_request_or_throw
  reject_request now id approver reason st = do
    request ← get_request_or_throw id st
    throw_if (not (assert_valid_transition request.status RequestStatus.rejected))
        invalid_status_transition
        do
          let rejected = reject now approver reason request
          balances ←
              release_from_pending D.balances (request_key request) request.days_requested
                st.balances
          ok (
            serialize_request rejected,
            record st { balances = balances; requests = D.requests.save rejected st.requests },
          )

  -- cancelRequest
  unfoldable pub cancel_request : String → Option String → State D → Result (Response × State D)
  unfolding get_request_or_throw
  cancel_request id reason st = do
    request ← get_request_or_throw id st
    throw_if (not (assert_valid_transition request.status RequestStatus.cancelled))
        invalid_status_transition
        do
          let cancelled = cancel reason request
          balances ←
              release_from_pending D.balances (request_key request) request.days_requested
                st.balances
          ok (
            serialize_request cancelled,
            record st { balances = balances; requests = D.requests.save cancelled st.requests },
          )

  -- getRequest
  unfoldable pub get_request : String → State D → Result Response
  get_request id st = do
    request ← or_throw (D.requests.find_one (has_id id) st.requests) request_not_found
    ok (serialize_request request)
