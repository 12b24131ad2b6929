-- ===== src/Api.antt =====
-- The HTTP interface of the service: the controllers of src/modules/timeoff, src/modules/balance and
-- src/modules/hcm, with the exception filter. Routing and the pipes are the framework's: a route is a
-- value here, with the path parameters, the header and the body; a body that the ValidationPipe
-- refuses is `none`, and `is_uuid` is what ParseUUIDPipe accepts.
pub mod Filter
pub mod Decide
pub mod Errors
pub mod Final
mod Tests
use leave_ledger.Common.{ℕ, String, Bool, true, false, not, Option, none, some, List, if◌then◌else◌}
use leave_ledger.Common.Int.{ℤ}
use leave_ledger.Common.Eq.{◌==◌, String-Eq}
use leave_ledger.Constants.{RequestStatus}
use leave_ledger.Result.{
  Failure, Result, ok, err, ◌>>=◌, throw_if, missing_idempotency_key, invalid_date_range,
  insufficient_balance, balance_conflict, overlapping_request, idempotency_conflict,
  invalid_status_transition, request_not_found, balance_not_found, sqlite_constraint,
  sqlite_transient, driver_error, sync_in_progress, invalid_status_filter, validation_failed,
}
use leave_ledger.Database.Paged.{Paged}
use leave_ledger.Balance.{
  BalanceKey, BalanceRepository, BalanceView, get_balance, get_balances_for_employee,
  upsert_balance,
}
use leave_ledger.Entities.{TimeOffRequest, CreateDto, Response}
use leave_ledger.Store.{Database, State, Env}
use leave_ledger.TimeOff.{approve_request, reject_request, cancel_request, get_request}
use leave_ledger.TimeOff.Create.{create_request}
use leave_ledger.TimeOff.Listing.{Filters, Page, list_requests}
use leave_ledger.Hcm.Reconcile.{SyncLog, LogRepository}
use leave_ledger.Hcm.Batch.Manual.{Runs, trigger_manual_batch_sync}
use leave_ledger.Hcm.Batch.Logs.{get_sync_logs}
use leave_ledger.Api.Filter.{
  Exception, ErrorBody, Payload, Message, http, unexpected, catch_exception,
}

-- PATCH :id/approve, :id/reject and :id/cancel, with the body.
pub data Decision : Type 0 where
  approval : String → Decision
  rejection : String → String → Decision
  cancellation : Option String → Decision

pub data TimeOffRoute : Type 0 where
  post : Option String → Option CreateDto → TimeOffRoute
  list : Option String → Filters → TimeOffRoute
  get : String → TimeOffRoute
  patch : String → Option Decision → TimeOffRoute

pub data BalanceRoute : Type 0 where
  of_employee : String → String → BalanceRoute
  of_key : BalanceKey → BalanceRoute
  seed : BalanceKey → ℤ → BalanceRoute

pub data HcmRoute : Type 0 where
  batch_sync sync_logs : HcmRoute

pub data Reply : Type 0 where
  request : Response → Reply
  page : Page → Reply
  balance : BalanceView → Reply
  balances : List BalanceView → Reply
  triggered : Reply
  logs : List SyncLog → Reply

pub data Body : Type 0 where
  reply : Reply → Body
  failure : ErrorBody → Body

pub record Answer : Type 0 where
  pub status : ℕ
  pub body : Body

-- The values of RequestStatus.
unfoldable pub status_named : String → Option RequestStatus
status_named name =
    if name == "PENDING"
    then some RequestStatus.pending
    else if name == "APPROVED"
    then some RequestStatus.approved
    else if name == "REJECTED"
    then some RequestStatus.rejected
    else if name == "CANCELLED"
    then some RequestStatus.cancelled
    else none

-- The status and the code of the exception that the services throw, or `none` for an error that is no
-- HttpException. `reason` is the text that Nest puts in the place of a code.
unfoldable pub failure_code : (ℕ → String) → Failure → Option (ℕ × String)
failure_code reason missing_idempotency_key = some (400, "MISSING_IDEMPOTENCY_KEY")
failure_code reason invalid_date_range = some (422, "INVALID_DATE_RANGE")
failure_code reason insufficient_balance = some (422, "INSUFFICIENT_BALANCE")
failure_code reason balance_conflict = some (409, "BALANCE_CONFLICT")
failure_code reason overlapping_request = some (409, "OVERLAPPING_REQUEST")
failure_code reason idempotency_conflict = some (409, "IDEMPOTENCY_CONFLICT")
failure_code reason invalid_status_transition = some (409, "INVALID_STATUS_TRANSITION")
failure_code reason request_not_found = some (404, "REQUEST_NOT_FOUND")
failure_code reason balance_not_found = some (404, "BALANCE_NOT_FOUND")
failure_code reason invalid_status_filter = some (422, reason 422)
failure_code reason validation_failed = some (400, reason 400)
failure_code reason sqlite_constraint = none
failure_code reason sqlite_transient = none
failure_code reason driver_error = none
failure_code reason sync_in_progress = none

-- The texts of the messages are a parameter.
unfoldable pub to_exception : (ℕ → String) → (Failure → String) → Failure → Exception
unfolding failure_code
to_exception reason message e = elim (failure_code reason e) [
  | some (status, code) ↦ http status (Payload.object (some code) (Message.text (message e)) none)
  | none ↦ unexpected (message e)
]

-- What a request carries besides its route, and what the framework and the texts contribute.
pub record Context : Type 0 where
  pub request_id : Option String
  pub url : String
  pub reason : ℕ → String
  pub message : Failure → String

-- The answer of a handler that returned with `status`, or threw; a handler that throws leaves the
-- state as it was.
unfoldable pub respond : {S : Type 0} → Context → ℕ → S → Result (Reply × S) → Answer × S
unfolding to_exception catch_exception
respond c status s (ok (r, s')) = (record { status = status; body = reply r }, s')
respond c status s (err e) =
    let b = catch_exception c.request_id c.url (to_exception c.reason c.message e) in
    (record { status = b.status_code; body = failure b }, s)

module _ (D : Database) where
  -- The three handlers of decisions.
  unfoldable pub decide : ℕ → String → Decision → State D → Result (Response × State D)
  decide now id (approval approver) st = approve_request D now id approver st
  decide now id (rejection approver reason) st = reject_request D now id approver reason st
  decide now id (cancellation reason) st = cancel_request D id reason st

  -- BalanceController
  unfoldable pub balance_controller : ℕ → BalanceRoute → State D → Result (Reply × State D)
  balance_controller now (of_employee employee_id location_id) st =
      ok (
        balances (get_balances_for_employee D.balances now employee_id location_id st.balances),
        st,
      )
  balance_controller now (of_key k) st = do
    view ← get_balance D.balances now k st.balances
    ok (balance view, st)
  balance_controller now (seed k total) st = do
    (view, t) ← upsert_balance D.balances now k total st.balances
    ok (balance view, record st { balances = t })

module _ (D : Database) (created_at : TimeOffRequest → ℕ) (Q : Paged D.requests created_at)
    (is_uuid : String → Bool) where
  -- TimeOffController.listRequests
  unfoldable pub list_by_status : Option String → Filters → State D → Result Page
  unfolding status_named
  list_by_status none filters st =
      ok (list_requests D.requests created_at Q (record filters { status = none }) st.requests)
  list_by_status (some name) filters st = elim (status_named name) [
    | none ↦ err invalid_status_filter
    | some s ↦
        ok (list_requests D.requests created_at Q (record filters { status = some s }) st.requests)
  ]

  -- TimeOffController
  unfoldable pub time_off_controller : Env → TimeOffRoute → State D → Result (Reply × State D)
  unfolding decide list_by_status
  time_off_controller env (post key none) st = err validation_failed
  time_off_controller env (post key (some dto)) st = do
    (response, st') ← create_request D env dto key st
    ok (request response, st')
  time_off_controller env (list status filters) st = do
    found ← list_by_status status filters st
    ok (page found, st)
  time_off_controller env (get id) st =
      throw_if (not (is_uuid id)) validation_failed
        do response ← get_request D id st; ok (request response, st)
  time_off_controller env (patch id none) st = err validation_failed
  time_off_controller env (patch id (some decision)) st =
      throw_if (not (is_uuid id)) validation_failed
        do (response, st') ← decide D env.now id decision st; ok (request response, st')

  -- `HttpStatus.CREATED` for a new request, 200 for the other routes.
  abbrev success_status : TimeOffRoute → ℕ
  success_status (post key body) = 201
  success_status _ = 200

  -- A request to /time-off/requests, from the controller to the answer.
  unfoldable pub serve_time_off : Context → Env → TimeOffRoute → State D → Answer × State D
  unfolding time_off_controller respond
  serve_time_off c env route st =
      respond c (success_status route) st (time_off_controller env route st)

-- HcmController
unfoldable pub hcm_controller :
    (B : BalanceRepository) (L : LogRepository) (Q : Paged L (λ l. l.started_at))
    → HcmRoute
    → Runs B L
    → Result (Reply × Runs B L)
hcm_controller B L Q batch_sync s =
    let (result, s') = trigger_manual_batch_sync B L s in result >>= λ done. ok (triggered, s')
hcm_controller B L Q sync_logs s = ok (logs (get_sync_logs L Q none s.sync.logs), s)
