-- ===== src/Api/Tests.antt =====
-- Requests to the service about the booked week of the time-off tests.
use leave_ledger.Common.{true, ℕ, ◌≡◌, ◌⊎◌, refl, String, Bool, not, none, some, [], ◌∷◌}
use leave_ledger.Common.Eq.{◌==◌, String-Eq}
use leave_ledger.Result.{Failure}
use leave_ledger.Database.Paged.{Paged, list_paged}
use leave_ledger.Entities.{
  TimeOffRequest, has_id, serialize_request, same_request, request_conflict,
}
use leave_ledger.Store.{Env, list_database}
use leave_ledger.Ledger.Tests.{booked-IsConsistent, found_week, week_pending}
use leave_ledger.TimeOff.Tests.{env, booked, week}
use leave_ledger.Common.Int.{pos}
use leave_ledger.Constants.{RequestStatus, leave_eq}
use leave_ledger.Result.{ok}
use leave_ledger.Balance.{key_eq, new_balance, serialize, get_balance, upsert_balance}
use leave_ledger.TimeOff.Tests.{vacation, empty_state, seeded}
use leave_ledger.Hcm.Reconcile.{same_log}
use leave_ledger.Hcm.Batch.Manual.{Runs, trigger_manual_batch_sync}
use leave_ledger.Hcm.Batch.Tests.{list_balances, list_logs}
use leave_ledger.Api.{
  balance, seed, of_key, batch_sync, balance_controller, hcm_controller, Context, Decision,
  approval, rejection, patch, request, reply, get, list, respond, serve_time_off, list_by_status,
  status_named, time_off_controller, to_exception, failure_code,
}
use leave_ledger.Api.Errors.{decision_status, patch-statuses}
use leave_ledger.Api.Final.{patch-final}
use leave_ledger.Api.Filter.{
  catch_exception, Payload, Message, http, payload_error, payload_message, join_messages, decimal,
}

abbrev no_stamp : TimeOffRequest → ℕ
no_stamp r = r.hcm_sync_attempts

abbrev listing : Paged list_database.requests no_stamp
listing = list_paged same_request request_conflict no_stamp

-- Every id but the empty one is taken for a UUID.
abbrev is_named : String → Bool
is_named id = not (id == "")

abbrev reason_phrase : ℕ → String
reason_phrase n = "Unprocessable Entity"

abbrev message_text : Failure → String
message_text e = "refused"

abbrev context : Context
context = record {
  request_id = none;
  url = "/time-off/requests";
  reason = reason_phrase;
  message = message_text;
}

-- A filter that names no status.
unknown_status :
    (serve_time_off list_database no_stamp listing is_named context env
      (list (some "OPEN") (record {
        employee_id = none;
        location_id = none;
        status = none;
        limit = none;
        offset = none;
      }))
      booked).0.status
    ≡ 422
unfolding serve_time_off time_off_controller list_by_status status_named respond to_exception
    failure_code catch_exception
unknown_status = refl

-- A validation error with two messages, and an error without a code.
two_messages :
    (catch_exception (some "q1") "/x" (
      http 400
        (Payload.object (some "Bad Request") (Message.several ("a" ∷ "b" ∷ [])) none))).message
    ≡ "a; b"
unfolding catch_exception payload_message join_messages
two_messages = refl

no_code : (catch_exception none "/x" (http 418 (Payload.plain "short and stout"))).error ≡ "418"
unfolding catch_exception payload_error decimal
no_code = refl

-- A balance is seeded, and read.
seed_balance :
    balance_controller list_database 0 (seed vacation (pos 10_000)) empty_state
    ≡ ok (balance (serialize 0 (new_balance 0 vacation (pos 10_000))), seeded)
unfolding balance_controller upsert_balance
seed_balance = refl

read_balance :
    balance_controller list_database 0 (of_key vacation) seeded
    ≡ ok (balance (serialize 0 (new_balance 0 vacation (pos 10_000))), seeded)
unfolding balance_controller get_balance key_eq leave_eq new_balance
read_balance = refl

abbrev by_start : Paged list_logs (λ l. l.started_at)
by_start = list_paged same_log same_log (λ l. l.started_at)

-- A manual trigger while a run awaits the HCM.
abbrev running : Runs list_balances list_logs
running = record {
  sync = record { balances = []; logs = []; batch_running = true };
  waiting = 0;
  in_flight = "s1" ∷ [];
}

trigger_refused :
    let (answer, after) =
      respond context 202 running
        (hcm_controller list_balances list_logs by_start batch_sync running) in
    (answer.status ≡ 500) × (after ≡ running)
unfolding respond hcm_controller trigger_manual_batch_sync to_exception failure_code catch_exception
trigger_refused = (refl, refl)

patch-statuses_example :
    let (answer, st') =
      serve_time_off list_database no_stamp listing is_named context env
        (patch "r1" (some (approval "m1")))
        booked in
    (answer.status ≡ decision_status list_database no_stamp listing is_named "r1" booked)
    × ((answer.status ≡ 200) ⊎ (st' ≡ booked))
patch-statuses_example =
    patch-statuses list_database no_stamp listing is_named context env "r1" (approval "m1") booked
      booked-IsConsistent

patch-final_example :
    let (answer, st') =
      serve_time_off list_database no_stamp listing is_named context env
        (patch "r1" (some (rejection "m1" "no")))
        booked in
    let new : TimeOffRequest = record week {
      status = RequestStatus.rejected;
      approved_by = some "m1";
      approved_at = some env.now;
      rejection_reason = some "no";
    } in
    (answer ≡ record { status = 200; body = reply (request (serialize_request new)) })
    × (list_database.requests.find_one (has_id "r1") st'.requests ≡ some new)
    × ((c' : Context) (env' : Env)
        → serve_time_off list_database no_stamp listing is_named c' env' (get "r1") st'
          ≡ (answer, st'))
    × ((c' : Context) (env' : Env) (d' : Decision)
        → let (again, st'') =
            serve_time_off list_database no_stamp listing is_named c' env'
              (patch "r1" (some d'))
              st' in
          (again.status ≡ 409) × (st'' ≡ st'))
patch-final_example =
    patch-final list_database no_stamp listing is_named context env "r1" (rejection "m1" "no")
      booked week booked-IsConsistent refl found_week week_pending
