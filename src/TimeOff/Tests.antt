-- ===== src/TimeOff/Tests.antt =====
-- A week of vacation on a small database, call by call (src/modules/timeoff/timeoff.service.js).
use leave_ledger.Common.{
  ℕ, ◌≡◌, ◌⊎◌, refl, String, Option, some, none, [], ◌∷◌, false, true, if◌then◌else◌,
}
use leave_ledger.Common.Int.{pos, ◌+ℤ◌, ◌-ℤ◌}
use leave_ledger.Common.Eq.{◌==◌, ℕ-Eq}
use leave_ledger.Constants.{
  LeaveType, HcmSyncStatus, RequestStatus, leave_eq, status_eq, valid_transitions,
}
use leave_ledger.Result.{
  Failure, ok, err, sqlite_transient, overlapping_request, invalid_status_transition,
}
use leave_ledger.Dates.{iso_day, utc_day, calculate_days_requested, is_not_in_past, dates_overlap}
use leave_ledger.Balance.{
  BalanceKey, key_eq, new_balance, deduct, finalize, atomic_deduct, finalize_used,
}
use leave_ledger.Entities.{TimeOffRequest, CreateDto, serialize_request, has_id}
use leave_ledger.Store.{State, Env, list_database, validate, notify_approval}
use leave_ledger.TimeOff.{assert_valid_transition, approve, approve_request, get_request_or_throw}
use leave_ledger.TimeOff.Create.{
  new_request, new_record, competes, overlaps, check_idempotency, retry_transaction, attempt_create,
  create_transaction, create_locked, create_request, is_sqlite_transient_tx_error,
  is_sqlite_constraint_error, handle_create_error,
}
use leave_ledger.Hcm.{Answers}
use leave_ledger.Hcm.Pending.{sync_pending}
use leave_ledger.TimeOff.Notify.{
  notify_hcm_async, notify_approval_to_hcm_async, notify_hcm_async-overwrites,
}
use leave_ledger.Ledger.Asked.{IsCreated, create_request-IsCreated}

abbrev pub vacation : BalanceKey
vacation = record { employee_id = "e1"; location_id = "l1"; leave_type = LeaveType.vacation }

-- The request's hash stands for its notes.
abbrev pub notes_hash : CreateDto → String
notes_hash body = elim body.notes [ none ↦ "none" | some text ↦ text ]

-- The first attempt of a transaction meets a busy database.
abbrev busy_once : ℕ → Option Failure
busy_once n = if n == 1 then some sqlite_transient else none

-- The 22nd of December 2026, 00:00 UTC.
abbrev pub env : Env
env = record {
  now = 1_797_897_600_000;
  new_id = "r1";
  request_hash = notes_hash;
  fault = λ n. none;
}

abbrev pub dto : CreateDto
dto = record {
  employee_id = "e1";
  location_id = "l1";
  leave_type = LeaveType.vacation;
  start_date = record { year = 2026; month = 12; day = 28 };
  end_date = record { year = 2027; month = 1; day = 1 };
  notes = none;
}

abbrev pub empty_state : State list_database
empty_state = record { balances = []; requests = []; records = []; scheduled = [] }

-- Ten days of vacation.
abbrev pub seeded : State list_database
seeded = record empty_state { balances = new_balance 0 vacation (pos 10_000) ∷ [] }

abbrev pub week : TimeOffRequest
week = new_request env dto "k1" 5

abbrev pub booked : State list_database
booked = record {
  balances = deduct (pos 5000) (new_balance 0 vacation (pos 10_000)) ∷ [];
  requests = week ∷ [];
  records = new_record env dto "k1" week ∷ [];
  scheduled = validate "r1" vacation (pos 5000) ∷ [];
}

days_of_week : calculate_days_requested dto.start_date dto.end_date ≡ 5
unfolding calculate_days_requested utc_day iso_day
days_of_week = refl

pub book_week :
    create_request list_database env dto (some "k1") seeded ≡ ok (serialize_request week, booked)
unfolding create_request create_locked check_idempotency retry_transaction attempt_create
    create_transaction new_request new_record atomic_deduct key_eq leave_eq new_balance deduct
    calculate_days_requested is_not_in_past utc_day iso_day overlaps competes ◌+ℤ◌ ◌-ℤ◌
    serialize_request
book_week = refl

-- A busy database is tried again.
book_week_busy :
    create_request list_database (record env { fault = busy_once }) dto (some "k1") seeded
    ≡ ok (serialize_request week, booked)
unfolding create_request create_locked check_idempotency retry_transaction attempt_create
    create_transaction new_request new_record atomic_deduct key_eq leave_eq new_balance deduct
    calculate_days_requested is_not_in_past utc_day iso_day overlaps competes ◌+ℤ◌ ◌-ℤ◌
    serialize_request is_sqlite_transient_tx_error
book_week_busy = refl

-- Another key for a week that shares a day with the first.
book_again :
    create_request list_database (record env { new_id = "r2" }) dto (some "k2") booked
    ≡ err overlapping_request
unfolding create_request create_locked check_idempotency retry_transaction attempt_create
    create_transaction new_request new_record key_eq leave_eq status_eq calculate_days_requested
    is_not_in_past utc_day iso_day overlaps competes dates_overlap handle_create_error
    is_sqlite_transient_tx_error is_sqlite_constraint_error
book_again = refl

abbrev pub approved_week : TimeOffRequest
approved_week = approve env.now "m1" week

abbrev pub approved : State list_database
approved = record {
  balances = finalize (pos 5000) (deduct (pos 5000) (new_balance 0 vacation (pos 10_000))) ∷ [];
  requests = approved_week ∷ [];
  records = new_record env dto "k1" week ∷ [];
  scheduled = validate "r1" vacation (pos 5000) ∷ notify_approval approved_week "r1" ∷ [];
}

pub approve_week :
    approve_request list_database env.now "r1" "m1" booked
    ≡ ok (serialize_request approved_week, approved)
unfolding approve_request get_request_or_throw assert_valid_transition valid_transitions status_eq
    finalize_used key_eq leave_eq new_request new_balance deduct finalize approve ◌+ℤ◌ ◌-ℤ◌
    serialize_request new_record
approve_week = refl

approve_twice :
    approve_request list_database env.now "r1" "m1" approved ≡ err invalid_status_transition
unfolding approve_request get_request_or_throw assert_valid_transition valid_transitions status_eq
    new_request approve
approve_twice = refl

create_request-IsCreated_example :
    (booked ≡ seeded)
    ⊎ ((k : String) × (some "k1" ≡ some k)
        × IsCreated list_database env dto k seeded (serialize_request week) booked)
create_request-IsCreated_example =
    create_request-IsCreated list_database env dto (some "k1") seeded (serialize_request week)
      booked book_week

-- An HCM that does not answer, and the callbacks of `approved`, the second one first.
abbrev silent : Answers
silent = record { validation = λ r. none; approval = λ r. none }

found_approved :
    list_database.requests.find_one (has_id "r1") approved.requests ≡ some approved_week
unfolding approve new_request
found_approved = refl

week_is_approved : approved_week.status ≡ RequestStatus.approved
unfolding approve
week_is_approved = refl

notify_hcm_async-overwrites_example :
    let t1 =
      notify_approval_to_hcm_async list_database.requests 7 silent approved_week "r1"
        approved.requests in
    let t2 = notify_hcm_async list_database.requests 8 (some (some true)) "r1" t1 in
    ((r1 : TimeOffRequest) × (list_database.requests.find_one (has_id "r1") t1 ≡ some r1)
      × (sync_pending r1 ≡ true))
    × ((r2 : TimeOffRequest) × (list_database.requests.find_one (has_id "r1") t2 ≡ some r2)
        × (r2.status ≡ RequestStatus.approved)
        × (r2.hcm_sync_status ≡ HcmSyncStatus.success)
        × (sync_pending r2 ≡ false))
notify_hcm_async-overwrites_example =
    notify_hcm_async-overwrites list_database.requests 7 8 silent "r1" approved_week approved_week
      approved.requests found_approved week_is_approved refl refl
