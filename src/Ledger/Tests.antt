-- ===== src/Ledger/Tests.antt =====
-- The theorems on the whole service, on the week of `TimeOff/Tests.antt`.
use leave_ledger.Common.{
  ◌+◌, ◌≢◌, ◌≤◌, ◌<◌, true, false, some_of, ◌≡◌, refl, some, [], ◌∷◌, ◌++◌, arith, length, ap,
  if◌then◌else◌,
}
use leave_ledger.Common.Int.{pos, ◌+ℤ◌, ◌-ℤ◌}
use text.Mathlib.TextEquality.{eq_iff}
use leave_ledger.Constants.{RequestStatus, leave_eq, status_eq, idempotency_ttl_ms}
use leave_ledger.Result.{ok, err, invalid_date_range, idempotency_conflict}
use leave_ledger.Dates.{iso_day, utc_day, is_not_in_past, dates_overlap, calculate_days_requested}
use leave_ledger.Balance.{upsert_balance, new_balance, serialize, key_eq, atomic_deduct, deduct}
use leave_ledger.Balance.Held.{IsReturned}
use leave_ledger.Entities.{
  TimeOffRequest, CreateDto, serialize_request, has_id, has_idempotency_key, request_key,
}
use leave_ledger.Store.{State, Env, list_database, notify_approval}
use leave_ledger.TimeOff.{approve, approve_request, reject_request}
use leave_ledger.TimeOff.Create.{new_request, new_record, create_request, overlaps, competes}
use leave_ledger.TimeOff.Tests.{
  vacation, env, dto, empty_state, seeded, booked, approved, approved_week, week, book_week,
  approve_week,
}
use leave_ledger.Ledger.{IsConsistent}
use leave_ledger.Ledger.Decisions.{approve_request-pending, reject_request-pending}
use leave_ledger.Ledger.Decision.{Decision}
use leave_ledger.Ledger.Reach.{Reach, Step, Reach-IsConsistent, empty-IsConsistent}
use leave_ledger.Ledger.Replay.{find_record, create_request-replay, create_request-conflict}
use leave_ledger.Ledger.Expired.{create_request-expired}

seed :
    upsert_balance list_database.balances 0 vacation (pos 10_000) []
    ≡ ok (serialize 0 (new_balance 0 vacation (pos 10_000)), seeded.balances)
unfolding upsert_balance
seed = refl

to_booked : Reach list_database empty_state booked
to_booked =
    Reach.next
      (Reach.next Reach.here (Step.seeded 0 vacation (pos 10_000) _ _ (ground arith) seed refl))
      (Step.created env dto (some "k1") (serialize_request week) book_week)

decision : Decision list_database "r1" booked approved
decision = Decision.approved env.now "m1" (serialize_request approved_week) approve_week

to_approved : Reach list_database booked approved
to_approved = Reach.next Reach.here (Step.decided "r1" decision)

pub booked-IsConsistent : IsConsistent list_database booked
booked-IsConsistent =
    Reach-IsConsistent list_database to_booked
      (empty-IsConsistent list_database empty_state refl refl)

Reach-IsConsistent_example : IsConsistent list_database approved
Reach-IsConsistent_example = Reach-IsConsistent list_database to_approved booked-IsConsistent

pub found_week : list_database.requests.find_one (has_id "r1") booked.requests ≡ some week
unfolding new_request
found_week = refl

pub week_pending : week.status ≡ RequestStatus.pending
unfolding new_request
week_pending = refl

approve_request-pending_example :
    (st' : State list_database) × (approve_request list_database 7 "r1" "m1" booked
      ≡ ok (serialize_request (approve 7 "m1" week), st'))
    × IsConsistent list_database st'
    × (list_database.requests.find_one (has_id "r1") st'.requests ≡ some (approve 7 "m1" week))
    × (st'.scheduled ≡ booked.scheduled ++ notify_approval (approve 7 "m1" week) "r1" ∷ [])
approve_request-pending_example =
    approve_request-pending list_database booked booked-IsConsistent "r1" week found_week
      week_pending 7 "m1"

reject_request-pending_example :
    (new : TimeOffRequest) × (st' : State list_database) × (reject_request list_database 7 "r1" "m1"
        "no" booked
      ≡ ok (serialize_request new, st'))
    × (new ≡ record week {
      status = RequestStatus.rejected;
      approved_by = some "m1";
      approved_at = some 7;
      rejection_reason = some "no";
    })
    × (list_database.requests.find_one (has_id "r1") st'.requests ≡ some new)
    × IsReturned list_database.balances
        (request_key week)
        week.days_requested
        booked.balances
        st'.balances
    × (st'.scheduled ≡ booked.scheduled)
    × IsConsistent list_database st'
reject_request-pending_example =
    reject_request-pending list_database booked booked-IsConsistent "r1" week found_week
      week_pending 7 "m1" "no"

-- An hour later.
abbrev later_env : Env
later_env = record env { now = env.now + 3_600_000; new_id = "r9" }

booked_differs : booked ≢ seeded
booked_differs e = absurd (ground (arith, ap (λ s. length s.requests) e))

in_time : later_env.now ≤ env.now + idempotency_ttl_ms
in_time = omega arith

create_request-replay_example : create_request list_database later_env dto (some "k1") approved ≡ (
    if is_not_in_past later_env.now dto.start_date
    then ok (serialize_request week, approved)
    else err invalid_date_range)
create_request-replay_example =
    create_request-replay list_database env later_env dto dto "k1" seeded booked approved
      (serialize_request week) book_week booked_differs to_approved in_time refl

-- The same days with notes.
abbrev noted : CreateDto
noted = record dto { notes = some "x" }

noted_hash : later_env.request_hash noted ≢ env.request_hash dto
noted_hash e = let same = (eq_iff "x" "none").1 e in cc

noted_present : is_not_in_past later_env.now noted.start_date ≡ true
unfolding is_not_in_past utc_day iso_day
noted_present = refl

noted_ordered : iso_day noted.start_date ≤ iso_day noted.end_date
unfolding iso_day
noted_ordered = ground arith

create_request-conflict_example :
    create_request list_database later_env noted (some "k1") approved ≡ err idempotency_conflict
create_request-conflict_example =
    create_request-conflict list_database env later_env dto noted "k1" seeded booked approved
      (serialize_request week) book_week booked_differs to_approved in_time noted_hash noted_present
      noted_ordered

-- Two days later, and a request for the weeks after.
abbrev next_env : Env
next_env = record env { now = env.now + 172_800_000; new_id = "r9" }

abbrev next_dto : CreateDto
next_dto = record dto {
  start_date = record { year = 2027; month = 1; day = 4 };
  end_date = record { year = 2027; month = 1; day = 6 };
}

next_short : (new_record env dto "k1" week).expires_at < next_env.now
unfolding new_record
next_short = omega arith

next_present : is_not_in_past next_env.now next_dto.start_date ≡ true
unfolding is_not_in_past utc_day iso_day
next_present = refl

next_ordered : iso_day next_dto.start_date ≤ iso_day next_dto.end_date
unfolding iso_day
next_ordered = ground arith

next_free :
    some_of
      (overlaps next_dto.start_date next_dto.end_date)
      (list_database.requests.find (competes "e1" "l1") booked.requests)
    ≡ false
unfolding overlaps competes dates_overlap utc_day iso_day new_request status_eq
next_free = refl

abbrev three_days : TimeOffRequest
three_days =
    new_request next_env next_dto "k1"
      (calculate_days_requested next_dto.start_date next_dto.end_date)

next_covered :
    atomic_deduct list_database.balances
      (request_key three_days)
      three_days.days_requested
      booked.balances
    ≡ ok (
      deduct (pos 3000) (deduct (pos 5000) (new_balance 0 vacation (pos 10_000))),
      deduct (pos 3000) (deduct (pos 5000) (new_balance 0 vacation (pos 10_000))) ∷ [],
    )
unfolding atomic_deduct deduct new_balance new_request calculate_days_requested utc_day iso_day
    key_eq leave_eq ◌+ℤ◌ ◌-ℤ◌
next_covered = refl

week_recorded : find_record list_database "k1" booked ≡ some (new_record env dto "k1" week)
unfolding new_record
week_recorded = refl

week_taken : list_database.requests.find_one (has_idempotency_key "k1") booked.requests ≡ some week
unfolding new_request
week_taken = refl

create_request-expired_example :
    create_request list_database next_env next_dto (some "k1") booked
    ≡ ok (serialize_request week, booked)
create_request-expired_example =
    create_request-expired list_database next_env next_dto "k1" booked
      (new_record env dto "k1" week) week week_recorded next_short week_taken
      (deduct (pos 3000) (deduct (pos 5000) (new_balance 0 vacation (pos 10_000))))
      (deduct (pos 3000) (deduct (pos 5000) (new_balance 0 vacation (pos 10_000))) ∷ []) refl
      next_present next_ordered next_free next_covered
