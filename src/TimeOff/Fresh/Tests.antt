-- ===== src/TimeOff/Fresh/Tests.antt =====
-- The week of `TimeOff/Tests.antt`, booked on the ten days.
use leave_ledger.Common.{◌≤◌, ◌≡◌, refl, true, some, arith}
use leave_ledger.Common.Int.{◌≤ℤ◌, pos}
use leave_ledger.Constants.{leave_eq}
use leave_ledger.Result.{ok}
use leave_ledger.Dates.{iso_day, utc_day, is_not_in_past, calculate_days_requested}
use leave_ledger.Balance.{EmployeeBalance, key_eq, new_balance}
use leave_ledger.Balance.Moves.{find_key}
use leave_ledger.Entities.{TimeOffRequest, Response, request_key}
use leave_ledger.Store.{State, list_database}
use leave_ledger.TimeOff.Create.{new_request, create_request}
use leave_ledger.Ledger.Asked.{IsCreated}
use leave_ledger.TimeOff.Fresh.{fresh_request, create_request-fresh}
use leave_ledger.TimeOff.Tests.{vacation, env, dto, seeded}

abbrev ten_days : EmployeeBalance
ten_days = new_balance 0 vacation (pos 10_000)

abbrev asked : TimeOffRequest
asked = fresh_request list_database env dto "k1" seeded

asked_has : find_key list_database.balances (request_key asked) seeded.balances ≡ some ten_days
unfolding new_request new_balance key_eq leave_eq
asked_has = refl

asked_covered : asked.days_requested ≤ℤ ten_days.available_balance
unfolding new_request new_balance calculate_days_requested utc_day iso_day
asked_covered = ground arith

asked_present : is_not_in_past env.now dto.start_date ≡ true
unfolding is_not_in_past utc_day iso_day
asked_present = refl

asked_ordered : iso_day dto.start_date ≤ iso_day dto.end_date
unfolding iso_day
asked_ordered = ground arith

create_request-fresh_example :
    (resp : Response) × (st' : State list_database) × (create_request list_database env dto
        (some "k1")
        seeded
      ≡ ok (resp, st'))
    × IsCreated list_database env dto "k1" seeded resp st'
create_request-fresh_example =
    create_request-fresh list_database env dto "k1" seeded ten_days refl refl refl asked_has
      asked_covered refl asked_present asked_ordered
