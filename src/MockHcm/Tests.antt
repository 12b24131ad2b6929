-- ===== src/MockHcm/Tests.antt =====
-- The server of mock-hcm/src/server.js from its start on.
use leave_ledger.Common.{◌≡◌, refl, String, Bool, true, none, some, arith}
use leave_ledger.Common.Int.{pos, ◌-ℤ◌, ◌+ℤ◌}
use leave_ledger.Common.Eq.{String-Eq}
use leave_ledger.Constants.{LeaveType}
use leave_ledger.Balance.{EmployeeBalance, deduct, finalize, new_balance}
use leave_ledger.Hcm.Reconcile.{reconcile}
use leave_ledger.MockHcm.{
  FailureMode, calm, Server, Reply, Draw, vacation_place, initial, holding_at,
}
use leave_ledger.MockHcm.Routes.{Filing, Action, put_balance, serve, time_off, file_days}
use leave_ledger.MockHcm.Admin.{Field, change_behavior}
use leave_ledger.MockHcm.Sound.{IsSound}
use leave_ledger.MockHcm.Reach.{Call, Reachable, handle, Reachable-IsSound}
use leave_ledger.MockHcm.Filed.{IsFiled, amounts, time_off-IsFiled}
use leave_ledger.MockHcm.Drift.{report, approve-discrepancy, put_balance_twice}

abbrev three_days : Filing
three_days = record {
  employee_id = some "EMP123";
  location_id = some "LOC1";
  leave_type = some "VACATION";
  days_requested = some (some (pos 3000));
  reference_id = none;
}

three_days_filed : (time_off three_days "v2" initial).0 ≡ Reply.filed none (pos 12000) "v2"
unfolding time_off file_days ◌-ℤ◌
three_days_filed = refl

time_off-IsFiled_example : (enough : Bool) × IsFiled three_days (pos 3000) "v2" initial enough
time_off-IsFiled_example = time_off-IsFiled three_days (pos 3000) "v2" initial refl refl refl refl

initial-IsSound : IsSound initial.balances
initial-IsSound = record {
  covered = (
    record { not_negative = omega arith; within = omega arith },
    (record { not_negative = omega arith; within = omega arith }, tt),
  );
  keyed = ((λ h. cc, tt), (tt, tt));
}

abbrev drawing : Draw
drawing = record { rand = 50; timeout_probability = 5; flakiness = 10 }

filed-Reachable : Reachable initial (serve drawing (handle (Call.filing three_days "v2")) initial).1
filed-Reachable = Reachable.served drawing (Call.filing three_days "v2") Reachable.started

Reachable-IsSound_example :
    IsSound (serve drawing (handle (Call.filing three_days "v2")) initial).1.balances
Reachable-IsSound_example =
    Reachable-IsSound initial (serve drawing (handle (Call.filing three_days "v2")) initial).1
      initial-IsSound filed-Reachable

-- The server after a request to delay one answer.
abbrev delaying : Server
delaying = record initial {
  behavior = record calm {
    forced_failure_mode = some FailureMode.mode_timeout;
    forced_failure_remaining = 1;
  };
}

delaying_set :
    (change_behavior
      (record {
        forced_failure_mode = Field.given (some FailureMode.mode_timeout);
        forced_failure_count = Field.given (pos 1);
        validation_override = Field.left_out;
        batch_partial = none;
        stale_version_mode = none;
      })
      initial).1
    ≡ delaying
unfolding change_behavior
delaying_set = refl

put_balance_twice_example :
    ((serve drawing (put_balance vacation_place (some (pos 3000)) Action.approve "v2") delaying).0
      ≡ none)
    × ((version : String) × ((serve drawing
            (put_balance vacation_place (some (pos 3000)) Action.approve "v3")
            (serve drawing
              (put_balance vacation_place (some (pos 3000)) Action.approve "v2")
              delaying).1).0
          ≡ some (Reply.adjusted (pos 15000 -ℤ pos 3000 -ℤ pos 3000) version)))
    × (amounts (
          holding_at vacation_place
            (serve drawing
              (put_balance vacation_place (some (pos 3000)) Action.approve "v3")
              (serve drawing
                (put_balance vacation_place (some (pos 3000)) Action.approve "v2")
                delaying).1).1.balances)
        ≡ (pos 15000 -ℤ pos 3000 -ℤ pos 3000, pos 15000 -ℤ pos 3000 -ℤ pos 3000))
unfolding ◌-ℤ◌
put_balance_twice_example =
    put_balance_twice vacation_place (pos 3000) "v2" "v3" delaying drawing drawing refl refl refl
      refl refl

abbrev row : EmployeeBalance
row = deduct (pos 3000) (
    new_balance 0
      (record { employee_id = "EMP123"; location_id = "LOC1"; leave_type = LeaveType.vacation })
      (pos 15000))

approve-discrepancy_example :
    ((reconcile 9
        (report row.key (
          holding_at vacation_place
            (put_balance vacation_place (some (pos 3000)) Action.approve "v2" initial).1.balances))
        (finalize (pos 3000) row)).0
      ≡ true)
    × ((reconcile 9
          (report row.key (
            holding_at vacation_place
              (put_balance vacation_place
                (some (pos 3000))
                Action.approve
                "v2"
                initial).1.balances))
          (finalize (pos 3000) row)).1.has_discrepancy
        ≡ true)
    × ((reconcile 9
          (report row.key (
            holding_at vacation_place
              (put_balance vacation_place
                (some (pos 3000))
                Action.approve
                "v2"
                initial).1.balances))
          (finalize (pos 3000) row)).1.discrepancy_amount
        ≡ some (pos 3000))
    × ((reconcile 9
          (report row.key (
            holding_at vacation_place
              (put_balance vacation_place
                (some (pos 3000))
                Action.approve
                "v2"
                initial).1.balances))
          (finalize (pos 3000) row)).1.available_balance
        ≡ row.available_balance)
unfolding ◌+ℤ◌ ◌-ℤ◌ new_balance deduct
approve-discrepancy_example =
    approve-discrepancy vacation_place (pos 3000) "v2" initial row 9 refl refl refl
