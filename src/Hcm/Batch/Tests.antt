-- ===== src/Hcm/Batch/Tests.antt =====
-- A batch run on one balance of ten days, of which the HCM reports twelve, and a balance that the HCM
-- leaves out.
use leave_ledger.Common.{◌≡◌, refl, subst, Option, false, none, some, List, [], ◌∷◌, arith}
use leave_ledger.Common.Int.{pos, ◌+ℤ◌, ◌-ℤ◌, abs}
use leave_ledger.Constants.{LeaveType, SyncLogStatus, leave_eq}
use leave_ledger.Result.{ok, err, driver_error}
use leave_ledger.Database.{list_repository}
use leave_ledger.Balance.{
  BalanceKey, EmployeeBalance, BalanceRepository, same_balance, new_balance, key_eq,
}
use leave_ledger.Balance.Conserved.{new_balance-IsBalanced}
use leave_ledger.Balance.Reach.{AllBalanced}
use leave_ledger.Hcm.Batch.{
  SyncState, reconcile_record, reconcile_all, flag_all, reconcile_batch, run_batch_sync, save_log,
}
use leave_ledger.Hcm.Reconcile.{
  HcmRecord, SyncError, LogRepository, same_log, reconcile, batch_key, count_record, count_missing,
  flag_missing, final_status, error_details, finish_log, started_log,
}
use leave_ledger.Hcm.Batch.Balanced.{NonNegative, run_batch_sync-AllBalanced}
use leave_ledger.Hcm.Batch.Run.{run_batch_sync-stuck}

abbrev pub list_balances : BalanceRepository
list_balances = list_repository same_balance same_balance

abbrev pub list_logs : LogRepository
list_logs = list_repository same_log same_log

abbrev pub given : BalanceKey
given = record { employee_id = "e1"; location_id = "l1"; leave_type = LeaveType.vacation }

abbrev pub left_out : BalanceKey
left_out = record { employee_id = "e2"; location_id = "l1"; leave_type = LeaveType.sick }

abbrev pub balances : List EmployeeBalance
balances = new_balance 0 given (pos 10_000) ∷ new_balance 0 left_out (pos 3000) ∷ []

abbrev twelve : HcmRecord
twelve = record { key = given; total_balance = pos 12_000; version = some "2" }

abbrev pub idle : SyncState list_balances list_logs
idle = record { balances = balances; logs = []; batch_running = false }

abbrev after : List EmployeeBalance
after =
    (reconcile 5 twelve (new_balance 0 given (pos 10_000))).1
    ∷ flag_missing 5 (new_balance 0 left_out (pos 3000)) (new_balance 0 left_out (pos 3000))
    ∷ []

run_twelve : run_batch_sync list_balances list_logs 5 "s1" none (some (twelve ∷ [])) idle ≡ (
  ok tt,
  record {
    balances = after;
    logs =
        record {
          id = "s1";
          status = SyncLogStatus.partial;
          records_processed = 2;
          records_updated = 1;
          records_failed = 1;
          error_details = some (SyncError.balance_missing left_out ∷ []);
          started_at = 5;
          completed_at = some 5;
        }
        ∷ [];
    batch_running = false;
  },
)
unfolding run_batch_sync reconcile_batch reconcile_all flag_all reconcile_record count_record
    count_missing flag_missing final_status error_details finish_log started_log save_log batch_key
    reconcile key_eq leave_eq new_balance ◌+ℤ◌ ◌-ℤ◌ abs
run_twelve = refl

balances-AllBalanced : AllBalanced list_balances balances
balances-AllBalanced = (
  new_balance-IsBalanced 0 given (pos 10_000) (omega arith),
  (new_balance-IsBalanced 0 left_out (pos 3000) (omega arith), tt),
)

twelve-NonNegative :
    (recs : List HcmRecord)
    → ◌≡◌ {A = Option (List HcmRecord)} (some (twelve ∷ [])) (some recs)
    → NonNegative list_balances recs
twelve-NonNegative recs e =
    let same : (twelve ∷ []) ≡ recs = ground arith in
    subst (NonNegative list_balances) same (omega arith, tt)

run_batch_sync-AllBalanced_example :
    AllBalanced list_balances
      (run_batch_sync list_balances list_logs 5 "s1" none (some (twelve ∷ [])) idle).1.balances
run_batch_sync-AllBalanced_example =
    run_batch_sync-AllBalanced list_balances list_logs 5 "s1" none (some (twelve ∷ [])) idle
      twelve-NonNegative balances-AllBalanced

run_batch_sync-stuck_example :
    let (result, st') =
      run_batch_sync list_balances list_logs 5 "s1" (some driver_error) (some (twelve ∷ [])) idle in
    (result ≡ err driver_error)
    × (st'.balances ≡ balances)
    × (run_batch_sync list_balances list_logs 9 "s2" none (some (twelve ∷ [])) st' ≡ (ok tt, st'))
run_batch_sync-stuck_example =
    run_batch_sync-stuck list_balances list_logs 5 9 "s1" "s2" driver_error none
      (some (twelve ∷ [])) (some (twelve ∷ [])) idle refl
