-- ===== src/Hcm/Reconcile.antt =====
-- src/modules/hcm/hcm-sync.service.js and src/modules/sync-log/sync-log.entity.js: the rows that a
-- batch run reads and writes, and what it does to one of them. Amounts are whole thousandths of a
-- day.
use leave_ledger.Common.{
  ℕ, ◌+◌, String, Bool, true, false, Option, none, some, List, [], ◌∷◌, ◌++◌, ltb, if◌then◌else◌,
}
use leave_ledger.Common.Int.{ℤ, pos, ◌+ℤ◌, ◌-ℤ◌, ltb_ℤ, abs}
use leave_ledger.Common.Eq.{◌==◌, String-Eq, ℕ-Eq}
use Prim.Native.String.{◌++◌ as append}
use leave_ledger.Constants.{LeaveType, SyncLogStatus}
use leave_ledger.Result.{Failure, Result, ok, err}
use leave_ledger.Database.{Repository}
use leave_ledger.Balance.{BalanceKey, EmployeeBalance, local_total}

-- One element of the HCM's batch answer.
pub record HcmRecord : Type 0 where
  pub key : BalanceKey
  pub total_balance : ℤ
  pub version : Option String

-- An entry of `errorDetails`.
pub data SyncError : Type 0 where
  record_failed : BalanceKey → Failure → SyncError
  balance_missing : BalanceKey → SyncError
  batch_failed : SyncError

-- A row of sync_logs of type BATCH.
pub record SyncLog : Type 0 where
  pub id : String
  pub status : SyncLogStatus
  pub records_processed : ℕ
  pub records_updated : ℕ
  pub records_failed : ℕ
  pub error_details : Option (List SyncError)
  pub started_at : ℕ
  pub completed_at : Option ℕ

abbrev pub has_log_id : String → SyncLog → Bool
has_log_id id l = id == l.id

abbrev pub same_log : SyncLog → SyncLog → Bool
same_log l = has_log_id l.id

abbrev pub LogRepository : Type 1
LogRepository = Repository SyncLog same_log same_log

leave_name : LeaveType → String
leave_name LeaveType.vacation = "VACATION"
leave_name LeaveType.sick = "SICK"
leave_name LeaveType.personal = "PERSONAL"
leave_name LeaveType.maternity = "MATERNITY"
leave_name LeaveType.paternity = "PATERNITY"
leave_name LeaveType.bereavement = "BEREAVEMENT"

-- `${employeeId}|${locationId}|${leaveType}`
unfoldable pub batch_key : BalanceKey → String
unfolding leave_name
batch_key k =
    append k.employee_id (append "|" (append k.location_id (append "|" (leave_name k.leave_type))))

-- What `_reconcileRecord` writes to an existing balance, with a tolerance of 0.01 of a day, and
-- whether it counts as updated.
unfoldable pub reconcile : ℕ → HcmRecord → EmployeeBalance → Bool × EmployeeBalance
unfolding abs
reconcile now hcm b =
    let drift = hcm.total_balance -ℤ local_total b in
    let synced = record b {
      hcm_total_balance = hcm.total_balance;
      hcm_last_sync = some now;
      hcm_version = hcm.version;
      has_discrepancy = false;
      discrepancy_amount = none;
    } in
    if ltb_ℤ (pos 10) (abs drift)
    then (if ltb_ℤ (pos 10) drift
        then (
          true,
          record synced {
            total_balance = hcm.total_balance;
            available_balance = b.available_balance +ℤ drift;
          },
        )
        else (
          true,
          record synced { has_discrepancy = true; discrepancy_amount = some (abs drift) },
        ))
    else (false, synced)

-- The counters of a run.
pub record Tally : Type 0 where
  pub processed : ℕ
  pub updated : ℕ
  pub failed : ℕ
  pub errors : List SyncError

abbrev pub no_tally : Tally
no_tally = record { processed = 0; updated = 0; failed = 0; errors = [] }

-- The body of the loop over the HCM's records, after `recordsProcessed++`.
unfoldable pub count_record : BalanceKey → Result Bool → Tally → Tally
count_record k (ok true) c = record c { processed = c.processed + 1; updated = c.updated + 1 }
count_record k (ok false) c = record c { processed = c.processed + 1 }
count_record k (err e) c = record c {
  processed = c.processed + 1;
  failed = c.failed + 1;
  errors = c.errors ++ record_failed k e ∷ [];
}

unfoldable pub count_missing : BalanceKey → Tally → Tally
count_missing k c = record c {
  processed = c.processed + 1;
  failed = c.failed + 1;
  errors = c.errors ++ balance_missing k ∷ [];
}

-- The update of a balance that the HCM's answer leaves out, as it was loaded.
unfoldable pub flag_missing : ℕ → EmployeeBalance → EmployeeBalance → EmployeeBalance
flag_missing now loaded b = record b {
  has_discrepancy = true;
  discrepancy_amount = elim loaded.discrepancy_amount [ some x ↦ some x | none ↦ some (pos 0) ];
  hcm_last_sync = some now;
}

-- `finalStatus`
unfoldable pub final_status : Tally → SyncLogStatus
final_status c =
    if c.failed == 0
    then SyncLogStatus.completed
    else if ltb c.failed c.processed
    then SyncLogStatus.partial
    else SyncLogStatus.failed

unfoldable pub error_details : List SyncError → Option (List SyncError)
error_details [] = none
error_details (e ∷ es) = some (e ∷ es)

-- The log row of a run that starts.
unfoldable pub started_log : ℕ → String → SyncLog
started_log now log_id = record {
  id = log_id;
  status = SyncLogStatus.started;
  records_processed = 0;
  records_updated = 0;
  records_failed = 0;
  error_details = none;
  started_at = now;
  completed_at = none;
}

-- The last update of the log row, of a run that ended and of one that threw.
unfoldable pub finish_log : ℕ → Tally → SyncLog → SyncLog
unfolding final_status error_details
finish_log now c l = record l {
  status = final_status c;
  records_processed = c.processed;
  records_updated = c.updated;
  records_failed = c.failed;
  error_details = error_details c.errors;
  completed_at = some now;
}

unfoldable pub fail_log : ℕ → SyncLog → SyncLog
fail_log now l = record l {
  status = SyncLogStatus.failed;
  records_processed = 0;
  records_updated = 0;
  records_failed = 0;
  error_details = some (batch_failed ∷ []);
  completed_at = some now;
}
