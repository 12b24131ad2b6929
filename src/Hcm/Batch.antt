-- ===== src/Hcm/Batch.antt =====
-- src/modules/hcm/hcm-sync.service.js, `runBatchSync` and `_reconcileRecord`. The HCM's answer is a
-- parameter, `none` if it is `null` or no array. A run is atomic here; log lines are left out.
pub mod Balanced
pub mod Drift
pub mod Run
pub mod Manual
pub mod Alone
pub mod Logs
pub mod Tests
mod Triggered
use leave_ledger.Common.{
  ℕ, zero, suc, ◌+◌, String, Bool, true, false, Option, none, some, List, [], ◌∷◌, ◌++◌, map, ltb,
  some_of, length, if◌then◌else◌,
}
use leave_ledger.Common.Int.{ℤ, pos, negsuc, ◌+ℤ◌, ◌-ℤ◌, ltb_ℤ, abs}
use leave_ledger.Common.Eq.{◌==◌, String-Eq, ℕ-Eq}
use Prim.Native.String.{◌++◌ as append}
use leave_ledger.Constants.{LeaveType, SyncLogStatus}
use leave_ledger.Result.{Failure, Result, ok, err, ◌>>=◌, or_throw, sqlite_constraint}
use leave_ledger.Database.{Repository}
use leave_ledger.Balance.{
  BalanceKey, EmployeeBalance, BalanceRepository, has_key, new_balance, local_total,
}
use leave_ledger.Hcm.Reconcile.{
  HcmRecord, LogRepository, SyncError, SyncLog, Tally, batch_key, count_missing, count_record,
  error_details, fail_log, final_status, finish_log, flag_missing, has_log_id, no_tally, reconcile,
  same_log, started_log,
}

module _ (B : BalanceRepository) where
  -- _reconcileRecord
  unfoldable pub reconcile_record : ℕ → HcmRecord → B.Table → Result Bool × B.Table
  reconcile_record now hcm t = elim (B.find_one (has_key hcm.key) t) [
    | none ↦
        elim (B.insert
          (record (new_balance now hcm.key hcm.total_balance) { hcm_version = hcm.version }) t) [
            | some t' ↦ (ok true, t')
            | none ↦ (err sqlite_constraint, t)
          ]
    | some balance ↦ (
      ok (reconcile now hcm balance).0,
      B.update (has_key hcm.key) (λ row. (reconcile now hcm balance).1) t,
    )
  ]

  -- The first loop.
  unfoldable pub reconcile_all : ℕ → List HcmRecord → Tally → B.Table → Tally × B.Table
  reconcile_all now [] c t = (c, t)
  reconcile_all now (r ∷ rs) c t =
      let (updated, t') = reconcile_record now r t in
      reconcile_all now rs (count_record r.key updated c) t'

  -- The second loop, over the loaded balances.
  unfoldable pub flag_all :
      ℕ → List String → List EmployeeBalance → Tally → B.Table → Tally × B.Table
  flag_all now keys [] c t = (c, t)
  flag_all now keys (b ∷ bs) c t =
      if some_of (λ k. k == batch_key b.key) keys
      then flag_all now keys bs c t
      else flag_all now keys bs (count_missing b.key c)
          (B.update (has_key b.key) (flag_missing now b) t)

  -- The body of the `try`.
  unfoldable pub reconcile_batch : ℕ → List HcmRecord → B.Table → Tally × B.Table
  unfolding reconcile_all flag_all
  reconcile_batch now recs t =
      let (c, t') = reconcile_all now recs no_tally t in
      flag_all now (map (λ r. batch_key r.key) recs) (B.find (λ b. true) t') c t'

module _ (B : BalanceRepository) (L : LogRepository) where
  pub record SyncState : Type 0 where
    pub balances : B.Table
    pub logs : L.Table
    pub batch_running : Bool

  -- `syncLogRepository.save`
  unfoldable pub save_log : Option Failure → SyncLog → L.Table → Result L.Table
  save_log (some e) row logs = err e
  save_log none row logs = or_throw (L.insert row logs) sqlite_constraint

  -- runBatchSync. `fault` is an error of the driver when the log row is saved, which is before the
  -- `try`; the result is what the promise settles to.
  unfoldable pub run_batch_sync :
      ℕ
      → String
      → Option Failure
      → Option (List HcmRecord)
      → SyncState
      → Result (Unit {0}) × SyncState
  unfolding reconcile_batch save_log started_log fail_log finish_log
  run_batch_sync now log_id fault answer st =
      if st.batch_running
      then (ok tt, st)
      else elim (save_log fault (started_log now log_id) st.logs) [
        | err e ↦ (err e, record st { batch_running = true })
        | ok logs ↦ elim answer [
          | none ↦ (
            ok tt,
            record st {
              logs = L.update (has_log_id log_id) (fail_log now) logs;
              batch_running = false;
            },
          )
          | some recs ↦
              let (c, balances) = reconcile_batch B now recs st.balances in
              (
                ok tt,
                record {
                  balances = balances;
                  logs = L.update (has_log_id log_id) (finish_log now c) logs;
                  batch_running = false;
                },
              )
        ]
      ]
