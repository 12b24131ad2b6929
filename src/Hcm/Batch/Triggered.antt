-- ===== src/Hcm/Batch/Triggered.antt =====
-- Manual triggers, and the log rows of three runs.
use leave_ledger.Common.{◌≤◌, ◌≡◌, ◌⊎◌, refl, none, some, List, [], ◌∷◌, length, arith}
use leave_ledger.Result.{ok, err, sync_in_progress}
use leave_ledger.Database.Paged.{Paged, list_paged}
use leave_ledger.Hcm.Reconcile.{SyncLog, same_log, started_log}
use leave_ledger.Hcm.Batch.Manual.{trigger, immediate, cron, trigger_manual_batch_sync, run_events}
use leave_ledger.Hcm.Batch.Alone.{idle_runs, IsAlone, run_events-alone, trigger_twice}
use leave_ledger.Hcm.Batch.Logs.{get_sync_logs}
use leave_ledger.Hcm.Batch.Tests.{list_balances, list_logs, balances}

trigger_twice_example :
    let s = idle_runs list_balances list_logs balances [] in
    let first = trigger_manual_batch_sync list_balances list_logs s in
    let once = run_events list_balances list_logs (trigger ∷ immediate 5 "s1" none ∷ []) s in
    let twice =
      run_events list_balances list_logs
        (trigger ∷ trigger ∷ immediate 5 "s1" none ∷ immediate 6 "s2" none ∷ [])
        s in
    (first.0 ≡ ok tt)
    × ((trigger_manual_batch_sync list_balances list_logs first.1).0 ≡ ok tt)
    × (once.in_flight ≡ "s1" ∷ [])
    × (twice ≡ once)
trigger_twice_example =
    trigger_twice list_balances list_logs 5 6 "s1" "s2" balances [] (started_log 5 "s1" ∷ []) refl

idle-IsAlone : IsAlone list_balances list_logs (idle_runs list_balances list_logs balances [])
idle-IsAlone = record { one = omega arith; marked = λ e. refl }

-- The cron job starts while a triggered run waits for the HCM.
run_events-alone_example :
    let after =
      run_events list_balances list_logs
        (trigger ∷ immediate 5 "s1" none ∷ cron 6 "s2" none ∷ [])
        (idle_runs list_balances list_logs balances []) in
    (length after.in_flight ≤ 1)
    × ((after.in_flight ≡ [])
        ⊎ (trigger_manual_batch_sync list_balances list_logs after ≡ (err sync_in_progress, after)))
run_events-alone_example =
    run_events-alone list_balances list_logs
      (trigger ∷ immediate 5 "s1" none ∷ cron 6 "s2" none ∷ [])
      (idle_runs list_balances list_logs balances []) idle-IsAlone

abbrev three_logs : List SyncLog
three_logs = started_log 5 "s1" ∷ started_log 9 "s3" ∷ started_log 7 "s2" ∷ []

abbrev by_start : Paged list_logs (λ l. l.started_at)
by_start = list_paged same_log same_log (λ l. l.started_at)

newest_two :
    get_sync_logs list_logs by_start (some 2) three_logs
    ≡ started_log 9 "s3" ∷ started_log 7 "s2" ∷ []
unfolding get_sync_logs started_log
newest_two = refl
