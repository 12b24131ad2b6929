-- ===== src/Hcm/Batch/Manual.antt =====
-- src/modules/hcm/hcm-sync.service.js, `triggerManualBatchSync`, and `runBatchSync` in two parts: up to
-- the call of the HCM, and from its answer on. Between the two, other runs are triggered and start.
use leave_ledger.Common.{
  ℕ, zero, suc, ◌+◌, ◌≡◌, ◌∙◌, refl, ap, sym, String, Bool, true, false, inl, inr, Option, none,
  some, List, [], ◌∷◌, not, some_of, keep, if◌then◌else◌,
}
use leave_ledger.Common.Eq.{◌==◌, String-Eq}
use leave_ledger.Result.{Failure, Result, ok, err, Result-cases, sync_in_progress}
use leave_ledger.Balance.{BalanceRepository}
use leave_ledger.Hcm.Reconcile.{
  HcmRecord, LogRepository, has_log_id, started_log, fail_log, finish_log,
}
use leave_ledger.Hcm.Batch.{SyncState, reconcile_batch, save_log, run_batch_sync}

-- What happens to the service: a manual trigger, a run that `setImmediate` kept, a run of the cron
-- job, and an answer of the HCM.
pub data Event : Type 0 where
  trigger : Event
  immediate : ℕ → String → Option Failure → Event
  cron : ℕ → String → Option Failure → Event
  answered : ℕ → String → Option (List HcmRecord) → Event

module _ (B : BalanceRepository) (L : LogRepository) where
  -- `runBatchSync` until it awaits the HCM; the result says whether it does.
  unfoldable pub begin_batch :
      ℕ → String → Option Failure → SyncState B L → Result Bool × SyncState B L
  unfolding save_log started_log
  begin_batch now log_id fault st =
      if st.batch_running
      then (ok false, st)
      else elim (save_log B L fault (started_log now log_id) st.logs) [
        | err e ↦ (err e, record st { batch_running = true })
        | ok logs ↦ (ok true, record st { logs = logs; batch_running = true })
      ]

  -- `runBatchSync` from the HCM's answer on.
  unfoldable pub end_batch : ℕ → String → Option (List HcmRecord) → SyncState B L → SyncState B L
  unfolding reconcile_batch fail_log finish_log
  end_batch now log_id none st = record st {
    logs = L.update (has_log_id log_id) (fail_log now) st.logs;
    batch_running = false;
  }
  end_batch now log_id (some recs) st =
      let (c, balances) = reconcile_batch B now recs st.balances in
      record {
        balances = balances;
        logs = L.update (has_log_id log_id) (finish_log now c) st.logs;
        batch_running = false;
      }

  -- The service with the runs that `setImmediate` keeps, and those that wait for the HCM.
  pub record Runs : Type 0 where
    pub sync : SyncState B L
    pub waiting : ℕ
    pub in_flight : List String

  -- triggerManualBatchSync
  unfoldable pub trigger_manual_batch_sync : Runs → Result (Unit {0}) × Runs
  trigger_manual_batch_sync s =
      if s.sync.batch_running
      then (err sync_in_progress, s)
      else (ok tt, record s { waiting = s.waiting + 1 })

  -- A run that begins is in flight if it awaits the HCM.
  abbrev pub note_begun : String → Runs → Result Bool × SyncState B L → Runs
  note_begun log_id s (ok true, sync) = record s { sync = sync; in_flight = log_id ∷ s.in_flight }
  note_begun log_id s (ok false, sync) = record s { sync = sync }
  note_begun log_id s (err e, sync) = record s { sync = sync }

  -- A call of `runBatchSync`, until it awaits the HCM.
  unfoldable pub start_run : ℕ → String → Option Failure → Runs → Runs
  unfolding begin_batch
  start_run now log_id fault s = note_begun log_id s (begin_batch now log_id fault s.sync)

  -- `setImmediate` calls a run that it keeps, if there is one.
  unfoldable pub start_waiting : ℕ → ℕ → String → Option Failure → Runs → Runs
  unfolding start_run
  start_waiting zero now log_id fault s = s
  start_waiting (suc n) now log_id fault s = start_run now log_id fault (record s { waiting = n })

  unfoldable pub step : Event → Runs → Runs
  unfolding trigger_manual_batch_sync start_run start_waiting end_batch
  step trigger s = (trigger_manual_batch_sync s).1
  step (immediate now log_id fault) s = start_waiting s.waiting now log_id fault s
  step (cron now log_id fault) s = start_run now log_id fault s
  step (answered now log_id answer) s =
      if some_of (λ id. id == log_id) s.in_flight
      then record s {
        sync = end_batch now log_id answer s.sync;
        in_flight = keep (λ id. not (id == log_id)) s.in_flight;
      }
      else s

  unfoldable pub run_events : List Event → Runs → Runs
  unfolding step
  run_events [] s = s
  run_events (e ∷ es) s = run_events es (step e s)

  -- The rest of a run that has begun.
  abbrev pub await_answer :
      ℕ
      → String
      → Option (List HcmRecord)
      → Result Bool × SyncState B L
      → Result (Unit {0}) × SyncState B L
  await_answer now log_id answer (ok true, st) = (ok tt, end_batch now log_id answer st)
  await_answer now log_id answer (ok false, st) = (ok tt, st)
  await_answer now log_id answer (err e, st) = (err e, st)

  abbrev Parts : ℕ → String → Option Failure → Option (List HcmRecord) → SyncState B L → Type 0
  Parts now log_id fault answer st =
      run_batch_sync B L now log_id fault answer st
      ≡ await_answer now log_id answer (begin_batch now log_id fault st)

  -- The three ways in which a run begins.
  pub begin_batch_busy :
      (now : ℕ) (log_id : String) (fault : Option Failure) (st : SyncState B L)
      → st.batch_running ≡ true
      → begin_batch now log_id fault st ≡ (ok false, st)
  unfolding begin_batch
  begin_batch_busy now log_id fault st busy =
      ap
        (λ b.
          if b then (ok false, st) else elim (save_log B L fault (started_log now log_id) st.logs) [
            | err e ↦ (err e, record st { batch_running = true })
            | ok logs ↦ (ok true, record st { logs = logs; batch_running = true })
          ])
        busy

  pub begin_batch_idle :
      (now : ℕ) (log_id : String) (fault : Option Failure) (st : SyncState B L)
      (saved : Result L.Table)
      → st.batch_running ≡ false
      → save_log B L fault (started_log now log_id) st.logs ≡ saved
      → begin_batch now log_id fault st ≡ elim saved [
        | err e ↦ (err e, record st { batch_running = true })
        | ok logs ↦ (ok true, record st { logs = logs; batch_running = true })
      ]
  unfolding begin_batch
  begin_batch_idle now log_id fault st saved idle e =
      ap
        (λ b.
          if b then (ok false, st) else elim (save_log B L fault (started_log now log_id) st.logs) [
            | err e ↦ (err e, record st { batch_running = true })
            | ok logs ↦ (ok true, record st { logs = logs; batch_running = true })
          ])
        idle
      ∙ ap
          (λ (r : Result L.Table). elim r [
            | err e ↦ (err e, record st { batch_running = true })
            | ok logs ↦ (ok true, record st { logs = logs; batch_running = true })
          ])
          e

  fields-Parts :
      (now : ℕ) (log_id : String) (fault : Option Failure) (answer : Option (List HcmRecord))
      (balances : B.Table) (logs : L.Table) (running : Bool)
      → Parts now log_id fault answer
          (record { balances = balances; logs = logs; batch_running = running })
  unfolding run_batch_sync end_batch
  fields-Parts now log_id fault answer balances logs true =
      let st : SyncState B L = record { balances = balances; logs = logs; batch_running = true } in
      sym (ap (await_answer now log_id answer) (begin_batch_busy now log_id fault st refl))
  fields-Parts now log_id fault answer balances logs false =
      let st : SyncState B L = record { balances = balances; logs = logs; batch_running = false } in
      elim (Result-cases (save_log B L fault (started_log now log_id) logs)) [
        | inl (saved, e) ↦
            let begun = begin_batch_idle now log_id fault st (ok saved) refl e in
            elim answer as (λ a. Parts now log_id fault a st) [
              | none ↦ rw e (sym (ap (await_answer now log_id none) begun))
              | some recs ↦ rw e (sym (ap (await_answer now log_id (some recs)) begun))
            ]
        | inr (failure, e) ↦
            let begun = begin_batch_idle now log_id fault st (err failure) refl e in
            rw e (sym (ap (await_answer now log_id answer) begun))
      ]

  -- A run that nothing interrupts is its two parts: what `runBatchSync` does until it awaits the HCM
  -- and, if it gets there, what it does with the answer.
  pub run_batch_sync-parts :
      (now : ℕ) (log_id : String) (fault : Option Failure) (answer : Option (List HcmRecord))
      (st : SyncState B L)
      → run_batch_sync B L now log_id fault answer st
        ≡ await_answer now log_id answer (begin_batch now log_id fault st)
  run_batch_sync-parts now log_id fault answer st =
      fields-Parts now log_id fault answer st.balances st.logs st.batch_running
