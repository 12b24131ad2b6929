-- ===== src/Hcm/Batch/Alone.antt =====
-- Runs of the batch synchronisation that are triggered, start and end while others are under way.
use leave_ledger.Common.{
  ℕ, zero, suc, ◌+◌, ◌≤◌, ◌≡◌, ◌⊎◌, refl, ap, sym, subst, String, Bool, true, false, inl, inr,
  Bool-cases, arith, Option, none, some, List, [], ◌∷◌, not, some_of, length, keep, if◌then◌else◌,
}
use leave_ledger.Common.Eq.{◌==◌, String-Eq}
use leave_ledger.Result.{
  Failure, Result, ok, err, Result-cases, or_throw, sync_in_progress, sqlite_constraint,
}
use leave_ledger.Balance.{BalanceRepository}
use leave_ledger.Hcm.Reconcile.{HcmRecord, LogRepository, started_log}
use leave_ledger.Hcm.Batch.{save_log}
use leave_ledger.Hcm.Batch.Manual.{
  Event, trigger, immediate, cron, answered, begin_batch_busy, begin_batch_idle, Runs, note_begun,
  begin_batch, trigger_manual_batch_sync, start_run, start_waiting, step, run_events,
}

-- Of one entry at most, none is left without it.
keep-one :
    (log_id : String) (ids : List String)
    → length ids ≤ 1
    → some_of (λ id. id == log_id) ids ≡ true
    → length (keep (λ id. not (id == log_id)) ids) ≡ 0
keep-one log_id [] h e = refl
keep-one log_id (id ∷ []) h e = ground arith
keep-one log_id (id ∷ other ∷ ids) h e = absurd (omega arith)

length-zero : (ids : List String) → length ids ≡ 0 → ids ≡ []
length-zero [] e = refl
length-zero (id ∷ ids) e = absurd (omega arith)

module _ (B : BalanceRepository) (L : LogRepository) where
  -- One run at most waits for the HCM, and the flag is set while it does.
  pub record IsAlone (s : Runs B L) : Type 0 where
    pub one : length s.in_flight ≤ 1
    pub marked : s.sync.batch_running ≡ false → length s.in_flight ≡ 0

  start_run-IsAlone :
      (now : ℕ) (log_id : String) (fault : Option Failure) (s : Runs B L)
      → IsAlone s
      → IsAlone (start_run B L now log_id fault s)
  unfolding start_run
  start_run-IsAlone now log_id fault s h = elim (Bool-cases s.sync.batch_running) [
    | inl busy ↦
        subst (λ b. IsAlone (note_begun B L log_id s b))
          (sym (begin_batch_busy B L now log_id fault s.sync busy)) h
    | inr idle ↦
        let none_yet = h.marked idle in
        elim (Result-cases (save_log B L fault (started_log now log_id) s.sync.logs)) [
          | inl (logs, saved) ↦
              subst (λ b. IsAlone (note_begun B L log_id s b))
                (sym (begin_batch_idle B L now log_id fault s.sync (ok logs) idle saved))
                (record { one = omega (arith, none_yet); marked = λ b. cc })
          | inr (failure, refused) ↦
              subst (λ b. IsAlone (note_begun B L log_id s b))
                (sym (begin_batch_idle B L now log_id fault s.sync (err failure) idle refused))
                (record { one = h.one; marked = λ b. cc })
        ]
  ]

  answered-IsAlone :
      (now : ℕ) (log_id : String) (answer : Option (List HcmRecord)) (s : Runs B L)
      → IsAlone s
      → IsAlone (step B L (answered now log_id answer) s)
  unfolding step
  answered-IsAlone now log_id answer s h =
      elim (Bool-cases (some_of (λ id. id == log_id) s.in_flight)) [
        | inl mine ↦
            let none_left = keep-one log_id s.in_flight h.one mine in
            rw mine (record { one = omega (arith, none_left); marked = λ b. none_left })
        | inr other ↦ rw other h
      ]

  start_waiting-IsAlone :
      (n now : ℕ) (log_id : String) (fault : Option Failure) (s : Runs B L)
      → IsAlone s
      → IsAlone (start_waiting B L n now log_id fault s)
  unfolding start_waiting
  start_waiting-IsAlone zero now log_id fault s h = h
  start_waiting-IsAlone (suc n) now log_id fault s h =
      start_run-IsAlone now log_id fault (record s { waiting = n })
        (record { one = h.one; marked = h.marked })

  -- The answers of a trigger.
  abbrev trigger_answer : Runs B L → Bool → Result (Unit {0}) × Runs B L
  trigger_answer s running =
      if running then (err sync_in_progress, s) else (ok tt, record s { waiting = s.waiting + 1 })

  trigger-IsAlone : (s : Runs B L) → IsAlone s → IsAlone (trigger_manual_batch_sync B L s).1
  unfolding trigger_manual_batch_sync
  trigger-IsAlone s h = elim s.sync.batch_running as (λ b. IsAlone (trigger_answer s b).1) [
    | true ↦ h
    | false ↦ record { one = h.one; marked = h.marked }
  ]

  step-IsAlone : (e : Event) (s : Runs B L) → IsAlone s → IsAlone (step B L e s)
  unfolding step
  step-IsAlone trigger s h = trigger-IsAlone s h
  step-IsAlone (immediate now log_id fault) s h =
      start_waiting-IsAlone s.waiting now log_id fault s h
  step-IsAlone (cron now log_id fault) s h = start_run-IsAlone now log_id fault s h
  step-IsAlone (answered now log_id answer) s h = answered-IsAlone now log_id answer s h

  -- In every order of triggers, starts and answers, from a state with at most one run that waits for
  -- the HCM and the flag set while one does: at most one run waits for the HCM, and either none does or
  -- a trigger is refused.
  pub run_events-alone :
      (es : List Event) (s : Runs B L)
      → IsAlone s
      → let after = run_events B L es s in
        (length after.in_flight ≤ 1)
        × ((after.in_flight ≡ [])
            ⊎ (trigger_manual_batch_sync B L after ≡ (err sync_in_progress, after)))
  unfolding run_events trigger_manual_batch_sync
  run_events-alone [] s h = (
    h.one,
    elim (Bool-cases s.sync.batch_running) [
      | inl busy ↦ inr (ap (trigger_answer s) busy)
      | inr idle ↦ inl (length-zero s.in_flight (h.marked idle))
    ],
  )
  run_events-alone (e ∷ es) s h = run_events-alone es (step B L e s) (step-IsAlone e s h)

  -- A service with no run under way or kept.
  abbrev pub idle_runs : B.Table → L.Table → Runs B L
  idle_runs balances logs = record {
    sync = record { balances = balances; logs = logs; batch_running = false };
    waiting = 0;
    in_flight = [];
  }

  -- Two triggers of a service with no run under way are both answered with success. When the log row
  -- of the first run can be saved, that run awaits the HCM, and the call for the second one returns at
  -- once: the state is the one that a single trigger leads to.
  pub trigger_twice :
      (now later : ℕ) (first_id second_id : String) (balances : B.Table) (logs saved : L.Table)
      → L.insert (started_log now first_id) logs ≡ some saved
      → let s = idle_runs balances logs in
        let first = trigger_manual_batch_sync B L s in
        let once = run_events B L (trigger ∷ immediate now first_id none ∷ []) s in
        let twice =
          run_events B L
            (trigger ∷ trigger ∷ immediate now first_id none ∷ immediate later second_id none ∷ [])
            s in
        (first.0 ≡ ok tt)
        × ((trigger_manual_batch_sync B L first.1).0 ≡ ok tt)
        × (once.in_flight ≡ first_id ∷ [])
        × (twice ≡ once)
  unfolding run_events step trigger_manual_batch_sync start_waiting start_run save_log begin_batch
  trigger_twice now later first_id second_id balances logs saved inserted =
      let s = idle_runs balances logs in
      let log_saved : save_log B L none (started_log now first_id) logs ≡ ok saved =
        ap (λ o. or_throw o sqlite_constraint) inserted in
      let begun = begin_batch_idle B L now first_id none s.sync (ok saved) refl log_saved in
      let kept : Runs B L = record s { waiting = 1 } in
      (
        refl,
        refl,
        subst (λ b. (note_begun B L first_id s b).in_flight ≡ first_id ∷ []) (sym begun) refl,
        subst
            (λ b.
              let running = note_begun B L first_id kept b in
              start_waiting B L running.waiting later second_id none running
              ≡ note_begun B L first_id s b)
            (sym begun) refl,
      )
