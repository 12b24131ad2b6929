-- ===== src/Hcm/Batch/Run.antt =====
-- A run of runBatchSync: its counters, and the flag that keeps runs apart.
use leave_ledger.Common.{
  ℕ, ◌+◌, ◌≤◌, ◌≡◌, refl, Bool, Bool-cases, inl, inr, true, false, not, some, Option, String, List,
  [], ◌∷◌, map, keep, some_of, length, length-append, arith,
}
use leave_ledger.Common.Eq.{◌==◌, String-Eq}
use leave_ledger.Result.{Result, Failure, ok, err}
use leave_ledger.Balance.{BalanceKey, EmployeeBalance, BalanceRepository, has_key}
use leave_ledger.Hcm.Batch.{
  SyncState, reconcile_record, reconcile_all, flag_all, reconcile_batch, run_batch_sync, save_log,
}
use leave_ledger.Hcm.Reconcile.{
  HcmRecord, LogRepository, Tally, SyncError, no_tally, batch_key, count_record, count_missing,
  flag_missing,
}

-- Every record that was processed was updated, left alone or failed, with one error for each failure.
pub record IsTallied (c : Tally) : Type 0 where
  pub parts : c.updated + c.failed ≤ c.processed
  pub errors : length c.errors ≡ c.failed

count_record-IsTallied :
    (k : BalanceKey) (r : Result Bool) (c : Tally)
    → IsTallied c
    → IsTallied (count_record k r c) × ((count_record k r c).processed ≡ c.processed + 1)
unfolding count_record
count_record-IsTallied k (ok true) c h =
    (record { parts = omega (arith, h.parts); errors = h.errors }, refl)
count_record-IsTallied k (ok false) c h =
    (record { parts = omega (arith, h.parts); errors = h.errors }, refl)
count_record-IsTallied k (err e) c h = (
  record {
    parts = omega (arith, h.parts);
    errors = ground (arith, length-append c.errors (SyncError.record_failed k e ∷ []), h.errors);
  },
  refl,
)

count_missing-IsTallied :
    (k : BalanceKey) (c : Tally)
    → IsTallied c
    → IsTallied (count_missing k c) × ((count_missing k c).processed ≡ c.processed + 1)
unfolding count_missing
count_missing-IsTallied k c h = (
  record {
    parts = omega (arith, h.parts);
    errors = ground (arith, length-append c.errors (SyncError.balance_missing k ∷ []), h.errors);
  },
  refl,
)

-- The balances that the HCM's answer leaves out.
abbrev pub missing_from : List String → List EmployeeBalance → List EmployeeBalance
missing_from keys = keep (λ b. not (some_of (λ k. k == batch_key b.key) keys))

module _ (B : BalanceRepository) (now : ℕ) where
  reconcile_all-IsTallied :
      (rs : List HcmRecord) (c : Tally) (t : B.Table)
      → IsTallied c
      → IsTallied (reconcile_all B now rs c t).0
        × ((reconcile_all B now rs c t).0.processed ≡ c.processed + length rs)
  unfolding reconcile_all
  reconcile_all-IsTallied [] c t h = (h, omega arith)
  reconcile_all-IsTallied (r ∷ rs) c t h =
      let (updated, t') = reconcile_record B now r t in
      let (valid, more) = count_record-IsTallied r.key updated c h in
      let (all, total) = reconcile_all-IsTallied rs (count_record r.key updated c) t' valid in
      (all, ground arith)

  flag_all-IsTallied :
      (keys : List String) (bs : List EmployeeBalance) (c : Tally) (t : B.Table)
      → IsTallied c
      → IsTallied (flag_all B now keys bs c t).0
        × ((flag_all B now keys bs c t).0.processed ≡ c.processed + length (missing_from keys bs))
  unfolding flag_all
  flag_all-IsTallied keys [] c t h = (h, omega arith)
  flag_all-IsTallied keys (b ∷ bs) c t h =
      elim (Bool-cases (some_of (λ k. k == batch_key b.key) keys)) [
        | inl given ↦ rw (flag_all, given) (flag_all-IsTallied keys bs c t h)
        | inr missing ↦
            let (valid, more) = count_missing-IsTallied b.key c h in
            let (all, total) =
              flag_all-IsTallied keys bs (count_missing b.key c)
                (B.update (has_key b.key) (flag_missing now b) t) valid in
            rw (flag_all, missing) (all, ground arith)
      ]

  -- A batch processes every record of the HCM's answer and every local balance that the answer
  -- leaves out; updated and failed records are among those processed, and each failure has one
  -- entry in the error list.
  pub reconcile_batch-tally :
      (recs : List HcmRecord) (t : B.Table)
      → let (c, t') = reconcile_batch B now recs t in
        let (_, between) = reconcile_all B now recs no_tally t in
        (c.processed
          ≡ length recs
            + length (missing_from (map (λ r. batch_key r.key) recs) (B.find (λ b. true) between)))
        × (c.updated + c.failed ≤ c.processed)
        × (length c.errors ≡ c.failed)
  unfolding reconcile_batch
  reconcile_batch-tally recs t =
      let (c, between) = reconcile_all B now recs no_tally t in
      let keys = map (λ r. batch_key r.key) recs in
      let (valid, first_count) =
        reconcile_all-IsTallied recs no_tally t (record { parts = omega arith; errors = refl }) in
      let (all, total) = flag_all-IsTallied keys (B.find (λ b. true) between) c between valid in
      (omega (arith, total, first_count), all.parts, all.errors)

module _ (B : BalanceRepository) (L : LogRepository) where
  -- If saving the log row fails, the run's promise is rejected and the flag `_batchRunning` stays
  -- set: from then on every run returns at once and changes nothing.
  pub run_batch_sync-stuck :
      (now later : ℕ) (log_id other_id : String) (e : Failure) (fault : Option Failure)
      (answer other : Option (List HcmRecord)) (st : SyncState B L)
      → st.batch_running ≡ false
      → let (result, st') = run_batch_sync B L now log_id (some e) answer st in
        (result ≡ err e)
        × (st'.balances ≡ st.balances)
        × (run_batch_sync B L later other_id fault other st' ≡ (ok tt, st'))
  unfolding run_batch_sync save_log
  run_batch_sync-stuck now later log_id other_id e fault answer other st idle =
      rw (run_batch_sync, idle) (refl, refl, refl)
