-- ===== src/Hcm/Batch/Balanced.antt =====
-- The balances under the batch reconciliation of src/modules/hcm/hcm-sync.service.js.
use leave_ledger.Common.{
  ℕ, Bool, subst, ◌≡◌, Bool-cases, Option-cases, inl, inr, true, some, String, List, [], ◌∷◌, All,
  All-map_where, some_of, map, arith, Option,
}
use leave_ledger.Common.Eq.{◌==◌, String-Eq}
use leave_ledger.Common.Int.{pos, ◌-ℤ◌, ◌≤ℤ◌, int_laws, ltb_ℤ, ltb_ℤ→lt, parts_of_eq, abs}
use leave_ledger.Balance.{EmployeeBalance, BalanceRepository, has_key, new_balance, local_total}
use leave_ledger.Balance.Conserved.{IsBalanced, new_balance-IsBalanced}
use leave_ledger.Balance.Reach.{AllBalanced, find_key-IsBalanced, insert-AllBalanced}
use leave_ledger.Result.{Failure, Result-cases}
use leave_ledger.Hcm.Batch.{
  SyncState, reconcile_record, reconcile_all, flag_all, reconcile_batch, run_batch_sync, save_log,
}
use leave_ledger.Hcm.Reconcile.{
  HcmRecord, LogRepository, Tally, reconcile, flag_missing, no_tally, batch_key, started_log,
}

pub reconcile-IsBalanced :
    (now : ℕ) (hcm : HcmRecord) (b : EmployeeBalance)
    → IsBalanced b
    → IsBalanced (reconcile now hcm b).1
unfolding reconcile
reconcile-IsBalanced now hcm b h =
    let drift = hcm.total_balance -ℤ local_total b in
    elim (Bool-cases (ltb_ℤ (pos 10) (abs drift))) [
      | inl far ↦ elim (Bool-cases (ltb_ℤ (pos 10) drift)) [
        | inl raised ↦ rw (far, raised) (omega (int_laws, ltb_ℤ→lt (pos 10) drift raised))
        | inr kept ↦ rw (far, kept) (omega (int_laws, parts_of_eq _ _ h.conserved))
      ]
      | inr near ↦ rw near (omega (int_laws, parts_of_eq _ _ h.conserved))
    ]

pub flag_missing-IsBalanced :
    (now : ℕ) (loaded b : EmployeeBalance) → IsBalanced b → IsBalanced (flag_missing now loaded b)
unfolding flag_missing
flag_missing-IsBalanced now loaded b h = omega (int_laws, parts_of_eq _ _ h.conserved)

module _ (B : BalanceRepository) where
  -- The totals that the HCM reports are not negative.
  abbrev pub NonNegative : List HcmRecord → Type 0
  NonNegative = All (λ r. pos 0 ≤ℤ r.total_balance)

  abbrev pub created : ℕ → HcmRecord → EmployeeBalance
  created now r = record (new_balance now r.key r.total_balance) { hcm_version = r.version }

  pub created-IsBalanced :
      (now : ℕ) (r : HcmRecord) → pos 0 ≤ℤ r.total_balance → IsBalanced (created now r)
  created-IsBalanced now r nonneg =
      let h = new_balance-IsBalanced now r.key r.total_balance nonneg in
      record {
        conserved = h.conserved;
        available_nonneg = h.available_nonneg;
        pending_nonneg = h.pending_nonneg;
        used_nonneg = h.used_nonneg;
      }

  pub update-AllBalanced :
      (p : EmployeeBalance → Bool) (f : EmployeeBalance → EmployeeBalance) (t : B.Table)
      → AllBalanced B t
      → ((b : EmployeeBalance) → IsBalanced b → IsBalanced (f b))
      → AllBalanced B (B.update p f t)
  update-AllBalanced p f t h step =
      rw B.update-rows (All-map_where IsBalanced p f (B.rows t) (λ x hx e. step x hx) h)

  reconcile_record-AllBalanced :
      (now : ℕ) (r : HcmRecord) (t : B.Table)
      → pos 0 ≤ℤ r.total_balance
      → AllBalanced B t
      → AllBalanced B (reconcile_record B now r t).1
  unfolding reconcile_record
  reconcile_record-AllBalanced now r t nonneg h =
      elim (Option-cases (B.find_one (has_key r.key) t)) [
        | inr (b, found) ↦
            let same : B.update (has_key r.key) (λ row. (reconcile now r b).1) t
                ≡ (reconcile_record B now r t).1 =
              ground arith in
            subst (AllBalanced B) same (
              update-AllBalanced _ (λ row. (reconcile now r b).1) t h
                (λ x hx. reconcile-IsBalanced now r b (find_key-IsBalanced B r.key t b h found)))
        | inl missing ↦ elim (Option-cases (B.insert (created now r) t)) [
          | inl refused ↦
              let same : t ≡ (reconcile_record B now r t).1 = ground arith in
              subst (AllBalanced B) same h
          | inr (t', stored) ↦
              let same : t' ≡ (reconcile_record B now r t).1 = ground arith in
              subst (AllBalanced B) same (
                insert-AllBalanced B (created now r) t t' stored h
                  (created-IsBalanced now r nonneg))
        ]
      ]

  reconcile_all-AllBalanced :
      (now : ℕ) (rs : List HcmRecord) (c : Tally) (t : B.Table)
      → NonNegative rs
      → AllBalanced B t
      → AllBalanced B (reconcile_all B now rs c t).1
  unfolding reconcile_all
  reconcile_all-AllBalanced now [] c t nonneg h = h
  reconcile_all-AllBalanced now (r ∷ rs) c t nonneg h =
      reconcile_all-AllBalanced now rs _ _ nonneg.1
        (reconcile_record-AllBalanced now r t nonneg.0 h)

  flag_all-AllBalanced :
      (now : ℕ) (keys : List String) (bs : List EmployeeBalance) (c : Tally) (t : B.Table)
      → AllBalanced B t
      → AllBalanced B (flag_all B now keys bs c t).1
  unfolding flag_all
  flag_all-AllBalanced now keys [] c t h = h
  flag_all-AllBalanced now keys (b ∷ bs) c t h =
      elim (Bool-cases (some_of (λ k. k == batch_key b.key) keys)) [
        | inl given ↦ rw (flag_all, given) (flag_all-AllBalanced now keys bs c t h)
        | inr missing ↦
            rw (flag_all, missing)
              (flag_all-AllBalanced now keys bs _ _ (
                update-AllBalanced _ (flag_missing now b) t h
                  (λ x hx. flag_missing-IsBalanced now b x hx)))
      ]

  reconcile_batch-AllBalanced :
      (now : ℕ) (recs : List HcmRecord) (t : B.Table)
      → NonNegative recs
      → AllBalanced B t
      → AllBalanced B (reconcile_batch B now recs t).1
  unfolding reconcile_batch
  reconcile_batch-AllBalanced now recs t nonneg h =
      let (c, t') = reconcile_all B now recs no_tally t in
      flag_all-AllBalanced now (map (λ r. batch_key r.key) recs) (B.find (λ b. true) t') c t'
        (reconcile_all-AllBalanced now recs no_tally t nonneg h)

  module _ (L : LogRepository) where
    -- A run of runBatchSync, whatever its outcome (the HCM gives no answer, the log row is not saved,
    -- another run is on), keeps every balance conserved and not negative, if no total that the HCM
    -- reports is negative.
    pub run_batch_sync-AllBalanced :
        (now : ℕ) (log_id : String) (fault : Option Failure) (answer : Option (List HcmRecord))
        (st : SyncState B L)
        → ((recs : List HcmRecord) → answer ≡ some recs → NonNegative recs)
        → AllBalanced B st.balances
        → AllBalanced B (run_batch_sync B L now log_id fault answer st).1.balances
    unfolding run_batch_sync
    run_batch_sync-AllBalanced now log_id fault answer st nonneg h =
        elim (Bool-cases st.batch_running) [
          | inl busy ↦ rw (run_batch_sync, busy) h
          | inr idle ↦ elim (Result-cases (save_log B L fault (started_log now log_id) st.logs)) [
            | inl (logs, saved) ↦ elim (Option-cases answer) [
              | inl silent ↦ rw (run_batch_sync, idle, saved, silent) h
              | inr (recs, answered) ↦
                  let ran =
                    reconcile_batch-AllBalanced now recs st.balances (nonneg recs answered) h in
                  rw (run_batch_sync, idle, saved, answered) ran
            ]
            | inr (e, failed) ↦ rw (run_batch_sync, idle, failed) h
          ]
        ]
