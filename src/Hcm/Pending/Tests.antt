-- ===== src/Hcm/Pending/Tests.antt =====
-- The retry job on the week of `TimeOff/Tests.antt`.
use leave_ledger.Common.{
  ℕ, zero, suc, ◌*◌, ◌≤◌, false, List, length, keep, All, arith, ◌≡◌, ◌⊎◌, refl, Bool, true, Option,
  none, some, [], ◌∷◌,
}
use leave_ledger.Constants.{RequestStatus, HcmSyncStatus, sync_eq}
use leave_ledger.Store.{list_database}
use leave_ledger.TimeOff.{approve}
use leave_ledger.TimeOff.Create.{new_request}
use leave_ledger.TimeOff.Tests.{approved_week}
use leave_ledger.Hcm.{Answers}
use leave_ledger.Hcm.Pending.{
  is_accepted, retry_patch, retry_row, retry_all, retry_pending_hcm_syncs, retry_approval_flow,
  notify_patch, update_sync_attempt, sync_pending,
}
use mathlib.Core.List.Perm
use leave_ledger.Hcm.Pending.Emptied.{Run, run_jobs, retry_pending_hcm_syncs-sync_pending}
use leave_ledger.Hcm.Pending.Rounds.{retry_patch-success}

abbrev willing : Answers
willing = record { validation = λ r. some (some true); approval = λ r. some none }

retry_week :
    retry_pending_hcm_syncs list_database.requests willing (λ rs. rs) 9 (approved_week ∷ [])
    ≡ record approved_week {
      hcm_sync_status = HcmSyncStatus.success;
      hcm_validated = true;
      hcm_sync_attempts = 1;
      hcm_last_sync_at = some 9;
    }
      ∷ []
unfolding retry_pending_hcm_syncs retry_all retry_row retry_patch retry_approval_flow notify_patch
    update_sync_attempt approve new_request sync_eq
retry_week = refl

week_success : (retry_patch willing approved_week).sync_status ≡ HcmSyncStatus.success
unfolding retry_patch retry_approval_flow notify_patch approve new_request
week_success = refl

retry_patch-success_example :
    ((approved_week.hcm_validated ≡ true) ⊎ (willing.validation approved_week ≡ some (some true)))
    × ((approved_week.status ≡ RequestStatus.pending)
        ⊎ (approved_week.status ≡ RequestStatus.approved)
          × ((s : Option Bool) × (willing.approval approved_week ≡ some s)
              × (is_accepted s ≡ true)))
retry_patch-success_example = retry_patch-success willing approved_week week_success

abbrev silent : Answers
silent = record { validation = λ r. none; approval = λ r. none }

-- Eleven runs without an answer.
abbrev times : ℕ → List Run
times zero = []
times (suc n) =
    record { hcm = silent; now = 9; order = λ rs. rs; permutes = λ rs. Perm.rfl } ∷ times n

one_pending : 11 * length (keep sync_pending (approved_week ∷ [])) ≤ length (times 11)
unfolding approve new_request sync_eq
one_pending = omega arith

retry_pending_hcm_syncs-sync_pending_example :
    All
      (λ r. sync_pending r ≡ false)
      (run_jobs list_database.requests (times 11) (approved_week ∷ []))
retry_pending_hcm_syncs-sync_pending_example =
    retry_pending_hcm_syncs-sync_pending list_database.requests (times 11) (approved_week ∷ [])
      (tt, tt) one_pending
