-- ===== src/Hcm/Pending.antt =====
-- src/modules/hcm/hcm-sync.service.js, `retryPendingHcmSyncs` and its helpers. The client never throws
-- (`_callWithResilience` returns `null`), so that their `catch` handles database errors only, which
-- are left out here.
mod Tests
pub mod Rounds
pub mod Tries
pub mod Emptied
use leave_ledger.Common.{
  take, ℕ, zero, suc, ◌+◌, Bool, true, false, Option, none, some, List, [], ◌∷◌, leb, if◌then◌else◌,
}
use leave_ledger.Common.Eq.{◌==◌}
use leave_ledger.Constants.{RequestStatus, HcmSyncStatus, HcmSyncStatus-Eq}
use leave_ledger.Entities.{TimeOffRequest, has_id}
use leave_ledger.Store.{RequestRepository}
use leave_ledger.Hcm.{Answers}

-- MAX_PENDING_SYNC_RETRIES
abbrev pub max_pending_sync_retries : ℕ
max_pending_sync_retries = 10

-- The patch of an update: the status, and `hcmValidated` if the patch names it.
pub record Patch : Type 0 where
  pub sync_status : HcmSyncStatus
  pub validated : Option Bool

-- The columns that `_updateSyncAttempt` writes, for the request as it was loaded.
unfoldable pub update_sync_attempt : ℕ → TimeOffRequest → Patch → TimeOffRequest → TimeOffRequest
update_sync_attempt now loaded patch row = record row {
  hcm_sync_status = patch.sync_status;
  hcm_validated = elim patch.validated [ some v ↦ v | none ↦ row.hcm_validated ];
  hcm_sync_attempts = loaded.hcm_sync_attempts + 1;
  hcm_last_sync_at = some now;
}

-- `validation.valid === true`
abbrev pub is_valid : Option Bool → Bool
is_valid (some true) = true
is_valid _ = false

-- `approval.success !== false`
abbrev pub is_accepted : Option Bool → Bool
is_accepted (some false) = false
is_accepted _ = true

module _ (hcm : Answers) where
  -- `approval !== null && approval.success !== false`, after the validation.
  unfoldable pub notify_patch : TimeOffRequest → Patch
  notify_patch r = elim (hcm.approval r) [
    | none ↦ record { sync_status = HcmSyncStatus.pending; validated = some true }
    | some success ↦
        if is_accepted success
        then record { sync_status = HcmSyncStatus.success; validated = some true }
        else record { sync_status = HcmSyncStatus.pending; validated = some true }
  ]

  -- _retryValidationOnly
  unfoldable pub retry_validation_only : TimeOffRequest → Patch
  retry_validation_only r =
      let validation = if r.hcm_validated then some (some true) else hcm.validation r in
      elim validation [
        | none ↦ record { sync_status = HcmSyncStatus.pending; validated = none }
        | some valid ↦
            if is_valid valid
            then record { sync_status = HcmSyncStatus.success; validated = some true }
            else record { sync_status = HcmSyncStatus.failed; validated = some false }
      ]

  -- _retryApprovalFlow
  unfoldable pub retry_approval_flow : TimeOffRequest → Patch
  unfolding notify_patch
  retry_approval_flow r = if r.hcm_validated then notify_patch r else elim (hcm.validation r) [
    | none ↦ record { sync_status = HcmSyncStatus.pending; validated = none }
    | some valid ↦
        if is_valid valid
        then notify_patch r
        else record { sync_status = HcmSyncStatus.failed; validated = some false }
  ]

  -- The patch of one pending request with attempts left.
  unfoldable pub retry_patch : TimeOffRequest → Patch
  unfolding retry_validation_only retry_approval_flow
  retry_patch r = elim r.status [
    | RequestStatus.rejected ↦ record { sync_status = HcmSyncStatus.skipped; validated = none }
    | RequestStatus.cancelled ↦ record { sync_status = HcmSyncStatus.skipped; validated = none }
    | RequestStatus.pending ↦ retry_validation_only r
    | RequestStatus.approved ↦ retry_approval_flow r
  ]

  -- What an iteration of the loop writes to the row of the loaded request.
  unfoldable pub retry_row : ℕ → TimeOffRequest → TimeOffRequest → TimeOffRequest
  unfolding update_sync_attempt retry_patch
  retry_row now loaded row =
      if leb max_pending_sync_retries loaded.hcm_sync_attempts
      then record row { hcm_sync_status = HcmSyncStatus.failed; hcm_last_sync_at = some now }
      else update_sync_attempt now loaded (retry_patch loaded) row

-- `where: { hcmSyncStatus: PENDING }`
abbrev pub sync_pending : TimeOffRequest → Bool
sync_pending r = r.hcm_sync_status == HcmSyncStatus.pending

module _ (R : RequestRepository) (hcm : Answers) where
  -- The loop over the loaded requests.
  unfoldable pub retry_all : ℕ → List TimeOffRequest → R.Table → R.Table
  retry_all now [] t = t
  retry_all now (r ∷ rs) t = retry_all now rs (R.update (has_id r.id) (retry_row hcm now r) t)

  -- retryPendingHcmSyncs; `order` is the database's ordering by attempts and creation.
  unfoldable pub retry_pending_hcm_syncs :
      (List TimeOffRequest → List TimeOffRequest) → ℕ → R.Table → R.Table
  unfolding retry_all
  retry_pending_hcm_syncs order now t = retry_all now (take 50 (order (R.find sync_pending t))) t
