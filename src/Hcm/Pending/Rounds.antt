-- ===== src/Hcm/Pending/Rounds.antt =====
-- What the retry job takes for a synchronised request (src/modules/hcm/hcm-sync.service.js).
use leave_ledger.Common.{◌≡◌, ◌⊎◌, inl, inr, true, Bool, Bool-cases, Option, some, arith}
use leave_ledger.Constants.{RequestStatus, HcmSyncStatus, status_eq_iff}
use leave_ledger.Entities.{TimeOffRequest}
use leave_ledger.Hcm.{Answers}
use leave_ledger.Hcm.Pending.{
  is_accepted, notify_patch, retry_validation_only, retry_approval_flow, retry_patch,
}

module _ (hcm : Answers) where
  -- A retried request is marked as synchronised only on the HCM's word: a pending one was validated,
  -- now or before; an approved one was validated, and the HCM took its approval.
  pub retry_patch-success :
      (r : TimeOffRequest)
      → (retry_patch hcm r).sync_status ≡ HcmSyncStatus.success
      → ((r.hcm_validated ≡ true) ⊎ (hcm.validation r ≡ some (some true)))
        × ((r.status ≡ RequestStatus.pending)
            ⊎ (r.status ≡ RequestStatus.approved)
              × ((s : Option Bool) × (hcm.approval r ≡ some s) × (is_accepted s ≡ true)))
  unfolding retry_patch retry_validation_only retry_approval_flow notify_patch
  retry_patch-success r e = elim (Bool-cases r.hcm_validated) [
    | inl before ↦ (inl before, ground (arith, status_eq_iff r.status RequestStatus.pending))
    | inr fresh ↦ (inr (ground arith), ground (arith, status_eq_iff r.status RequestStatus.pending))
  ]
