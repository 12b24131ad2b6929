-- ===== src/Hcm/Batch/Drift.antt =====
-- _reconcileRecord: what a total of the HCM's batch does to a balance.
use leave_ledger.Common.{ℕ, ◌≡◌, ◌⊎◌, inl, inr, refl, true, false, some, Bool-cases}
use leave_ledger.Common.Int.{pos, negsuc, ◌-ℤ◌, ◌≤ℤ◌, int_laws, ltb_ℤ, abs}
use leave_ledger.Balance.{EmployeeBalance, local_total}
use leave_ledger.Balance.RealTime.{◌<ℤ◌}
use leave_ledger.Hcm.Reconcile.{HcmRecord, reconcile}

-- A batch total more than 0.01 above the local one raises the available days by the drift, so that
-- the local total becomes the reported one; one more than 0.01 below it changes no amount and flags
-- the drift; within the tolerance no amount changes, nothing is flagged and the record does not count
-- as updated. Pending and used days never change, and the available days never fall.
pub reconcile_drift :
    (now : ℕ) (hcm : HcmRecord) (b : EmployeeBalance)
    → let (updated, b') = reconcile now hcm b in
      let drift = hcm.total_balance -ℤ local_total b in
      (b.available_balance ≤ℤ b'.available_balance)
      × (b'.pending_balance ≡ b.pending_balance)
      × (b'.used_balance ≡ b.used_balance)
      × ((pos 10 <ℤ drift)
            × (updated ≡ true)
            × (local_total b' ≡ hcm.total_balance)
            × (b'.total_balance ≡ hcm.total_balance)
            × (b'.has_discrepancy ≡ false)
          ⊎ (drift <ℤ negsuc 9)
            × (updated ≡ true)
            × (b'.available_balance ≡ b.available_balance)
            × (b'.has_discrepancy ≡ true)
            × (b'.discrepancy_amount ≡ some (local_total b -ℤ hcm.total_balance))
          ⊎ (negsuc 9 ≤ℤ drift)
            × (drift ≤ℤ pos 10)
            × (updated ≡ false)
            × (b'.available_balance ≡ b.available_balance)
            × (b'.has_discrepancy ≡ false))
unfolding reconcile abs
reconcile_drift now hcm b =
    let drift = hcm.total_balance -ℤ local_total b in
    elim (Bool-cases (ltb_ℤ (pos 10) (abs drift))) [
      | inl far ↦ elim (Bool-cases (ltb_ℤ (pos 10) drift)) [
        | inl raised ↦
            rw (reconcile, far, raised)
              (grind int_laws, refl, refl, inl (grind int_laws, refl, grind int_laws, refl, refl))
        | inr lowered ↦
            rw (reconcile, far, lowered)
              (
                grind int_laws,
                refl,
                refl,
                inr (inl (grind int_laws, refl, refl, refl, grind int_laws)),
              )
      ]
      | inr near ↦
          rw (reconcile, near)
            (
              grind int_laws,
              refl,
              refl,
              inr (inr (grind int_laws, grind int_laws, refl, refl, refl)),
            )
    ]
