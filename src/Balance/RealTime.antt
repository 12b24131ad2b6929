-- ===== src/Balance/RealTime.antt =====
-- applyHcmRealTimeUpdate of src/modules/balance/balance.service.js: what a total reported by the HCM
-- does to a balance.
use leave_ledger.Common.{
  ◌⊎◌, ℕ, ◌<◌, ◌+◌, ◌≡◌, true, false, Bool-cases, inl, inr, some, refl, arith,
}
use leave_ledger.Common.Int.{ℤ, pos, negsuc, pos_part, neg_part, ◌-ℤ◌, ◌≤ℤ◌, int_laws, ltb_ℤ}
use leave_ledger.Balance.{EmployeeBalance, HcmData, real_time, local_total}

infix 4 ◌<ℤ◌
abbrev pub ◌<ℤ◌ : ℤ → ℤ → Type 0
◌<ℤ◌ a b = pos_part a + neg_part b < pos_part b + neg_part a

-- A reported total more than 0.001 above the local one raises the available days by the drift, so
-- that the local total becomes the reported one; one more than 0.001 below it changes no amount and
-- flags the drift; within the tolerance nothing changes and nothing is flagged. The available days
-- never fall.
pub real_time_drift :
    (now : ℕ) (hcm : HcmData) (b : EmployeeBalance)
    → let b' = real_time now hcm b in
      let drift = hcm.total_balance -ℤ local_total b in
      (b.available_balance ≤ℤ b'.available_balance)
      × (b'.pending_balance ≡ b.pending_balance)
      × (b'.used_balance ≡ b.used_balance)
      × (((pos 1 <ℤ drift)
            × (local_total b' ≡ hcm.total_balance)
            × (b'.total_balance ≡ hcm.total_balance)
            × (b'.has_discrepancy ≡ false))
          ⊎ ((drift <ℤ negsuc 0)
              × (b'.available_balance ≡ b.available_balance)
              × (b'.has_discrepancy ≡ true)
              × (b'.discrepancy_amount ≡ some (local_total b -ℤ hcm.total_balance)))
          ⊎ ((negsuc 0 ≤ℤ drift)
              × (drift ≤ℤ pos 1)
              × (b'.available_balance ≡ b.available_balance)
              × (b'.has_discrepancy ≡ false)))
unfolding real_time
real_time_drift now hcm b =
    let drift = hcm.total_balance -ℤ local_total b in
    (
      grind int_laws,
      refl,
      refl,
      elim (Bool-cases (ltb_ℤ (pos 1) drift)) [
        | inl raised ↦ inl (ground arith, grind int_laws, grind int_laws, grind int_laws)
        | inr kept ↦ elim (Bool-cases (ltb_ℤ drift (negsuc 0))) [
          | inl lowered ↦ inr (inl (ground arith, grind int_laws, grind int_laws, grind int_laws))
          | inr within ↦ inr (inr (ground arith, ground arith, grind int_laws, grind int_laws))
        ]
      ],
    )
