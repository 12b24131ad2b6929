-- ===== src/Balance/Conserved.antt =====
-- The invariant of BalanceService (src/modules/balance/balance.service.js): available + pending + used
-- = total, and none of the three is negative; and the assignments to a loaded balance.
use leave_ledger.Common.{ℕ, ◌≡◌, Bool-cases, inl, inr}
use leave_ledger.Common.Int.{ℤ, pos, ◌+ℤ◌, ◌-ℤ◌, ◌≤ℤ◌, int_laws, ltb_ℤ, ltb_ℤ→lt, parts_of_eq}
use leave_ledger.Balance.{
  BalanceKey, EmployeeBalance, HcmData, new_balance, deduct, release, finalize, real_time,
  local_total,
}

pub record IsBalanced (b : EmployeeBalance) : Type 0 where
  pub conserved : b.available_balance +ℤ b.pending_balance +ℤ b.used_balance ≡ b.total_balance
  pub available_nonneg : pos 0 ≤ℤ b.available_balance
  pub pending_nonneg : pos 0 ≤ℤ b.pending_balance
  pub used_nonneg : pos 0 ≤ℤ b.used_balance

module _ (days : ℤ) (b : EmployeeBalance) (nonneg : pos 0 ≤ℤ days) (h : IsBalanced b) where
  pub deduct-IsBalanced : days ≤ℤ b.available_balance → IsBalanced (deduct days b)
  unfolding deduct
  deduct-IsBalanced covered = omega (int_laws, parts_of_eq _ _ h.conserved)

  pub release-IsBalanced : days ≤ℤ b.pending_balance → IsBalanced (release days b)
  unfolding release
  release-IsBalanced covered = omega (int_laws, parts_of_eq _ _ h.conserved)

  pub finalize-IsBalanced : days ≤ℤ b.pending_balance → IsBalanced (finalize days b)
  unfolding finalize
  finalize-IsBalanced covered = omega (int_laws, parts_of_eq _ _ h.conserved)

pub new_balance-IsBalanced :
    (now : ℕ) (k : BalanceKey) (total : ℤ) → pos 0 ≤ℤ total → IsBalanced (new_balance now k total)
unfolding new_balance
new_balance-IsBalanced now k total h = omega int_laws

pub real_time-IsBalanced :
    (now : ℕ) (hcm : HcmData) (b : EmployeeBalance)
    → IsBalanced b
    → IsBalanced (real_time now hcm b)
unfolding real_time
real_time-IsBalanced now hcm b h =
    let drift = hcm.total_balance -ℤ local_total b in
    elim (Bool-cases (ltb_ℤ (pos 1) drift)) [
      | inl raised ↦ rw raised (omega (int_laws, ltb_ℤ→lt (pos 1) drift raised))
      | inr kept ↦ rw kept (omega (int_laws, parts_of_eq _ _ h.conserved))
    ]
