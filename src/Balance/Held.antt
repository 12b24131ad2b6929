-- ===== src/Balance/Held.antt =====
-- What atomicDeduct and releaseFromPending of src/modules/balance/balance.service.js do, in amounts.
use leave_ledger.Common.{◌≡◌, refl, false, some, arith}
use leave_ledger.Common.Int.{ℤ, ◌+ℤ◌, ◌-ℤ◌, ◌≤ℤ◌}
use leave_ledger.Balance.{BalanceKey, EmployeeBalance, BalanceRepository, key_eq, deduct, release}
use leave_ledger.Balance.Moves.{find_key, deduct-Updated, release-Updated}
use leave_ledger.Balance.Rows.{key_eq_iff}

module _ (B : BalanceRepository) (k : BalanceKey) (days : ℤ) (t t' : B.Table) where
  -- The days have gone from available to pending in the balance of `k`, and nowhere else.
  pub record IsHeld : Type 0 where
    pub before : EmployeeBalance
    pub after : EmployeeBalance
    pub found_before : find_key B k t ≡ some before
    pub covered : days ≤ℤ before.available_balance
    pub found_after : find_key B k t' ≡ some after
    pub available : after.available_balance ≡ before.available_balance -ℤ days
    pub pending : after.pending_balance ≡ before.pending_balance +ℤ days
    pub used : after.used_balance ≡ before.used_balance
    pub others : (j : BalanceKey) → key_eq j k ≡ false → find_key B j t' ≡ find_key B j t

  -- The days have gone back from pending to available in the balance of `k`, and nowhere else.
  pub record IsReturned : Type 0 where
    pub before : EmployeeBalance
    pub after : EmployeeBalance
    pub found_before : find_key B k t ≡ some before
    pub found_after : find_key B k t' ≡ some after
    pub available : after.available_balance ≡ before.available_balance +ℤ days
    pub pending : after.pending_balance ≡ before.pending_balance -ℤ days
    pub used : after.used_balance ≡ before.used_balance
    pub others : (j : BalanceKey) → key_eq j k ≡ false → find_key B j t' ≡ find_key B j t

module _ (B : BalanceRepository) (k : BalanceKey) (days : ℤ) (t : B.Table) (b : EmployeeBalance)
    (found : find_key B k t ≡ some b) where
  pub deduct-IsHeld : days ≤ℤ b.available_balance → IsHeld B k days t (B.save (deduct days b) t)
  unfolding deduct
  deduct-IsHeld covered = record {
    before = b;
    after = deduct days b;
    found_before = found;
    covered = covered;
    found_after = ground (arith, deduct-Updated B k days t b found k, key_eq_iff k k);
    available = refl;
    pending = refl;
    used = refl;
    others = λ j other. ground (arith, deduct-Updated B k days t b found j);
  }

  pub release-IsReturned : IsReturned B k days t (B.save (release days b) t)
  unfolding release
  release-IsReturned = record {
    before = b;
    after = release days b;
    found_before = found;
    found_after = ground (arith, release-Updated B k days t b found k, key_eq_iff k k);
    available = refl;
    pending = refl;
    used = refl;
    others = λ j other. ground (arith, release-Updated B k days t b found j);
  }
