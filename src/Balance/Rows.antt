-- ===== src/Balance/Rows.antt =====
-- Looking a balance up by its key, before and after a save.
use leave_ledger.Common.{
  ◌≡◌, refl, ◌↔◌, true, some, List, [], ◌∷◌, arith, if◌then◌else◌, first, put, first-passes, sym,
}
use leave_ledger.Constants.{LeaveType-Eq, leave_eq_iff}
use text.Mathlib.TextEquality.{eq_iff}
use leave_ledger.Balance.{BalanceKey, EmployeeBalance, key_eq, has_key, same_balance}

pub key_eq_iff : (k j : BalanceKey) → (key_eq k j ≡ true) ↔ (k ≡ j)
unfolding key_eq
key_eq_iff k j = ground (
  arith,
  eq_iff k.employee_id j.employee_id,
  eq_iff k.location_id j.location_id,
  leave_eq_iff k.leave_type j.leave_type,
)

pub key_eq_self : (k : BalanceKey) → key_eq k k ≡ true
key_eq_self k = (key_eq_iff k k).1 refl

pub first-key :
    (k : BalanceKey) (xs : List EmployeeBalance) (b : EmployeeBalance)
    → first (has_key k) xs ≡ some b
    → b.key ≡ k
first-key k xs b e = sym ((key_eq_iff k b.key).0 (first-passes (has_key k) xs b e))

-- After a save, the saved balance is found under its own key, and any other as before.
pub first-put :
    (k : BalanceKey) (b : EmployeeBalance) (xs : List EmployeeBalance)
    → first (has_key k) (put (same_balance b) b xs)
      ≡ (if key_eq k b.key then some b else first (has_key k) xs)
first-put k b [] = refl
first-put k b (x ∷ xs) =
    ground (arith, first-put k b xs, key_eq_iff k b.key, key_eq_iff k x.key, key_eq_iff b.key x.key)
