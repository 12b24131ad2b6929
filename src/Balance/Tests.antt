-- ===== src/Balance/Tests.antt =====
-- The theorems of BalanceService on a table of one balance, ten days of vacation.
use leave_ledger.Common.{◌≡◌, refl, some, List, [], ◌∷◌, arith}
use leave_ledger.Common.Int.{pos, ◌+ℤ◌, ◌-ℤ◌, ◌≤ℤ◌}
use leave_ledger.Constants.{LeaveType, leave_eq}
use leave_ledger.Result.{ok, err, insufficient_balance}
use leave_ledger.Database.{list_repository}
use leave_ledger.Balance.{
  BalanceKey, EmployeeBalance, BalanceRepository, HcmData, same_balance, key_eq, new_balance,
  deduct, real_time, atomic_deduct, release_from_pending, upsert_balance, serialize,
}
use leave_ledger.Balance.Moves.{find_key, release-deduct}
use leave_ledger.Balance.Reach.{Reach, Step}

abbrev list_balances : BalanceRepository
list_balances = list_repository same_balance same_balance

abbrev ten : BalanceKey
ten = record { employee_id = "e1"; location_id = "l1"; leave_type = LeaveType.vacation }

abbrev ten_days : EmployeeBalance
ten_days = new_balance 0 ten (pos 10_000)

upsert :
    upsert_balance list_balances 0 ten (pos 10_000) [] ≡ ok (serialize 0 ten_days, ten_days ∷ [])
unfolding upsert_balance
upsert = refl

take_four :
    atomic_deduct list_balances ten (pos 4000) (ten_days ∷ [])
    ≡ ok (deduct (pos 4000) ten_days, deduct (pos 4000) ten_days ∷ [])
unfolding atomic_deduct key_eq leave_eq new_balance deduct ◌-ℤ◌ ◌+ℤ◌
take_four = refl

-- More than there is, by a thousandth of a day.
take_too_much :
    atomic_deduct list_balances ten (pos 10_001) (ten_days ∷ []) ≡ err insufficient_balance
unfolding atomic_deduct key_eq leave_eq new_balance
take_too_much = refl

to_four : Reach list_balances [] (deduct (pos 4000) ten_days ∷ [])
to_four =
    Reach.next (Reach.next Reach.here (Step.upserted 0 ten (pos 10_000) _ (ground arith) upsert))
      (Step.deducted ten (pos 4000) _ (ground arith) take_four)

ten_found : find_key list_balances ten (ten_days ∷ []) ≡ some ten_days
unfolding new_balance key_eq leave_eq
ten_found = refl

ten_nonneg : pos 0 ≤ℤ ten_days.pending_balance
unfolding new_balance
ten_nonneg = ground arith

release-deduct_example :
    (t : List EmployeeBalance) × (release_from_pending list_balances ten
        (pos 4000)
        (deduct (pos 4000) ten_days ∷ [])
      ≡ ok t)
    × ((j : BalanceKey) → find_key list_balances j t ≡ find_key list_balances j (ten_days ∷ []))
release-deduct_example =
    release-deduct list_balances ten (pos 4000) (ten_days ∷ []) ten_days
      (deduct (pos 4000) ten_days ∷ []) (deduct (pos 4000) ten_days) ten_found ten_nonneg take_four

-- The HCM reports two days more.
abbrev bonus : HcmData
bonus = record { total_balance = pos 12_000; version = some "2" }

add_bonus : (real_time 5 bonus ten_days).available_balance ≡ pos 12_000
unfolding real_time new_balance ◌+ℤ◌ ◌-ℤ◌
add_bonus = refl
