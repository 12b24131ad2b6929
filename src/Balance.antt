-- ===== src/Balance.antt =====
-- src/modules/balance: the employee_balances table and BalanceService.
-- Amounts are whole thousandths of a day (a DECIMAL of scale 2 and both drift tolerances are such);
-- the rounding of JavaScript's doubles is not modelled. A row is identified by its unique key
-- (employeeId, locationId, leaveType); its surrogate id, `version`, `createdAt` and `updatedAt` are
-- kept by the ORM and left out.
pub mod Rows
pub mod Conserved
pub mod Moves
pub mod Held
pub mod RealTime
pub mod Reach
mod Tests
use leave_ledger.Common.{
  ℕ, zero, ◌+◌, String, Bool, true, false, ◌&&◌, Option, none, some, List, [], map, ltb,
  if◌then◌else◌,
}
use leave_ledger.Common.Int.{ℤ, pos, negsuc, ◌+ℤ◌, ◌-ℤ◌, ltb_ℤ, abs}
use leave_ledger.Common.Eq.{◌==◌, String-Eq}
use leave_ledger.Constants.{LeaveType, LeaveType-Eq, stale_balance_threshold_ms}
use leave_ledger.Result.{
  Result, ok, err, ◌>>=◌, or_throw, throw_if, balance_not_found, insufficient_balance,
  balance_conflict, sqlite_constraint,
}
use leave_ledger.Database.{Repository}

-- The columns of the unique constraint.
pub record BalanceKey : Type 0 where
  pub employee_id : String
  pub location_id : String
  pub leave_type : LeaveType

pub record EmployeeBalance : Type 0 where
  pub key : BalanceKey
  pub total_balance : ℤ
  pub available_balance : ℤ
  pub pending_balance : ℤ
  pub used_balance : ℤ
  pub carry_over_balance : ℤ
  pub hcm_total_balance : ℤ
  pub hcm_last_sync : Option ℕ
  pub hcm_version : Option String
  pub has_discrepancy : Bool
  pub discrepancy_amount : Option ℤ

unfoldable pub key_eq : BalanceKey → BalanceKey → Bool
key_eq k j =
    k.employee_id == j.employee_id && k.location_id == j.location_id && k.leave_type == j.leave_type

-- `where: { employeeId, locationId, leaveType }`
abbrev pub has_key : BalanceKey → EmployeeBalance → Bool
has_key k b = key_eq k b.key

abbrev pub same_balance : EmployeeBalance → EmployeeBalance → Bool
same_balance b = has_key b.key

abbrev pub BalanceRepository : Type 1
BalanceRepository = Repository EmployeeBalance same_balance same_balance

-- `isStale` of src/common/utils/date.util.js, at the clock reading `now`.
unfoldable pub is_stale : ℕ → Option ℕ → ℕ → Bool
is_stale now none threshold_ms = true
is_stale now (some timestamp) threshold_ms = ltb (timestamp + threshold_ms) now

-- `x ? parseFloat(x) : null`
abbrev nonzero : Option ℤ → Option ℤ
nonzero none = none
nonzero (some (pos zero)) = none
nonzero (some x) = some x

-- What `_serialize` returns: the columns, with a discrepancy of zero as `null`, and the staleness.
pub record BalanceView : Type 0 where
  pub balance : EmployeeBalance
  pub stale : Bool

unfoldable pub serialize : ℕ → EmployeeBalance → BalanceView
unfolding is_stale
serialize now b = record {
  balance = record b { discrepancy_amount = nonzero b.discrepancy_amount };
  stale = is_stale now b.hcm_last_sync stale_balance_threshold_ms;
}

-- The real-time update's data: `{ totalBalance, version }`; an empty version counts as missing.
pub record HcmData : Type 0 where
  pub total_balance : ℤ
  pub version : Option String

-- `upsertBalance` creates the record with this content.
unfoldable pub new_balance : ℕ → BalanceKey → ℤ → EmployeeBalance
new_balance now k total = record {
  key = k;
  total_balance = total;
  available_balance = total;
  pending_balance = pos 0;
  used_balance = pos 0;
  carry_over_balance = pos 0;
  hcm_total_balance = total;
  hcm_last_sync = some now;
  hcm_version = none;
  has_discrepancy = false;
  discrepancy_amount = none;
}

-- The assignments of `atomicDeduct` to a loaded balance.
unfoldable pub deduct : ℤ → EmployeeBalance → EmployeeBalance
deduct days b = record b {
  available_balance = b.available_balance -ℤ days;
  pending_balance = b.pending_balance +ℤ days;
}

-- Those of `releaseFromPending`.
unfoldable pub release : ℤ → EmployeeBalance → EmployeeBalance
release days b = record b {
  pending_balance = b.pending_balance -ℤ days;
  available_balance = b.available_balance +ℤ days;
}

-- Those of `finalizeUsed`.
unfoldable pub finalize : ℤ → EmployeeBalance → EmployeeBalance
finalize days b = record b {
  pending_balance = b.pending_balance -ℤ days;
  used_balance = b.used_balance +ℤ days;
}

-- `localTotal`
abbrev pub local_total : EmployeeBalance → ℤ
local_total b = b.used_balance +ℤ b.pending_balance +ℤ b.available_balance

-- Those of `applyHcmRealTimeUpdate`, whose drift tolerance is 0.001 of a day.
unfoldable pub real_time : ℕ → HcmData → EmployeeBalance → EmployeeBalance
unfolding abs
real_time now hcm b =
    let drift = hcm.total_balance -ℤ local_total b in
    let raised = ltb_ℤ (pos 1) drift in
    let lowered = ltb_ℤ drift (negsuc 0) in
    record b {
      available_balance = if raised then b.available_balance +ℤ drift else b.available_balance;
      total_balance = if raised then hcm.total_balance else b.total_balance;
      hcm_total_balance = hcm.total_balance;
      hcm_last_sync = some now;
      hcm_version = hcm.version;
      has_discrepancy = if raised then false else lowered;
      discrepancy_amount = if raised then none else if lowered then some (abs drift) else none;
    }

module _ (B : BalanceRepository) where
  -- getBalance
  unfoldable pub get_balance : ℕ → BalanceKey → B.Table → Result BalanceView
  get_balance now k t = do
    balance ← or_throw (B.find_one (has_key k) t) balance_not_found
    ok (serialize now balance)

  -- getBalancesForEmployee; the order by leave type is left to the database.
  unfoldable pub get_balances_for_employee : ℕ → String → String → B.Table → List BalanceView
  get_balances_for_employee now employee_id location_id t =
      map (serialize now)
        (B.find (λ b. b.key.employee_id == employee_id && b.key.location_id == location_id) t)

  -- atomicDeduct
  unfoldable pub atomic_deduct : BalanceKey → ℤ → B.Table → Result (EmployeeBalance × B.Table)
  atomic_deduct k days t = do
    balance ← or_throw (B.find_one (has_key k) t) balance_not_found
    throw_if (ltb_ℤ balance.available_balance days) insufficient_balance
        (ok (deduct days balance, B.save (deduct days balance) t))

  -- releaseFromPending
  unfoldable pub release_from_pending : BalanceKey → ℤ → B.Table → Result B.Table
  release_from_pending k days t = do
    balance ← or_throw (B.find_one (has_key k) t) balance_not_found
    throw_if (ltb_ℤ balance.pending_balance days) balance_conflict
        (ok (B.save (release days balance) t))

  -- finalizeUsed
  unfoldable pub finalize_used : BalanceKey → ℤ → B.Table → Result B.Table
  finalize_used k days t = do
    balance ← or_throw (B.find_one (has_key k) t) balance_not_found
    throw_if (ltb_ℤ balance.pending_balance days) balance_conflict
        (ok (B.save (finalize days balance) t))

  -- upsertBalance; a violated unique constraint surfaces as the driver's error.
  unfoldable pub upsert_balance : ℕ → BalanceKey → ℤ → B.Table → Result (BalanceView × B.Table)
  upsert_balance now k total t = elim (B.find_one (has_key k) t) [
    | some existing ↦ ok (serialize now existing, t)
    | none ↦ do
      t' ← or_throw (B.insert (new_balance now k total) t) sqlite_constraint
      ok (serialize now (new_balance now k total), t')
  ]

  -- applyHcmRealTimeUpdate; `null` when there is no such balance.
  unfoldable pub apply_hcm_real_time_update :
      ℕ → BalanceKey → HcmData → B.Table → Option EmployeeBalance × B.Table
  apply_hcm_real_time_update now k hcm t = elim (B.find_one (has_key k) t) [
    | none ↦ (none, t)
    | some balance ↦ (some (real_time now hcm balance), B.save (real_time now hcm balance) t)
  ]

  -- isBalanceStale
  unfoldable pub is_balance_stale : ℕ → BalanceKey → B.Table → Bool
  unfolding is_stale
  is_balance_stale now k t = elim (B.find_one (has_key k) t) [
    | none ↦ true
    | some balance ↦ is_stale now balance.hcm_last_sync stale_balance_threshold_ms
  ]
