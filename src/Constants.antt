-- ===== src/Constants.antt =====
-- src/common/constants/index.js: the enumerations, the table of status transitions, and the time
-- constants at their default environment values.
use leave_ledger.Common.{ℕ, ◌*◌, ◌≡◌, ◌↔◌, Bool, List, [], ◌∷◌, true, arith}
use leave_ledger.Common.Eq.{Eq, ◌==◌, ℕ-Eq}

pub data LeaveType : Type 0 where
  vacation sick personal maternity paternity bereavement : LeaveType

pub data RequestStatus : Type 0 where
  pending approved rejected cancelled : RequestStatus

pub data HcmSyncStatus : Type 0 where
  pending success failed skipped : HcmSyncStatus

pub data SyncLogStatus : Type 0 where
  started completed failed partial : SyncLogStatus

pub data CircuitState : Type 0 where
  closed opened half_open : CircuitState

-- The enumerations are strings in the source, which `===` compares; here by a number each.
leave_rank : LeaveType → ℕ
leave_rank LeaveType.vacation = 0
leave_rank LeaveType.sick = 1
leave_rank LeaveType.personal = 2
leave_rank LeaveType.maternity = 3
leave_rank LeaveType.paternity = 4
leave_rank LeaveType.bereavement = 5

status_rank : RequestStatus → ℕ
status_rank RequestStatus.pending = 0
status_rank RequestStatus.approved = 1
status_rank RequestStatus.rejected = 2
status_rank RequestStatus.cancelled = 3

sync_rank : HcmSyncStatus → ℕ
sync_rank HcmSyncStatus.pending = 0
sync_rank HcmSyncStatus.success = 1
sync_rank HcmSyncStatus.failed = 2
sync_rank HcmSyncStatus.skipped = 3

circuit_rank : CircuitState → ℕ
circuit_rank CircuitState.closed = 0
circuit_rank CircuitState.opened = 1
circuit_rank CircuitState.half_open = 2

unfoldable pub circuit_eq : CircuitState → CircuitState → Bool
unfolding circuit_rank
circuit_eq a b = circuit_rank a == circuit_rank b

pub circuit_eq_iff : (a b : CircuitState) → (circuit_eq a b ≡ true) ↔ (a ≡ b)
unfolding circuit_eq
circuit_eq_iff a b = ground arith

instance abbrev pub CircuitState-Eq : Eq CircuitState
CircuitState-Eq = record { same = circuit_eq; same_iff = circuit_eq_iff }

unfoldable pub leave_eq : LeaveType → LeaveType → Bool
unfolding leave_rank
leave_eq a b = leave_rank a == leave_rank b

unfoldable pub status_eq : RequestStatus → RequestStatus → Bool
unfolding status_rank
status_eq a b = status_rank a == status_rank b

unfoldable pub sync_eq : HcmSyncStatus → HcmSyncStatus → Bool
unfolding sync_rank
sync_eq a b = sync_rank a == sync_rank b

pub leave_eq_iff : (a b : LeaveType) → (leave_eq a b ≡ true) ↔ (a ≡ b)
unfolding leave_eq
leave_eq_iff a b = ground arith

pub status_eq_iff : (a b : RequestStatus) → (status_eq a b ≡ true) ↔ (a ≡ b)
unfolding status_eq
status_eq_iff a b = ground arith

pub sync_eq_iff : (a b : HcmSyncStatus) → (sync_eq a b ≡ true) ↔ (a ≡ b)
unfolding sync_eq
sync_eq_iff a b = ground arith

instance abbrev pub LeaveType-Eq : Eq LeaveType
LeaveType-Eq = record { same = leave_eq; same_iff = leave_eq_iff }

instance abbrev pub RequestStatus-Eq : Eq RequestStatus
RequestStatus-Eq = record { same = status_eq; same_iff = status_eq_iff }

instance abbrev pub HcmSyncStatus-Eq : Eq HcmSyncStatus
HcmSyncStatus-Eq = record { same = sync_eq; same_iff = sync_eq_iff }

-- VALID_TRANSITIONS
unfoldable pub valid_transitions : RequestStatus → List RequestStatus
valid_transitions RequestStatus.pending =
    RequestStatus.approved ∷ RequestStatus.rejected ∷ RequestStatus.cancelled ∷ []
valid_transitions RequestStatus.approved = []
valid_transitions RequestStatus.rejected = []
valid_transitions RequestStatus.cancelled = []

-- BALANCE_STALE_THRESHOLD_HOURS and IDEMPOTENCY_TTL_HOURS are unset: 6 and 24 hours.
abbrev pub stale_balance_threshold_ms : ℕ
stale_balance_threshold_ms = 6 * 60 * 60 * 1000

abbrev pub idempotency_ttl_ms : ℕ
idempotency_ttl_ms = 24 * 60 * 60 * 1000
