-- ===== src/TimeOff/Transitions.antt =====
-- The state machine of a request, as `_assertValidTransition` reads it from VALID_TRANSITIONS.
use leave_ledger.Common.{◌≡◌, ◌≢◌, ◌↔◌, true, arith}
use leave_ledger.Constants.{RequestStatus, status_eq}
use leave_ledger.TimeOff.{assert_valid_transition}

-- A transition is allowed exactly from PENDING to another status: no decided request changes again.
pub assert_valid_transition_iff :
    (current target : RequestStatus)
    → (assert_valid_transition current target ≡ true)
      ↔ ((current ≡ RequestStatus.pending) × (target ≢ RequestStatus.pending))
unfolding assert_valid_transition status_eq
assert_valid_transition_iff current target = grind arith
