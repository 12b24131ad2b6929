-- ===== src/Hcm/Circuit.antt =====
-- src/common/utils/circuit-breaker.util.js. `call` awaits the function that it wraps, so that calls
-- interleave: `begin` is its synchronous start, `on_success` and `on_failure` are its ends. The mirror
-- `_failures` of the failure count is left out, as are the timeout, which is one more failure, and
-- the fallback, which HcmService does not set.
pub mod Sound
use leave_ledger.Common.{
  ℕ, zero, suc, ◌+◌, ◌-◌, Bool, Option, none, some, ltb, leb, ◌||◌, if◌then◌else◌,
}
use leave_ledger.Common.Eq.{◌==◌}
use leave_ledger.Constants.{CircuitState, CircuitState-Eq}

pub record Breaker : Type 0 where
  pub state : CircuitState
  pub failure_count : ℕ
  pub opened_at : Option ℕ
  pub next_attempt_at : Option ℕ
  pub success_count : ℕ

module _ (failure_threshold cooldown_ms : ℕ) where
  -- The constructor; `reset` leaves the success count.
  unfoldable pub new_breaker : Breaker
  new_breaker = record {
    state = CircuitState.closed;
    failure_count = 0;
    opened_at = none;
    next_attempt_at = none;
    success_count = 0;
  }

  unfoldable pub reset : Breaker → Breaker
  reset b = record b {
    state = CircuitState.closed;
    failure_count = 0;
    opened_at = none;
    next_attempt_at = none;
  }

  -- When the cooldown ends: from `this._openedAt || (this._nextAttemptAt ? … : Date.now())`, where
  -- a time of 0 counts as missing.
  unfoldable pub reopens_at : ℕ → Breaker → ℕ
  reopens_at now b = elim b.opened_at [
    | some (suc t) ↦ suc t + cooldown_ms
    | _ ↦ elim b.next_attempt_at [ some (suc t) ↦ suc t | _ ↦ now + cooldown_ms ]
  ]

  -- The start of `call`: `none` is a CircuitBreakerOpenError.
  unfoldable pub begin : ℕ → Breaker → Option Breaker
  unfolding reopens_at
  begin now b =
      if b.state == CircuitState.opened
      then (if ltb now (reopens_at now b)
          then none
          else some (record b { state = CircuitState.half_open }))
      else some b

  -- _onSuccess
  unfoldable pub on_success : Breaker → Breaker
  on_success b =
      let half = b.state == CircuitState.half_open in
      record b {
        state = if half then CircuitState.closed else b.state;
        failure_count = 0;
        opened_at = if half then none else b.opened_at;
        next_attempt_at = if half then none else b.next_attempt_at;
        success_count = b.success_count + 1;
      }

  -- _onFailure
  unfoldable pub on_failure : ℕ → Breaker → Breaker
  on_failure now b =
      let count = b.failure_count + 1 in
      let opens = b.state == CircuitState.half_open || leb failure_threshold count in
      record b {
        state = if opens then CircuitState.opened else b.state;
        failure_count = count;
        opened_at = if opens then some now else b.opened_at;
        next_attempt_at = if opens then some (now + cooldown_ms) else b.next_attempt_at;
      }
