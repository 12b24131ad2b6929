-- ===== src/Hcm/Client.antt =====
-- src/modules/hcm/hcm.service.js: every request to the HCM is a call of the circuit breaker, retried
-- by `withRetry`, with `null` for a failure.
pub mod Failures
mod Tests
use leave_ledger.Common.{ℕ, ◌+◌, String, Option, none, some}
use leave_ledger.Common.Int.{ℤ}
use leave_ledger.Balance.{BalanceKey}
use leave_ledger.Hcm.Circuit.{Breaker, begin, on_success, on_failure}
use leave_ledger.Hcm.Retry.{HcmError, Outcome, returned, threw, circuit_open, with_retry}

-- The request configurations: method, URL and body.
pub data HcmCall : Type 0 where
  get_balance : BalanceKey → HcmCall
  validate : BalanceKey → ℤ → HcmCall
  approve reject : BalanceKey → ℤ → String → HcmCall
  batch : Option String → HcmCall

-- The environment's constructor arguments, and what HTTP does: the n-th attempt of a call starts and
-- ends at the given times and has an outcome.
pub record Client {ℓ} (Body : Type ℓ) : Type ℓ where
  pub circuit_threshold : ℕ
  pub circuit_reset_ms : ℕ
  -- `retryMaxAttempts - 1`
  pub more_attempts : ℕ
  pub starts : ℕ → ℕ
  pub ends : ℕ → ℕ
  pub http : HcmCall → ℕ → Outcome Body

module _ {ℓ} {Body : Type ℓ} (c : Client Body) where
  -- `circuitBreaker.call(config)`, from its start to its end.
  unfoldable pub breaker_call : HcmCall → ℕ → Breaker → Outcome Body × Breaker
  breaker_call request n b = elim (begin c.circuit_threshold c.circuit_reset_ms (c.starts n) b) [
    | none ↦ (threw circuit_open, b)
    | some b' ↦ elim (c.http request n) [
      | returned body ↦ (returned body, on_success c.circuit_threshold c.circuit_reset_ms b')
      | threw e ↦ (threw e, on_failure c.circuit_threshold c.circuit_reset_ms (c.ends n) b')
    ]
  ]

  -- _callWithResilience
  unfoldable pub call_with_resilience : HcmCall → Breaker → Option Body × Breaker
  call_with_resilience request b =
      let (outcome, b') = with_retry (breaker_call request) c.more_attempts 1 b in
      elim outcome [ returned body ↦ (some body, b') | threw e ↦ (none, b') ]

  -- getBalance
  unfoldable pub get_hcm_balance : BalanceKey → Breaker → Option Body × Breaker
  get_hcm_balance k = call_with_resilience (HcmCall.get_balance k)

  -- validateRequest
  unfoldable pub validate_request : BalanceKey → ℤ → Breaker → Option Body × Breaker
  validate_request k days = call_with_resilience (HcmCall.validate k days)

  -- notifyApproval
  unfoldable pub notify_approval : BalanceKey → ℤ → String → Breaker → Option Body × Breaker
  notify_approval k days id = call_with_resilience (HcmCall.approve k days id)

  -- notifyRejection
  unfoldable pub notify_rejection : BalanceKey → ℤ → String → Breaker → Option Body × Breaker
  notify_rejection k days id = call_with_resilience (HcmCall.reject k days id)

  -- getBatchBalances
  unfoldable pub get_batch_balances : Option String → Breaker → Option Body × Breaker
  get_batch_balances location_id = call_with_resilience (HcmCall.batch location_id)
