-- ===== src/Hcm/Retry.antt =====
-- src/common/utils/retry.util.js. The function that is retried runs on a state; the waiting between
-- attempts, with its jitter, is left out but for its bound `capped_delay`.
use leave_ledger.Common.{
  ◌≡◌, arith, ℕ, zero, suc, ◌+◌, ◌-◌, ◌*◌, ◌^◌, Bool, true, false, ◌&&◌, ◌||◌, not, ltb, leb, min,
  if◌then◌else◌,
}
use leave_ledger.Common.Eq.{◌==◌, ℕ-Eq}

-- What the attempts of an HCM call throw: the breaker's error, an HTTP status, or no response.
pub data HcmError : Type 0 where
  circuit_open no_response : HcmError
  http_status : ℕ → HcmError

pub data Outcome {ℓ} (A : Type ℓ) : Type ℓ where
  threw : HcmError → Outcome A
  returned : A → Outcome A

-- isRetryable
unfoldable pub is_retryable : HcmError → Bool
is_retryable circuit_open = false
is_retryable no_response = true
is_retryable (http_status status) =
    if status == 429 || status == 408 then true else not (leb 400 status && ltb status 500)

-- `cappedDelay` before the attempt after the given one.
unfoldable pub capped_delay : ℕ → ℕ → ℕ → ℕ
capped_delay base_delay max_delay attempt = min (base_delay * 2 ^ (attempt - 1)) max_delay

module _ {ℓ κ} {S : Type ℓ} {A : Type κ} (run : ℕ → S → Outcome A × S) where
  -- withRetry, at the attempt of that number, with `left` more allowed after it: `maxAttempts` is at
  -- least 1.
  unfoldable pub with_retry : ℕ → ℕ → S → Outcome A × S
  unfolding is_retryable
  with_retry zero attempt s = run attempt s
  with_retry (suc left) attempt s =
      let (outcome, s') = run attempt s in
      let again = with_retry left (attempt + 1) s' in
      elim outcome [
        | returned a ↦ (returned a, s')
        | threw e ↦ if is_retryable e then again else (threw e, s')
      ]

  -- retryWithBackoff
  unfoldable pub retry_with_backoff : (HcmError → Bool) → ℕ → ℕ → S → Outcome A × S
  retry_with_backoff should_retry zero attempt s = run attempt s
  retry_with_backoff should_retry (suc left) attempt s =
      let (outcome, s') = run attempt s in
      let again = retry_with_backoff should_retry left (attempt + 1) s' in
      elim outcome [
        | returned a ↦ (returned a, s')
        | threw e ↦ if should_retry e then again else (threw e, s')
      ]

  -- One attempt that throws: it is tried again, or its error is the result.
  pub with_retry-again :
      (left attempt : ℕ) (s s' : S) (e : HcmError)
      → run attempt s ≡ (threw e, s')
      → is_retryable e ≡ true
      → with_retry (suc left) attempt s ≡ with_retry left (attempt + 1) s'
  unfolding with_retry
  with_retry-again left attempt s s' e failed again = ground arith

  pub with_retry-stop :
      (left attempt : ℕ) (s s' : S) (e : HcmError)
      → run attempt s ≡ (threw e, s')
      → is_retryable e ≡ false
      → with_retry (suc left) attempt s ≡ (threw e, s')
  unfolding with_retry
  with_retry-stop left attempt s s' e failed final = ground arith
