-- ===== src/Hcm/Client/Failures.antt =====
-- A call of HcmService (src/modules/hcm/hcm.service.js) whose attempts all fail.
use leave_ledger.Common.{
  ℕ, zero, suc, ◌+◌, ◌≤◌, ◌<◌, ◌≡◌, ◌⊎◌, inl, inr, refl, sym, subst, true, none, some, leb,
  Bool-cases, arith,
}
use leave_ledger.Constants.{CircuitState, circuit_eq}
use leave_ledger.Hcm.Circuit.{Breaker, begin, on_failure, reopens_at}
use leave_ledger.Hcm.Retry.{
  HcmError, Outcome, threw, circuit_open, is_retryable, with_retry, with_retry-again,
  with_retry-stop,
}
use leave_ledger.Hcm.Client.{Client, HcmCall, breaker_call, call_with_resilience}

module _ {ℓ} {Body : Type ℓ} (c : Client Body) (request : HcmCall) where
  -- Every attempt fails in a way that is tried again.
  abbrev pub AllFail : Type ℓ
  AllFail = (n : ℕ) → (e : HcmError) × (c.http request n ≡ threw e) × (is_retryable e ≡ true)

  -- The next attempt starts before the cooldown after the last one's end is over, at a time that is
  -- not the epoch's first millisecond.
  abbrev pub Prompt : Type 0
  Prompt = (n : ℕ) → (0 < c.ends n) × (c.starts (n + 1) < c.ends n + c.circuit_reset_ms)

  module _ (failing : AllFail) (prompt : Prompt) where
    refused_attempt :
        (n : ℕ) (b : Breaker) (t : ℕ)
        → b.state ≡ CircuitState.opened
        → b.opened_at ≡ some t
        → 0 < t
        → c.starts n < t + c.circuit_reset_ms
        → breaker_call c request n b ≡ (threw circuit_open, b)
    unfolding breaker_call begin reopens_at circuit_eq
    refused_attempt n b zero state time positive early = absurd (omega arith)
    refused_attempt n b (suc t) state time positive early = ground arith

    refused :
        (left n : ℕ) (b : Breaker) (t : ℕ)
        → b.state ≡ CircuitState.opened
        → b.opened_at ≡ some t
        → 0 < t
        → c.starts n < t + c.circuit_reset_ms
        → with_retry (breaker_call c request) left n b ≡ (threw circuit_open, b)
    unfolding with_retry is_retryable
    refused zero n b t state time positive early = refused_attempt n b t state time positive early
    refused (suc left) n b t state time positive early =
        with_retry-stop (breaker_call c request) left n b b circuit_open
          (refused_attempt n b t state time positive early) refl

    failed_attempt :
        (n : ℕ) (b : Breaker)
        → b.state ≡ CircuitState.closed
        → breaker_call c request n b
          ≡ (threw (failing n).0, on_failure c.circuit_threshold c.circuit_reset_ms (c.ends n) b)
    unfolding breaker_call begin circuit_eq
    failed_attempt n b state = ground (arith, (failing n).1)

    failed_again :
        (left n : ℕ) (b : Breaker)
        → b.state ≡ CircuitState.closed
        → with_retry (breaker_call c request) (suc left) n b
          ≡ with_retry
              (breaker_call c request)
              left
              (n + 1)
              (on_failure c.circuit_threshold c.circuit_reset_ms (c.ends n) b)
    unfolding with_retry
    failed_again left n b state =
        with_retry-again (breaker_call c request) left n b _ (failing n).0
          (failed_attempt n b state) (failing n).2

    -- What one failure does to a closed breaker.
    counted :
        (now : ℕ) (b : Breaker)
        → b.state ≡ CircuitState.closed
        → b.failure_count < c.circuit_threshold
        → let b' = on_failure c.circuit_threshold c.circuit_reset_ms now b in
          (b.failure_count + 1 < c.circuit_threshold)
            × (b'.state ≡ CircuitState.closed)
            × (b'.failure_count ≡ b.failure_count + 1)
          ⊎ (c.circuit_threshold ≡ b.failure_count + 1)
            × (b'.state ≡ CircuitState.opened)
            × (b'.failure_count ≡ c.circuit_threshold)
            × (b'.opened_at ≡ some now)
    unfolding on_failure circuit_eq
    counted now b state few = elim (Bool-cases (leb c.circuit_threshold (b.failure_count + 1))) [
      | inl enough ↦ inr (ground arith, ground arith, ground arith, ground arith)
      | inr fewer ↦ inl (ground arith, ground arith, ground arith)
    ]

    abbrev Counted : ℕ → ℕ → Breaker → Type 0
    Counted count tries b' =
        (count + tries < c.circuit_threshold)
          × (b'.state ≡ CircuitState.closed)
          × (b'.failure_count ≡ count + tries)
        ⊎ (c.circuit_threshold ≤ count + tries)
          × (b'.state ≡ CircuitState.opened)
          × (b'.failure_count ≡ c.circuit_threshold)

    abbrev Failed : ℕ → ℕ → Outcome Body × Breaker → Type ℓ
    Failed count tries (outcome, b') =
        ((e : HcmError) × (outcome ≡ threw e)) × Counted count tries b'

    fails :
        (left n : ℕ) (b : Breaker)
        → b.state ≡ CircuitState.closed
        → b.failure_count < c.circuit_threshold
        → Failed b.failure_count (left + 1) (with_retry (breaker_call c request) left n b)
    unfolding with_retry
    fails zero n b state few = subst (Failed b.failure_count 1) (sym (failed_attempt n b state)) (
      ((failing n).0, refl),
      elim (counted (c.ends n) b state few) [
        | inl kept ↦ inl kept
        | inr (full, opened, count, time) ↦ inr (omega arith, opened, count)
      ],
    )
    fails (suc left) n b state few =
        let b1 = on_failure c.circuit_threshold c.circuit_reset_ms (c.ends n) b in
        subst (Failed b.failure_count (suc left + 1)) (sym (failed_again left n b state))
          (elim (counted (c.ends n) b state few) [
            | inl (fewer, closed, count) ↦
                let (threw_some, rest) = fails left (n + 1) b1 closed (ground arith) in
                (
                  threw_some,
                  elim rest [
                    | inl x ↦ inl (ground arith, x.1, ground arith)
                    | inr y ↦ inr (ground arith, y.1, y.2)
                  ],
                )
            | inr (full, opened, count, time) ↦
                subst (Failed b.failure_count (suc left + 1))
                  (sym (refused left (n + 1) b1 (c.ends n) opened time (prompt n).0 (prompt n).1))
                  ((circuit_open, refl), inr (omega arith, opened, count))
          ])

    -- If every attempt of a call fails in a way that is tried again, and attempts follow each other
    -- within the cooldown, a closed breaker counts each attempt of the one call: the call returns
    -- `null`, and the breaker either is closed with all attempts added to its count, or opened at
    -- the threshold during the call, if the attempts reach it.
    pub call_with_resilience-failures :
        (b : Breaker)
        → b.state ≡ CircuitState.closed
        → b.failure_count < c.circuit_threshold
        → let (body, b') = call_with_resilience c request b in
          let total = b.failure_count + (c.more_attempts + 1) in
          (body ≡ none)
          × ((total < c.circuit_threshold)
                × (b'.state ≡ CircuitState.closed)
                × (b'.failure_count ≡ total)
              ⊎ (c.circuit_threshold ≤ total)
                × (b'.state ≡ CircuitState.opened)
                × (b'.failure_count ≡ c.circuit_threshold))
    unfolding call_with_resilience
    call_with_resilience-failures b state few =
        let ((e, threw_e), counts) = fails c.more_attempts 1 b state few in
        rw (call_with_resilience, threw_e) (refl, counts)
