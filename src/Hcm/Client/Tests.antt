-- ===== src/Hcm/Client/Tests.antt =====
-- HcmService against an HCM that does not answer, and the breaker that it drives.
use leave_ledger.Common.{
  ℕ, ◌+◌, ◌*◌, ◌≤◌, ◌<◌, ◌≡◌, ◌⊎◌, refl, none, some, if◌then◌else◌, ltb, arith,
}
use leave_ledger.Constants.{CircuitState, circuit_eq}
use leave_ledger.Hcm.Circuit.{Breaker, new_breaker, begin, on_success, on_failure}
use leave_ledger.Hcm.Circuit.Sound.{IsSound, Step, Reach, new_breaker-Reach}
use leave_ledger.Hcm.Retry.{threw, returned, no_response, http_status, is_retryable, with_retry}
use leave_ledger.Hcm.Client.{Client, HcmCall, call_with_resilience, breaker_call}
use leave_ledger.Hcm.Client.Failures.{AllFail, Prompt, call_with_resilience-failures}

-- The default configuration; attempts a second apart, each timing out after 10 ms.
abbrev silent : Client ℕ
silent = record {
  circuit_threshold = 5;
  circuit_reset_ms = 30_000;
  more_attempts = 2;
  starts = λ n. 1000 * n;
  ends = λ n. 1000 * n + 10;
  http = λ request n. threw no_response;
}

abbrev fresh : Breaker
fresh = new_breaker 5 30_000

silent-AllFail : AllFail silent (HcmCall.batch none)
unfolding is_retryable
silent-AllFail n = (no_response, refl, refl)

silent-Prompt : Prompt silent (HcmCall.batch none)
silent-Prompt n = (omega arith, omega arith)

-- An attempt that fails with the status 503, and one that returns.
second_try :
    call_with_resilience
      (record silent {
        http = λ request n. if ltb n 2 then threw (http_status 503) else returned 7;
      })
      (HcmCall.batch none)
      fresh
    ≡ (some 7, record fresh { success_count = 1 })
unfolding call_with_resilience with_retry breaker_call begin on_success on_failure circuit_eq
    new_breaker is_retryable
second_try = refl

fresh_closed : fresh.state ≡ CircuitState.closed
unfolding new_breaker
fresh_closed = refl

fresh_few : fresh.failure_count < 5
unfolding new_breaker
fresh_few = omega arith

call_with_resilience-failures_example :
    let (body, b') = call_with_resilience silent (HcmCall.batch none) fresh in
    let total = fresh.failure_count + (2 + 1) in
    (body ≡ none)
    × ((total < 5) × (b'.state ≡ CircuitState.closed) × (b'.failure_count ≡ total)
        ⊎ (5 ≤ total) × (b'.state ≡ CircuitState.opened) × (b'.failure_count ≡ 5))
call_with_resilience-failures_example =
    call_with_resilience-failures silent (HcmCall.batch none) silent-AllFail silent-Prompt fresh
      fresh_closed fresh_few

-- With a threshold of 1 the first failure opens the breaker.
abbrev tripped : Breaker
tripped = on_failure 1 30_000 500 (new_breaker 1 30_000)

tripped-Reach : Reach 1 30_000 (new_breaker 1 30_000) tripped
tripped-Reach = Reach.extend Reach.start (Step.failed 500 refl)

new_breaker-Reach_example :
    IsSound 1 30_000 tripped
    × ((now : ℕ)
        → tripped.state ≡ CircuitState.opened
        → (t : ℕ) × (tripped.opened_at ≡ some t)
          × (begin 1 30_000 now tripped ≡ (
              if ltb now (t + 30_000)
              then none
              else some (record tripped { state = CircuitState.half_open }))))
new_breaker-Reach_example = new_breaker-Reach 1 30_000 (omega arith) tripped-Reach
