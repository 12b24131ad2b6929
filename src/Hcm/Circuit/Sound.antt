-- ===== src/Hcm/Circuit/Sound.antt =====
-- The circuit breaker under any interleaving of the starts and ends of calls.
use leave_ledger.Common.{
  ℕ, ◌+◌, ◌<◌, ◌≡◌, ◌≢◌, inl, inr, refl, none, some, zero, suc, ltb, leb, ◌||◌, Bool-cases,
  if◌then◌else◌, arith,
}
use leave_ledger.Constants.{CircuitState, circuit_eq, circuit_eq_iff}
use leave_ledger.Hcm.Circuit.{
  Breaker, new_breaker, reset, begin, on_success, on_failure, reopens_at,
}

module _ (threshold cooldown : ℕ) where
  -- Closed, with fewer failures than the threshold and no times; or not closed, with both times.
  pub data IsSound (b : Breaker) : Type 0 where
    sound_closed :
        b.state ≡ CircuitState.closed
        → b.failure_count < threshold
        → b.opened_at ≡ none
        → b.next_attempt_at ≡ none
        → IsSound b
    sound_opened :
        (t : ℕ)
        → b.state ≢ CircuitState.closed
        → b.opened_at ≡ some t
        → b.next_attempt_at ≡ some (t + cooldown)
        → IsSound b

  pub data Step (b b' : Breaker) : Type 0 where
    began : (now : ℕ) → begin threshold cooldown now b ≡ some b' → Step b b'
    succeeded : on_success threshold cooldown b ≡ b' → Step b b'
    failed : (now : ℕ) → on_failure threshold cooldown now b ≡ b' → Step b b'
    was_reset : reset threshold cooldown b ≡ b' → Step b b'

  pub data Reach (b : Breaker) : Breaker → Type 0 where
    start : Reach b b
    extend : {c d : Breaker} → Reach b c → Step c d → Reach b d

  begin_time :
      (now : ℕ) (b : Breaker) (t : ℕ)
      → b.opened_at ≡ some t
      → b.next_attempt_at ≡ some (t + cooldown)
      → ltb now (reopens_at threshold cooldown now b) ≡ ltb now (t + cooldown)
  unfolding reopens_at
  begin_time now b zero time next = ground arith
  begin_time now b (suc t) time next = ground arith

  module _ (positive : 0 < threshold) where
    new_breaker-IsSound : IsSound (new_breaker threshold cooldown)
    unfolding new_breaker
    new_breaker-IsSound = sound_closed refl positive refl refl

    begin_open :
        (now : ℕ) (b : Breaker)
        → IsSound b
        → b.state ≡ CircuitState.opened
        → (t : ℕ) × (b.opened_at ≡ some t)
          × (begin threshold cooldown now b ≡ (
              if ltb now (t + cooldown)
              then none
              else some (record b { state = CircuitState.half_open })))
    unfolding begin reopens_at circuit_eq
    begin_open now b (sound_closed state few no_time no_next) is_open = absurd (ground arith)
    begin_open now b (sound_opened t state time next) is_open =
        (t, time, ground (arith, begin_time now b t time next))

    begin-IsSound :
        (now : ℕ) (b b' : Breaker)
        → IsSound b
        → begin threshold cooldown now b ≡ some b'
        → IsSound b'
    unfolding begin
    begin-IsSound now b b' (sound_closed state few no_time no_next) e =
        let not_opened = circuit_eq_iff b.state CircuitState.opened in
        sound_closed (ground arith) (ground arith) (ground arith) (ground arith)
    begin-IsSound now b b' (sound_opened t state time next) e =
        let opened = circuit_eq_iff b.state CircuitState.opened in
        sound_opened t (ground arith) (ground arith) (ground arith)

    on_success-IsSound :
        (b b' : Breaker) → IsSound b → on_success threshold cooldown b ≡ b' → IsSound b'
    unfolding on_success
    on_success-IsSound b b' (sound_closed state few no_time no_next) e =
        let half = circuit_eq_iff b.state CircuitState.half_open in
        sound_closed (ground arith) (ground arith) (ground arith) (ground arith)
    on_success-IsSound b b' (sound_opened t state time next) e =
        let half = circuit_eq_iff b.state CircuitState.half_open in
        elim (Bool-cases (circuit_eq b.state CircuitState.half_open)) [
          | inl trial ↦ sound_closed (ground arith) (ground arith) (ground arith) (ground arith)
          | inr still ↦ sound_opened t (ground arith) (ground arith) (ground arith)
        ]

    on_failure-IsSound :
        (now : ℕ) (b b' : Breaker)
        → IsSound b
        → on_failure threshold cooldown now b ≡ b'
        → IsSound b'
    unfolding on_failure
    on_failure-IsSound now b b' (sound_closed state few no_time no_next) e =
        let half = circuit_eq_iff b.state CircuitState.half_open in
        elim (Bool-cases (leb threshold (b.failure_count + 1))) [
          | inl enough ↦ sound_opened now (ground arith) (ground arith) (ground arith)
          | inr fewer ↦ sound_closed (ground arith) (ground arith) (ground arith) (ground arith)
        ]
    on_failure-IsSound now b b' (sound_opened t state time next) e =
        let half = circuit_eq_iff b.state CircuitState.half_open in
        elim (Bool-cases
          (circuit_eq b.state CircuitState.half_open || leb threshold (b.failure_count + 1))) [
            | inl opens ↦ sound_opened now (ground arith) (ground arith) (ground arith)
            | inr keeps ↦ sound_opened t (ground arith) (ground arith) (ground arith)
          ]

    reset-IsSound : (b b' : Breaker) → reset threshold cooldown b ≡ b' → IsSound b'
    unfolding reset
    reset-IsSound b b' e = sound_closed (ground arith) (ground arith) (ground arith) (ground arith)

    Step-IsSound : {b b' : Breaker} → Step b b' → IsSound b → IsSound b'
    Step-IsSound {b} {b'} (began now e) h = begin-IsSound now b b' h e
    Step-IsSound {b} {b'} (succeeded e) h = on_success-IsSound b b' h e
    Step-IsSound {b} {b'} (failed now e) h = on_failure-IsSound now b b' h e
    Step-IsSound {b} {b'} (was_reset e) h = reset-IsSound b b' e

    Reach-IsSound : {b b' : Breaker} → Reach b b' → IsSound b → IsSound b'
    Reach-IsSound start h = h
    Reach-IsSound (extend r s) h = Step-IsSound s (Reach-IsSound r h)

    -- However the starts, ends and resets of calls interleave since the breaker was made with a
    -- positive threshold: a closed breaker has counted fewer failures than the threshold and has no
    -- opening time; one that is not closed has the time it opened at, and while it is open it
    -- refuses every call before that time plus the cooldown, and lets the first one after through
    -- as half open.
    pub new_breaker-Reach :
        {b : Breaker}
        → Reach (new_breaker threshold cooldown) b
        → IsSound b
          × ((now : ℕ)
              → b.state ≡ CircuitState.opened
              → (t : ℕ) × (b.opened_at ≡ some t)
                × (begin threshold cooldown now b ≡ (
                    if ltb now (t + cooldown)
                    then none
                    else some (record b { state = CircuitState.half_open }))))
    new_breaker-Reach {b} r =
        let sound = Reach-IsSound r new_breaker-IsSound in
        (sound, λ now is_open. begin_open now b sound is_open)
