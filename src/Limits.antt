-- ===== src/Limits.antt =====
-- src/common/utils/rate-limiter.util.js and token-bucket-limiter.util.js: a sliding window of the times of
-- requests, and a bucket of tokens. Times are whole milliseconds and a parameter of a call; tokens are
-- counted in thousandths, so that a rate of tokens per second is one of thousandths per millisecond.
pub mod Rate
pub mod Tokens
mod Tests
use leave_ledger.Common.{
  ℕ, zero, suc, ◌+◌, ◌-◌, ◌*◌, min, String, Bool, true, false, not, Option, none, some, List, [],
  ◌∷◌, ◌++◌, first, put, keep, length, ltb, leb, if◌then◌else◌,
}
use leave_ledger.Common.Eq.{◌==◌, String-Eq}

-- `x || y` for an option, where 0 is falsy.
abbrev pub or_given : Option ℕ → ℕ → ℕ
or_given none y = y
or_given (some zero) y = y
or_given (some (suc n)) y = suc n

-- RateLimiter
pub record Window : Type 0 where
  pub window_ms : ℕ
  pub max_requests : ℕ

unfoldable pub new_window : Option ℕ → Option ℕ → Window
new_window window_ms max_requests = record {
  window_ms = or_given window_ms 60000;
  max_requests = or_given max_requests 100;
}

pub record Hits : Type 0 where
  pub key : String
  pub timestamps : List ℕ

abbrev pub hits_at : String → Hits → Bool
hits_at key h = h.key == key

-- `this.hits.get(key) || []`
abbrev pub timestamps_of : String → List Hits → List ℕ
timestamps_of key hits = elim (first (hits_at key) hits) [ none ↦ [] | some h ↦ h.timestamps ]

pub record Answer : Type 0 where
  pub allowed : Bool
  pub remaining : ℕ
  pub reset_time_ms : Option ℕ
  pub total : ℕ

abbrev pub head {ℓ} : {A : Type ℓ} → List A → Option A
head [] = none
head (x ∷ xs) = some x

-- `timestamps[0] + this.windowMs`
abbrev pub reset_after : Window → List ℕ → Option ℕ
reset_after w [] = none
reset_after w (t ∷ ts) = some (t + w.window_ms)

-- `t > windowStart`, with `windowStart = now - this.windowMs`
abbrev pub is_recent : Window → ℕ → ℕ → Bool
is_recent w now t = ltb now (t + w.window_ms)

-- check
unfoldable pub check : Window → String → ℕ → List Hits → Answer × List Hits
check w key now hits =
    let timestamps = keep (is_recent w now) (timestamps_of key hits) in
    let pushed = timestamps ++ now ∷ [] in
    if leb w.max_requests (length timestamps)
    then (
      record {
        allowed = false;
        remaining = 0;
        reset_time_ms = reset_after w timestamps;
        total = length timestamps;
      },
      put (hits_at key) (record { key = key; timestamps = timestamps }) hits,
    )
    else (
      record {
        allowed = true;
        remaining = w.max_requests - length pushed;
        reset_time_ms = reset_after w pushed;
        total = length pushed;
      },
      put (hits_at key) (record { key = key; timestamps = pushed }) hits,
    )

-- reset and clear of RateLimiter
unfoldable pub reset_key : String → List Hits → List Hits
reset_key key = keep (λ h. not (hits_at key h))

-- TokenBucketLimiter
pub record Bucket : Type 0 where
  pub capacity : ℕ
  pub refill_rate_per_sec : ℕ
  -- In thousandths.
  pub tokens : ℕ
  pub last_refill : ℕ

unfoldable pub new_bucket : Option ℕ → Option ℕ → ℕ → Bucket
new_bucket capacity rate now = record {
  capacity = or_given capacity 10;
  refill_rate_per_sec = or_given rate 5;
  tokens = 1000 * or_given capacity 10;
  last_refill = now;
}

-- _refill, by a clock that does not go back
abbrev pub refill : ℕ → Bucket → Bucket
refill now b = record b {
  tokens = min (1000 * b.capacity) (b.tokens + (now - b.last_refill) * b.refill_rate_per_sec);
  last_refill = now;
}

-- tryConsume
unfoldable pub try_consume : ℕ → ℕ → Bucket → Bool × Bucket
try_consume tokens now b =
    let full = refill now b in
    if leb (1000 * tokens) full.tokens
    then (true, record full { tokens = full.tokens - 1000 * tokens })
    else (false, full)

-- getAvailableTokens, in thousandths: not rounded to two digits
unfoldable pub available_tokens : ℕ → Bucket → ℕ × Bucket
available_tokens now b = let full = refill now b in (full.tokens, full)
