-- ===== src/Limits/Tokens.antt =====
-- How many tokens src/common/utils/token-bucket-limiter.util.js gives out.
use leave_ledger.Common.{
  ℕ, ◌+◌, ◌-◌, ◌*◌, ◌≤◌, ◌≡◌, refl, subst, Option, List, [], ◌∷◌, leb, Bool-cases, inl, inr, arith,
  if◌then◌else◌,
}
use leave_ledger.Limits.{Bucket, new_bucket, or_given, refill, try_consume}

pub record Demand : Type 0 where
  pub tokens : ℕ
  pub now : ℕ

abbrev pub IsOrdered : ℕ → List Demand → Type 0
IsOrdered t [] = Unit
IsOrdered t (c ∷ cs) = (t ≤ c.now) × IsOrdered c.now cs

-- The time of the last demand.
abbrev pub ends_at : ℕ → List Demand → ℕ
ends_at t [] = t
ends_at t (c ∷ cs) = ends_at c.now cs

-- The tokens that were given out, and the bucket that is left.
abbrev pub given_out : List Demand → Bucket → ℕ × Bucket
given_out [] b = (0, b)
given_out (c ∷ cs) b =
    let (ok, left) = try_consume c.tokens c.now b in
    let (rest, end) = given_out cs left in ((if ok then c.tokens else 0) + rest, end)

-- A bucket within its capacity.
pub record IsFilled (b : Bucket) : Type 0 where
  pub within : b.tokens ≤ 1000 * b.capacity

-- What one demand does.
record IsServed (tokens now : ℕ) (b : Bucket) : Type 0 where
  paid :
      1000 * (if (try_consume tokens now b).0 then tokens else 0)
        + (try_consume tokens now b).1.tokens
      ≤ b.tokens + (now - b.last_refill) * b.refill_rate_per_sec
  within : (try_consume tokens now b).1.tokens ≤ 1000 * b.capacity
  capacity : (try_consume tokens now b).1.capacity ≡ b.capacity
  rate : (try_consume tokens now b).1.refill_rate_per_sec ≡ b.refill_rate_per_sec
  refilled : (try_consume tokens now b).1.last_refill ≡ now

try_consume-IsServed : (tokens now : ℕ) (b : Bucket) → IsServed tokens now b
unfolding try_consume
try_consume-IsServed tokens now b = elim (Bool-cases (leb (1000 * tokens) (refill now b).tokens)) [
  | inl enough ↦ record {
    paid = rw (try_consume, enough) (ground arith);
    within = rw (try_consume, enough) (omega arith);
    capacity = rw (try_consume, enough) refl;
    rate = rw (try_consume, enough) refl;
    refilled = rw (try_consume, enough) refl;
  }
  | inr short ↦ record {
    paid = rw (try_consume, short) (omega arith);
    within = rw (try_consume, short) (omega arith);
    capacity = rw (try_consume, short) refl;
    rate = rw (try_consume, short) refl;
    refilled = rw (try_consume, short) refl;
  }
]

elapsed : (a b c r : ℕ) → a ≤ b → b ≤ c → (b - a) * r + (c - b) * r ≡ (c - a) * r
elapsed a b c r h k = let parts : c - a ≡ (b - a) + (c - b) = omega arith in rw parts (omega arith)

ends_at-later : (cs : List Demand) (t : ℕ) → IsOrdered t cs → t ≤ ends_at t cs
ends_at-later [] t h = omega arith
ends_at-later (c ∷ cs) t h = omega (arith, h.0, ends_at-later cs c.now h.1)

given_out-paid :
    (cs : List Demand) (b : Bucket)
    → IsOrdered b.last_refill cs
    → IsFilled b
    → (1000 * (given_out cs b).0 + (given_out cs b).1.tokens
        ≤ b.tokens + (ends_at b.last_refill cs - b.last_refill) * b.refill_rate_per_sec)
      × ((given_out cs b).1.tokens ≤ 1000 * b.capacity)
given_out-paid [] b ordered v = (ground arith, v.within)
given_out-paid (c ∷ cs) b ordered v =
    let s = try_consume-IsServed c.tokens c.now b in
    let left = (try_consume c.tokens c.now b).1 in
    let (paid, within) =
      given_out-paid cs left (rw s.refilled ordered.1)
        (record { within = rw s.capacity s.within }) in
    let later = ends_at-later cs c.now ordered.1 in
    let time =
      elapsed b.last_refill c.now (ends_at c.now cs) b.refill_rate_per_sec ordered.0 later in
    let paid' : 1000 * (given_out cs left).0 + (given_out cs left).1.tokens
        ≤ left.tokens + (ends_at c.now cs - c.now) * b.refill_rate_per_sec =
      subst
        (λ t.
          1000 * (given_out cs left).0 + (given_out cs left).1.tokens
          ≤ left.tokens + (ends_at t cs - t) * b.refill_rate_per_sec)
        s.refilled
        (subst
          (λ r.
            1000 * (given_out cs left).0 + (given_out cs left).1.tokens
            ≤ left.tokens + (ends_at left.last_refill cs - left.last_refill) * r)
          s.rate paid) in
    (omega (arith, s.paid), omega (arith, within, s.capacity))

-- A bucket that was made at `start`, and demands by a clock that does not go back: the tokens given out
-- until the last of them, in thousandths, are at most the capacity and what the rate gave since the
-- start, and no more than the capacity is ever left.
pub given_out-bounded :
    (capacity rate : Option ℕ) (start : ℕ) (cs : List Demand)
    → IsOrdered start cs
    → let b = new_bucket capacity rate start in
      (1000 * (given_out cs b).0
        ≤ 1000 * or_given capacity 10 + (ends_at start cs - start) * or_given rate 5)
      × ((given_out cs b).1.tokens ≤ 1000 * or_given capacity 10)
unfolding new_bucket
given_out-bounded capacity rate start cs ordered =
    let (paid, within) =
      given_out-paid cs (new_bucket capacity rate start) ordered
        (record { within = omega arith }) in
    (omega arith, within)
