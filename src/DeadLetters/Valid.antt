-- ===== src/DeadLetters/Valid.antt =====
-- What holds of a dead letter queue of src/common/utils/dead-letter-queue.util.js between two calls.
use leave_ledger.Common.{
  ℕ, ◌+◌, ◌*◌, ◌^◌, ◌≤◌, ◌<◌, ◌≡◌, ◌≢◌, refl, true, false, not, ◌||◌, none, some, List, [], ◌∷◌,
  String, first, length, length-append, length-keep, All, All-first, All-put, All-append, All-imp,
  Pairs, Pairs-put, Pairs-snoc, leb, min, Bool-cases, Option-cases, inl, inr, arith,
}
use native.Mathlib.Nat.{mul-le-mul_left}
use leave_ledger.Common.Eq.{◌==◌, String-Eq, eq_self}
use leave_ledger.DeadLetters.{
  Config, Moment, Letter, Letters, Item, calculate_next_retry, error_category, count_error, has_id,
  without, again, fresh, evict, enqueue_valid, enqueue,
}
use leave_ledger.DeadLetters.Kept.{
  All-keep, Pairs-keep, All-tail, Pairs-tail, length-tail, length-put, first-none,
}

-- Math.random() is below 1.
abbrev pub IsRandom : Moment → Type 0
IsRandom t = t.random < 2 ^ 53

abbrev pub total : List (String × ℕ) → ℕ
total [] = 0
total (x ∷ xs) = x.1 + total xs

total-count_error :
    (category : String) (xs : List (String × ℕ)) → total (count_error category xs) ≡ total xs + 1
total-count_error category [] = omega arith
total-count_error category (x ∷ xs) = ground (arith, total-count_error category xs)

module _ (c : Config) where
  -- The next retry comes at once or later, and at most the cap and a fifth of it later.
  pub calculate_next_retry-bounds :
      (t : Moment) (attempt : ℕ)
      → IsRandom t
      → (t.now ≤ calculate_next_retry c t attempt)
        × (5 * calculate_next_retry c t attempt ≤ 5 * t.now + 6 * c.max_backoff)
  unfolding calculate_next_retry
  calculate_next_retry-bounds t attempt h =
      let delay : ℕ = min (c.base_backoff * 2 ^ min attempt 10) c.max_backoff in
      let jitter : delay * t.random ≤ delay * 2 ^ 53 = mul-le-mul_left delay (omega arith) in
      (omega arith, omega arith)

  module _ {ℓ} {Payload : Type ℓ} where
    pub record IsSound (r : Letter Payload) : Type 0 where
      pub named : ((r.id == "") || (r.channel == "")) ≡ false
      pub attempted : 1 ≤ r.attempts
      pub poison : r.is_poison ≡ leb c.max_retries r.attempts
      pub later : r.updated_at ≤ r.next_retry_at
      pub soon : 5 * r.next_retry_at ≤ 5 * r.updated_at + 6 * c.max_backoff
      pub never_counted : r.redrive_count ≡ 0

    pub record IsValid (d : Letters Payload) : Type ℓ where
      pub sound : All IsSound d.messages
      pub distinct : Pairs (λ x y. x.id ≢ y.id) d.messages
      pub bounded : length d.messages ≤ c.max_capacity
      pub accounted : length d.messages + d.total_evicted ≤ d.total_enqueued
      pub classified : total d.taxonomy ≤ d.total_enqueued

    again-IsSound :
        (item : Item Payload) (t : Moment) (r : Letter Payload)
        → IsRandom t
        → IsSound r
        → IsSound (again c item t r)
    again-IsSound item t r random s =
        let (later, soon) = calculate_next_retry-bounds t (r.attempts + 1) random in
        record {
          named = s.named;
          attempted = omega arith;
          poison = refl;
          later = later;
          soon = soon;
          never_counted = s.never_counted;
        }

    fresh-IsSound :
        (item : Item Payload) (t : Moment)
        → IsRandom t
        → ((item.id == "") || (item.channel == "")) ≡ false
        → IsSound (fresh c item t)
    fresh-IsSound item t random good =
        let (later, soon) = calculate_next_retry-bounds t 1 random in
        record {
          named = good;
          attempted = omega arith;
          poison = refl;
          later = later;
          soon = soon;
          never_counted = refl;
        }

    module _ (item : Item Payload) (t : Moment) (d : Letters Payload) (v : IsValid d)
        (random : IsRandom t) where
      again-IsValid :
          (r : Letter Payload)
          → first (has_id item.id) d.messages ≡ some r
          → IsValid (enqueue_valid c item t d).1
      again-IsValid r found =
          let size = length-put (has_id item.id) r (again c item t r) d.messages found in
          let counted = total-count_error (error_category item.error) d.taxonomy in
          rw (enqueue_valid, found)
            (record {
              sound = All-put IsSound (has_id item.id) (again c item t r) d.messages v.sound (
                  again-IsSound item t r random
                    (All-first IsSound (has_id item.id) d.messages r v.sound found));
              distinct =
                  Pairs-put (λ x y. x.id ≢ y.id) (has_id item.id) r (again c item t r) d.messages
                    found (λ y h. h) (λ y h. h) v.distinct;
              bounded = omega (arith, v.bounded);
              accounted = omega (arith, v.accounted);
              classified = omega (arith, v.classified);
            })

      evict-IsValid :
          0 < c.max_capacity
          → All IsSound (evict c d).messages
            × Pairs (λ x y. x.id ≢ y.id) (evict c d).messages
            × (length (evict c d).messages + 1 ≤ c.max_capacity)
            × (length (evict c d).messages + (evict c d).total_evicted ≤ d.total_enqueued)
      evict-IsValid positive = elim (Bool-cases (leb c.max_capacity (length d.messages))) [
        | inl full ↦
            let size = length-tail d.messages in
            rw full (
              All-tail IsSound d.messages v.sound,
              Pairs-tail (λ x y. x.id ≢ y.id) d.messages v.distinct,
              ground (arith, v.bounded),
              ground (arith, v.accounted),
            )
        | inr space ↦ rw space (v.sound, v.distinct, ground arith, v.accounted)
      ]

      evict-counts :
          ((evict c d).total_enqueued ≡ d.total_enqueued)
          × (total (evict c d).taxonomy ≡ total d.taxonomy)
      evict-counts = elim (Bool-cases (leb c.max_capacity (length d.messages))) [
        | inl full ↦ rw full (refl, refl)
        | inr space ↦ rw space (refl, refl)
      ]

      evict-other :
          All (λ x. has_id item.id x ≡ false) d.messages
          → All (λ x. x.id ≢ item.id) (evict c d).messages
      evict-other h =
          let other =
            All-imp (λ x. has_id item.id x ≡ false) (λ x. x.id ≢ item.id) d.messages
              (λ x differs same.
                let found : (x.id == item.id) ≡ true = rw same (eq_self item.id) in cc)
              h in
          elim (Bool-cases (leb c.max_capacity (length d.messages))) [
            | inl full ↦ rw full (All-tail (λ x. x.id ≢ item.id) d.messages other)
            | inr space ↦ rw space other
          ]

      fresh-IsValid :
          0 < c.max_capacity
          → ((item.id == "") || (item.channel == "")) ≡ false
          → first (has_id item.id) d.messages ≡ none
          → IsValid (enqueue_valid c item t d).1
      fresh-IsValid positive good missing =
          let (sound, distinct, bounded, accounted) = evict-IsValid positive in
          let kept = (evict c d).messages in
          let size = length-append kept (fresh c item t ∷ []) in
          let counted = total-count_error (error_category item.error) (evict c d).taxonomy in
          let (enqueued, classified) = evict-counts in
          rw (enqueue_valid, missing)
            (record {
              sound =
                  All-append IsSound kept (fresh c item t ∷ []) sound
                    (fresh-IsSound item t random good, tt);
              distinct =
                  Pairs-snoc (λ x y. x.id ≢ y.id) kept (fresh c item t)
                    (evict-other (first-none (has_id item.id) d.messages missing)) distinct;
              bounded = omega arith;
              accounted = omega arith;
              classified = omega (arith, v.classified);
            })

      pub enqueue-IsValid : 0 < c.max_capacity → IsValid (enqueue c item t d).1
      unfolding enqueue
      enqueue-IsValid positive = elim (Bool-cases ((item.id == "") || (item.channel == ""))) [
        | inl bad ↦ rw (enqueue, bad) v
        | inr good ↦ elim (Option-cases (first (has_id item.id) d.messages)) [
          | inl missing ↦ rw (enqueue, good) (fresh-IsValid positive good missing)
          | inr (r, found) ↦ rw (enqueue, good) (again-IsValid r found)
        ]
      ]

    pub without-IsValid :
        (id : String) (d : Letters Payload) (redriven : ℕ)
        → IsValid d
        → IsValid (record d { messages = without id d.messages; total_redriven = redriven })
    without-IsValid id d redriven v =
        let fewer = length-keep (λ r. not (has_id id r)) d.messages in
        record {
          sound = All-keep IsSound (λ r. not (has_id id r)) d.messages v.sound;
          distinct = Pairs-keep (λ x y. x.id ≢ y.id) (λ r. not (has_id id r)) d.messages v.distinct;
          bounded = omega (arith, v.bounded);
          accounted = omega (arith, v.accounted);
          classified = v.classified;
        }
