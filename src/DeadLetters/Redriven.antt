-- ===== src/DeadLetters/Redriven.antt =====
-- redriveEligible of src/common/utils/dead-letter-queue.util.js against one pass over the messages.
use leave_ledger.Common.{
  ℕ, ◌+◌, ◌≡◌, ◌≢◌, refl, sym, ◌∙◌, subst, Bool, true, false, not, ◌||◌, Option, none, some, List,
  [], ◌∷◌, ◌++◌, String, leb, first, put, All, All-imp, Pairs, Pairs-put, Option-cases, Bool-cases,
  inl, inr, arith, if◌then◌else◌,
}
use leave_ledger.Common.Eq.{◌==◌, String-Eq, eq_of_same, eq_self}
use leave_ledger.DeadLetters.{
  Config, Letter, Letters, Item, has_id, is_eligible, can_retry, without, again, enqueue_valid,
  enqueue, Failure, Moment, error_category, error_message, calculate_next_retry,
}
use leave_ledger.DeadLetters.Redrive.{Attempt, Sweep, settle, redrive, sweep, redrive_eligible}
use leave_ledger.DeadLetters.Kept.{
  Pairs-keep, Pairs-middle, first-middle, put-middle, keep-middle, append_assoc_one,
}
use leave_ledger.DeadLetters.Valid.{IsSound, IsValid}

module _ {ℓ} {Payload : Type ℓ} (c : Config) (now : ℕ)
    (processor : Payload → String → Attempt) where
  abbrev pub attempt : Letter Payload → Attempt
  attempt r = processor r.payload r.channel

  abbrev pub item_of : Letter Payload → Option Failure → Item Payload
  item_of r error = record { id = r.id; channel = r.channel; payload = r.payload; error = error }

  -- A message with one more attempt behind it.
  abbrev pub refused_once : Option Failure → Moment → Letter Payload → Letter Payload
  refused_once error t r = record r {
    attempts = r.attempts + 1;
    last_error = record {
      category = error_category error;
      message = error_message error;
      timestamp = t.now;
    };
    updated_at = t.now;
    is_poison = leb c.max_retries (r.attempts + 1);
    next_retry_at = calculate_next_retry c t (r.attempts + 1);
  }

  -- A message after its turn: gone, rewritten, or as it was.
  abbrev pub visited : Letter Payload → List (Letter Payload)
  visited r =
      if is_eligible now r
      then elim ((attempt r).thrown) [
        | none ↦ []
        | some error ↦ refused_once error (attempt r).moment r ∷ []
      ]
      else r ∷ []

  abbrev pub visit_all : List (Letter Payload) → List (Letter Payload)
  visit_all [] = []
  visit_all (r ∷ rs) = visited r ++ visit_all rs

  -- The eligible messages that the processor takes.
  abbrev pub is_taken : Letter Payload → Bool
  is_taken r =
      if is_eligible now r
      then elim ((attempt r).thrown) [ none ↦ true | some e ↦ false ]
      else false

  abbrev pub count : (Letter Payload → Bool) → List (Letter Payload) → ℕ
  count p [] = 0
  count p (r ∷ rs) = (if p r then 1 else 0) + count p rs

  -- The eligible messages that it throws at.
  abbrev pub is_refused : Letter Payload → Bool
  is_refused r =
      if is_eligible now r
      then elim ((attempt r).thrown) [ none ↦ false | some e ↦ true ]
      else false

  abbrev IsDistinct : List (Letter Payload) → Type ℓ
  IsDistinct = Pairs (λ x y. x.id ≢ y.id)

  -- The message `r` in its place among others.
  module _ (done rs : List (Letter Payload)) (r : Letter Payload)
      (apart : IsDistinct (done ++ r ∷ rs)) where
    others : All (λ x. has_id r.id x ≡ false) done × All (λ x. has_id r.id x ≡ false) rs
    others =
        let (before, after) = Pairs-middle (λ x y. x.id ≢ y.id) done rs r apart in
        (
          All-imp (λ x. x.id ≢ r.id) (λ x. has_id r.id x ≡ false) done
              (λ x differs. not_same x differs) before,
          All-imp (λ x. r.id ≢ x.id) (λ x. has_id r.id x ≡ false) rs
              (λ x differs. not_same x (λ e. differs (sym e))) after,
        )
      where
        not_same : (x : Letter Payload) → x.id ≢ r.id → has_id r.id x ≡ false
        not_same x differs = elim (Bool-cases (has_id r.id x)) [
          | inl same ↦ absurd (differs (eq_of_same x.id r.id same))
          | inr other ↦ other
        ]

    found : first (has_id r.id) (done ++ r ∷ rs) ≡ some r
    found = first-middle (has_id r.id) r (eq_self r.id) done rs others.0

    gone : without r.id (done ++ r ∷ rs) ≡ done ++ rs
    gone = keep-middle (has_id r.id) r (eq_self r.id) done rs others.0 others.1

    rewritten : (r' : Letter Payload) → put (has_id r.id) r' (done ++ r ∷ rs) ≡ done ++ r' ∷ rs
    rewritten r' = put-middle (has_id r.id) r (eq_self r.id) r' done rs others.0

    module _ (d : Letters Payload) (e : d.messages ≡ done ++ r ∷ rs) where
      can_retry-found : can_retry r.id now d ≡ is_eligible now r
      unfolding can_retry
      can_retry-found = rw (can_retry, e, found) refl

      redrive-taken :
          (attempt r).thrown ≡ none
          → ((redrive c r.id processor d).0 ≡ true)
            × ((redrive c r.id processor d).1.messages ≡ done ++ rs)
      unfolding redrive settle
      redrive-taken taken = rw (redrive, e, found, settle, taken) (refl, rw e gone)

      redrive-refused :
          (error : Option Failure)
          → ((r.id == "") || (r.channel == "")) ≡ false
          → (attempt r).thrown ≡ some error
          → ((redrive c r.id processor d).0 ≡ false)
            × ((redrive c r.id processor d).1.messages
                ≡ done ++ again c (item_of r error) (attempt r).moment r ∷ rs)
      unfolding redrive settle enqueue
      redrive-refused error named refused =
          rw (redrive, e, found, settle, refused, enqueue, named, enqueue_valid, e, found)
            (refl, rw e (rewritten (again c (item_of r error) (attempt r).moment r)))

  -- What the loop has done from `s` on, with the messages before `rs` behind it.
  record IsVisited (done rs : List (Letter Payload)) (s after : Sweep Payload) : Type ℓ where
    messages : after.letters.messages ≡ done ++ visit_all rs
    succeeded : after.succeeded ≡ s.succeeded + count is_taken rs
    failed : after.failed ≡ s.failed + count is_refused rs

  sweep-IsVisited :
      (rs done : List (Letter Payload)) (s : Sweep Payload)
      → s.letters.messages ≡ done ++ rs
      → IsDistinct (done ++ rs)
      → All (IsSound c) rs
      → IsVisited done rs s (sweep c rs now processor s)
  unfolding sweep
  sweep-IsVisited [] done s e apart sound = record {
    messages = e;
    succeeded = omega arith;
    failed = omega arith;
  }
  sweep-IsVisited (r ∷ rs) done s e apart sound =
      let ready = can_retry-found done rs r apart s.letters e in
      elim (Bool-cases (is_eligible now r)) [
        | inr waits ↦
            let assoc = append_assoc_one done r rs in
            let v =
              sweep-IsVisited rs (done ++ r ∷ []) s (e ∙ assoc) (subst IsDistinct assoc apart)
                sound.1 in
            rw (sweep, ready, waits)
              (record {
                messages =
                    rw (visit_all, waits)
                      (v.messages ∙ sym (append_assoc_one done r (visit_all rs)));
                succeeded = ground (arith, v.succeeded);
                failed = ground (arith, v.failed);
              })
        | inl eligible ↦ elim (Option-cases (attempt r).thrown) [
          | inl taken ↦
              let (ok, left) = redrive-taken done rs r apart s.letters e taken in
              let apart' = subst IsDistinct (gone done rs r apart) (
                Pairs-keep (λ x y. x.id ≢ y.id) (λ x. not (has_id r.id x)) (done ++ r ∷ rs)
                  apart) in
              let next : Sweep Payload = record {
                succeeded = s.succeeded + 1;
                failed = s.failed;
                letters = (redrive c r.id processor s.letters).1;
              } in
              let v = sweep-IsVisited rs done next left apart' sound.1 in
              rw (sweep, ready, eligible, ok)
                (record {
                  messages = rw (visit_all, eligible, taken) v.messages;
                  succeeded = ground (arith, v.succeeded);
                  failed = ground (arith, v.failed);
                })
          | inr (error, refused) ↦
              let r' : Letter Payload = again c (item_of r error) (attempt r).moment r in
              let (ok, left) =
                redrive-refused done rs r apart s.letters e error sound.0.named refused in
              let apart' = subst IsDistinct (rewritten done rs r apart r') (
                Pairs-put (λ x y. x.id ≢ y.id) (has_id r.id) r r' (done ++ r ∷ rs)
                  (found done rs r apart) (λ y h. h) (λ y h. h) apart) in
              let assoc = append_assoc_one done r' rs in
              let next : Sweep Payload = record {
                succeeded = s.succeeded;
                failed = s.failed + 1;
                letters = (redrive c r.id processor s.letters).1;
              } in
              let v =
                sweep-IsVisited rs (done ++ r' ∷ []) next (left ∙ assoc)
                  (subst IsDistinct assoc apart') sound.1 in
              rw (sweep, ready, eligible, ok)
                (record {
                  messages =
                      rw (visit_all, eligible, refused)
                        (v.messages ∙ sym (append_assoc_one done r' (visit_all rs)));
                  succeeded = ground (arith, v.succeeded);
                  failed = ground (arith, v.failed);
                })
        ]
      ]

  -- On a queue in its invariant, redriveEligible does what one pass over the messages does: an eligible
  -- one that the processor takes is gone; an eligible one that it throws at keeps its place and
  -- identity, and has one more attempt, the error, the time, the time of its next try, and is poison
  -- once its attempts reach the limit; every other one stays as it is; and it counts the taken and the
  -- refused ones.
  pub redrive_eligible-visited :
      (d : Letters Payload)
      → IsValid c d
      → ((redrive_eligible c now processor d).letters.messages ≡ visit_all d.messages)
        × ((redrive_eligible c now processor d).succeeded ≡ count is_taken d.messages)
        × ((redrive_eligible c now processor d).failed ≡ count is_refused d.messages)
  unfolding redrive_eligible
  redrive_eligible-visited d v =
      let swept =
        sweep-IsVisited d.messages [] (record { succeeded = 0; failed = 0; letters = d }) refl
          v.distinct v.sound in
      (swept.messages, omega (arith, swept.succeeded), omega (arith, swept.failed))
