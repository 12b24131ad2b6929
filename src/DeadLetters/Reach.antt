-- ===== src/DeadLetters/Reach.antt =====
-- The dead letter queues that src/common/utils/dead-letter-queue.util.js reaches from a new one. The end of
-- a redrive is a step of its own, since other calls may run while its processor does.
use leave_ledger.Common.{
  ℕ, ◌+◌, ◌<◌, List, [], ◌∷◌, String, first, Option-cases, Bool-cases, inl, inr, arith,
}
use leave_ledger.DeadLetters.{
  Config, Options, configure, Letter, Letters, Item, Moment, new_letters, has_id, can_retry,
  enqueue, delete, clear,
}
use leave_ledger.DeadLetters.Redrive.{Attempt, Sweep, settle, redrive, sweep, redrive_eligible}
use leave_ledger.DeadLetters.Valid.{IsRandom, IsValid, enqueue-IsValid, without-IsValid}

module _ {ℓ} {Payload : Type ℓ} (c : Config) where
  pub data Reachable : Letters Payload → Type ℓ where
    start : Reachable new_letters
    enqueued :
        {d : Letters Payload} (item : Item Payload) (t : Moment)
        → IsRandom t
        → Reachable d
        → Reachable (enqueue c item t d).1
    settled :
        {d : Letters Payload} (r : Letter Payload) (a : Attempt)
        → IsRandom a.moment
        → Reachable d
        → Reachable (settle c r a d).1
    swept :
        {d : Letters Payload} (now : ℕ) (processor : Payload → String → Attempt)
        → ((p : Payload) (channel : String) → IsRandom (processor p channel).moment)
        → Reachable d
        → Reachable (redrive_eligible c now processor d).letters
    deleted : {d : Letters Payload} (id : String) → Reachable d → Reachable (delete id d)
    cleared : {d : Letters Payload} → Reachable d → Reachable (clear d)

  module _ (positive : 0 < c.max_capacity) where
    settle-IsValid :
        (r : Letter Payload) (a : Attempt) (d : Letters Payload)
        → IsRandom a.moment
        → IsValid c d
        → IsValid c (settle c r a d).1
    unfolding settle
    settle-IsValid r a d random v = elim (Option-cases a.thrown) [
      | inl done ↦ rw (settle, done) (without-IsValid c r.id d (d.total_redriven + 1) v)
      | inr (error, failed) ↦
          let item : Item Payload = record {
            id = r.id;
            channel = r.channel;
            payload = r.payload;
            error = error;
          } in
          rw (settle, failed) (enqueue-IsValid c item a.moment d v random positive)
    ]

    redrive-IsValid :
        (id : String) (processor : Payload → String → Attempt) (d : Letters Payload)
        → ((p : Payload) (channel : String) → IsRandom (processor p channel).moment)
        → IsValid c d
        → IsValid c (redrive c id processor d).1
    unfolding redrive
    redrive-IsValid id processor d random v = elim (Option-cases (first (has_id id) d.messages)) [
      | inl missing ↦ rw (redrive, missing) v
      | inr (r, found) ↦
          rw (redrive, found)
            (settle-IsValid r (processor r.payload r.channel) d (random r.payload r.channel) v)
    ]

    sweep-IsValid :
        (rs : List (Letter Payload)) (now : ℕ) (processor : Payload → String → Attempt)
        (s : Sweep Payload)
        → ((p : Payload) (channel : String) → IsRandom (processor p channel).moment)
        → IsValid c s.letters
        → IsValid c (sweep c rs now processor s).letters
    unfolding sweep
    sweep-IsValid [] now processor s random v = v
    sweep-IsValid (r ∷ rs) now processor s random v =
        elim (Bool-cases (can_retry r.id now s.letters)) [
          | inl ready ↦
              rw (sweep, ready)
                (sweep-IsValid rs now processor _ random
                  (redrive-IsValid r.id processor s.letters random v))
          | inr waits ↦ rw (sweep, waits) (sweep-IsValid rs now processor s random v)
        ]

    Reachable-IsValid : (d : Letters Payload) → Reachable d → IsValid c d
    unfolding redrive_eligible delete clear
    Reachable-IsValid d Reachable.start = record {
      sound = tt;
      distinct = tt;
      bounded = omega arith;
      accounted = omega arith;
      classified = omega arith;
    }
    Reachable-IsValid d (Reachable.enqueued {d = e} item t random r) =
        enqueue-IsValid c item t e (Reachable-IsValid e r) random positive
    Reachable-IsValid d (Reachable.settled {d = e} letter a random r) =
        settle-IsValid letter a e random (Reachable-IsValid e r)
    Reachable-IsValid d (Reachable.swept {d = e} now processor random r) =
        sweep-IsValid e.messages now processor (record { succeeded = 0; failed = 0; letters = e })
          random (Reachable-IsValid e r)
    Reachable-IsValid d (Reachable.deleted {d = e} id r) =
        without-IsValid c id e e.total_redriven (Reachable-IsValid e r)
    Reachable-IsValid d (Reachable.cleared {d = e} r) = record {
      sound = tt;
      distinct = tt;
      bounded = omega arith;
      accounted = omega (arith, (Reachable-IsValid e r).accounted);
      classified = omega arith;
    }

configure-positive : (o : Options) → 0 < (configure o).max_capacity
unfolding configure
configure-positive o = ground arith

-- With any options, in every dead letter queue that calls reach, their redrives ending at any time:
-- the ids of messages are distinct, there are at most `maxCapacity` of them, and they with the
-- evicted ones are at most the enqueued ones, as are the classified errors since the last clear.
-- Every message has an id and a channel, has been tried, is poison if and only if it was tried
-- `maxRetries` times or more, waits for at most six fifths of the maximal backoff from its last
-- failure, and has a `redriveCount` of 0.
pub configured-IsValid {ℓ} :
    {Payload : Type ℓ} (o : Options) (d : Letters Payload)
    → Reachable (configure o) d
    → IsValid (configure o) d
configured-IsValid o d r = Reachable-IsValid (configure o) (configure-positive o) d r
