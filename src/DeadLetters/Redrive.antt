-- ===== src/DeadLetters/Redrive.antt =====
-- redrive and redriveEligible of src/common/utils/dead-letter-queue.util.js.
use leave_ledger.Common.{
  ℕ, ◌+◌, Bool, true, false, Option, none, some, List, [], ◌∷◌, String, first, if◌then◌else◌,
}
use leave_ledger.DeadLetters.{
  Config, Failure, Moment, Item, Letter, Letters, has_id, without, can_retry, enqueue,
}

-- What a processor did with a message, and the moment at which it ended.
pub record Attempt : Type 0 where
  pub thrown : Option (Option Failure)
  pub moment : Moment

pub record Sweep {ℓ} (Payload : Type ℓ) : Type ℓ where
  pub succeeded : ℕ
  pub failed : ℕ
  pub letters : Letters Payload

module _ {ℓ} {Payload : Type ℓ} (c : Config) where
  -- redrive from the end of the processor on, with the record that it was given.
  unfoldable pub settle : Letter Payload → Attempt → Letters Payload → Bool × Letters Payload
  unfolding enqueue
  settle r a d = elim a.thrown [
    | none ↦ (
      true,
      record d { messages = without r.id d.messages; total_redriven = d.total_redriven + 1 },
    )
    | some error ↦
        let item : Item Payload = record {
          id = r.id;
          channel = r.channel;
          payload = r.payload;
          error = error;
        } in
        (false, (enqueue c item a.moment d).1)
  ]

  -- redrive
  unfoldable pub redrive :
      String → (Payload → String → Attempt) → Letters Payload → Bool × Letters Payload
  unfolding settle
  redrive id processor d = elim (first (has_id id) d.messages) [
    | none ↦ (false, d)
    | some r ↦ settle r (processor r.payload r.channel) d
  ]

  -- The loop of redriveEligible over the ids that the Map has at its start. A round deletes or rewrites
  -- its own message only, so that the source's loop over the changing Map visits the same ids.
  unfoldable pub sweep :
      List (Letter Payload) → ℕ → (Payload → String → Attempt) → Sweep Payload → Sweep Payload
  unfolding can_retry redrive
  sweep [] now processor s = s
  sweep (r ∷ rs) now processor s =
      let (ok, after) = redrive r.id processor s.letters in
      let visited : Sweep Payload =
        if can_retry r.id now s.letters
        then record {
          succeeded = if ok then s.succeeded + 1 else s.succeeded;
          failed = if ok then s.failed else s.failed + 1;
          letters = after;
        }
        else s in
      sweep rs now processor visited

  -- redriveEligible
  unfoldable pub redrive_eligible :
      ℕ → (Payload → String → Attempt) → Letters Payload → Sweep Payload
  unfolding sweep
  redrive_eligible now processor d =
      sweep d.messages now processor (record { succeeded = 0; failed = 0; letters = d })
