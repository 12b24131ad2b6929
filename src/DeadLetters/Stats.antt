-- ===== src/DeadLetters/Stats.antt =====
-- getStats of src/common/utils/dead-letter-queue.util.js.
use leave_ledger.Common.{ℕ, ◌-◌, min, Option, none, some, List, [], ◌∷◌, String, keep, length}
use leave_ledger.DeadLetters.{Letter, Letters}

pub record Stats : Type 0 where
  pub size : ℕ
  pub poison_count : ℕ
  pub total_enqueued : ℕ
  pub total_redriven : ℕ
  pub total_evicted : ℕ
  pub oldest_message_age : ℕ
  pub error_taxonomy : List (String × ℕ)

module _ {ℓ} {Payload : Type ℓ} where
  -- `oldestTimestamp`, with `none` for Infinity.
  abbrev pub oldest : List (Letter Payload) → Option ℕ
  oldest [] = none
  oldest (r ∷ rs) = elim (oldest rs) [
    | none ↦ some r.created_at
    | some t ↦ some (min r.created_at t)
  ]

  -- getStats, by a clock that is not before any record's time of creation
  unfoldable pub get_stats : ℕ → Letters Payload → Stats
  get_stats now d = record {
    size = length d.messages;
    poison_count = length (keep (λ r. r.is_poison) d.messages);
    total_enqueued = d.total_enqueued;
    total_redriven = d.total_redriven;
    total_evicted = d.total_evicted;
    oldest_message_age = elim (oldest d.messages) [ none ↦ 0 | some t ↦ now - t ];
    error_taxonomy = d.taxonomy;
  }
