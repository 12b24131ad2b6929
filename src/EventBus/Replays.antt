-- ===== src/EventBus/Replays.antt =====
-- src/common/utils/event-bus.util.js: `clear`, `listenerCount`, and the replays of `subscribe`.
use leave_ledger.Common.{
  ℕ, String, not, Option, none, some, List, [], ◌∷◌, keep, map, length, if◌then◌else◌,
}
use leave_ledger.Common.Eq.{◌==◌, String-Eq}
use leave_ledger.EventBus.{
  Bus, Call, Listener, Replay, listeners_of, buffer_of, or_empty, call_listener,
}

module _ (Payload : Type 0) (history_max_size : ℕ) where
  -- The replay keeps what its buffer holds when `clear` takes it from the map.
  abbrev pub drop_past : Replay Payload → Option (List Payload) → Replay Payload
  drop_past r past = record r { dropped = elim r.dropped [ some kept ↦ some kept | none ↦ past ] }

  -- clear, of one event and of all; an empty name means all.
  unfoldable pub clear_event : String → Bus Payload → Bus Payload
  unfolding buffer_of
  clear_event event b = record b {
    channels = keep (λ c. not (c.event == event)) b.channels;
    history = keep (λ h. not (h.event == event)) b.history;
    replays =
        map (λ r. if r.event == event then drop_past r (buffer_of Payload event b) else r)
          b.replays;
  }

  unfoldable pub clear_all : Bus Payload → Bus Payload
  unfolding buffer_of
  clear_all b = record b {
    channels = [];
    history = [];
    replays = map (λ r. drop_past r (buffer_of Payload r.event b)) b.replays;
  }

  -- listenerCount
  unfoldable pub listener_count : String → Bus Payload → ℕ
  unfolding listeners_of
  listener_count event b = length (listeners_of Payload event b)

  -- `past.forEach`: every payload goes to the listener, a wrapper being no exception.
  unfoldable pub call_with_all :
      String
      → Listener
      → List Payload
      → List (Call Payload) × Bus Payload
      → List (Call Payload) × Bus Payload
  unfolding call_listener
  call_with_all event l [] s = s
  call_with_all event l (p ∷ ps) s =
      call_with_all event l ps (call_listener Payload history_max_size event p l s)

  unfoldable pub past_of_replay : Replay Payload → Bus Payload → List Payload
  unfolding buffer_of
  past_of_replay r b = elim r.dropped [
    | some payloads ↦ payloads
    | none ↦ or_empty Payload (buffer_of Payload r.event b)
  ]

  -- The first replay that `setImmediate` keeps is called.
  unfoldable pub run_replay : Bus Payload → List (Call Payload) × Bus Payload
  unfolding call_with_all past_of_replay
  run_replay b = elim b.replays [
    | [] ↦ ([], b)
    | r ∷ rs ↦ call_with_all r.event r.listener (past_of_replay r b) ([], record b { replays = rs })
  ]
