-- ===== src/EventBus/Tests.antt =====
-- An event bus with a history of two payloads (src/common/utils/event-bus.util.js).
use leave_ledger.Common.{ℕ, ◌≡◌, refl, true, some, List, [], ◌∷◌, map, some_of, arith}
use leave_ledger.EventBus.{
  Bus, OnceEntry, direct, wrapper, same_listener, listeners_of, buffer_of, subscribe,
  subscribe_once, unsubscribe, publish, new_bus, set_listeners, record_history, call_listener,
  call_listeners, remove,
}
use leave_ledger.EventBus.Replays.{run_replay}
use leave_ledger.EventBus.History.{
  Op, subscribed_once, published, step, run, published_on, last, past_of, run-history,
}
use leave_ledger.EventBus.Once.{noted, unsubscribe-direct, subscribe_once-replayed}

abbrev three_published : List (Op ℕ)
three_published =
    published "approved" 1
    ∷ subscribed_once "approved" "mail"
    ∷ published "approved" 2
    ∷ published "approved" 3
    ∷ []

-- The replay of the wrapper is still to come.
abbrev waiting_bus : Bus ℕ
waiting_bus = run ℕ 2 three_published (new_bus ℕ)

two_kept : past_of ℕ 2 "approved" waiting_bus.history ≡ 2 ∷ 3 ∷ []
unfolding run step publish record_history buffer_of subscribe_once subscribe listeners_of
    set_listeners call_listeners call_listener remove same_listener
two_kept = refl

run-history_example :
    past_of ℕ 2 "approved" (run ℕ 2 three_published (new_bus ℕ)).history
    ≡ last 2 (published_on ℕ 2 "approved" three_published [])
run-history_example = run-history ℕ 2 "approved" three_published (omega arith)

-- A bus with a buffer of two payloads.
abbrev buffered_bus : Bus ℕ
buffered_bus = record (new_bus ℕ) {
  history = record { event = "approved"; payloads = 7 ∷ 8 ∷ [] } ∷ [];
}

seven_and_eight : buffer_of ℕ "approved" buffered_bus ≡ some (7 ∷ 8 ∷ [])
unfolding buffer_of
seven_and_eight = refl

subscribe_once-replayed_example :
    (run_replay ℕ 2 (subscribe_once ℕ 2 "approved" "mail" buffered_bus)).0
    ≡ map (λ p. record { handler = "mail"; payload = p }) (7 ∷ 8 ∷ [])
subscribe_once-replayed_example =
    subscribe_once-replayed ℕ 2 "approved" "mail" buffered_bus (7 ∷ 8 ∷ []) (omega arith)
      seven_and_eight refl

-- "mail" was subscribed once to another event, and is subscribed to this one.
abbrev noted_bus : Bus ℕ
noted_bus = record (new_bus ℕ) {
  channels = record { event = "approved"; listeners = direct "mail" ∷ [] } ∷ [];
  once_listeners = record { handler = "mail"; wrapped = wrapper 0 "mail" } ∷ [];
  wrappers = 1;
}

only_wrapper :
    (o : OnceEntry)
    → noted ℕ 2 "mail" noted_bus ≡ some o
    → (n : ℕ) × (j : _) × (o.wrapped ≡ wrapper n j)
only_wrapper o e = (0, "mail", ground (arith, e))

is_subscribed : some_of (same_listener (direct "mail")) (listeners_of ℕ "approved" noted_bus) ≡ true
unfolding same_listener listeners_of
is_subscribed = refl

unsubscribe-direct_example :
    some_of
      (same_listener (direct "mail"))
      (listeners_of ℕ "approved" (unsubscribe ℕ 2 "approved" "mail" noted_bus))
    ≡ true
unsubscribe-direct_example =
    unsubscribe-direct ℕ 2 "approved" "mail" noted_bus only_wrapper is_subscribed
