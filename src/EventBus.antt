-- ===== src/EventBus.antt =====
-- src/common/utils/event-bus.util.js. A handler is a name; what it does when it is called is left out,
-- but for the wrapper of `subscribeOnce`, whose calls are modelled. The maps of the bus are lists of
-- entries with a key, a set of listeners is a list in the order of insertion, and `calls` of an
-- operation are the handlers that it calls, in order. Handlers that are no functions are left out.
pub mod Replays
mod Kept
pub mod History
pub mod Once
mod Tests
use leave_ledger.Common.{
  ℕ, zero, suc, ◌+◌, String, Bool, true, false, ◌&&◌, not, Option, none, some, List, [], ◌∷◌, ◌++◌,
  map, ltb, first, keep, put, some_of, length, drop, if◌then◌else◌,
}
use leave_ledger.Common.Eq.{◌==◌, String-Eq, ℕ-Eq, Eq}
use leave_ledger.Common.Keyed.{at_key}

-- What a channel's set holds: a handler, or the wrapper that a call of `subscribeOnce` made, with the
-- call's number.
pub data Listener : Type 0 where
  direct : String → Listener
  wrapper : ℕ → String → Listener

unfoldable pub same_listener : Listener → Listener → Bool
same_listener (direct h) (direct j) = h == j
same_listener (wrapper n h) (wrapper m j) = n == m
same_listener _ _ = false

-- The handler that a listener calls in the end.
abbrev pub handler_of : Listener → String
handler_of (direct h) = h
handler_of (wrapper n h) = h

pub record Channel : Type 0 where
  pub event : String
  pub listeners : List Listener

-- An entry of `_onceListeners`.
pub record OnceEntry : Type 0 where
  pub handler : String
  pub wrapped : Listener

module _ (Payload : Type 0) where
  pub record Buffer : Type 0 where
    pub event : String
    pub payloads : List Payload

  -- A replay that `setImmediate` keeps. Its `past` is the buffer itself, which later publications
  -- extend; `clear` drops the buffer from the map, and the replay has what it held then.
  pub record Replay : Type 0 where
    pub event : String
    pub listener : Listener
    pub dropped : Option (List Payload)

  pub record Call : Type 0 where
    pub handler : String
    pub payload : Payload

  pub record Bus : Type 0 where
    pub channels : List Channel
    pub once_listeners : List OnceEntry
    pub history : List Buffer
    pub replays : List Replay
    pub wrappers : ℕ

  abbrev pub new_bus : Bus
  new_bus = record { channels = []; once_listeners = []; history = []; replays = []; wrappers = 0 }

  abbrev pub channel_listeners : Option Channel → List Listener
  channel_listeners none = []
  channel_listeners (some c) = c.listeners

  -- `_listeners.get(eventName)`, with no set as the empty one.
  unfoldable pub listeners_of : String → Bus → List Listener
  listeners_of event b =
      channel_listeners (first (at_key (λ (c : Channel). c.event) event) b.channels)

  abbrev pub payloads_in : Option Buffer → Option (List Payload)
  payloads_in none = none
  payloads_in (some h) = some h.payloads

  abbrev pub buffer_in : String → List Buffer → Option (List Payload)
  buffer_in event history = payloads_in (first (at_key (λ (h : Buffer). h.event) event) history)

  -- `_history.get(eventName)`
  unfoldable pub buffer_of : String → Bus → Option (List Payload)
  buffer_of event b = buffer_in event b.history

  abbrev pub or_empty : Option (List Payload) → List Payload
  or_empty none = []
  or_empty (some payloads) = payloads

  unfoldable pub set_listeners : String → List Listener → Bus → Bus
  set_listeners event [] b = record b { channels = keep (λ c. not (c.event == event)) b.channels }
  set_listeners event (l ∷ ls) b = record b {
    channels =
        put (at_key (λ (c : Channel). c.event) event) (record { event = event; listeners = l ∷ ls })
          b.channels;
  }

  -- `Set.add`
  abbrev add_listener : Listener → List Listener → List Listener
  add_listener l ls = if some_of (same_listener l) ls then ls else ls ++ l ∷ []

  -- `Set.delete`
  abbrev remove_listener : Listener → List Listener → List Listener
  remove_listener l = keep (λ k. not (same_listener l k))

  module _ (history_max_size : ℕ) where
    -- subscribe
    unfoldable pub subscribe : String → Listener → Bus → Bus
    unfolding listeners_of buffer_of set_listeners same_listener
    subscribe event l b =
        let b' = set_listeners event (add_listener l (listeners_of event b)) b in
        if ltb 0 history_max_size
        then elim (buffer_of event b) [
          | none ↦ b'
          | some past ↦ record b' {
            replays = b.replays ++ record { event = event; listener = l; dropped = none } ∷ [];
          }
        ]
        else b'

    -- subscribeOnce
    unfoldable pub subscribe_once : String → String → Bus → Bus
    unfolding subscribe
    subscribe_once event h b =
        let w = wrapper b.wrappers h in
        let noted : List OnceEntry =
          elim (first (at_key (λ (o : OnceEntry). o.handler) h) b.once_listeners) [
            | some o ↦ b.once_listeners
            | none ↦ record { handler = h; wrapped = w } ∷ b.once_listeners
          ] in
        subscribe event w (record b { once_listeners = noted; wrappers = b.wrappers + 1 })

    -- unsubscribe, of a handler and of a wrapper, which `_onceListeners` does not hold.
    unfoldable pub remove : String → Listener → Bus → Bus
    unfolding listeners_of set_listeners same_listener
    remove event l b = set_listeners event (remove_listener l (listeners_of event b)) b

    abbrev pub wrapped_or : String → Option OnceEntry → Listener
    wrapped_or h none = direct h
    wrapped_or h (some o) = o.wrapped

    -- `_onceListeners.get(handler)`, if it has one.
    unfoldable pub listener_for : String → Bus → Listener
    listener_for h b =
        wrapped_or h (first (at_key (λ (o : OnceEntry). o.handler) h) b.once_listeners)

    unfoldable pub unsubscribe : String → String → Bus → Bus
    unfolding remove listener_for
    unsubscribe event h b = remove event (listener_for h b) b

    -- `push` on the ring buffer, and `shift` when it is too long.
    abbrev pub push : Payload → List Payload → List Payload
    push p buffer =
        let longer = buffer ++ p ∷ [] in
        if ltb history_max_size (length longer) then drop 1 longer else longer

    unfoldable pub record_history : String → Payload → Bus → Bus
    unfolding buffer_of
    record_history event p b =
        if ltb 0 history_max_size
        then record b {
          history =
              put (at_key (λ (h : Buffer). h.event) event)
                (record { event = event; payloads = push p (or_empty (buffer_of event b)) })
                b.history;
        }
        else b

    -- One listener's call: a wrapper removes itself first.
    unfoldable pub call_listener : String → Payload → Listener → List Call × Bus → List Call × Bus
    unfolding remove
    call_listener event p (direct h) (calls, b) =
        (calls ++ record { handler = h; payload = p } ∷ [], b)
    call_listener event p (wrapper n h) (calls, b) =
        (calls ++ record { handler = h; payload = p } ∷ [], remove event (wrapper n h) b)

    -- The loop of `publish`. A set's iterator skips no entry when the current one is deleted.
    unfoldable pub call_listeners :
        String → Payload → List Listener → List Call × Bus → List Call × Bus
    unfolding call_listener
    call_listeners event p [] s = s
    call_listeners event p (l ∷ ls) s = call_listeners event p ls (call_listener event p l s)

    -- publish; it returns the number of calls.
    unfoldable pub publish : String → Payload → Bus → List Call × Bus
    unfolding record_history call_listeners listeners_of
    publish event p b =
        let b' = record_history event p b in call_listeners event p (listeners_of event b') ([], b')
