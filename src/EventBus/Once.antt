-- ===== src/EventBus/Once.antt =====
-- Handlers that were subscribed for one event, in src/common/utils/event-bus.util.js.
use leave_ledger.Common.{
  ℕ, ◌<◌, ◌≡◌, ◌∙◌, refl, ap, sym, String, Bool, true, false, not, inl, inr, Option-cases, arith,
  Option, none, some, List, [], ◌∷◌, ◌++◌, map, ltb, first, keep, some_of, first-keep-none,
  first-put_self,
}
use leave_ledger.Common.Eq.{String-Eq, eq_self}
use leave_ledger.Common.Keyed.{at_key}
use leave_ledger.DeadLetters.Kept.{append_assoc_one}
use leave_ledger.EventBus.Kept.{subscribe-history}
use mathlib.Core.List.{append-nil}
use leave_ledger.EventBus.{
  or_empty, buffer_in, Bus, Call, Channel, Listener, OnceEntry, Replay, direct, wrapper, handler_of,
  same_listener, listeners_of, buffer_of, set_listeners, channel_listeners, wrapped_or,
  listener_for, subscribe, subscribe_once, unsubscribe, remove, call_listener,
}
use leave_ledger.EventBus.Replays.{call_with_all, run_replay, past_of_replay}

some_of-keep_none :
    (p : Listener → Bool) (ls : List Listener) → some_of p (keep (λ l. not (p l)) ls) ≡ false
some_of-keep_none p [] = refl
some_of-keep_none p (l ∷ ls) = ground (arith, some_of-keep_none p ls)

-- A wrapper that is deleted leaves the handlers.
some_of-keep_wrapper :
    (h j : String) (n : ℕ) (ls : List Listener)
    → some_of (same_listener (direct h)) (keep (λ l. not (same_listener (wrapper n j) l)) ls)
      ≡ some_of (same_listener (direct h)) ls
unfolding same_listener
some_of-keep_wrapper h j n [] = refl
some_of-keep_wrapper h j n (direct k ∷ ls) = ground (arith, some_of-keep_wrapper h j n ls)
some_of-keep_wrapper h j n (wrapper m k ∷ ls) = ground (arith, some_of-keep_wrapper h j n ls)

module _ (Payload : Type 0) (max_size : ℕ) where
  listeners_of-set_listeners :
      (event : String) (ls : List Listener) (b : Bus Payload)
      → listeners_of Payload event (set_listeners Payload event ls b) ≡ ls
  unfolding listeners_of set_listeners
  listeners_of-set_listeners event [] b =
      ap (channel_listeners Payload)
        (first-keep-none (at_key (λ (c : Channel). c.event) event) b.channels)
  listeners_of-set_listeners event (l ∷ ls) b = ap (channel_listeners Payload) (
      first-put_self (at_key (λ (c : Channel). c.event) event)
        (record { event = event; listeners = l ∷ ls }) b.channels (eq_self event))

  -- What `unsubscribe` leaves, by the listener that it deletes.
  listeners_of-unsubscribe :
      (event h : String) (l : Listener) (b : Bus Payload)
      → listener_for Payload max_size h b ≡ l
      → listeners_of Payload event (unsubscribe Payload max_size event h b)
        ≡ keep (λ k. not (same_listener l k)) (listeners_of Payload event b)
  unfolding unsubscribe remove
  listeners_of-unsubscribe event h l b e =
      listeners_of-set_listeners event
        (keep (λ k. not (same_listener (listener_for Payload max_size h b) k))
          (listeners_of Payload event b))
        b
      ∙ ap (λ m. keep (λ k. not (same_listener m k)) (listeners_of Payload event b)) e

  -- The listener that `unsubscribe` deletes is a wrapper, if `_onceListeners` has the handler.
  abbrev pub noted : String → Bus Payload → Option OnceEntry
  noted h b = first (at_key (λ (o : OnceEntry). o.handler) h) b.once_listeners

  -- A handler that is subscribed to an event, and for which `_onceListeners` has either nothing or the
  -- wrapper of a `subscribeOnce`, to any event and at any time before: after `unsubscribe` it is still
  -- subscribed in the second case, and only then.
  pub unsubscribe-direct :
      (event h : String) (b : Bus Payload)
      → ((o : OnceEntry) → noted h b ≡ some o → (n : ℕ) × (j : String) × (o.wrapped ≡ wrapper n j))
      → some_of (same_listener (direct h)) (listeners_of Payload event b) ≡ true
      → some_of
          (same_listener (direct h))
          (listeners_of Payload event (unsubscribe Payload max_size event h b))
        ≡ elim (noted h b) [ none ↦ false | some o ↦ true ]
  unfolding listener_for
  unsubscribe-direct event h b wrapped subscribed = elim (Option-cases (noted h b)) [
    | inl never ↦
        let mine = ap (wrapped_or Payload max_size h) never in
        rw (never, listeners_of-unsubscribe event h (direct h) b mine)
          (some_of-keep_none (same_listener (direct h)) (listeners_of Payload event b))
    | inr (o, e) ↦
        let (n, j, w) = wrapped o e in
        let other = ap (wrapped_or Payload max_size h) e ∙ w in
        rw (e, listeners_of-unsubscribe event h (wrapper n j) b other)
          (some_of-keep_wrapper h j n (listeners_of Payload event b) ∙ subscribed)
  ]

  abbrev calls_of : String → List Payload → List (Call Payload)
  calls_of h = map (λ p. record { handler = h; payload = p })

  call_with_all-calls :
      (event : String) (l : Listener) (ps : List Payload) (calls : List (Call Payload))
      (b : Bus Payload)
      → (call_with_all Payload max_size event l ps (calls, b)).0
        ≡ calls ++ calls_of (handler_of l) ps
  unfolding call_with_all call_listener
  call_with_all-calls event l [] calls b = sym (append-nil calls)
  call_with_all-calls event (direct h) (p ∷ ps) calls b =
      let c : Call Payload = record { handler = h; payload = p } in
      call_with_all-calls event (direct h) ps (calls ++ c ∷ []) b
      ∙ sym (append_assoc_one calls c (calls_of h ps))
  call_with_all-calls event (wrapper n h) (p ∷ ps) calls b =
      let c : Call Payload = record { handler = h; payload = p } in
      call_with_all-calls event (wrapper n h) ps (calls ++ c ∷ [])
        (remove Payload max_size event (wrapper n h) b)
      ∙ sym (append_assoc_one calls c (calls_of h ps))

  run_replay-calls :
      (r : Replay Payload) (rs : List (Replay Payload)) (b : Bus Payload)
      → b.replays ≡ r ∷ rs
      → (run_replay Payload max_size b).0
        ≡ calls_of (handler_of r.listener) (past_of_replay Payload max_size r b)
  unfolding run_replay
  run_replay-calls r rs b e =
      rw (run_replay, e)
        (call_with_all-calls r.event r.listener (past_of_replay Payload max_size r b) []
          (record b { replays = rs }))

  subscribe-replays :
      (event : String) (l : Listener) (b : Bus Payload) (ps : List Payload)
      → 0 < max_size
      → buffer_of Payload event b ≡ some ps
      → (subscribe Payload max_size event l b).replays
        ≡ b.replays ++ record { event = event; listener = l; dropped = none } ∷ []
  unfolding subscribe
  subscribe-replays event l b ps positive buffered =
      let kept : ltb 0 max_size ≡ true = ground arith in rw (subscribe, kept, buffered) refl

  -- A handler that is subscribed for one event of a channel with a buffer, while no replay waits: the
  -- replay calls it once for every payload of the buffer.
  pub subscribe_once-replayed :
      (event h : String) (b : Bus Payload) (ps : List Payload)
      → 0 < max_size
      → buffer_of Payload event b ≡ some ps
      → b.replays ≡ []
      → (run_replay Payload max_size (subscribe_once Payload max_size event h b)).0
        ≡ map (λ p. record { handler = h; payload = p }) ps
  unfolding subscribe_once buffer_of past_of_replay
  subscribe_once-replayed event h b ps positive buffered empty =
      let w = wrapper b.wrappers h in
      let r : Replay Payload = record { event = event; listener = w; dropped = none } in
      let s = subscribe_once Payload max_size event h b in
      let waiting : s.replays ≡ r ∷ [] =
        subscribe-replays event w _ ps positive buffered ∙ ap (λ rs. rs ++ r ∷ []) empty in
      let past : past_of_replay Payload max_size r s ≡ ps =
        ap (λ past. or_empty Payload (buffer_in Payload event past))
          (subscribe-history Payload max_size event w _)
        ∙ ap (or_empty Payload) buffered in
      run_replay-calls r [] s waiting ∙ ap (calls_of h) past
