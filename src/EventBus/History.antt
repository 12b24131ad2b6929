-- ===== src/EventBus/History.antt =====
-- The ring buffer of src/common/utils/event-bus.util.js.
use leave_ledger.Common.{
  ℕ, ◌+◌, ◌-◌, ◌<◌, ◌≡◌, ◌∙◌, refl, ap, sym, String, true, inl, inr, Bool-cases, arith, List, [],
  ◌∷◌, ◌++◌, ltb, drop, length, length-append, length-drop, drop-append, drop_add, drop-nil,
  if◌then◌else◌,
}
use leave_ledger.Common.Eq.{◌==◌, String-Eq, eq_of_same}
use leave_ledger.Common.Keyed.{first-put_key, first-keep_key}
use leave_ledger.EventBus.Kept.{
  subscribe-history, call_listeners-history, unsubscribe-history, run_replay-history,
}
use leave_ledger.EventBus.{
  or_empty, buffer_in, Bus, Buffer, direct, wrapper, buffer_of, listeners_of, subscribe,
  subscribe_once, unsubscribe, record_history, publish, push, new_bus,
}
use leave_ledger.EventBus.Replays.{clear_event, clear_all, run_replay}

-- The calls of the bus's users, and the turns of `setImmediate`.
pub data Op (Payload : Type 0) : Type 0 where
  subscribed subscribed_once unsubscribed : String → String → Op Payload
  published : String → Payload → Op Payload
  cleared : String → Op Payload
  all_cleared replayed : Op Payload

-- The last `n` entries.
abbrev pub last : {A : Type 0} → ℕ → List A → List A
last n xs = drop (length xs - n) xs

module _ (Payload : Type 0) (max_size : ℕ) where
  unfoldable pub step : Op Payload → Bus Payload → Bus Payload
  unfolding subscribe subscribe_once unsubscribe publish clear_event clear_all run_replay
  step (subscribed event h) b = subscribe Payload max_size event (direct h) b
  step (subscribed_once event h) b = subscribe_once Payload max_size event h b
  step (unsubscribed event h) b = unsubscribe Payload max_size event h b
  step (published event p) b = (publish Payload max_size event p b).1
  step (cleared event) b = clear_event Payload max_size event b
  step all_cleared b = clear_all Payload max_size b
  step replayed b = (run_replay Payload max_size b).1

  unfoldable pub run : List (Op Payload) → Bus Payload → Bus Payload
  unfolding step
  run [] b = b
  run (o ∷ os) b = run os (step o b)

  -- What was published on the event since it was last cleared: `ps` before the operation.
  unfoldable pub extend : String → Op Payload → List Payload → List Payload
  extend event (published e p) ps = if e == event then ps ++ p ∷ [] else ps
  extend event (cleared e) ps = if e == event then [] else ps
  extend event all_cleared ps = []
  extend event _ ps = ps

  unfoldable pub published_on : String → List (Op Payload) → List Payload → List Payload
  unfolding extend
  published_on event [] ps = ps
  published_on event (o ∷ os) ps = published_on event os (extend event o ps)

  push-last :
      (p : Payload) (ps : List Payload)
      → push Payload max_size p (last max_size ps) ≡ last max_size (ps ++ p ∷ [])
  push-last p ps =
      let cut = length ps - max_size in
      let longer = drop-append cut ps (p ∷ []) (omega arith) in
      let total = length-append ps (p ∷ []) in
      let size = length-drop cut (ps ++ p ∷ []) in
      let all = ps ++ p ∷ [] in
      rw longer (elim (Bool-cases (ltb max_size (length (drop cut all)))) [
        | inl full ↦
            let e : cut + 1 ≡ length all - max_size = ground (arith, full, size, total) in
            rw full (sym (drop_add cut 1 all) ∙ ap (λ k. drop k all) e)
        | inr fits ↦
            let e : cut ≡ length all - max_size = ground (arith, fits, size, total) in
            rw fits (ap (λ k. drop k all) e)
      ])

  -- What the buffer of an event holds.
  abbrev pub past_of : String → List (Buffer Payload) → List Payload
  past_of event history = or_empty Payload (buffer_in Payload event history)

  -- What an operation makes of the payloads that an event has.
  effect : String → Op Payload → List Payload → List Payload
  effect event (published e p) ps = if e == event then push Payload max_size p ps else ps
  effect event (cleared e) ps = if e == event then [] else ps
  effect event all_cleared ps = []
  effect event _ ps = ps

  record_history-past :
      (event e : String) (p : Payload) (b : Bus Payload)
      → 0 < max_size
      → past_of event (record_history Payload max_size e p b).history
        ≡ effect event (published e p) (past_of event b.history)
  unfolding record_history buffer_of effect
  record_history-past event e p b positive =
      let kept : ltb 0 max_size ≡ true = ground arith in
      let new : Buffer Payload = record {
        event = e;
        payloads = push Payload max_size p (past_of e b.history);
      } in
      rw (kept, first-put_key (λ (h : Buffer Payload). h.event) e event new b.history refl)
        (elim (Bool-cases (e == event)) [
          | inl same ↦
              rw same
                (ap (λ k. push Payload max_size p (past_of k b.history)) (eq_of_same e event same))
          | inr differs ↦ rw differs refl
        ])

  clear_event-past :
      (event e : String) (b : Bus Payload)
      → past_of event (clear_event Payload max_size e b).history
        ≡ effect event (cleared e) (past_of event b.history)
  unfolding clear_event effect
  clear_event-past event e b =
      rw (first-keep_key (λ (h : Buffer Payload). h.event) e event b.history)
        (elim (Bool-cases (e == event)) [ inl same ↦ rw same refl | inr differs ↦ rw differs refl ])

  step-past :
      (event : String) (o : Op Payload) (b : Bus Payload)
      → 0 < max_size
      → past_of event (step o b).history ≡ effect event o (past_of event b.history)
  unfolding step effect subscribe_once unsubscribe publish clear_all run_replay
  step-past event (subscribed e h) b positive =
      ap (past_of event) (subscribe-history Payload max_size e (direct h) b)
  step-past event (subscribed_once e h) b positive =
      ap (past_of event) (subscribe-history Payload max_size e (wrapper b.wrappers h) _)
  step-past event (unsubscribed e h) b positive =
      ap (past_of event) (unsubscribe-history Payload max_size e h b)
  step-past event (published e p) b positive =
      let b' = record_history Payload max_size e p b in
      ap (past_of event)
        (call_listeners-history Payload max_size e p (listeners_of Payload e b') [] b')
      ∙ record_history-past event e p b positive
  step-past event (cleared e) b positive = clear_event-past event e b
  step-past event all_cleared b positive = refl
  step-past event replayed b positive = ap (past_of event) (run_replay-history Payload max_size b)

  no_past : [] ≡ last {A = Payload} max_size []
  no_past = sym (drop-nil (0 - max_size))

  effect-last :
      (event : String) (o : Op Payload) (ps : List Payload)
      → effect event o (last max_size ps) ≡ last max_size (extend event o ps)
  unfolding effect extend
  effect-last event (subscribed e h) ps = refl
  effect-last event (subscribed_once e h) ps = refl
  effect-last event (unsubscribed e h) ps = refl
  effect-last event (published e p) ps = elim (Bool-cases (e == event)) [
    | inl same ↦ rw same (push-last p ps)
    | inr differs ↦ rw differs refl
  ]
  effect-last event (cleared e) ps = elim (Bool-cases (e == event)) [
    | inl same ↦ rw same no_past
    | inr differs ↦ rw differs refl
  ]
  effect-last event all_cleared ps = no_past
  effect-last event replayed ps = refl

  run-past :
      (event : String) (os : List (Op Payload)) (b : Bus Payload) (ps : List Payload)
      → 0 < max_size
      → past_of event b.history ≡ last max_size ps
      → past_of event (run os b).history ≡ last max_size (published_on event os ps)
  unfolding run published_on
  run-past event [] b ps positive same = same
  run-past event (o ∷ os) b ps positive same =
      run-past event os (step o b) (extend event o ps) positive
        (step-past event o b positive ∙ ap (effect event o) same ∙ effect-last event o ps)

  -- Whatever the calls of the bus and the turns of `setImmediate` are, in any order: with a history of
  -- a positive size, the buffer of an event is the last payloads that were published on it since it was
  -- last cleared, as many as the size allows.
  pub run-history :
      (event : String) (os : List (Op Payload))
      → 0 < max_size
      → past_of event (run os (new_bus Payload)).history ≡ last max_size (published_on event os [])
  run-history event os positive = run-past event os (new_bus Payload) [] positive no_past
