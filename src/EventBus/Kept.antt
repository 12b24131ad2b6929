-- ===== src/EventBus/Kept.antt =====
-- The operations of src/common/utils/event-bus.util.js that leave the buffers alone.
use leave_ledger.Common.{ℕ, ◌≡◌, ◌∙◌, refl, String, arith, List, [], ◌∷◌}
use leave_ledger.EventBus.{
  Replay, listener_for, unsubscribe, Bus, Call, Listener, direct, wrapper, set_listeners, remove,
  subscribe, call_listener, call_listeners,
}
use leave_ledger.EventBus.Replays.{past_of_replay, run_replay, call_with_all}

module _ (Payload : Type 0) (max_size : ℕ) where
  set_listeners-history :
      (event : String) (ls : List Listener) (b : Bus Payload)
      → (set_listeners Payload event ls b).history ≡ b.history
  unfolding set_listeners
  set_listeners-history event [] b = refl
  set_listeners-history event (l ∷ ls) b = refl

  pub subscribe-history :
      (event : String) (l : Listener) (b : Bus Payload)
      → (subscribe Payload max_size event l b).history ≡ b.history
  unfolding subscribe
  subscribe-history event l b = ground (arith, set_listeners-history event)

  pub remove-history :
      (event : String) (l : Listener) (b : Bus Payload)
      → (remove Payload max_size event l b).history ≡ b.history
  unfolding remove
  remove-history event l b = set_listeners-history event _ b

  call_listener-history :
      (event : String) (p : Payload) (l : Listener) (calls : List (Call Payload)) (b : Bus Payload)
      → (call_listener Payload max_size event p l (calls, b)).1.history ≡ b.history
  unfolding call_listener
  call_listener-history event p (direct h) calls b = refl
  call_listener-history event p (wrapper n h) calls b = remove-history event (wrapper n h) b

  pub call_listeners-history :
      (event : String) (p : Payload) (ls : List Listener) (calls : List (Call Payload))
      (b : Bus Payload)
      → (call_listeners Payload max_size event p ls (calls, b)).1.history ≡ b.history
  unfolding call_listeners
  call_listeners-history event p [] calls b = refl
  call_listeners-history event p (l ∷ ls) calls b =
      let (calls', b') = call_listener Payload max_size event p l (calls, b) in
      call_listeners-history event p ls calls' b' ∙ call_listener-history event p l calls b

  pub call_with_all-history :
      (event : String) (l : Listener) (ps : List Payload) (calls : List (Call Payload))
      (b : Bus Payload)
      → (call_with_all Payload max_size event l ps (calls, b)).1.history ≡ b.history
  unfolding call_with_all
  call_with_all-history event l [] calls b = refl
  call_with_all-history event l (p ∷ ps) calls b =
      let (calls', b') = call_listener Payload max_size event p l (calls, b) in
      call_with_all-history event l ps calls' b' ∙ call_listener-history event p l calls b

  pub unsubscribe-history :
      (event h : String) (b : Bus Payload)
      → (unsubscribe Payload max_size event h b).history ≡ b.history
  unfolding unsubscribe
  unsubscribe-history event h b = remove-history event (listener_for Payload max_size h b) b

  -- `setImmediate` takes the first replay that it keeps.
  replay-history :
      (rs : List (Replay Payload)) (b : Bus Payload)
      → (run_replay Payload max_size (record b { replays = rs })).1.history ≡ b.history
  unfolding run_replay
  replay-history [] b = refl
  replay-history (r ∷ rs) b =
      let b' : Bus Payload = record b { replays = r ∷ rs } in
      call_with_all-history r.event r.listener (past_of_replay Payload max_size r b') []
        (record b { replays = rs })

  pub run_replay-history : (b : Bus Payload) → (run_replay Payload max_size b).1.history ≡ b.history
  run_replay-history b = replay-history b.replays b
