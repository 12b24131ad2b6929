-- ===== src/Idempotency/Answers.antt =====
-- The answers of begin of src/common/utils/idempotency.util.js to a key that was new before.
use leave_ledger.Common.{
  ℕ, ◌+◌, ◌<◌, ◌≡◌, ◌≢◌, refl, sym, ap, ◌∙◌, subst, String, true, false, none, some, Option, List,
  [], ◌∷◌, All, if◌then◌else◌, first-put_self, Bool-cases, Option-cases, inl, inr, arith,
}
use leave_ledger.Common.Eq.{◌==◌, String-Eq, eq_self}
use leave_ledger.Common.Keyed.{at_key}
use leave_ledger.Idempotency.{
  Flight, Reply, flight_of, cleanup, reply_to, started, begin, Call, run,
}
use leave_ledger.Idempotency.Once.{IsHeld, is_harmless, after_all, cleanup-IsHeld, run-IsHeld}

module _ {ℓ κ} {Response : Type ℓ} {Payload : Type κ} (fingerprint : Payload → String)
    (ttl_ms : ℕ) where
  begin-new :
      (key : String) (payload : Payload) (now : ℕ) (store : List (Flight Response))
      → (begin fingerprint ttl_ms key payload now store).0 ≡ Reply.new
      → ((key == "") ≡ false)
        × IsHeld fingerprint ttl_ms
            (started fingerprint ttl_ms key payload now)
            (begin fingerprint ttl_ms key payload now store).1
  unfolding begin
  begin-new key payload now store h = elim (Bool-cases (key == "")) [
    | inl bad ↦
        let failed : (begin fingerprint ttl_ms key payload now store).0 ≡ Reply.bad_key =
          rw (begin, bad) refl in
        cc
    | inr good ↦
        elim (Option-cases
          (flight_of fingerprint ttl_ms key (cleanup fingerprint ttl_ms now store))) [
            | inl missing ↦
                let placed =
                  first-put_self (at_key (λ f. f.key) key)
                    (started fingerprint ttl_ms key payload now)
                    (cleanup fingerprint ttl_ms now store) (eq_self key) in
                (good, rw (begin, good, missing) placed)
            | inr (g, found) ↦
                let known : (begin fingerprint ttl_ms key payload now store).0
                    ≡ reply_to fingerprint ttl_ms payload g =
                  rw (begin, good, found) refl in
                absurd (not_new payload g (sym known ∙ h))
          ]
  ]
    where
      not_new : (p : Payload) (g : Flight Response) → reply_to fingerprint ttl_ms p g ≢ Reply.new
      not_new p g e = ground arith

  begin-found :
      (key : String) (payload : Payload) (now : ℕ) (store : List (Flight Response))
      (f : Flight Response)
      → (key == "") ≡ false
      → flight_of fingerprint ttl_ms key (cleanup fingerprint ttl_ms now store) ≡ some f
      → (begin fingerprint ttl_ms key payload now store).0 ≡ reply_to fingerprint ttl_ms payload f
  unfolding begin
  begin-found key payload now store f good found = rw (begin, good, found) refl

  -- The response of the last completion of the key, and `r` if there is none.
  abbrev pub last_response :
      String → List (Call Response Payload) → Option Response → Option Response
  last_response key [] r = r
  last_response key (Call.beginning k p now ∷ cs) r = last_response key cs r
  last_response key (Call.completing k response ∷ cs) r =
      last_response key cs (if k == key then some response else r)
  last_response key (Call.removing k ∷ cs) r = last_response key cs r

  after_all-shown :
      (cs : List (Call Response Payload)) (key : String) (f : Flight Response)
      → f.key ≡ key
      → ((after_all fingerprint ttl_ms f cs).fingerprint ≡ f.fingerprint)
        × ((after_all fingerprint ttl_ms f cs).completed ≡ last_response key cs f.completed)
  after_all-shown [] key f e = (refl, refl)
  after_all-shown (Call.beginning k p now ∷ cs) key f e = after_all-shown cs key f e
  after_all-shown (Call.removing k ∷ cs) key f e = after_all-shown cs key f e
  after_all-shown (Call.completing k response ∷ cs) key f e =
      let same : (k == f.key) ≡ (k == key) = ap (λ j. k == j) e in
      elim (Bool-cases (k == f.key)) [
        | inl own ↦
            let own' : (k == key) ≡ true = sym same ∙ own in
            rw (after_all, own, last_response, own')
              (after_all-shown cs key (record f { completed = some response }) e)
        | inr other ↦
            let other' : (k == key) ≡ false = sym same ∙ other in
            rw (after_all, other, last_response, other') (after_all-shown cs key f e)
      ]

  -- Once a key is new, and until it expires, every begin with it is answered from its record, whatever
  -- calls come in between before that, if none removes the key: with another fingerprint it is refused;
  -- with the same one it is in flight, or has the response of the last completion of the key.
  pub begin-once :
      (key : String) (payload : Payload) (now : ℕ) (store : List (Flight Response))
      → (begin fingerprint ttl_ms key payload now store).0 ≡ Reply.new
      → (cs : List (Call Response Payload))
      → All (λ c. is_harmless fingerprint ttl_ms key (now + ttl_ms) c ≡ true) cs
      → (payload' : Payload) (now' : ℕ) → now' < now + ttl_ms
      → (begin fingerprint ttl_ms key payload' now'
          (run fingerprint ttl_ms cs (begin fingerprint ttl_ms key payload now store).1)).0
        ≡ (if fingerprint payload == fingerprint payload'
            then elim (last_response key cs none) [
              | none ↦ Reply.in_flight
              | some r ↦ Reply.already r
            ]
            else Reply.reused)
  begin-once key payload now store new cs harmless payload' now' early =
      let (good, placed) = begin-new key payload now store new in
      let f = after_all fingerprint ttl_ms (started fingerprint ttl_ms key payload now) cs in
      let left = run fingerprint ttl_ms cs (begin fingerprint ttl_ms key payload now store).1 in
      let (held, same, expires) =
        run-IsHeld fingerprint ttl_ms cs key (now + ttl_ms)
          (started fingerprint ttl_ms key payload now)
          (begin fingerprint ttl_ms key payload now store).1 refl refl harmless placed in
      let kept = cleanup-IsHeld fingerprint ttl_ms f now' left (ground arith) held in
      let found : flight_of fingerprint ttl_ms key (cleanup fingerprint ttl_ms now' left) ≡ some f =
        subst (λ j. flight_of fingerprint ttl_ms j (cleanup fingerprint ttl_ms now' left) ≡ some f)
          same kept in
      let (made, answer) =
        after_all-shown cs key (started fingerprint ttl_ms key payload now) refl in
      begin-found key payload' now' left f good found ∙ rw (f, made, answer) refl
