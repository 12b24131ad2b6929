-- ===== src/Idempotency/Once.antt =====
-- What src/common/utils/idempotency.util.js answers to a key that was begun before.
use leave_ledger.Common.{
  ℕ, ◌≡◌, refl, sym, ap, ◌∙◌, subst, String, Bool, true, false, not, some, List, [], ◌∷◌, All,
  first, first-passes, keep, ltb, leb, Bool-cases, Option-cases, inl, inr, arith, if◌then◌else◌,
}
use leave_ledger.Common.Eq.{◌==◌, String-Eq, eq_of_same, eq_self}
use leave_ledger.Common.Keyed.{at_key, first-put_key}
use leave_ledger.Idempotency.{
  Flight, flight_of, cleanup, started, begin, complete, remove, Call, run_call, run,
}

module _ {ℓ} {A : Type ℓ} where
  -- An entry that is kept is still the first of its test.
  first-keep :
      (p q : A → Bool) (xs : List A) (a : A)
      → first p xs ≡ some a
      → q a ≡ true
      → first p (keep q xs) ≡ some a
  first-keep p q [] a h k = cc
  first-keep p q (x ∷ xs) a h k = elim (Bool-cases (p x)) [
    | inl here ↦
        let same : x ≡ a = ground (arith, here) in
        let kept : q x ≡ true = subst (λ y. q y ≡ true) (sym same) k in
        rw (kept, here) (ap some same)
    | inr later ↦
        let rest = first-keep p q xs a (ground (arith, later)) k in
        elim (Bool-cases (q x)) [ inl kept ↦ rw (kept, later) rest | inr dropped ↦ rw dropped rest ]
  ]

module _ {ℓ κ} {Response : Type ℓ} {Payload : Type κ} (fingerprint : Payload → String)
    (ttl_ms : ℕ) where
  abbrev pub IsHeld : Flight Response → List (Flight Response) → Type ℓ
  IsHeld f store = flight_of fingerprint ttl_ms f.key store ≡ some f

  -- The call comes before the key expires, and does not remove it.
  abbrev pub is_harmless : String → ℕ → Call Response Payload → Bool
  is_harmless key expires_at (Call.beginning k payload now) = ltb now expires_at
  is_harmless key expires_at (Call.completing k response) = true
  is_harmless key expires_at (Call.removing k) = not (k == key)

  -- A record after a call: only a completion of its key changes it.
  abbrev pub after : Flight Response → Call Response Payload → Flight Response
  after f (Call.completing k response) =
      if k == f.key then record f { completed = some response } else f
  after f c = f

  abbrev pub after_all : Flight Response → List (Call Response Payload) → Flight Response
  after_all f [] = f
  after_all f (c ∷ cs) = after_all (after f c) cs

  pub cleanup-IsHeld :
      (f : Flight Response) (now : ℕ) (store : List (Flight Response))
      → ltb now f.expires_at ≡ true
      → IsHeld f store
      → IsHeld f (cleanup fingerprint ttl_ms now store)
  cleanup-IsHeld f now store early h =
      first-keep (at_key (λ x. x.key) f.key) (λ x. not (leb x.expires_at now)) store f h
        (ground arith)

  begin-IsHeld :
      (f : Flight Response) (k : String) (payload : Payload) (now : ℕ)
      (store : List (Flight Response))
      → ltb now f.expires_at ≡ true
      → IsHeld f store
      → IsHeld f (begin fingerprint ttl_ms k payload now store).1
  unfolding begin
  begin-IsHeld f k payload now store early h =
      let kept = cleanup-IsHeld f now store early h in
      elim (Bool-cases (k == "")) [
        | inl bad ↦ rw (begin, bad) h
        | inr good ↦
            elim (Option-cases
              (flight_of fingerprint ttl_ms k (cleanup fingerprint ttl_ms now store))) [
                | inr (g, found) ↦ rw (begin, good, found) kept
                | inl missing ↦ elim (Bool-cases (k == f.key)) [
                  | inr other ↦
                      let put_there =
                        first-put_key (λ x. x.key) k f.key
                          (started fingerprint ttl_ms k payload now)
                          (cleanup fingerprint ttl_ms now store) refl in
                      rw (begin, good, missing) (put_there ∙ rw other kept)
                  | inl own ↦
                      let e = eq_of_same k f.key own in
                      let found : flight_of fingerprint ttl_ms k
                            (cleanup fingerprint ttl_ms now store)
                          ≡ some f =
                        subst
                          (λ j.
                            flight_of fingerprint ttl_ms j (cleanup fingerprint ttl_ms now store)
                            ≡ some f)
                          (sym e) kept in
                      cc
                ]
              ]
      ]

  complete-IsHeld :
      (f : Flight Response) (k : String) (response : Response) (store : List (Flight Response))
      → IsHeld f store
      → IsHeld (after f (Call.completing k response)) (complete fingerprint ttl_ms k response store)
  unfolding complete
  complete-IsHeld f k response store h = elim (Bool-cases (k == f.key)) [
    | inl own ↦
        let e = eq_of_same k f.key own in
        let found : flight_of fingerprint ttl_ms k store ≡ some f =
          subst (λ j. flight_of fingerprint ttl_ms j store ≡ some f) (sym e) h in
        let new : Flight Response = record f { completed = some response } in
        let put_there = first-put_key (λ x. x.key) k f.key new store (sym e) in
        rw (after, own, complete, found) (put_there ∙ rw own refl)
    | inr other ↦ elim (Option-cases (flight_of fingerprint ttl_ms k store)) [
      | inl missing ↦ rw (after, other, complete, missing) h
      | inr (g, found) ↦
          let mine = eq_of_same g.key k (first-passes (at_key (λ x. x.key) k) store g found) in
          let put_there =
            first-put_key (λ x. x.key) k f.key (record g { completed = some response }) store
              mine in
          rw (after, other, complete, found) (put_there ∙ rw other h)
    ]
  ]

  remove-IsHeld :
      (f : Flight Response) (k : String) (store : List (Flight Response))
      → (k == f.key) ≡ false
      → IsHeld f store
      → IsHeld f (remove fingerprint ttl_ms k store)
  remove-IsHeld f k store other h =
      first-keep (at_key (λ x. x.key) f.key) (λ x. not (at_key (λ y. y.key) k x)) store f h
        (elim (Bool-cases (at_key (λ y. y.key) k f)) [
          | inl same ↦
              let equal : (k == f.key) ≡ true =
                subst (λ j. (j == f.key) ≡ true) (eq_of_same f.key k same) (eq_self f.key) in
              cc
          | inr differs ↦ rw differs refl
        ])

  after-kept :
      (f : Flight Response) (c : Call Response Payload)
      → ((after f c).key ≡ f.key) × ((after f c).expires_at ≡ f.expires_at)
  after-kept f (Call.beginning k payload now) = (refl, refl)
  after-kept f (Call.completing k response) = elim (Bool-cases (k == f.key)) [
    | inl own ↦ rw (after, own) (refl, refl)
    | inr other ↦ rw (after, other) (refl, refl)
  ]
  after-kept f (Call.removing k) = (refl, refl)

  call-IsHeld :
      (f : Flight Response) (c : Call Response Payload) (store : List (Flight Response))
      → is_harmless f.key f.expires_at c ≡ true
      → IsHeld f store
      → IsHeld (after f c) (run_call fingerprint ttl_ms c store)
  unfolding run_call
  call-IsHeld f (Call.beginning k payload now) store h held =
      begin-IsHeld f k payload now store h held
  call-IsHeld f (Call.completing k response) store h held = complete-IsHeld f k response store held
  call-IsHeld f (Call.removing k) store h held = remove-IsHeld f k store (ground arith) held

  pub run-IsHeld :
      (cs : List (Call Response Payload)) (key : String) (expires_at : ℕ) (f : Flight Response)
      (store : List (Flight Response))
      → f.key ≡ key
      → f.expires_at ≡ expires_at
      → All (λ c. is_harmless key expires_at c ≡ true) cs
      → IsHeld f store
      → IsHeld (after_all f cs) (run fingerprint ttl_ms cs store)
        × ((after_all f cs).key ≡ key)
        × ((after_all f cs).expires_at ≡ expires_at)
  run-IsHeld [] key expires_at f store k e h held = (held, k, e)
  run-IsHeld (c ∷ cs) key expires_at f store k e h held =
      let (kept, late) = after-kept f c in
      let harmless : is_harmless f.key f.expires_at c ≡ true =
        subst (λ j. is_harmless j f.expires_at c ≡ true) (sym k)
          (subst (λ t. is_harmless key t c ≡ true) (sym e) h.0) in
      run-IsHeld cs key expires_at (after f c) (run_call fingerprint ttl_ms c store) (kept ∙ k)
        (late ∙ e) h.1 (call-IsHeld f c store harmless held)
