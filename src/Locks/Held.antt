-- ===== src/Locks/Held.antt =====
-- How long a lock of src/common/utils/lock.util.js is held.
use leave_ledger.Common.{
  ℕ, ◌+◌, ◌<◌, ◌≡◌, refl, sym, ◌∙◌, subst, String, Bool, true, false, not, ◌&&◌, none, some, List,
  [], ◌∷◌, All, first-put_self, put, ap, ◌⊎◌, ltb, leb, Bool-cases, Option-cases, inl, inr, arith,
}
use leave_ledger.Common.Eq.{◌==◌, String-Eq, eq_of_same, eq_self}
use leave_ledger.Common.Keyed.{other_key, first-put_key}
use leave_ledger.Locks.{
  Lock, of_key, lock_of, acquire_lock, drop_lock, release_lock, is_locked, Call, run_call, run,
}

-- The call comes before the lock expires, and does not end it.
abbrev pub is_harmless : Lock → Call → Bool
is_harmless l (Call.acquiring key ttl now token) = ltb now l.expires_at
is_harmless l (Call.releasing key token) = not ((key == l.key) && (token == l.token))
is_harmless l (Call.asking key now) = ltb now l.expires_at
is_harmless l Call.resetting = false

drop-other :
    (k j : String) (locks : List Lock)
    → (k == j) ≡ false
    → lock_of j (drop_lock k locks) ≡ lock_of j locks
drop-other k j [] differs = refl
drop-other k j (l ∷ ls) differs = elim (Bool-cases (of_key k l)) [
  | inl here ↦ rw (here, other_key (λ x. x.key) k j l differs here) (drop-other k j ls differs)
  | inr later ↦ rw (later, drop-other k j ls differs) refl
]

pub drop-gone : (k : String) (locks : List Lock) → lock_of k (drop_lock k locks) ≡ none
drop-gone k [] = refl
drop-gone k (l ∷ ls) = elim (Bool-cases (of_key k l)) [
  | inl here ↦ rw here (drop-gone k ls)
  | inr later ↦ rw (later, later, drop-gone k ls) refl
]

module _ (l : Lock) where
  -- An entry of another key is left alone, one of the lock's own key is the lock.
  acquire-held :
      (key : String) (ttl now : ℕ) (token : String) (locks : List Lock)
      → ltb now l.expires_at ≡ true
      → lock_of l.key locks ≡ some l
      → lock_of l.key (acquire_lock key ttl now token locks).1 ≡ some l
  unfolding acquire_lock
  acquire-held key ttl now token locks early held = elim (Bool-cases (key == l.key)) [
    | inl own ↦
        subst (λ k. lock_of l.key (acquire_lock k ttl now token locks).1 ≡ some l)
          (sym (eq_of_same key l.key own)) (rw (acquire_lock, held, early) held)
    | inr other ↦
        let new : Lock = record { key = key; token = token; expires_at = now + ttl } in
        let kept = first-put_key (λ x. x.key) key l.key new locks refl ∙ rw other refl in
        elim (Option-cases (lock_of key locks)) [
          | inl free ↦ rw (acquire_lock, free) (kept ∙ held)
          | inr (existing, found) ↦ elim (Bool-cases (ltb now existing.expires_at)) [
            | inl locked ↦ rw (acquire_lock, found, locked) held
            | inr expired ↦ rw (acquire_lock, found, expired) (kept ∙ held)
          ]
        ]
  ]

  release-held :
      (key token : String) (locks : List Lock)
      → ((key == l.key) && (token == l.token)) ≡ false
      → lock_of l.key locks ≡ some l
      → lock_of l.key (release_lock key token locks).1 ≡ some l
  unfolding release_lock
  release-held key token locks harmless held = elim (Bool-cases (key == l.key)) [
    | inl own ↦
        let foreign : (l.token == token) ≡ false = elim (Bool-cases (l.token == token)) [
          | inl same ↦
              let tokens : (token == l.token) ≡ true =
                subst (λ t. (t == l.token) ≡ true) (eq_of_same l.token token same)
                  (eq_self l.token) in
              cc
          | inr differs ↦ differs
        ] in
        subst (λ k. lock_of l.key (release_lock k token locks).1 ≡ some l)
          (sym (eq_of_same key l.key own)) (rw (release_lock, held, foreign) held)
    | inr other ↦
        let kept = drop-other key l.key locks other in
        elim (Option-cases (lock_of key locks)) [
          | inl free ↦ rw (release_lock, free) held
          | inr (existing, found) ↦ elim (Bool-cases (existing.token == token)) [
            | inl mine ↦ rw (release_lock, found, mine) (kept ∙ held)
            | inr foreign ↦ rw (release_lock, found, foreign) held
          ]
        ]
  ]

  ask-held :
      (key : String) (now : ℕ) (locks : List Lock)
      → ltb now l.expires_at ≡ true
      → lock_of l.key locks ≡ some l
      → lock_of l.key (is_locked key now locks).1 ≡ some l
  unfolding is_locked
  ask-held key now locks early held = elim (Bool-cases (key == l.key)) [
    | inl own ↦
        let valid : leb l.expires_at now ≡ false = ground arith in
        subst (λ k. lock_of l.key (is_locked k now locks).1 ≡ some l)
          (sym (eq_of_same key l.key own)) (rw (is_locked, held, valid) held)
    | inr other ↦
        let kept = drop-other key l.key locks other in
        elim (Option-cases (lock_of key locks)) [
          | inl free ↦ rw (is_locked, free) held
          | inr (existing, found) ↦ elim (Bool-cases (leb existing.expires_at now)) [
            | inl expired ↦ rw (is_locked, found, expired) (kept ∙ held)
            | inr locked ↦ rw (is_locked, found, locked) held
          ]
        ]
  ]

  run-held :
      (cs : List Call) (locks : List Lock)
      → All (λ c. is_harmless l c ≡ true) cs
      → lock_of l.key locks ≡ some l
      → lock_of l.key (run cs locks) ≡ some l
  unfolding run_call
  run-held [] locks h held = held
  run-held (Call.acquiring key ttl now token ∷ cs) locks h held =
      run-held cs _ h.1 (acquire-held key ttl now token locks h.0 held)
  run-held (Call.releasing key token ∷ cs) locks h held =
      run-held cs _ h.1 (release-held key token locks (ground (arith, h.0)) held)
  run-held (Call.asking key now ∷ cs) locks h held =
      run-held cs _ h.1 (ask-held key now locks h.0 held)
  run-held (Call.resetting ∷ cs) locks h held = absurd (ground (arith, h.0))

abbrev pub granted : String → ℕ → ℕ → String → Lock
granted key ttl now token = record { key = key; token = token; expires_at = now + ttl }

module _ (key : String) (ttl now : ℕ) (token : String) (locks : List Lock) where
  placed :
      lock_of key (put (of_key key) (granted key ttl now token) locks)
      ≡ some (granted key ttl now token)
  placed = first-put_self (of_key key) (granted key ttl now token) locks (eq_self key)

  -- An acquisition either puts the new lock in place, or refuses and changes nothing.
  pub acquire-cases :
      (acquire_lock key ttl now token locks
        ≡ (some (granted key ttl now token), put (of_key key) (granted key ttl now token) locks))
      ⊎ (acquire_lock key ttl now token locks ≡ (none, locks))
  unfolding acquire_lock
  acquire-cases = elim (Option-cases (lock_of key locks)) [
    | inl free ↦ inl (rw (acquire_lock, free) refl)
    | inr (existing, found) ↦ elim (Bool-cases (ltb now existing.expires_at)) [
      | inl locked ↦ inr (rw (acquire_lock, found, locked) refl)
      | inr expired ↦ inl (rw (acquire_lock, found, expired) refl)
    ]
  ]

  locked-refused :
      (existing : Lock)
      → lock_of key locks ≡ some existing
      → ltb now existing.expires_at ≡ true
      → (acquire_lock key ttl now token locks).0 ≡ none
  unfolding acquire_lock
  locked-refused existing found early = rw (acquire_lock, found, early) refl

-- While a lock was acquired, and until it expires, nobody acquires the same key, whatever calls come
-- in between before that, if none of them releases it with its own token and none is a reset.
pub acquire_lock-exclusive :
    (key : String) (ttl now : ℕ) (token : String) (locks : List Lock) (l : Lock)
    → (acquire_lock key ttl now token locks).0 ≡ some l
    → (cs : List Call) → All (λ c. is_harmless l c ≡ true) cs
    → (ttl' now' : ℕ) (token' : String) → now' < now + ttl
    → (acquire_lock key ttl' now' token' (run cs (acquire_lock key ttl now token locks).1)).0 ≡ none
acquire_lock-exclusive key ttl now token locks l h cs harmless ttl' now' token' early =
    elim (acquire-cases key ttl now token locks) [
      | inr refused ↦ absurd (ground (arith, ap (λ x. x.0) refused))
      | inl done ↦
          let same : granted key ttl now token ≡ l = ground (arith, ap (λ x. x.0) done) in
          let held =
            run-held (granted key ttl now token) cs
              (put (of_key key) (granted key ttl now token) locks)
              (subst (λ x. All (λ c. is_harmless x c ≡ true) cs) (sym same) harmless)
              (placed key ttl now token locks) in
          rw (ap (λ x. x.1) done) (
            locked-refused key ttl' now' token'
              (run cs (put (of_key key) (granted key ttl now token) locks))
              (granted key ttl now token) held (ground arith))
    ]
