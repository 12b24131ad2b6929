-- ===== src/Locks/Released.antt =====
-- What withLock of src/common/utils/lock.util.js leaves of its lock.
use leave_ledger.Common.{
  ℕ, ◌≡◌, ◌≢◌, refl, sym, ◌∙◌, subst, String, true, none, some, List, ap, ◌↔◌, Bool-cases,
  Option-cases, inl, inr, arith,
}
use leave_ledger.Common.Eq.{◌==◌, String-Eq, eq_of_same, eq_self}
use leave_ledger.Locks.{Lock, lock_of, acquire_lock, release_lock, with_lock}
use leave_ledger.Locks.Held.{drop-gone, acquire-cases}

release-foreign :
    (key token : String) (locks : List Lock) (l : Lock)
    → (lock_of key (release_lock key token locks).1 ≡ some l)
      ↔ ((lock_of key locks ≡ some l) × (l.token ≢ token))
unfolding release_lock
release-foreign key token locks l = elim (Option-cases (lock_of key locks)) [
  | inl free ↦ rw (release_lock, free, free) (λ h. cc, λ h. h.0)
  | inr (existing, found) ↦ elim (Bool-cases (existing.token == token)) [
    | inl mine ↦
        let gone = drop-gone key locks in
        rw (release_lock, found, mine, gone)
          (
            λ h. cc,
            λ h.
                let same : existing ≡ l = ground (arith, h.0) in
                absurd (h.1 (ap (λ x. x.token) (sym same) ∙ eq_of_same existing.token token mine)),
          )
    | inr foreign ↦
        rw (release_lock, found, foreign, found)
          (
            λ h. (
              h,
              λ e.
                  let same : existing ≡ l = ground (arith, h) in
                  let equal : (existing.token == token) ≡ true =
                    subst (λ t. (existing.token == t) ≡ true) (ap (λ x. x.token) same ∙ e)
                      (eq_self existing.token) in
                  cc,
            ),
            λ h. h.0,
          )
  ]
]

-- withLock that acquired its lock, whatever its work and others do to the locks meanwhile: in the end
-- its own lock is not there any more, and a lock with another token that took its place after it
-- expired still is.
pub with_lock-released {ℓ} :
    {A : Type ℓ} (key : String) (ttl now : ℕ) (token : String) (body : List Lock → A × List Lock)
    (locks : List Lock) (value : A)
    → (with_lock key ttl now token body locks).0 ≡ some value
    → let left = (with_lock key ttl now token body locks).1 in
      let ended = (body (acquire_lock key ttl now token locks).1).1 in
      (l : Lock) → (lock_of key left ≡ some l) ↔ ((lock_of key ended ≡ some l) × (l.token ≢ token))
unfolding with_lock
with_lock-released key ttl now token body locks value h l =
    elim (acquire-cases key ttl now token locks) [
      | inr refused ↦
          let failed : (with_lock key ttl now token body locks).0 ≡ none =
            rw (with_lock, ap (λ x. x.0) refused) refl in
          cc
      | inl done ↦
          rw (with_lock, ap (λ x. x.0) done)
            (release-foreign key token (body (acquire_lock key ttl now token locks).1).1 l)
    ]
