-- ===== src/Locks.antt =====
-- src/common/utils/lock.util.js, the class LockManager. The Map of locks is a list of entries with a key;
-- the clock and the new token (a UUID) of a call are parameters.
pub mod Held
pub mod Released
mod Tests
use leave_ledger.Common.{
  ℕ, ◌+◌, String, Bool, true, false, not, ◌&&◌, Option, none, some, List, [], ◌∷◌, first, put, keep,
  ltb, leb, if◌then◌else◌,
}
use leave_ledger.Common.Eq.{◌==◌, String-Eq}

pub record Lock : Type 0 where
  pub key : String
  pub token : String
  pub expires_at : ℕ

abbrev pub of_key : String → Lock → Bool
of_key key l = l.key == key

-- `this._locks.get(resourceKey)`
abbrev pub lock_of : String → List Lock → Option Lock
lock_of key = first (of_key key)

-- acquireLock: the lock, if it was acquired.
unfoldable pub acquire_lock : String → ℕ → ℕ → String → List Lock → Option Lock × List Lock
acquire_lock key ttl now token locks =
    let new : Lock = record { key = key; token = token; expires_at = now + ttl } in
    elim (lock_of key locks) [
      | none ↦ (some new, put (of_key key) new locks)
      | some existing ↦
          if ltb now existing.expires_at
          then (none, locks)
          else (some new, put (of_key key) new locks)
    ]

abbrev pub drop_lock : String → List Lock → List Lock
drop_lock key = keep (λ l. not (of_key key l))

-- releaseLock
unfoldable pub release_lock : String → String → List Lock → Bool × List Lock
release_lock key token locks = elim (lock_of key locks) [
  | none ↦ (false, locks)
  | some existing ↦ if existing.token == token then (true, drop_lock key locks) else (false, locks)
]

-- isLocked
unfoldable pub is_locked : String → ℕ → List Lock → Bool × List Lock
is_locked key now locks = elim (lock_of key locks) [
  | none ↦ (false, locks)
  | some existing ↦
      if leb existing.expires_at now then (false, drop_lock key locks) else (true, locks)
]

-- withLock: `body` is the work with whatever it and others do to the locks until it ends; `none` is
-- the error RESOURCE_LOCKED.
unfoldable pub with_lock {ℓ} :
    {A : Type ℓ}
    → String
    → ℕ
    → ℕ
    → String
    → (List Lock → A × List Lock)
    → List Lock
    → Option A × List Lock
unfolding acquire_lock release_lock
with_lock key ttl now token body locks =
    let (acquired, left) = acquire_lock key ttl now token locks in
    let (value, after) = body left in
    elim acquired [
      | none ↦ (none, left)
      | some lock ↦ (some value, (release_lock key lock.token after).1)
    ]

-- The calls of a manager; `reset` forgets every lock.
pub data Call : Type 0 where
  acquiring : (key : String) (ttl now : ℕ) (token : String) → Call
  releasing : (key token : String) → Call
  asking : (key : String) (now : ℕ) → Call
  resetting : Call

unfoldable pub run_call : Call → List Lock → List Lock
unfolding acquire_lock release_lock is_locked
run_call (Call.acquiring key ttl now token) locks = (acquire_lock key ttl now token locks).1
run_call (Call.releasing key token) locks = (release_lock key token locks).1
run_call (Call.asking key now) locks = (is_locked key now locks).1
run_call Call.resetting locks = []

abbrev pub run : List Call → List Lock → List Lock
run [] locks = locks
run (c ∷ cs) locks = run cs (run_call c locks)
