-- ===== src/Result.antt =====
-- The exceptions that the services throw, as values: Nest's HTTP exceptions with the `error` code of
-- their payload (src/common/constants/index.js, ErrorCodes), and the errors of the database driver.
use leave_ledger.Common.{
  ◌⊎◌, inl, inr, ◌≡◌, refl, Bool, true, false, Option, none, some, if◌then◌else◌,
}

pub data Failure : Type 0 where
  missing_idempotency_key invalid_date_range : Failure
  insufficient_balance balance_conflict overlapping_request idempotency_conflict : Failure
  invalid_status_transition request_not_found balance_not_found : Failure
  sqlite_constraint sqlite_transient driver_error : Failure
  -- The error that `triggerManualBatchSync` throws.
  sync_in_progress : Failure
  -- The answers of the controllers: a filter that is no status, and a refused body or parameter.
  invalid_status_filter validation_failed : Failure

pub data Result {ℓ} (A : Type ℓ) : Type ℓ where
  err : Failure → Result A
  ok : A → Result A

infixl 5 ◌>>=◌
abbrev pub ◌>>=◌ {ℓ κ} : {A : Type ℓ} {B : Type κ} → Result A → (A → Result B) → Result B
err failure >>= next = err failure
ok value >>= next = next value

abbrev pub or_throw {ℓ} : {A : Type ℓ} → Option A → Failure → Result A
or_throw none e = err e
or_throw (some a) e = ok a

-- `if (c) throw e`
abbrev pub throw_if {ℓ} : {A : Type ℓ} → Bool → Failure → Result A → Result A
throw_if c e next = if c then err e else next

-- The call returns, with a value that satisfies `P`.
pub data Returns {ℓ κ} {A : Type ℓ} (P : A → Type κ) : Result A → Type (ℓ ⊔ κ) where
  returns : {a : A} → P a → Returns P (ok a)

pub Returns-inv {ℓ κ} :
    {A : Type ℓ} {P : A → Type κ} {r : Result A} → Returns P r → (a : A) × (r ≡ ok a) × P a
Returns-inv (returns p) = (_, refl, p)

-- What a call that returned says of its first step.
module _ {ℓ} {A : Type ℓ} where
  pub >>=-inv {κ} :
      {B : Type κ} (call : Result A) (next : A → Result B) {b : B}
      → (call >>= next) ≡ ok b
      → (a : A) × (call ≡ ok a) × (next a ≡ ok b)
  >>=-inv (err failure) next h = cc
  >>=-inv (ok a) next h = (a, refl, h)

  pub or_throw-inv : (o : Option A) (e : Failure) (a : A) → or_throw o e ≡ ok a → o ≡ some a
  or_throw-inv none e a h = cc
  or_throw-inv (some b) e a h = cc

  pub throw_if-inv :
      (c : Bool) (e : Failure) (next : Result A) (a : A)
      → throw_if c e next ≡ ok a
      → (c ≡ false) × (next ≡ ok a)
  throw_if-inv true e next a h = cc
  throw_if-inv false e next a h = (refl, h)

pub Result-cases {ℓ} :
    {A : Type ℓ} (r : Result A) → ((a : A) × (r ≡ ok a)) ⊎ ((e : Failure) × (r ≡ err e))
Result-cases (ok a) = inl (a, refl)
Result-cases (err e) = inr (e, refl)
