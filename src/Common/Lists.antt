-- ===== src/Common/Lists.antt =====
-- Lists measured by native numbers, and searched by Boolean tests.
use Prim.Native.Nat.{ℕ, zero, suc, ◌+◌}
use mathlib.Core.Path.{◌≡◌, refl, ap, subst}
use mathlib.Core.Bool.{Bool, true, false, not, ◌||◌}
use mathlib.Core.List.{List, [], ◌∷◌, ◌++◌, map}
use mathlib.Core.Option.{Option, none, some}
use mathlib.Core.Logic.{inl, inr}
use native.Mathlib.Omega.{arith}
use leave_ledger.Common.Tests.{if◌then◌else◌, Bool-cases}

module _ {ℓ} {A : Type ℓ} where
  abbrev pub length : List A → ℕ
  length [] = 0
  length (x ∷ xs) = suc (length xs)

  abbrev pub get_elem? : List A → ℕ → Option A
  get_elem? [] i = none
  get_elem? (x ∷ xs) zero = some x
  get_elem? (x ∷ xs) (suc i) = get_elem? xs i

  -- The first entry that passes the test.
  abbrev pub first : (A → Bool) → List A → Option A
  first p [] = none
  first p (x ∷ xs) = if p x then some x else first p xs

  -- The entries that pass the test, in order.
  abbrev pub keep : (A → Bool) → List A → List A
  keep p [] = []
  keep p (x ∷ xs) = if p x then x ∷ keep p xs else keep p xs

  abbrev pub some_of : (A → Bool) → List A → Bool
  some_of p [] = false
  some_of p (x ∷ xs) = p x || some_of p xs

  -- Replaces the first entry that passes the test, or appends.
  abbrev pub put : (A → Bool) → A → List A → List A
  put p a [] = a ∷ []
  put p a (x ∷ xs) = if p x then a ∷ xs else x ∷ put p a xs

  -- Rewrites every entry that passes the test.
  abbrev pub map_where : (A → Bool) → (A → A) → List A → List A
  map_where p f [] = []
  map_where p f (x ∷ xs) = (if p x then f x else x) ∷ map_where p f xs

  -- Every entry satisfies the predicate.
  abbrev pub All {κ} : (A → Type κ) → List A → Type κ
  All P [] = Unit
  All P (x ∷ xs) = P x × All P xs

  pub length-append : (xs ys : List A) → length (xs ++ ys) ≡ length xs + length ys
  length-append [] ys = omega arith
  length-append (x ∷ xs) ys = omega (arith, length-append xs ys)

  pub first-passes : (p : A → Bool) (xs : List A) (a : A) → first p xs ≡ some a → p a ≡ true
  first-passes p [] a h = cc
  first-passes p (x ∷ xs) a h = ground (arith, first-passes p xs a)

  pub All-first {κ} :
      (P : A → Type κ) (p : A → Bool) (xs : List A) (a : A) → All P xs → first p xs ≡ some a → P a
  All-first P p [] a h e = cc
  All-first P p (x ∷ xs) a h e = elim (Bool-cases (p x)) [
    | inl here ↦ subst P (ground arith) h.0
    | inr later ↦ All-first P p xs a h.1 (rw later at e)
  ]

  pub All-put {κ} :
      (P : A → Type κ) (p : A → Bool) (a : A) (xs : List A) → All P xs → P a → All P (put p a xs)
  All-put P p a [] h ha = (ha, tt)
  All-put P p a (x ∷ xs) h ha = elim (Bool-cases (p x)) [
    | inl here ↦ rw here (ha, h.1)
    | inr later ↦ rw later (h.0, All-put P p a xs h.1 ha)
  ]

  pub All-map_where {κ} :
      (P : A → Type κ) (p : A → Bool) (f : A → A) (xs : List A)
      → ((x : A) → P x → p x ≡ true → P (f x))
      → All P xs
      → All P (map_where p f xs)
  All-map_where P p f [] step h = tt
  All-map_where P p f (x ∷ xs) step h = elim (Bool-cases (p x)) [
    | inl here ↦ rw here (step x h.0 here, All-map_where P p f xs step h.1)
    | inr later ↦ rw later (h.0, All-map_where P p f xs step h.1)
  ]

  pub All-append {κ} : (P : A → Type κ) (xs ys : List A) → All P xs → All P ys → All P (xs ++ ys)
  All-append P [] ys hx hy = hy
  All-append P (x ∷ xs) ys hx hy = (hx.0, All-append P xs ys hx.1 hy)

  pub first-put_self :
      (p : A → Bool) (a : A) (xs : List A) → p a ≡ true → first p (put p a xs) ≡ some a
  first-put_self p a [] h = ground arith
  first-put_self p a (x ∷ xs) h = ground (arith, first-put_self p a xs h)

  pub first-append_some :
      (p : A → Bool) (xs ys : List A) (a : A) → first p xs ≡ some a → first p (xs ++ ys) ≡ some a
  first-append_some p [] ys a h = cc
  first-append_some p (x ∷ xs) ys a h = ground (arith, first-append_some p xs ys a)

  pub first-append_new :
      (p : A → Bool) (xs : List A) (a : A)
      → some_of p xs ≡ false
      → p a ≡ true
      → first p (xs ++ a ∷ []) ≡ some a
  first-append_new p [] a h ha = ground arith
  first-append_new p (x ∷ xs) a h ha = ground (arith, first-append_new p xs a)

  pub first-keep-none : (p : A → Bool) (xs : List A) → first p (keep (λ x. not (p x)) xs) ≡ none
  first-keep-none p [] = refl
  first-keep-none p (x ∷ xs) = ground (arith, first-keep-none p xs)

  pub some_of-first :
      (p : A → Bool) (xs : List A) (a : A) → first p xs ≡ some a → some_of p xs ≡ true
  some_of-first p [] a h = cc
  some_of-first p (x ∷ xs) a h = ground (arith, some_of-first p xs a)

  pub some_of-imp :
      (p q : A → Bool) (xs : List A)
      → ((x : A) → p x ≡ true → q x ≡ true)
      → some_of p xs ≡ true
      → some_of q xs ≡ true
  some_of-imp p q [] step h = cc
  some_of-imp p q (x ∷ xs) step h = elim (Bool-cases (p x)) [
    | inl here ↦ rw (step x here) refl
    | inr later ↦ ground (arith, some_of-imp p q xs step)
  ]

pub length-map {ℓ κ} :
    {A : Type ℓ} {B : Type κ} (f : A → B) (xs : List A) → length (map f xs) ≡ length xs
length-map f [] = refl
length-map f (x ∷ xs) = omega (arith, length-map f xs)

pub keep-all {ℓ} : {A : Type ℓ} (xs : List A) → keep (λ x. true) xs ≡ xs
keep-all [] = refl
keep-all (x ∷ xs) = ap (λ ys. x ∷ ys) (keep-all xs)
