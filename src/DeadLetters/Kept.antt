-- ===== src/DeadLetters/Kept.antt =====
-- What the list of messages of src/common/utils/dead-letter-queue.util.js keeps when messages are deleted.
use leave_ledger.Common.{
  ◌+◌, ◌≤◌, ◌≡◌, refl, ap, Bool, true, false, not, none, some, List, [], ◌∷◌, ◌++◌, first, keep,
  put, length, leb, All, Pairs, Bool-cases, inl, inr, arith, if◌then◌else◌,
}
use leave_ledger.DeadLetters.{tail}

module _ {ℓ} {A : Type ℓ} where
  pub All-keep {κ} : (P : A → Type κ) (p : A → Bool) (xs : List A) → All P xs → All P (keep p xs)
  All-keep P p [] h = tt
  All-keep P p (x ∷ xs) h = elim (Bool-cases (p x)) [
    | inl here ↦ rw here (h.0, All-keep P p xs h.1)
    | inr gone ↦ rw gone (All-keep P p xs h.1)
  ]

  pub Pairs-keep {κ} :
      (R : A → A → Type κ) (p : A → Bool) (xs : List A) → Pairs R xs → Pairs R (keep p xs)
  Pairs-keep R p [] h = tt
  Pairs-keep R p (x ∷ xs) h = elim (Bool-cases (p x)) [
    | inl here ↦ rw here (All-keep (R x) p xs h.0, Pairs-keep R p xs h.1)
    | inr gone ↦ rw gone (Pairs-keep R p xs h.1)
  ]

  pub All-tail {κ} : (P : A → Type κ) (xs : List A) → All P xs → All P (tail xs)
  All-tail P [] h = tt
  All-tail P (x ∷ xs) h = h.1

  pub Pairs-tail {κ} : (R : A → A → Type κ) (xs : List A) → Pairs R xs → Pairs R (tail xs)
  Pairs-tail R [] h = tt
  Pairs-tail R (x ∷ xs) h = h.1

  pub length-tail :
      (xs : List A) → length (tail xs) + 1 ≤ length xs + (if leb (length xs) 0 then 1 else 0)
  length-tail [] = omega arith
  length-tail (x ∷ xs) = ground arith

  pub length-put :
      (p : A → Bool) (old new : A) (xs : List A)
      → first p xs ≡ some old
      → length (put p new xs) ≡ length xs
  length-put p old new [] h = cc
  length-put p old new (x ∷ xs) h = ground (arith, length-put p old new xs)

  -- No entry passes the test.
  pub first-none : (p : A → Bool) (xs : List A) → first p xs ≡ none → All (λ x. p x ≡ false) xs
  first-none p [] h = tt
  first-none p (x ∷ xs) h = (ground arith, first-none p xs (ground arith))

module _ {ℓ} {A : Type ℓ} where
  All-middle {κ} : (P : A → Type κ) (xs ys : List A) (a : A) → All P (xs ++ a ∷ ys) → P a
  All-middle P [] ys a h = h.0
  All-middle P (x ∷ xs) ys a h = All-middle P xs ys a h.1

  pub Pairs-middle {κ} :
      (R : A → A → Type κ) (xs ys : List A) (a : A)
      → Pairs R (xs ++ a ∷ ys)
      → All (λ x. R x a) xs × All (R a) ys
  Pairs-middle R [] ys a h = (tt, h.0)
  Pairs-middle R (x ∷ xs) ys a h =
      let (before, after) = Pairs-middle R xs ys a h.1 in
      ((All-middle (R x) xs ys a h.0, before), after)

  module _ (p : A → Bool) (a : A) (here : p a ≡ true) where
    pub first-middle :
        (xs ys : List A) → All (λ x. p x ≡ false) xs → first p (xs ++ a ∷ ys) ≡ some a
    first-middle [] ys h = rw here refl
    first-middle (x ∷ xs) ys h = rw h.0 (first-middle xs ys h.1)

    pub put-middle :
        (b : A) (xs ys : List A) → All (λ x. p x ≡ false) xs → put p b (xs ++ a ∷ ys) ≡ xs ++ b ∷ ys
    put-middle b [] ys h = rw here refl
    put-middle b (x ∷ xs) ys h = rw h.0 (ap (λ zs. x ∷ zs) (put-middle b xs ys h.1))

    keep_none : (ys : List A) → All (λ x. p x ≡ false) ys → keep (λ x. not (p x)) ys ≡ ys
    keep_none [] h = refl
    keep_none (y ∷ ys) h = rw h.0 (ap (λ zs. y ∷ zs) (keep_none ys h.1))

    pub keep-middle :
        (xs ys : List A)
        → All (λ x. p x ≡ false) xs
        → All (λ x. p x ≡ false) ys
        → keep (λ x. not (p x)) (xs ++ a ∷ ys) ≡ xs ++ ys
    keep-middle [] ys h k = rw here (keep_none ys k)
    keep-middle (x ∷ xs) ys h k = rw h.0 (ap (λ zs. x ∷ zs) (keep-middle xs ys h.1 k))

pub append_assoc_one {ℓ} :
    {A : Type ℓ} (xs : List A) (a : A) (ys : List A) → xs ++ a ∷ ys ≡ (xs ++ a ∷ []) ++ ys
append_assoc_one [] a ys = refl
append_assoc_one (x ∷ xs) a ys = ap (λ zs. x ∷ zs) (append_assoc_one xs a ys)
