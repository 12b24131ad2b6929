-- ===== src/Common/Pairwise.antt =====
-- A relation between every entry of a list and every later one, and what a replacement keeps of it.
use mathlib.Core.Path.{◌≡◌, subst}
use mathlib.Core.Bool.{Bool}
use mathlib.Core.List.{List, [], ◌∷◌, ◌++◌}
use mathlib.Core.Logic.{inl, inr}
use mathlib.Core.Option.{some}
use native.Mathlib.Omega.{arith}
use leave_ledger.Common.Tests.{Bool-cases}
use leave_ledger.Common.Lists.{All, first, put, map_where, All-append, All-map_where}

module _ {ℓ κ} {A : Type ℓ} where
  abbrev pub Pairs : (A → A → Type κ) → List A → Type (ℓ ⊔ κ)
  Pairs R [] = Unit
  Pairs R (x ∷ xs) = All (R x) xs × Pairs R xs

  -- An entry replaced by one that satisfies whatever the old one satisfied.
  pub All-put-first :
      (P : A → Type κ) (p : A → Bool) (old new : A) (xs : List A)
      → first p xs ≡ some old
      → (P old → P new)
      → All P xs
      → All P (put p new xs)
  All-put-first P p old new [] e step h = absurd (ground arith)
  All-put-first P p old new (x ∷ xs) e step h = elim (Bool-cases (p x)) [
    | inl here ↦ rw here (step (subst P (ground arith) h.0), h.1)
    | inr later ↦ rw later (h.0, All-put-first P p old new xs (rw later at e) step h.1)
  ]

  pub All-imp : (P Q : A → Type κ) (xs : List A) → ((x : A) → P x → Q x) → All P xs → All Q xs
  All-imp P Q [] step h = tt
  All-imp P Q (x ∷ xs) step h = (step x h.0, All-imp P Q xs step h.1)

  pub Pairs-put :
      (R : A → A → Type κ) (p : A → Bool) (old new : A) (xs : List A)
      → first p xs ≡ some old
      → ((y : A) → R old y → R new y)
      → ((y : A) → R y old → R y new)
      → Pairs R xs
      → Pairs R (put p new xs)
  Pairs-put R p old new [] e left right h = absurd (ground arith)
  Pairs-put R p old new (x ∷ xs) e left right h = elim (Bool-cases (p x)) [
    | inl here ↦
        rw here
          (All-imp (R old) (R new) xs left (subst (λ y. All (R y) xs) (ground arith) h.0), h.1)
    | inr later ↦ rw later (
      All-put-first (R x) p old new xs (rw later at e) (right x) h.0,
      Pairs-put R p old new xs (rw later at e) left right h.1,
    )
  ]

  pub Pairs-snoc :
      (R : A → A → Type κ) (xs : List A) (a : A)
      → All (λ x. R x a) xs
      → Pairs R xs
      → Pairs R (xs ++ a ∷ [])
  Pairs-snoc R [] a h hp = (tt, tt)
  Pairs-snoc R (x ∷ xs) a h hp =
      (All-append (R x) xs (a ∷ []) hp.0 (h.0, tt), Pairs-snoc R xs a h.1 hp.1)

  pub Pairs-map_where :
      (R : A → A → Type κ) (p : A → Bool) (f : A → A) (xs : List A)
      → ((x y : A) → R x y → R (f x) y)
      → ((x y : A) → R x y → R x (f y))
      → Pairs R xs
      → Pairs R (map_where p f xs)
  Pairs-map_where R p f [] left right h = tt
  Pairs-map_where R p f (x ∷ xs) left right h =
      let rest = All-map_where (R x) p f xs (λ y hy e. right x y hy) h.0 in
      let pairs = Pairs-map_where R p f xs left right h.1 in
      elim (Bool-cases (p x)) [
        | inl here ↦ rw here (All-imp (R x) (R (f x)) (map_where p f xs) (left x) rest, pairs)
        | inr later ↦ rw later (rest, pairs)
      ]
