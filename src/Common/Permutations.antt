-- ===== src/Common/Permutations.antt =====
-- What rearranging a list keeps: its length, and whether every entry passes a test.
use mathlib.Core.Path.{◌≡◌, refl, ap, ◌∙◌}
use mathlib.Core.Bool.{Bool, true, ◌&&◌, Bool-set}
use mathlib.Core.List.{List, [], ◌∷◌, ◌++◌, Perm}
use mathlib.Core.List.Perm
use mathlib.Core.List.Permᴰ.{Permᴰ}
use mathlib.Core.Logic.{∥∥₁_elim}
use mathlib.Core.Option.{none, some}
use native.Mathlib.Nat.{ℕ_set}
use native.Mathlib.Omega.{arith}
use Prim.Native.Nat.{ℕ, zero, suc, ◌+◌, ◌<◌}
use leave_ledger.Common.Tests.{if◌then◌else◌, ltb, nat_eq}
use leave_ledger.Common.Lists.{length, get_elem?, keep, All}
use leave_ledger.Common.Arrays.{take}

module _ {ℓ} {A : Type ℓ} where
  abbrev pub every : (A → Bool) → List A → Bool
  every p [] = true
  every p (x ∷ xs) = p x && every p xs

  lengthᴰ : {xs ys : List A} → Permᴰ xs ys → length xs ≡ length ys
  lengthᴰ Permᴰ.nil = refl
  lengthᴰ (Permᴰ.cons e d) = ap suc (lengthᴰ d)
  lengthᴰ (Permᴰ.swap e f) = refl
  lengthᴰ (Permᴰ.trans d e) = lengthᴰ d ∙ lengthᴰ e

  pub length-perm : (xs ys : List A) → Perm xs ys → length xs ≡ length ys
  length-perm xs ys p = ∥∥₁_elim p (ℕ_set _ _) lengthᴰ

  everyᴰ : (p : A → Bool) {xs ys : List A} → Permᴰ xs ys → every p xs ≡ every p ys
  everyᴰ p Permᴰ.nil = refl
  everyᴰ p (Permᴰ.cons {a = a} {b = b} e d) = let r = everyᴰ p d in let s = ap p e in ground arith
  everyᴰ p (Permᴰ.swap {a = a} {b = b} {a' = c} {b' = d} e f) =
      let s = ap p e in let t = ap p f in ground arith
  everyᴰ p (Permᴰ.trans d e) = everyᴰ p d ∙ everyᴰ p e

  pub every-perm : (p : A → Bool) (xs ys : List A) → Perm xs ys → every p xs ≡ every p ys
  every-perm p xs ys same = ∥∥₁_elim same (Bool-set _ _) (everyᴰ p)

  pub every-get :
      (p : A → Bool) (xs : List A)
      → ((i : ℕ) (x : A) → get_elem? xs i ≡ some x → p x ≡ true)
      → every p xs ≡ true
  every-get p [] h = refl
  every-get p (x ∷ xs) h =
      let here = h 0 x refl in let later = every-get p xs (λ i y e. h (suc i) y e) in ground arith

  pub get-every :
      (p : A → Bool) (xs : List A) (i : ℕ) (x : A)
      → every p xs ≡ true
      → get_elem? xs i ≡ some x
      → p x ≡ true
  get-every p [] i x h e = cc
  get-every p (y ∷ xs) zero x h e = ground arith
  get-every p (y ∷ xs) (suc i) x h e = ground (arith, get-every p xs i x)

  pub every-imp :
      (p q : A → Bool) (xs : List A)
      → ((x : A) → p x ≡ true → q x ≡ true)
      → every p xs ≡ true
      → every q xs ≡ true
  every-imp p q [] step h = refl
  every-imp p q (x ∷ xs) step h = ground (arith, step x, every-imp p q xs step)

  pub every-keep : (p q : A → Bool) (xs : List A) → every p xs ≡ true → every p (keep q xs) ≡ true
  every-keep p q [] h = refl
  every-keep p q (x ∷ xs) h = ground (arith, every-keep p q xs)

  pub every-All : (p : A → Bool) (xs : List A) → every p xs ≡ true → All (λ x. p x ≡ true) xs
  every-All p [] h = tt
  every-All p (x ∷ xs) h = (ground arith, every-All p xs (ground arith))

  pub length-keep : (p : A → Bool) (xs : List A) → length (keep p xs) < length xs + 1
  length-keep p [] = omega arith
  length-keep p (x ∷ xs) = ground (arith, length-keep p xs)

  pub get-snoc :
      (xs : List A) (a : A) (c : ℕ)
      → get_elem? (xs ++ a ∷ []) c ≡ (
          if ltb c (length xs)
          then get_elem? xs c
          else if nat_eq c (length xs)
          then some a
          else none)
  get-snoc [] a zero = refl
  get-snoc [] a (suc c) = ground arith
  get-snoc (x ∷ xs) a zero = ground arith
  get-snoc (x ∷ xs) a (suc c) = ground (arith, get-snoc xs a c)

  pub snoc-perm : (xs : List A) (a : A) → Perm (xs ++ a ∷ []) (a ∷ xs)
  snoc-perm [] a = Perm.rfl
  snoc-perm (x ∷ xs) a = Perm.trans (Perm.cons x (snoc-perm xs a)) (Perm.swap a x xs)

  pub get-take :
      (n : ℕ) (xs : List A) (c : ℕ)
      → get_elem? (take n xs) c ≡ (if ltb c n then get_elem? xs c else none)
  get-take zero xs c = ground arith
  get-take (suc n) [] c = ground arith
  get-take (suc n) (x ∷ xs) zero = ground arith
  get-take (suc n) (x ∷ xs) (suc c) = ground (arith, get-take n xs c)

  pub take-last-perm :
      (n : ℕ) (xs : List A) (z : A)
      → length xs ≡ suc n
      → get_elem? xs n ≡ some z
      → Perm (z ∷ take n xs) xs
  take-last-perm n [] z l h = cc
  take-last-perm zero (x ∷ []) z l h = let e : x ≡ z = ground arith in rw e Perm.rfl
  take-last-perm zero (x ∷ y ∷ xs) z l h = absurd (omega arith)
  take-last-perm (suc n) (x ∷ xs) z l h =
      Perm.trans (Perm.swap x z (take n xs)) (Perm.cons x (take-last-perm n xs z (omega arith) h))
