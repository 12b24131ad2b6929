-- ===== src/Common/Slices.antt =====
-- A list read slice by slice: `width` entries at every offset, the offsets `step` apart.
use mathlib.Core.Path.{◌≡◌, refl, ap, ◌∙◌, sym}
use mathlib.Core.List.{List, [], ◌∷◌, ◌++◌}
use native.Mathlib.Omega.{arith}
use Prim.Native.Nat.{ℕ, zero, suc, ◌+◌, ◌-◌, ◌*◌, ◌≤◌, min}
use leave_ledger.Common.Lists.{length, length-append}
use leave_ledger.Common.Arrays.{take, drop}

module _ {ℓ} {A : Type ℓ} where
  -- The first `n` slices from an offset on.
  abbrev pub slices : ℕ → ℕ → ℕ → ℕ → List A → List A
  slices zero step width offset xs = []
  slices (suc n) step width offset xs =
      take width (drop offset xs) ++ slices n step width (offset + step) xs

  pub take-drop : (n : ℕ) (xs : List A) → take n xs ++ drop n xs ≡ xs
  take-drop zero xs = refl
  take-drop (suc n) [] = refl
  take-drop (suc n) (x ∷ xs) = ap (λ ys. x ∷ ys) (take-drop n xs)

  pub drop-nil : (n : ℕ) → drop {A = A} n [] ≡ []
  drop-nil zero = refl
  drop-nil (suc n) = refl

  pub drop_add : (m n : ℕ) (xs : List A) → drop (m + n) xs ≡ drop n (drop m xs)
  drop_add zero n xs = let e : zero + n ≡ n = omega arith in ap (λ k. drop k xs) e
  drop_add (suc m) n [] = drop-nil (suc m + n) ∙ sym (drop-nil n)
  drop_add (suc m) n (x ∷ xs) =
      let e : suc m + n ≡ suc (m + n) = omega arith in ap (λ k. drop k (x ∷ xs)) e ∙ drop_add m n xs

  drop_all : (n : ℕ) (xs : List A) → length xs ≤ n → drop n xs ≡ []
  drop_all n [] h = drop-nil n
  drop_all zero (x ∷ xs) h = absurd (omega arith)
  drop_all (suc n) (x ∷ xs) h = drop_all n xs (omega arith)

  pub length-drop : (n : ℕ) (xs : List A) → length (drop n xs) ≡ length xs - n
  length-drop zero xs = omega arith
  length-drop (suc n) [] = omega arith
  length-drop (suc n) (x ∷ xs) = omega (arith, length-drop n xs)

  pub length-take : (n : ℕ) (xs : List A) → length (take n xs) ≡ min n (length xs)
  length-take zero xs = omega arith
  length-take (suc n) [] = omega arith
  length-take (suc n) (x ∷ xs) = omega (arith, length-take n xs)

  -- Slices that are as wide as their distance leave nothing out.
  pub slices_all :
      (n width offset : ℕ) (xs : List A)
      → length xs ≤ offset + n * width
      → slices n width width offset xs ≡ drop offset xs
  slices_all zero width offset xs h = sym (drop_all offset xs (omega arith))
  slices_all (suc n) width offset xs h =
      rw (slices_all n width (offset + width) xs (omega arith), drop_add offset width xs)
        (take-drop width (drop offset xs))

  -- Slices at most as wide as their distance read no entry twice.
  pub length-slices :
      (n step width offset : ℕ) (xs : List A)
      → width ≤ step
      → length (slices n step width offset xs) ≤ length xs - offset
  length-slices zero step width offset xs h = omega arith
  length-slices (suc n) step width offset xs h = omega (
    arith,
    length-slices n step width (offset + step) xs h,
    length-append (take width (drop offset xs)) (slices n step width (offset + step) xs),
    length-take width (drop offset xs),
    length-drop offset xs,
  )

  pub drop-append : (n : ℕ) (xs ys : List A) → n ≤ length xs → drop n xs ++ ys ≡ drop n (xs ++ ys)
  drop-append zero xs ys h = refl
  drop-append (suc n) [] ys h = absurd (omega arith)
  drop-append (suc n) (x ∷ xs) ys h = drop-append n xs ys (omega arith)
