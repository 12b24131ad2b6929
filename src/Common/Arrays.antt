-- ===== src/Common/Arrays.antt =====
-- Lists as arrays: writing and swapping entries by index.
use mathlib.Core.Path.{◌≡◌, refl}
use mathlib.Core.List.{List, [], ◌∷◌, Perm}
use mathlib.Core.List.Perm
use mathlib.Core.Option.{none, some}
use native.Mathlib.Omega.{arith}
use mathlib.Core.Bool.{true}
use Prim.Native.Nat.{ℕ, zero, suc, ◌<◌}
use leave_ledger.Common.Tests.{if◌then◌else◌, nat_eq}
use leave_ledger.Common.Lists.{length, get_elem?}

module _ {ℓ} {A : Type ℓ} where
  -- `xs[i] = v`, for an index within the list.
  abbrev pub write : ℕ → A → List A → List A
  write i v [] = []
  write zero v (x ∷ xs) = v ∷ xs
  write (suc i) v (x ∷ xs) = x ∷ write i v xs

  -- `[xs[i], xs[j]] = [xs[j], xs[i]]`, for indices within the list.
  unfoldable pub exchange : ℕ → ℕ → List A → List A
  exchange i j xs = elim (get_elem? xs i) [
    | none ↦ xs
    | some x ↦ elim (get_elem? xs j) [ none ↦ xs | some y ↦ write j x (write i y xs) ]
  ]

  -- `xs.slice(0, n)`
  abbrev pub take : ℕ → List A → List A
  take zero xs = []
  take (suc n) [] = []
  take (suc n) (x ∷ xs) = x ∷ take n xs

  -- `xs.slice(n)`
  abbrev pub drop : ℕ → List A → List A
  drop zero xs = xs
  drop (suc n) [] = []
  drop (suc n) (x ∷ xs) = drop n xs

  pub get-inside : (xs : List A) (i : ℕ) → i < length xs → (x : A) × (get_elem? xs i ≡ some x)
  get-inside [] i h = absurd (omega arith)
  get-inside (x ∷ xs) zero h = (x, refl)
  get-inside (x ∷ xs) (suc i) h = get-inside xs i (omega arith)

  pub get-outside : (xs : List A) (i : ℕ) (x : A) → get_elem? xs i ≡ some x → i < length xs
  get-outside [] i x h = cc
  get-outside (y ∷ xs) zero x h = omega arith
  get-outside (y ∷ xs) (suc i) x h = omega (arith, get-outside xs i x h)

  pub length-write : (i : ℕ) (v : A) (xs : List A) → length (write i v xs) ≡ length xs
  length-write i v [] = refl
  length-write zero v (x ∷ xs) = refl
  length-write (suc i) v (x ∷ xs) = omega (arith, length-write i v xs)

  pub get-write :
      (i : ℕ) (v : A) (xs : List A) (c : ℕ)
      → i < length xs
      → get_elem? (write i v xs) c ≡ (if nat_eq c i then some v else get_elem? xs c)
  get-write i v [] c h = absurd (omega arith)
  get-write zero v (x ∷ xs) zero h = refl
  get-write zero v (x ∷ xs) (suc c) h = ground arith
  get-write (suc i) v (x ∷ xs) zero h = ground arith
  get-write (suc i) v (x ∷ xs) (suc c) h = ground (arith, get-write i v xs c)

  -- The new entry with the old list is the old entry with the new list.
  pub write-perm :
      (i : ℕ) (v x : A) (xs : List A) → get_elem? xs i ≡ some x → Perm (x ∷ write i v xs) (v ∷ xs)
  write-perm i v x [] h = cc
  write-perm zero v x (y ∷ xs) h = let same : y ≡ x = ground arith in rw (← same) (Perm.swap v y xs)
  write-perm (suc i) v x (y ∷ xs) h =
      Perm.trans (Perm.swap y x (write i v xs))
        (Perm.trans (Perm.cons y (write-perm i v x xs h)) (Perm.swap v y xs))

  module _ (i j : ℕ) (xs : List A) (hi : i < length xs) (hj : j < length xs) where
    pub get-exchange :
        (c : ℕ)
        → get_elem? (exchange i j xs) c ≡ (
            if nat_eq c j
            then get_elem? xs i
            else if nat_eq c i
            then get_elem? xs j
            else get_elem? xs c)
    unfolding exchange
    get-exchange c =
        let (x, ex) = get-inside xs i hi in
        let (y, ey) = get-inside xs j hj in
        ground (arith, length-write i y xs, get-write j x (write i y xs) c, get-write i y xs c)

    pub exchange-perm : Perm (exchange i j xs) xs
    unfolding exchange
    exchange-perm =
        let (x, ex) = get-inside xs i hi in
        let (y, ey) = get-inside xs j hj in
        let kept : get_elem? (write i y xs) j ≡ some y = ground (arith, get-write i y xs j) in
        rw (exchange, ex, ey)
          (Perm.cons_inv
            (Perm.trans (write-perm j x y (write i y xs) kept) (write-perm i y x xs ex)))

    pub length-exchange : length (exchange i j xs) ≡ length xs
    unfolding exchange
    length-exchange =
        let (x, ex) = get-inside xs i hi in
        let (y, ey) = get-inside xs j hj in
        ground (arith, length-write j x (write i y xs), length-write i y xs)

pub nat_eq_self : (n : ℕ) → nat_eq n n ≡ true
nat_eq_self n = ground arith
