-- ===== src/Common/Keyed.antt =====
-- Lists of entries with a key: what a lookup finds after an entry was put in the place of its key.
use mathlib.Core.Path.{◌≡◌, refl, subst}
use mathlib.Core.Bool.{Bool, true, false, not}
use mathlib.Core.List.{List, [], ◌∷◌}
use mathlib.Core.Logic.{inl, inr}
use mathlib.Core.Option.{none, some}
use Prim.Native.String.{String}
use leave_ledger.Common.Tests.{if◌then◌else◌, Bool-cases}
use leave_ledger.Common.Lists.{first, put, first-put_self, keep, first-keep-none}
use leave_ledger.Common.Eq.{◌==◌, String-Eq, eq_of_same, eq_self}

module _ {ℓ} {A : Type ℓ} (key_of : A → String) where
  abbrev pub at_key : String → A → Bool
  at_key k x = key_of x == k

  pub other_key : (k j : String) (x : A) → (k == j) ≡ false → at_key k x ≡ true → at_key j x ≡ false
  other_key k j x differs h = elim (Bool-cases (at_key j x)) [
    | inl found ↦
        let same : (k == j) ≡ true =
          subst (λ y. (y == j) ≡ true) (eq_of_same (key_of x) k h) found in
        cc
    | inr gone ↦ gone
  ]

  put-other_key :
      (k j : String) (new : A) (xs : List A)
      → (k == j) ≡ false
      → at_key k new ≡ true
      → first (at_key j) (put (at_key k) new xs) ≡ first (at_key j) xs
  put-other_key k j new [] differs e = rw (other_key k j new differs e) refl
  put-other_key k j new (x ∷ xs) differs e = elim (Bool-cases (at_key k x)) [
    | inl here ↦ rw (here, other_key k j new differs e, other_key k j x differs here) refl
    | inr later ↦ rw (later, put-other_key k j new xs differs e) refl
  ]

  pub first-put_key :
      (k j : String) (new : A) (xs : List A)
      → key_of new ≡ k
      → first (at_key j) (put (at_key k) new xs)
        ≡ (if k == j then some new else first (at_key j) xs)
  first-put_key k j new xs e =
      let mine : at_key k new ≡ true =
        subst (λ y. (key_of new == y) ≡ true) e (eq_self (key_of new)) in
      elim (Bool-cases (k == j)) [
        | inl same ↦ rw same (
            subst (λ i. first (at_key i) (put (at_key k) new xs) ≡ some new) (eq_of_same k j same)
              (first-put_self (at_key k) new xs mine))
        | inr differs ↦ rw differs (put-other_key k j new xs differs mine)
      ]

  keep-other_key :
      (k j : String) (xs : List A)
      → (k == j) ≡ false
      → first (at_key j) (keep (λ x. not (at_key k x)) xs) ≡ first (at_key j) xs
  keep-other_key k j [] differs = refl
  keep-other_key k j (x ∷ xs) differs = elim (Bool-cases (at_key k x)) [
    | inl here ↦ rw (here, other_key k j x differs here, keep-other_key k j xs differs) refl
    | inr later ↦ rw (later, keep-other_key k j xs differs) refl
  ]

  pub first-keep_key :
      (k j : String) (xs : List A)
      → first (at_key j) (keep (λ x. not (at_key k x)) xs)
        ≡ (if k == j then none else first (at_key j) xs)
  first-keep_key k j xs = elim (Bool-cases (k == j)) [
    | inl same ↦ rw same (
        subst (λ i. first (at_key i) (keep (λ x. not (at_key k x)) xs) ≡ none) (eq_of_same k j same)
          (first-keep-none (at_key k) xs))
    | inr differs ↦ rw differs (keep-other_key k j xs differs)
  ]
