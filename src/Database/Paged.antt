-- ===== src/Database/Paged.antt =====
-- The queries of TypeORM that order the rows and read a part of them: `findAndCount` and `find` with
-- `order`, `skip` and `take`. The column they are ordered by is a parameter, `stamp`. The order of rows
-- with the same stamp is any, and may be another one in every query.
use leave_ledger.Common.{
  ℕ, ◌≤◌, ◌≡◌, refl, Bool, inl, inr, Bool-cases, arith, List, [], ◌∷◌, if◌then◌else◌, length, keep,
  take, drop, leb, All, Pairs, All-imp,
}
use leave_ledger.Database.{Repository, list_repository}
use mathlib.Core.List.{Perm}
use mathlib.Core.List.Perm

-- `{ stamp: 'DESC' }`
abbrev pub NewestFirst : {Row : Type 0} → (Row → ℕ) → List Row → Type 0
NewestFirst stamp = Pairs (λ x y. stamp y ≤ stamp x)

pub record Paged {Row : Type 0} {same conflict : Row → Row → Bool}
    (R : Repository Row same conflict) (stamp : Row → ℕ) : Type 0 where
  -- `findAndCount({ where, order, take, skip })`
  pub find_and_count : (Row → Bool) → ℕ → ℕ → R.Table → List Row × ℕ
  -- `find({ order, take })`
  pub find_newest : ℕ → R.Table → List Row
  pub find_and_count-rows :
      (p : Row → Bool) (n skip : ℕ) (t : R.Table)
      → (xs : List Row) × Perm xs (keep p (R.rows t))
        × NewestFirst stamp xs
        × (find_and_count p n skip t ≡ (take n (drop skip xs), length xs))
  pub find_newest-rows :
      (n : ℕ) (t : R.Table)
      → (xs : List Row) × Perm xs (R.rows t) × NewestFirst stamp xs × (find_newest n t ≡ take n xs)

-- A table that is its list of rows, sorted by insertion.
module _ {Row : Type 0} (same conflict : Row → Row → Bool) (stamp : Row → ℕ) where
  abbrev insert_newest : Row → List Row → List Row
  insert_newest r [] = r ∷ []
  insert_newest r (x ∷ xs) = if leb (stamp x) (stamp r) then r ∷ x ∷ xs else x ∷ insert_newest r xs

  abbrev newest_first : List Row → List Row
  newest_first [] = []
  newest_first (r ∷ rs) = insert_newest r (newest_first rs)

  insert_newest-perm : (r : Row) (xs : List Row) → Perm (insert_newest r xs) (r ∷ xs)
  insert_newest-perm r [] = Perm.rfl
  insert_newest-perm r (x ∷ xs) = elim (Bool-cases (leb (stamp x) (stamp r))) [
    | inl older ↦ rw older Perm.rfl
    | inr newer ↦ rw newer (Perm.trans (Perm.cons x (insert_newest-perm r xs)) (Perm.swap r x xs))
  ]

  pub newest_first-perm : (xs : List Row) → Perm (newest_first xs) xs
  newest_first-perm [] = Perm.rfl
  newest_first-perm (r ∷ rs) =
      Perm.trans (insert_newest-perm r (newest_first rs)) (Perm.cons r (newest_first-perm rs))

  All-insert_newest :
      (P : Row → Type 0) (r : Row) (xs : List Row) → P r → All P xs → All P (insert_newest r xs)
  All-insert_newest P r [] hr h = (hr, tt)
  All-insert_newest P r (x ∷ xs) hr h = elim (Bool-cases (leb (stamp x) (stamp r))) [
    | inl older ↦ rw older (hr, h)
    | inr newer ↦ rw newer (h.0, All-insert_newest P r xs hr h.1)
  ]

  insert_newest-newest :
      (r : Row) (xs : List Row) → NewestFirst stamp xs → NewestFirst stamp (insert_newest r xs)
  insert_newest-newest r [] h = (tt, tt)
  insert_newest-newest r (x ∷ xs) h = elim (Bool-cases (leb (stamp x) (stamp r))) [
    | inl older ↦
        let le : stamp x ≤ stamp r = ground arith in
        rw older (
          (
            le,
            All-imp (λ y. stamp y ≤ stamp x) (λ y. stamp y ≤ stamp r) xs
                (λ y hy. omega (arith, hy, le)) h.0,
          ),
          h,
        )
    | inr newer ↦
        let le : stamp r ≤ stamp x = ground arith in
        rw newer
          (All-insert_newest (λ y. stamp y ≤ stamp x) r xs le h.0, insert_newest-newest r xs h.1)
  ]

  pub newest_first-newest : (xs : List Row) → NewestFirst stamp (newest_first xs)
  newest_first-newest [] = tt
  newest_first-newest (r ∷ rs) = insert_newest-newest r (newest_first rs) (newest_first-newest rs)

  abbrev pub list_paged : Paged (list_repository same conflict) stamp
  list_paged = record {
    find_and_count = λ p n skip t.
        (take n (drop skip (newest_first (keep p t))), length (newest_first (keep p t)));
    find_newest = λ n t. take n (newest_first t);
    find_and_count-rows = λ p n skip t. (
      newest_first (keep p t),
      newest_first-perm (keep p t),
      newest_first-newest (keep p t),
      refl,
    );
    find_newest-rows = λ n t. (newest_first t, newest_first-perm t, newest_first-newest t, refl);
  }
