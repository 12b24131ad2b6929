-- ===== src/Database.antt =====
-- The database, as the services see it through TypeORM's repositories and entity managers. Neither
-- TypeORM nor the database is part of the repository: a table is abstract, and `Repository` holds
-- the calls that the services make and what TypeORM documents of them, in terms of the table's rows.
pub mod Paged
pub mod Ordered
use leave_ledger.Common.{
  ◌≡◌, refl, Bool, true, false, inl, inr, Option-cases, arith, List, [], ◌∷◌, ◌++◌, Option, none,
  some, if◌then◌else◌, first, keep, some_of, put, map_where,
}
use mathlib.Core.Option

-- `same` compares primary keys; `conflict` is the unique constraints of the table.
pub record Repository (Row : Type 0) (same conflict : Row → Row → Bool) : Type 1 where
  pub Table : Type 0
  -- The committed rows.
  pub rows : Table → List Row
  -- `findOne({ where })`
  pub find_one : (Row → Bool) → Table → Option Row
  -- `find({ where })`
  pub find : (Row → Bool) → Table → List Row
  -- `save` of a new entity; `none` is a violation of a unique constraint.
  pub insert : Row → Table → Option Table
  -- `save` of an entity that was loaded.
  pub save : Row → Table → Table
  -- `update(criteria, partialEntity)`
  pub update : (Row → Bool) → (Row → Row) → Table → Table
  pub find_one-rows : (p : Row → Bool) (t : Table) → find_one p t ≡ first p (rows t)
  pub find-rows : (p : Row → Bool) (t : Table) → find p t ≡ keep p (rows t)
  pub insert-rows :
      (r : Row) (t : Table)
      → Option.map rows (insert r t)
        ≡ (if some_of (conflict r) (rows t) then none else some (rows t ++ r ∷ []))
  pub save-rows : (r : Row) (t : Table) → rows (save r t) ≡ put (same r) r (rows t)
  pub update-rows :
      (p : Row → Bool) (f : Row → Row) (t : Table) → rows (update p f t) ≡ map_where p f (rows t)

-- What a successful insertion, and a refused one, say of the rows.
module _ {Row : Type 0} {same conflict : Row → Row → Bool} (R : Repository Row same conflict) where
  pub insert-some :
      (r : Row) (t t' : R.Table)
      → R.insert r t ≡ some t'
      → (some_of (conflict r) (R.rows t) ≡ false) × (R.rows t' ≡ R.rows t ++ r ∷ [])
  insert-some r t t' e = ground (arith, R.insert-rows r t)

  pub insert-ok :
      (r : Row) (t : R.Table)
      → some_of (conflict r) (R.rows t) ≡ false
      → (t' : R.Table) × (R.insert r t ≡ some t') × (R.rows t' ≡ R.rows t ++ r ∷ [])
  insert-ok r t e = elim (Option-cases (R.insert r t)) [
    | inl refused ↦ absurd (ground (arith, R.insert-rows r t))
    | inr (t', done) ↦ (t', done, (insert-some r t t' done).1)
  ]

  pub insert-conflict :
      (r : Row) (t : R.Table) → some_of (conflict r) (R.rows t) ≡ true → R.insert r t ≡ none
  insert-conflict r t e = ground (arith, R.insert-rows r t)

-- A table that is its list of rows meets the laws.
module _ {Row : Type 0} (same conflict : Row → Row → Bool) where
  abbrev insert_row : Row → List Row → Option (List Row)
  insert_row r xs = if some_of (conflict r) xs then none else some (xs ++ r ∷ [])

  pub insert_row-rows :
      (r : Row) (xs : List Row)
      → Option.map (λ (l : List Row). l) (insert_row r xs) ≡ insert_row r xs
  insert_row-rows r xs = ground arith

  abbrev pub list_repository : Repository Row same conflict
  list_repository = record {
    Table = List Row;
    rows = λ t. t;
    find_one = first;
    find = keep;
    insert = insert_row;
    save = λ r. put (same r) r;
    update = map_where;
    find_one-rows = λ p t. refl;
    find-rows = λ p t. refl;
    insert-rows = insert_row-rows;
    save-rows = λ r t. refl;
    update-rows = λ p f t. refl;
  }
