-- ===== src/Balance/Reach.antt =====
-- The balance table under any sequence of BalanceService's operations.
use leave_ledger.Common.{
  ℕ, ◌≡◌, some, inl, inr, Option-cases, All, All-first, All-put, All-append, arith, subst, [], ◌∷◌,
}
use leave_ledger.Common.Int.{ℤ, pos, ◌≤ℤ◌}
use leave_ledger.Result.{ok}
use leave_ledger.Database.{insert-some}
use leave_ledger.Balance.{
  BalanceKey, EmployeeBalance, BalanceView, BalanceRepository, HcmData, has_key, same_balance,
  new_balance, deduct, release, finalize, real_time, atomic_deduct, release_from_pending,
  finalize_used, upsert_balance, apply_hcm_real_time_update,
}
use leave_ledger.Balance.Conserved.{
  IsBalanced, deduct-IsBalanced, release-IsBalanced, finalize-IsBalanced, new_balance-IsBalanced,
  real_time-IsBalanced,
}
use leave_ledger.Balance.Moves.{find_key, atomic_deduct-inv, release-inv, finalize-inv}

module _ (B : BalanceRepository) where
  -- One operation that returns. Days and seeded totals are not negative: the service passes a day
  -- count and the seed endpoint's total.
  pub data Step (t t' : B.Table) : Type 0 where
    deducted :
        (k : BalanceKey) (days : ℤ) (b : EmployeeBalance)
        → pos 0 ≤ℤ days
        → atomic_deduct B k days t ≡ ok (b, t')
        → Step t t'
    released :
        (k : BalanceKey) (days : ℤ)
        → pos 0 ≤ℤ days
        → release_from_pending B k days t ≡ ok t'
        → Step t t'
    finalized :
        (k : BalanceKey) (days : ℤ) → pos 0 ≤ℤ days → finalize_used B k days t ≡ ok t' → Step t t'
    upserted :
        (now : ℕ) (k : BalanceKey) (total : ℤ) (v : BalanceView)
        → pos 0 ≤ℤ total
        → upsert_balance B now k total t ≡ ok (v, t')
        → Step t t'
    updated :
        (now : ℕ) (k : BalanceKey) (hcm : HcmData)
        → (apply_hcm_real_time_update B now k hcm t).1 ≡ t'
        → Step t t'

  pub data Reach (t : B.Table) : B.Table → Type 0 where
    here : Reach t t
    next : {u v : B.Table} → Reach t u → Step u v → Reach t v

  abbrev pub AllBalanced : B.Table → Type 0
  AllBalanced t = All IsBalanced (B.rows t)

  pub find_key-IsBalanced :
      (k : BalanceKey) (t : B.Table) (b : EmployeeBalance)
      → AllBalanced t
      → find_key B k t ≡ some b
      → IsBalanced b
  find_key-IsBalanced k t b h e =
      All-first IsBalanced (has_key k) (B.rows t) b h (rw B.find_one-rows at e)

  pub save-AllBalanced :
      (b : EmployeeBalance) (t : B.Table) → AllBalanced t → IsBalanced b → AllBalanced (B.save b t)
  save-AllBalanced b t h hb = rw B.save-rows (All-put IsBalanced (same_balance b) b (B.rows t) h hb)

  pub insert-AllBalanced :
      (b : EmployeeBalance) (t t' : B.Table)
      → B.insert b t ≡ some t'
      → AllBalanced t
      → IsBalanced b
      → AllBalanced t'
  insert-AllBalanced b t t' e h hb =
      rw (insert-some B b t t' e).1 (All-append IsBalanced (B.rows t) (b ∷ []) h (hb, tt))

  upsert-AllBalanced :
      (now : ℕ) (k : BalanceKey) (total : ℤ) (t t' : B.Table) (v : BalanceView)
      → pos 0 ≤ℤ total
      → upsert_balance B now k total t ≡ ok (v, t')
      → AllBalanced t
      → AllBalanced t'
  unfolding upsert_balance
  upsert-AllBalanced now k total t t' v nonneg e h = elim (Option-cases (find_key B k t)) [
    | inr (b, found) ↦ let same : t ≡ t' = ground arith in subst AllBalanced same h
    | inl missing ↦ elim (Option-cases (B.insert (new_balance now k total) t)) [
      | inl refused ↦ absurd (ground arith)
      | inr (u, stored) ↦
          let same : u ≡ t' = ground arith in
          subst AllBalanced same (
            insert-AllBalanced (new_balance now k total) t u stored h
              (new_balance-IsBalanced now k total nonneg))
    ]
  ]

  update-AllBalanced :
      (now : ℕ) (k : BalanceKey) (hcm : HcmData) (t t' : B.Table)
      → (apply_hcm_real_time_update B now k hcm t).1 ≡ t'
      → AllBalanced t
      → AllBalanced t'
  unfolding apply_hcm_real_time_update
  update-AllBalanced now k hcm t t' e h = elim (Option-cases (find_key B k t)) [
    | inl missing ↦ let same : t ≡ t' = ground arith in subst AllBalanced same h
    | inr (b, found) ↦
        let same : B.save (real_time now hcm b) t ≡ t' = ground arith in
        subst AllBalanced same (
          save-AllBalanced (real_time now hcm b) t h
            (real_time-IsBalanced now hcm b (find_key-IsBalanced k t b h found)))
  ]

  Step-AllBalanced : {t t' : B.Table} → Step t t' → AllBalanced t → AllBalanced t'
  Step-AllBalanced {t} {t'} (deducted k days b nonneg e) h =
      let (c, found, covered, made, saved) = atomic_deduct-inv B k days t b t' e in
      rw (saved, made)
        (save-AllBalanced (deduct days c) t h
          (deduct-IsBalanced days c nonneg (find_key-IsBalanced k t c h found) covered))
  Step-AllBalanced {t} {t'} (released k days nonneg e) h =
      let (c, found, covered, saved) = release-inv B k days t t' e in
      rw saved (
        save-AllBalanced (release days c) t h
          (release-IsBalanced days c nonneg (find_key-IsBalanced k t c h found) covered))
  Step-AllBalanced {t} {t'} (finalized k days nonneg e) h =
      let (c, found, covered, saved) = finalize-inv B k days t t' e in
      rw saved (
        save-AllBalanced (finalize days c) t h
          (finalize-IsBalanced days c nonneg (find_key-IsBalanced k t c h found) covered))
  Step-AllBalanced {t} {t'} (upserted now k total v nonneg e) h =
      upsert-AllBalanced now k total t t' v nonneg e h
  Step-AllBalanced {t} {t'} (updated now k hcm e) h = update-AllBalanced now k hcm t t' e h

  -- From a table whose balances are all conserved and not negative, every table that BalanceService
  -- reaches is such a table: available + pending + used stays equal to total.
  pub Reach-AllBalanced : {t t' : B.Table} → Reach t t' → AllBalanced t → AllBalanced t'
  Reach-AllBalanced here h = h
  Reach-AllBalanced (next r s) h = Step-AllBalanced s (Reach-AllBalanced r h)
