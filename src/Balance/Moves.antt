-- ===== src/Balance/Moves.antt =====
-- What atomicDeduct, releaseFromPending and finalizeUsed of src/modules/balance/balance.service.js do
-- to the table.
use leave_ledger.Common.{
  ◌⊎◌, ◌≡◌, Option, none, some, inl, inr, Bool-cases, Option-cases, arith, if◌then◌else◌, subst,
}
use leave_ledger.Common.Int.{ℤ, pos, ◌≤ℤ◌, int_laws, ltb_ℤ, not_ltb_ℤ→le, +ℤ_cancel, -ℤ_cancel}
use leave_ledger.Result.{balance_not_found, insufficient_balance, ok, err}
use leave_ledger.Balance.{
  BalanceKey, EmployeeBalance, key_eq, has_key, BalanceRepository, deduct, release, finalize,
  atomic_deduct, release_from_pending, finalize_used,
}
use leave_ledger.Balance.Rows.{first-key, first-put, key_eq_iff}

module _ (B : BalanceRepository) where
  abbrev pub find_key : BalanceKey → B.Table → Option EmployeeBalance
  find_key k = B.find_one (has_key k)

  -- `t'` is `t` with the balance of `k` replaced by `b`.
  abbrev pub Updated : BalanceKey → EmployeeBalance → B.Table → B.Table → Type 0
  Updated k b t t' =
      (j : BalanceKey) → find_key j t' ≡ (if key_eq j k then some b else find_key j t)

  pub find_key-key :
      (k : BalanceKey) (t : B.Table) (b : EmployeeBalance) → find_key k t ≡ some b → b.key ≡ k
  find_key-key k t b e = first-key k (B.rows t) b (rw B.find_one-rows at e)

  pub save-Updated : (b : EmployeeBalance) (t : B.Table) → Updated b.key b t (B.save b t)
  save-Updated b t j =
      rw (B.find_one-rows (has_key j) (B.save b t), B.find_one-rows (has_key j) t, B.save-rows)
        (first-put j b (B.rows t))

  module _ (k : BalanceKey) (days : ℤ) (t : B.Table) where
    pub atomic_deduct-inv :
        (b' : EmployeeBalance) (t' : B.Table)
        → atomic_deduct B k days t ≡ ok (b', t')
        → (b : EmployeeBalance) × (find_key k t ≡ some b)
          × (days ≤ℤ b.available_balance)
          × (b' ≡ deduct days b)
          × (t' ≡ B.save b' t)
    unfolding atomic_deduct
    atomic_deduct-inv b' t' e = elim (Option-cases (find_key k t)) [
      | inl missing ↦ absurd (ground arith)
      | inr (b, found) ↦ (b, found, ground arith, ground arith, ground arith)
    ]

    pub release-inv :
        (t' : B.Table)
        → release_from_pending B k days t ≡ ok t'
        → (b : EmployeeBalance) × (find_key k t ≡ some b)
          × (days ≤ℤ b.pending_balance)
          × (t' ≡ B.save (release days b) t)
    unfolding release_from_pending
    release-inv t' e = elim (Option-cases (find_key k t)) [
      | inl missing ↦ absurd (ground arith)
      | inr (b, found) ↦ (b, found, ground arith, ground arith)
    ]

    pub finalize-inv :
        (t' : B.Table)
        → finalize_used B k days t ≡ ok t'
        → (b : EmployeeBalance) × (find_key k t ≡ some b)
          × (days ≤ℤ b.pending_balance)
          × (t' ≡ B.save (finalize days b) t)
    unfolding finalize_used
    finalize-inv t' e = elim (Option-cases (find_key k t)) [
      | inl missing ↦ absurd (ground arith)
      | inr (b, found) ↦ (b, found, ground arith, ground arith)
    ]

  module _ (k : BalanceKey) (days : ℤ) (t : B.Table) (b : EmployeeBalance)
      (found : find_key k t ≡ some b) where
    pub atomic_deduct-ok :
        days ≤ℤ b.available_balance
        → atomic_deduct B k days t ≡ ok (deduct days b, B.save (deduct days b) t)
    unfolding atomic_deduct
    atomic_deduct-ok covered = ground arith

    pub release-ok :
        days ≤ℤ b.pending_balance → release_from_pending B k days t ≡ ok (B.save (release days b) t)
    unfolding release_from_pending
    release-ok covered = ground arith

    pub finalize-ok :
        days ≤ℤ b.pending_balance → finalize_used B k days t ≡ ok (B.save (finalize days b) t)
    unfolding finalize_used
    finalize-ok covered = ground arith

    deduct-key : (deduct days b).key ≡ k
    unfolding deduct
    deduct-key = find_key-key k t b found

    release-key : (release days b).key ≡ k
    unfolding release
    release-key = find_key-key k t b found

    finalize-key : (finalize days b).key ≡ k
    unfolding finalize
    finalize-key = find_key-key k t b found

    pub deduct-Updated : Updated k (deduct days b) t (B.save (deduct days b) t)
    deduct-Updated =
        subst (λ j. Updated j (deduct days b) t (B.save (deduct days b) t)) deduct-key
          (save-Updated (deduct days b) t)

    pub release-Updated : Updated k (release days b) t (B.save (release days b) t)
    release-Updated =
        subst (λ j. Updated j (release days b) t (B.save (release days b) t)) release-key
          (save-Updated (release days b) t)

    pub finalize-Updated : Updated k (finalize days b) t (B.save (finalize days b) t)
    finalize-Updated =
        subst (λ j. Updated j (finalize days b) t (B.save (finalize days b) t)) finalize-key
          (save-Updated (finalize days b) t)

release-deduct_lem : (days : ℤ) (b : EmployeeBalance) → release days (deduct days b) ≡ b
unfolding release deduct
release-deduct_lem days b =
    ground (arith, +ℤ_cancel b.pending_balance days, -ℤ_cancel b.available_balance days)

held_days :
    (days : ℤ) (b : EmployeeBalance)
    → pos 0 ≤ℤ b.pending_balance
    → days ≤ℤ (deduct days b).pending_balance
unfolding deduct
held_days days b nonneg = omega int_laws

module _ (B : BalanceRepository) (k : BalanceKey) (days : ℤ) (t : B.Table) where
  -- atomicDeduct, on every branch: a missing balance and one with fewer available days than asked
  -- are refused; otherwise the days move from available to pending in that balance, and every other
  -- lookup of the table is as before.
  pub atomic_deduct_outcomes :
      ((find_key B k t ≡ none) × (atomic_deduct B k days t ≡ err balance_not_found))
      ⊎ ((b : EmployeeBalance) × (find_key B k t ≡ some b)
          × (¬ (days ≤ℤ b.available_balance))
          × (atomic_deduct B k days t ≡ err insufficient_balance))
      ⊎ ((b : EmployeeBalance) × (find_key B k t ≡ some b)
          × (days ≤ℤ b.available_balance)
          × ((t' : B.Table) × (atomic_deduct B k days t ≡ ok (deduct days b, t'))
              × Updated B k (deduct days b) t t'))
  unfolding atomic_deduct
  atomic_deduct_outcomes = elim (Option-cases (find_key B k t)) [
    | inl missing ↦ inl (missing, ground arith)
    | inr (b, found) ↦ elim (Bool-cases (ltb_ℤ b.available_balance days)) [
      | inl short ↦ inr (inl (b, found, ground arith, ground arith))
      | inr covers ↦
          let covered = not_ltb_ℤ→le b.available_balance days covers in
          inr (
            inr (
              b,
              found,
              covered,
              (
                B.save (deduct days b) t,
                atomic_deduct-ok B k days t b found covered,
                deduct-Updated B k days t b found,
              ),
            ))
    ]
  ]

  -- Days that atomicDeduct held and releaseFromPending returns leave every lookup as it was, if the
  -- balance had no negative pending days.
  pub release-deduct :
      (b : EmployeeBalance) (t' : B.Table) (b' : EmployeeBalance)
      → find_key B k t ≡ some b
      → pos 0 ≤ℤ b.pending_balance
      → atomic_deduct B k days t ≡ ok (b', t')
      → (t'' : B.Table) × (release_from_pending B k days t' ≡ ok t'')
        × ((j : BalanceKey) → find_key B j t'' ≡ find_key B j t)
  release-deduct b t' b' found nonneg e =
      let (c, seen, covered, made, saved) = atomic_deduct-inv B k days t b' t' e in
      let same : c ≡ b = ground arith in
      let held : find_key B k t' ≡ some (deduct days b) =
        ground (arith, deduct-Updated B k days t b found k, key_eq_iff k k) in
      (
        B.save (release days (deduct days b)) t',
        release-ok B k days t' (deduct days b) held (held_days days b nonneg),
        λ j. ground (
          arith,
          release-Updated B k days t' (deduct days b) held j,
          deduct-Updated B k days t b found j,
          release-deduct_lem days b,
          key_eq_iff j k,
        ),
      )
