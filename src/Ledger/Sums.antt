-- ===== src/Ledger/Sums.antt =====
-- The sums of days under an insertion and under a replacement.
use leave_ledger.Common.{
  ◌≡◌, Bool, false, some, List, [], ◌∷◌, ◌++◌, inl, inr, Bool-cases, arith, first, put, All,
}
use leave_ledger.Common.Int.{ℤ, pos, ◌+ℤ◌, ◌≤ℤ◌, int_laws, parts_of_eq}
use leave_ledger.Constants.{RequestStatus}
use leave_ledger.Balance.{BalanceKey, key_eq}
use leave_ledger.Entities.{TimeOffRequest, request_key}
use leave_ledger.Ledger.{share, held}

module _ (s : RequestStatus) (k : BalanceKey) where
  pub held-snoc :
      (r : TimeOffRequest) (rs : List TimeOffRequest)
      → held s k (rs ++ r ∷ []) ≡ held s k rs +ℤ share s k r
  unfolding held
  held-snoc r [] = omega int_laws
  held-snoc r (x ∷ rs) = rw (held-snoc r rs) (omega int_laws)

  -- A replacement trades the old entry's share for the new one's.
  pub held-put :
      (p : TimeOffRequest → Bool) (old new : TimeOffRequest) (rs : List TimeOffRequest)
      → first p rs ≡ some old
      → held s k (put p new rs) +ℤ share s k old ≡ held s k rs +ℤ share s k new
  unfolding held
  held-put p old new [] e = absurd (ground arith)
  held-put p old new (x ∷ rs) e = elim (Bool-cases (p x)) [
    | inl here ↦ let same : x ≡ old = ground arith in rw (here, same) (omega int_laws)
    | inr later ↦
        rw later (omega (int_laws, parts_of_eq _ _ (held-put p old new rs (rw later at e))))
  ]

  share_nonneg : (r : TimeOffRequest) → pos 0 ≤ℤ r.days_requested → pos 0 ≤ℤ share s k r
  unfolding share
  share_nonneg r h = ground arith

  held_nonneg :
      (rs : List TimeOffRequest) → All (λ x. pos 0 ≤ℤ x.days_requested) rs → pos 0 ≤ℤ held s k rs
  unfolding held
  held_nonneg [] h = omega arith
  held_nonneg (x ∷ rs) h = omega (int_laws, share_nonneg x h.0, held_nonneg rs h.1)

  -- The days of one request are among those held.
  pub share-le-held :
      (p : TimeOffRequest → Bool) (r : TimeOffRequest) (rs : List TimeOffRequest)
      → first p rs ≡ some r
      → All (λ x. pos 0 ≤ℤ x.days_requested) rs
      → (share s k r ≤ℤ held s k rs)
  unfolding held
  share-le-held p r [] e h = absurd (ground arith)
  share-le-held p r (x ∷ rs) e h = elim (Bool-cases (p x)) [
    | inl here ↦ let same : x ≡ r = ground arith in rw same (omega (int_laws, held_nonneg rs h.1))
    | inr later ↦ omega (int_laws, share_nonneg x h.0, share-le-held p r rs (rw later at e) h.1)
  ]

  -- A share that is traded in a balance and in the sum keeps the two equal.
  pub linked-put :
      (p : TimeOffRequest → Bool) (old new : TimeOffRequest) (rs : List TimeOffRequest) (x x' : ℤ)
      → first p rs ≡ some old
      → x ≡ held s k rs
      → x' +ℤ share s k old ≡ x +ℤ share s k new
      → x' ≡ held s k (put p new rs)
  linked-put p old new rs x x' e link trade = omega (
    int_laws,
    parts_of_eq _ _ (held-put p old new rs e),
    parts_of_eq _ _ link,
    parts_of_eq _ _ trade,
  )

  pub share-other : (r : TimeOffRequest) → key_eq k (request_key r) ≡ false → share s k r ≡ pos 0
  unfolding share
  share-other r e = ground arith
