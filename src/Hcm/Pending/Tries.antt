-- ===== src/Hcm/Pending/Tries.antt =====
-- How many runs of the retry job (src/modules/hcm/hcm-sync.service.js) may still take a request up.
use mathlib.Core.Logic.Or
use mathlib.Core.List.{Mem, mem-cons, not-mem-nil, mem-cons_self, mem-cons_of_mem}
use native.Mathlib.Bridge.{le_prop}
use leave_ledger.Common.{
  ℕ, zero, suc, ◌+◌, ◌-◌, ◌*◌, ◌≤◌, ◌<◌, ◌≡◌, ◌≢◌, refl, sym, ◌∙◌, subst, true, false, List, [],
  ◌∷◌, All, Pairs, Bool-cases, inl, inr, arith, length, keep, map_where, take, leb, if◌then◌else◌,
}
use leave_ledger.Common.Eq.{◌==◌, String-Eq, eq_of_same, eq_self}
use leave_ledger.Constants.{HcmSyncStatus, HcmSyncStatus-Eq, sync_eq}
use leave_ledger.Entities.{TimeOffRequest, has_id}
use leave_ledger.Hcm.{Answers}
use leave_ledger.Hcm.Pending.{update_sync_attempt, retry_patch, retry_row, sync_pending}

-- How many runs may still take a row up.
abbrev pub tries : TimeOffRequest → ℕ
tries r = if sync_pending r then suc (10 - r.hcm_sync_attempts) else 0

abbrev pub all_tries : List TimeOffRequest → ℕ
all_tries [] = 0
all_tries (r ∷ rs) = tries r + all_tries rs

pub all_tries_none :
    (rs : List TimeOffRequest) → length (keep sync_pending rs) ≡ 0 → all_tries rs ≡ 0
all_tries_none [] h = refl
all_tries_none (r ∷ rs) h = elim (Bool-cases (sync_pending r)) [
  | inl waits ↦ absurd (ground (arith, waits))
  | inr done ↦ rw (all_tries, done) (omega (arith, all_tries_none rs (ground (arith, done))))
]

pub all_tries-le : (rs : List TimeOffRequest) → all_tries rs ≤ 11 * length (keep sync_pending rs)
all_tries-le [] = omega arith
all_tries-le (r ∷ rs) = elim (Bool-cases (sync_pending r)) [
  | inl waits ↦ rw (all_tries, waits) (omega (arith, all_tries-le rs))
  | inr done ↦ rw (all_tries, done) (omega (arith, all_tries-le rs))
]

pub none_pending :
    (rs : List TimeOffRequest) → all_tries rs ≡ 0 → All (λ r. sync_pending r ≡ false) rs
none_pending [] h = tt
none_pending (r ∷ rs) h = elim (Bool-cases (sync_pending r)) [
  | inl waits ↦ absurd (ground (arith, waits))
  | inr done ↦ (done, none_pending rs (omega arith))
]

-- No two requests have one id.
abbrev pub HasDistinctIds : List TimeOffRequest → Type 0
HasDistinctIds = Pairs (λ x y. x.id ≢ y.id)

pub All-of_mem :
    (rs : List TimeOffRequest) (P : TimeOffRequest → Type 0)
    → ((r : TimeOffRequest) → Mem r rs → P r)
    → All P rs
All-of_mem [] P h = tt
All-of_mem (r ∷ rs) P h = (h r mem-cons_self, All-of_mem rs P (λ a m. h a (mem-cons_of_mem r m)))

pub mem_of_take :
    (n : ℕ) (rs : List TimeOffRequest) (r : TimeOffRequest) → Mem r (take n rs) → Mem r rs
mem_of_take zero rs r m = absurd (not-mem-nil m)
mem_of_take (suc n) [] r m = absurd (not-mem-nil m)
mem_of_take (suc n) (x ∷ xs) r m =
    Or.elim (hlevel) (mem-cons.0 m) (λ e. subst (λ z. Mem z (x ∷ xs)) (sym e) mem-cons_self)
      (λ later. mem-cons_of_mem x (mem_of_take n xs r later))

pub mem_of_keep :
    (rs : List TimeOffRequest) (r : TimeOffRequest)
    → Mem r (keep sync_pending rs)
    → (sync_pending r ≡ true) × Mem r rs
mem_of_keep [] r m = absurd (not-mem-nil m)
mem_of_keep (x ∷ xs) r m = elim (Bool-cases (sync_pending x)) [
  | inr done ↦
      let (waits, later) = mem_of_keep xs r (rw (keep, done) at m) in
      (waits, mem-cons_of_mem x later)
  | inl waits ↦
      let kept : Mem r (x ∷ keep sync_pending xs) = rw (keep, waits) at m in
      Or.elim (hlevel) (mem-cons.0 kept)
        (λ e. (
          subst (λ z. sync_pending z ≡ true) (sym e) waits,
          subst (λ z. Mem z (x ∷ xs)) (sym e) mem-cons_self,
        ))
        (λ later. let (waits', there) = mem_of_keep xs r later in (waits', mem-cons_of_mem x there))
]

module _ (hcm : Answers) (now : ℕ) where
  -- The tries that an iteration for `r` leaves.
  pub left : TimeOffRequest → ℕ
  left r =
      if leb 10 r.hcm_sync_attempts
      then 0
      else if (retry_patch hcm r).sync_status == HcmSyncStatus.pending
      then suc (10 - (r.hcm_sync_attempts + 1))
      else 0

  tries-retry_row : (r x : TimeOffRequest) → tries (retry_row hcm now r x) ≡ left r
  unfolding left retry_row update_sync_attempt sync_eq
  tries-retry_row r x = elim (Bool-cases (leb 10 r.hcm_sync_attempts)) [
    | inl spent ↦ rw (retry_row, spent) refl
    | inr more ↦ rw (retry_row, more) refl
  ]

  pub left-lt : (r : TimeOffRequest) → sync_pending r ≡ true → left r < tries r
  unfolding left
  left-lt r waits = ground arith

  pub retry_row-id : (r x : TimeOffRequest) → (retry_row hcm now r x).id ≡ x.id
  unfolding retry_row update_sync_attempt
  retry_row-id r x = ground arith

  -- No row of the id has fewer tries than an iteration for `r` leaves.
  abbrev pub Leaves : TimeOffRequest → List TimeOffRequest → Type 0
  Leaves r = All (λ x. has_id r.id x ≡ true → left r ≤ tries x)

  row_lowered :
      (r x : TimeOffRequest)
      → (has_id r.id x ≡ true → left r ≤ tries x)
      → tries (if has_id r.id x then retry_row hcm now r x else x) ≤ tries x
  row_lowered r x h = elim (Bool-cases (has_id r.id x)) [
    | inl own ↦ rw own (omega (arith, tries-retry_row r x, h own))
    | inr other ↦ rw other (omega arith)
  ]

  pub update_lowered :
      (r : TimeOffRequest) (xs : List TimeOffRequest)
      → Leaves r xs
      → all_tries (map_where (has_id r.id) (retry_row hcm now r) xs) ≤ all_tries xs
  update_lowered r [] h = omega arith
  update_lowered r (x ∷ xs) h = omega (arith, row_lowered r x h.0, update_lowered r xs h.1)

  pub update_strict :
      (r : TimeOffRequest) (xs : List TimeOffRequest)
      → sync_pending r ≡ true
      → Leaves r xs
      → Mem r xs
      → all_tries (map_where (has_id r.id) (retry_row hcm now r) xs) < all_tries xs
  update_strict r [] waits h m = absurd (not-mem-nil m)
  update_strict r (x ∷ xs) waits h m =
      Or.elim le_prop (mem-cons.0 m)
        (λ e.
          let own : has_id r.id x ≡ true = subst (λ z. has_id r.id z ≡ true) e (eq_self r.id) in
          let more : left r < tries x = subst (λ z. left r < tries z) e (left-lt r waits) in
          let now_left : tries (if has_id r.id x then retry_row hcm now r x else x) ≡ left r =
            rw own (tries-retry_row r x) in
          omega (arith, more, now_left, update_lowered r xs h.1))
        (λ later. omega (arith, row_lowered r x h.0, update_strict r xs waits h.1 later))

  pub update-Leaves :
      (r a : TimeOffRequest) (xs : List TimeOffRequest)
      → (a.id ≡ r.id → left a ≤ left r)
      → Leaves a xs
      → Leaves a (map_where (has_id r.id) (retry_row hcm now r) xs)
  update-Leaves r a [] agree h = tt
  update-Leaves r a (x ∷ xs) agree h = (
    elim (Bool-cases (has_id r.id x)) [
      | inr other ↦ rw other h.0
      | inl own ↦ rw own (λ same.
          let ids : a.id ≡ x.id =
            subst (λ i. a.id ≡ i) (retry_row-id r x)
              (eq_of_same a.id (retry_row hcm now r x).id same) in
          let agreed = agree (ids ∙ sym (eq_of_same r.id x.id own)) in
          omega (arith, agreed, tries-retry_row r x))
    ],
    update-Leaves r a xs agree h.1,
  )
