-- ===== src/Hcm/Pending/Emptied.antt =====
-- Over its runs, the retry job of src/modules/hcm/hcm-sync.service.js leaves no request pending.
use mathlib.Core.List.{Mem, Perm, mem-cons_self, mem-cons_of_mem}
use mathlib.Core.List.Perm
use leave_ledger.Common.{
  ℕ, ◌-◌, ◌*◌, ◌≤◌, ◌<◌, ◌≡◌, ◌≢◌, refl, sym, ◌∙◌, subst, true, false, List, [], ◌∷◌, All,
  Pairs-map_where, arith, length, length-perm, length-take, keep, map_where, take,
}
use leave_ledger.Common.Eq.{String-Eq, eq_of_same}
use leave_ledger.Constants.{HcmSyncStatus-Eq}
use leave_ledger.Database.Ordered.{one_of_key}
use leave_ledger.Entities.{TimeOffRequest, has_id}
use leave_ledger.Entities.Sets.{TimeOffRequest_set}
use leave_ledger.Store.{RequestRepository}
use leave_ledger.Hcm.{Answers}
use leave_ledger.Hcm.Pending.Tries.{
  tries, all_tries, all_tries_none, all_tries-le, none_pending, HasDistinctIds, All-of_mem,
  mem_of_take, mem_of_keep, left, left-lt, retry_row-id, Leaves, update_lowered, update_strict,
  update-Leaves,
}
use leave_ledger.Hcm.Pending.{retry_row, retry_all, retry_pending_hcm_syncs, sync_pending}

module _ (hcm : Answers) (now : ℕ) (R : RequestRepository) where
  retry_all_lowered :
      (rs : List TimeOffRequest) (t : R.Table)
      → ((a : TimeOffRequest) → Mem a rs → Leaves hcm now a (R.rows t))
      → ((a b : TimeOffRequest)
          → Mem a rs
          → Mem b rs
          → a.id ≡ b.id
          → left hcm now a ≤ left hcm now b)
      → all_tries (R.rows (retry_all R hcm now rs t)) ≤ all_tries (R.rows t)
  unfolding retry_all
  retry_all_lowered [] t h agree = omega arith
  retry_all_lowered (r ∷ rs) t h agree =
      let t' = R.update (has_id r.id) (retry_row hcm now r) t in
      let rows : R.rows t' ≡ map_where (has_id r.id) (retry_row hcm now r) (R.rows t) =
        R.update-rows _ _ _ in
      let first : all_tries (R.rows t') ≤ all_tries (R.rows t) =
        rw rows (update_lowered hcm now r (R.rows t) (h r mem-cons_self)) in
      let rest =
        retry_all_lowered rs t'
          (λ a m. rw rows (
            update-Leaves hcm now r a (R.rows t) (agree a r (mem-cons_of_mem r m) mem-cons_self)
              (h a (mem-cons_of_mem r m))))
          (λ a b ma mb. agree a b (mem-cons_of_mem r ma) (mem-cons_of_mem r mb)) in
      omega (arith, first, rest)

  retry_all-distinct :
      (rs : List TimeOffRequest) (t : R.Table)
      → HasDistinctIds (R.rows t)
      → HasDistinctIds (R.rows (retry_all R hcm now rs t))
  unfolding retry_all
  retry_all-distinct [] t h = h
  retry_all-distinct (r ∷ rs) t h =
      retry_all-distinct rs (R.update (has_id r.id) (retry_row hcm now r) t) (
        rw (R.update-rows (has_id r.id) (retry_row hcm now r) t) (
          Pairs-map_where (λ x y. x.id ≢ y.id) (has_id r.id) (retry_row hcm now r) (R.rows t)
            (λ x y differ e. differ (sym (retry_row-id hcm now r x) ∙ e))
            (λ x y differ e. differ (e ∙ retry_row-id hcm now r y)) h))

module _ (R : RequestRepository) (order : List TimeOffRequest → List TimeOffRequest)
    (permutes : (xs : List TimeOffRequest) → Perm (order xs) xs) where
  module _ (hcm : Answers) (now : ℕ) (t : R.Table) (distinct : HasDistinctIds (R.rows t)) where
    abbrev loaded : List TimeOffRequest
    loaded = take 50 (order (R.find sync_pending t))

    loaded-mem : (r : TimeOffRequest) → Mem r loaded → (sync_pending r ≡ true) × Mem r (R.rows t)
    loaded-mem r m = mem_of_keep (R.rows t) r (
        rw R.find-rows at (
          (Perm.mem_iff (permutes (R.find sync_pending t))).0
            (mem_of_take 50 (order (R.find sync_pending t)) r m)))

    same_row : (a b : TimeOffRequest) → Mem a (R.rows t) → Mem b (R.rows t) → a.id ≡ b.id → a ≡ b
    same_row a b ma mb = one_of_key TimeOffRequest_set (λ r. r.id) (R.rows t) a b distinct ma mb

    loaded-Leaves : (a : TimeOffRequest) → Mem a loaded → Leaves hcm now a (R.rows t)
    loaded-Leaves a m =
        let (waits, there) = loaded-mem a m in
        All-of_mem (R.rows t) (λ x. has_id a.id x ≡ true → left hcm now a ≤ tries x)
          (λ x mx own.
            let same : a ≡ x = same_row a x there mx (eq_of_same a.id x.id own) in
            let fewer : left hcm now a < tries x =
              subst (λ z. left hcm now a < tries z) same (left-lt hcm now a waits) in
            omega (arith, fewer))

    loaded_agree :
        (a b : TimeOffRequest)
        → Mem a loaded
        → Mem b loaded
        → a.id ≡ b.id
        → left hcm now a ≤ left hcm now b
    loaded_agree a b ma mb e =
        let same : a ≡ b = same_row a b (loaded-mem a ma).1 (loaded-mem b mb).1 e in
        subst (λ z. left hcm now a ≤ left hcm now z) same (omega arith)

    nothing_loaded : loaded ≡ [] → all_tries (R.rows t) ≡ 0
    nothing_loaded e =
        let found = R.find sync_pending t in
        let none : length loaded ≡ 0 = rw e refl in
        let empty : length found ≡ 0 = omega (
          arith,
          none,
          length-take 50 (order found),
          length-perm (order found) found (permutes found),
        ) in
        all_tries_none (R.rows t) (rw R.find-rows at empty)

    taken_lowered :
        (rs : List TimeOffRequest)
        → loaded ≡ rs
        → all_tries (R.rows (retry_all R hcm now rs t)) ≤ all_tries (R.rows t) - 1
    unfolding retry_all
    taken_lowered [] e = omega (arith, nothing_loaded e)
    taken_lowered (r ∷ rs) e =
        let first_mem : Mem r loaded = subst (λ l. Mem r l) (sym e) mem-cons_self in
        let rest_mem : (a : TimeOffRequest) → Mem a rs → Mem a loaded =
          λ a m. subst (λ l. Mem a l) (sym e) (mem-cons_of_mem r m) in
        let t' = R.update (has_id r.id) (retry_row hcm now r) t in
        let rows : R.rows t' ≡ map_where (has_id r.id) (retry_row hcm now r) (R.rows t) =
          R.update-rows _ _ _ in
        let (waits, there) = loaded-mem r first_mem in
        let strict : all_tries (R.rows t') < all_tries (R.rows t) =
          rw rows (update_strict hcm now r (R.rows t) waits (loaded-Leaves r first_mem) there) in
        let rest =
          retry_all_lowered hcm now R rs t'
            (λ a m. rw rows (
              update-Leaves hcm now r a (R.rows t) (loaded_agree a r (rest_mem a m) first_mem)
                (loaded-Leaves a (rest_mem a m))))
            (λ a b ma mb. loaded_agree a b (rest_mem a ma) (rest_mem b mb)) in
        omega (arith, strict, rest)

-- A run of the job: what the HCM answers then, the time, and the order in which the database gives
-- the pending requests.
pub record Run : Type 0 where
  pub hcm : Answers
  pub now : ℕ
  pub order : List TimeOffRequest → List TimeOffRequest
  pub permutes : (xs : List TimeOffRequest) → Perm (order xs) xs

module _ (R : RequestRepository) where
  abbrev pub run_jobs : List Run → R.Table → R.Table
  run_jobs [] t = t
  run_jobs (run ∷ runs) t = run_jobs runs (retry_pending_hcm_syncs R run.hcm run.order run.now t)

  run_jobs_lowered :
      (runs : List Run) (t : R.Table)
      → HasDistinctIds (R.rows t)
      → all_tries (R.rows (run_jobs runs t)) ≤ all_tries (R.rows t) - length runs
  unfolding retry_pending_hcm_syncs
  run_jobs_lowered [] t distinct = omega arith
  run_jobs_lowered (run ∷ runs) t distinct =
      let rs = take 50 (run.order (R.find sync_pending t)) in
      omega (
        arith,
        taken_lowered R run.order run.permutes run.hcm run.now t distinct rs refl,
        run_jobs_lowered runs (retry_all R run.hcm run.now rs t)
            (retry_all-distinct run.hcm run.now R rs t distinct),
      )

  -- Whatever the HCM answers, and in whatever order each run loads the pending requests, fifty at most:
  -- after eleven runs of the job for each request whose synchronisation is pending, with nothing else in
  -- between, no request of the table is pending for the job any more.
  pub retry_pending_hcm_syncs-sync_pending :
      (runs : List Run) (t : R.Table)
      → HasDistinctIds (R.rows t)
      → 11 * length (keep sync_pending (R.rows t)) ≤ length runs
      → All (λ r. sync_pending r ≡ false) (R.rows (run_jobs runs t))
  retry_pending_hcm_syncs-sync_pending runs t distinct enough =
      none_pending (R.rows (run_jobs runs t))
        (omega (arith, run_jobs_lowered runs t distinct, all_tries-le (R.rows t), enough))
