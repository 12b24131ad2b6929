-- ===== src/Hcm/Batch/Logs.antt =====
-- src/modules/hcm/hcm-sync.service.js, `getSyncLogs`: the newest log rows, at most 100 of them.
use leave_ledger.Common.{
  ℕ, zero, suc, min, ◌≤◌, ◌≡◌, Option, none, some, List, [], ◌∷◌, ◌++◌, arith, All, Pairs, length,
  take, drop, length-take, length-perm, take-drop,
}
use leave_ledger.Database.Paged.{Paged}
use leave_ledger.Hcm.Reconcile.{SyncLog, LogRepository}
use mathlib.Core.List.{Perm}

All-drop : {A : Type 0} (P : A → Type 0) (n : ℕ) (xs : List A) → All P xs → All P (drop n xs)
All-drop P zero xs h = h
All-drop P (suc n) [] h = h
All-drop P (suc n) (x ∷ xs) h = All-drop P n xs h.1

-- What is taken comes before what is left.
Pairs-take :
    {A : Type 0} (Before : A → A → Type 0) (n : ℕ) (xs : List A)
    → Pairs Before xs
    → All (λ x. All (Before x) (drop n xs)) (take n xs)
Pairs-take Before zero xs h = tt
Pairs-take Before (suc n) [] h = tt
Pairs-take Before (suc n) (x ∷ xs) h = (All-drop (Before x) n xs h.0, Pairs-take Before n xs h.1)

module _ (L : LogRepository) (Q : Paged L (λ l. l.started_at)) where
  -- getSyncLogs; a missing limit is `none`.
  unfoldable pub get_sync_logs : Option ℕ → L.Table → List SyncLog
  get_sync_logs limit t = Q.find_newest (min (elim limit [ none ↦ 20 | some n ↦ n ]) 100) t

  -- For a limit, the answer has that many log rows, but at most 100 and at most as many as there are;
  -- with some further rows it is the whole table, and none of those started after a row of the answer.
  pub get_sync_logs-newest :
      (n : ℕ) (t : L.Table)
      → (length (get_sync_logs (some n) t) ≡ min (min n 100) (length (L.rows t)))
        × ((rest : List SyncLog) × Perm (get_sync_logs (some n) t ++ rest) (L.rows t)
            × All (λ x. All (λ y. y.started_at ≤ x.started_at) rest) (get_sync_logs (some n) t))
  unfolding get_sync_logs
  get_sync_logs-newest n t =
      let (all, same, newest, answer) = Q.find_newest-rows (min n 100) t in
      let count = length-perm all (L.rows t) same in
      rw answer (
        omega (arith, length-take (min n 100) all, count),
        (
          drop (min n 100) all,
          rw (take-drop (min n 100) all) same,
          Pairs-take (λ x y. y.started_at ≤ x.started_at) (min n 100) all newest,
        ),
      )
