-- ===== src/PriorityQueue.antt =====
-- src/common/utils/priority-queue.util.js, the class PriorityQueue. The heap's operations on the array
-- are in Heap. Priorities are whole numbers, and the order of values that a custom comparator gives
-- is any function `comparator` on entries; `compare_entries` is the default one.
pub mod Valid
pub mod Greatest
pub mod Enqueue
pub mod Dequeue
pub mod Drain
pub mod Bag
pub mod Remove
pub mod Reach
pub mod Fifo
mod Tests
use leave_ledger.Common.{
  ℕ, zero, suc, ◌+◌, ◌-◌, ◌/◌, Bool, true, false, not, Option, none, some, List, [], ◌∷◌, ◌++◌, map,
  keep, get_elem?, length, write, take, ltb, leb, if◌then◌else◌,
}
use leave_ledger.Common.Int.{ℤ, pos, negsuc, ◌-ℤ◌, ltb_ℤ}
use leave_ledger.Heap.{sift_up, sift_down, build_heap}

-- PriorityQueueEntry
pub record Entry {ℓ} (A : Type ℓ) : Type ℓ where
  pub priority : ℤ
  pub value : A
  pub insert_seq : ℕ

-- `x || y`, where 0 is falsy.
abbrev pub or_else : ℤ → ℤ → ℤ
or_else (pos zero) y = y
or_else x y = x

-- `a.priority - b.priority || a.insertSeq - b.insertSeq`
unfoldable pub compare_entries {ℓ} : {A : Type ℓ} → Entry A → Entry A → ℤ
compare_entries a b = or_else (a.priority -ℤ b.priority) (pos a.insert_seq -ℤ pos b.insert_seq)

-- `heap.splice(i, 1)`
abbrev pub remove_at {ℓ} : {E : Type ℓ} → ℕ → List E → List E
remove_at i [] = []
remove_at zero (x ∷ xs) = xs
remove_at (suc i) (x ∷ xs) = x ∷ remove_at i xs

pub record Queue {ℓ} (A : Type ℓ) : Type ℓ where
  pub heap : List (Entry A)
  -- `_seq`
  pub seq : ℕ

abbrev pub new_queue {ℓ} : {A : Type ℓ} → Queue A
new_queue = record { heap = []; seq = 0 }

pub record Metrics : Type 0 where
  pub size : ℕ
  pub max_size : Option ℕ
  pub head_priority : Option ℤ

-- The constructor's options; `maxSize` is `none` for Infinity.
module _ {ℓ} {A : Type ℓ} (max_size : Option ℕ) (comparator : Entry A → Entry A → ℤ) where
  -- `comparator(x, y) > 0`
  abbrev pub exceeds : Option (Entry A) → Option (Entry A) → Bool
  exceeds (some x) (some y) = ltb_ℤ (pos 0) (comparator x y)
  exceeds _ _ = false

  -- The loop of _findMaxIndex, with `left` indices to go from `i` on.
  unfoldable pub find_max_loop : ℕ → ℕ → ℕ → List (Entry A) → ℕ
  find_max_loop zero i max_idx heap = max_idx
  find_max_loop (suc left) i max_idx heap =
      find_max_loop left (i + 1)
        (if exceeds (get_elem? heap i) (get_elem? heap max_idx) then i else max_idx) heap

  -- _findMaxIndex
  unfoldable pub find_max_index : List (Entry A) → ℕ
  unfolding find_max_loop
  find_max_index heap =
      let start = length heap / 2 in
      find_max_loop (length heap - (start + 1)) (start + 1) start heap

  -- `this._heap.length >= this._maxSize`
  abbrev pub is_full : Queue A → Bool
  is_full q = elim max_size [ none ↦ false | some n ↦ leb n (length q.heap) ]

  -- `push` and `_siftUp`
  abbrev pub push_entry : Entry A → List (Entry A) → List (Entry A)
  push_entry entry heap = sift_up comparator (length heap) (heap ++ entry ∷ [])

  -- enqueue; the result is the `evicted` field, or `none` for the TypeError of comparing with the
  -- missing worst entry of an empty queue that is full.
  unfoldable pub enqueue : A → ℤ → Queue A → Option (Option (Entry A)) × Queue A
  unfolding find_max_index
  enqueue value priority q =
      let entry : Entry A = record { priority = priority; value = value; insert_seq = q.seq } in
      let counted : Queue A = record q { seq = q.seq + 1 } in
      if is_full q
      then elim (get_elem? q.heap (find_max_index q.heap)) [
        | none ↦ (none, counted)
        | some worst ↦
            if ltb_ℤ (comparator entry worst) (pos 0)
            then (
              some (some worst),
              record counted {
                heap =
                    push_entry entry
                      (build_heap comparator (remove_at (find_max_index q.heap) q.heap));
              },
            )
            else (some none, counted)
      ]
      else (some none, record counted { heap = push_entry entry q.heap })

  -- dequeue, with the entry whose value it returns.
  unfoldable pub dequeue_entry : Queue A → Option (Entry A × Queue A)
  dequeue_entry q = elim q.heap [
    | [] ↦ none
    | min ∷ rest ↦ elim (get_elem? rest (length rest - 1)) [
      | none ↦ some (min, record q { heap = [] })
      | some last ↦ some (
        min,
        record q { heap = sift_down comparator 0 (write 0 last (take (length rest) q.heap)) },
      )
    ]
  ]

  unfoldable pub dequeue : Queue A → Option A × Queue A
  unfolding dequeue_entry
  dequeue q = elim (dequeue_entry q) [ none ↦ (none, q) | some (min, q') ↦ (some min.value, q') ]

  -- peek and peekPriority
  unfoldable pub peek : Queue A → Option A
  peek q = elim (get_elem? q.heap 0) [ none ↦ none | some x ↦ some x.value ]

  unfoldable pub peek_priority : Queue A → Option ℤ
  peek_priority q = elim (get_elem? q.heap 0) [ none ↦ none | some x ↦ some x.priority ]

  -- The loop of drain; each round takes an entry, so that as many rounds as entries are enough.
  unfoldable pub drain_loop : ℕ → Queue A → List (Entry A) × Queue A
  unfolding dequeue_entry
  drain_loop zero q = ([], q)
  drain_loop (suc fuel) q = elim (dequeue_entry q) [
    | none ↦ ([], q)
    | some (min, q') ↦ let (rest, end) = drain_loop fuel q' in (min ∷ rest, end)
  ]

  -- drain
  unfoldable pub drain : Queue A → List A × Queue A
  unfolding drain_loop
  drain q = let (entries, end) = drain_loop (length q.heap) q in (map (λ x. x.value) entries, end)

  -- removeWhere
  unfoldable pub remove_where : (A → Bool) → Queue A → ℕ × Queue A
  remove_where predicate q =
      let kept = build_heap comparator (keep (λ x. not (predicate x.value)) q.heap) in
      (length q.heap - length kept, record q { heap = kept })

  -- metrics
  unfoldable pub metrics : Queue A → Metrics
  unfolding peek_priority
  metrics q = record { size = length q.heap; max_size = max_size; head_priority = peek_priority q }
