-- ===== src/PriorityQueue/Remove.antt =====
-- removeWhere of src/common/utils/priority-queue.util.js.
use mathlib.Core.List.{Perm}
use leave_ledger.Common.{
  ℕ, ◌+◌, ◌≡◌, Bool, not, Option, keep, length, every-keep, every-perm, length-keep, length-perm,
  arith, ◌∙◌,
}
use leave_ledger.Common.Int.{ℤ}
use leave_ledger.Heap.{build_heap}
use leave_ledger.Heap.Order.{IsComparator}
use leave_ledger.Heap.Build.{build_heap-IsHeap}
use leave_ledger.PriorityQueue.{Entry, Queue, remove_where}
use leave_ledger.PriorityQueue.Valid.{IsValid, IsWithin-less, is_older}

module _ {ℓ} {A : Type ℓ} (max_size : Option ℕ) (comparator : Entry A → Entry A → ℤ)
    (order : IsComparator comparator) where
  -- With a comparator, removeWhere on a queue in its invariant keeps exactly the entries whose value the
  -- predicate rejects, returns how many others there were, and leaves a queue in its invariant.
  pub remove_where-keeps :
      (predicate : A → Bool) (q : Queue A)
      → IsValid max_size comparator q
      → Perm
          (remove_where max_size comparator predicate q).1.heap
          (keep (λ x. not (predicate x.value)) q.heap)
        × ((remove_where max_size comparator predicate q).0
              + length (remove_where max_size comparator predicate q).1.heap
            ≡ length q.heap)
        × IsValid max_size comparator (remove_where max_size comparator predicate q).1
  unfolding remove_where
  remove_where-keeps predicate q v =
      let rest = keep (λ x. not (predicate x.value)) q.heap in
      let (valid, same) = build_heap-IsHeap comparator order rest in
      let kept = build_heap comparator rest in
      let size = length-perm kept rest same in
      let fewer = length-keep (λ x. not (predicate x.value)) q.heap in
      (
        same,
        omega arith,
        record {
          ordered = valid;
          older =
              every-perm (is_older q.seq) kept rest same
              ∙ every-keep (is_older q.seq) (λ x. not (predicate x.value)) q.heap v.older;
          within = IsWithin-less max_size (length q.heap) (length kept) (omega arith) v.within;
        },
      )
