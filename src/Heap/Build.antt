-- ===== src/Heap/Build.antt =====
-- _buildHeap makes a heap of any array.
use mathlib.Core.List.{Perm}
use mathlib.Core.List.Perm
use leave_ledger.Common.{
  ℕ, zero, suc, ◌/◌, ◌≡◌, List, get_elem?, length, refl, arith, none, Option, false, Option-cases,
  get-outside, inl, inr,
}
use leave_ledger.Common.Int.{ℤ}
use leave_ledger.Heap.{less, build_loop, build_heap, sift_down}
use leave_ledger.Heap.Order.{IsComparator, IsHeap, IsHeapFrom, parent}
use leave_ledger.Heap.Down.{sift_down-IsHeapFrom}

module _ {ℓ} {E : Type ℓ} (comparator : E → E → ℤ) (order : IsComparator comparator) where
  build_loop-IsHeap :
      (i : ℕ) (heap : List E)
      → IsHeapFrom comparator i heap
      → IsHeap comparator (build_loop comparator i heap) × Perm (build_loop comparator i heap) heap
  unfolding build_loop
  build_loop-IsHeap zero heap h = (h, Perm.rfl)
  build_loop-IsHeap (suc i) heap h =
      let (valid, same) = sift_down-IsHeapFrom comparator order i i heap (record {
        edges = λ c pos low other. h c pos (omega arith);
        bridged = λ c pos child i_pos low. absurd (omega arith);
      }) in
      let (built, all) = build_loop-IsHeap i (sift_down comparator i heap) valid in
      (built, Perm.trans all same)

  less-missing : (o p : Option E) → o ≡ none → less comparator o p ≡ false
  less-missing o p missing = rw missing refl

  no_parents : (heap : List E) → IsHeapFrom comparator (length heap / 2) heap
  no_parents heap c pos low = elim (Option-cases (get_elem? heap c)) [
    | inl missing ↦ less-missing (get_elem? heap c) (get_elem? heap (parent c)) missing
    | inr (x, found) ↦ absurd (omega (arith, get-outside heap c x found))
  ]

  -- Whatever the order of an array, _buildHeap leaves a heap of the same entries.
  pub build_heap-IsHeap :
      (heap : List E)
      → IsHeap comparator (build_heap comparator heap) × Perm (build_heap comparator heap) heap
  build_heap-IsHeap heap = build_loop-IsHeap (length heap / 2) heap (no_parents heap)
