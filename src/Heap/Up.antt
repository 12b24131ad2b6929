-- ===== src/Heap/Up.antt =====
-- _siftUp puts a new entry in its place.
use mathlib.Core.List.{Perm}
use mathlib.Core.List.Perm
use leave_ledger.Common.{
  ℕ, zero, suc, ◌+◌, ◌<◌, ◌≡◌, ◌≢◌, true, false, List, get_elem?, length, get-inside, exchange,
  get-exchange, exchange-perm, length-exchange, Bool-cases, inl, inr, ltb, nat_eq, arith,
  if◌then◌else◌,
}
use leave_ledger.Common.Int.{ℤ}
use leave_ledger.Heap.{less, sift_up_loop, sift_up}
use leave_ledger.Heap.Order.{
  IsComparator, IsHeap, IsBridged, parent, less_asym, less_below, less_chain,
}

module _ {ℓ} {E : Type ℓ} (comparator : E → E → ℤ) (order : IsComparator comparator) where
  -- Only the edge above `i` may be out of order.
  pub record IsRising (heap : List E) (i : ℕ) : Type 0 where
    pub inside : i < length heap
    pub edges :
        (c : ℕ)
        → 0 < c
        → c ≢ i
        → less comparator (get_elem? heap c) (get_elem? heap (parent c)) ≡ false
    pub bridged : IsBridged comparator 0 heap i

  module _ (heap : List E) (i : ℕ) (v : IsRising heap i) (positive : 0 < i)
      (above : less comparator (get_elem? heap i) (get_elem? heap (parent i)) ≡ true) where
    abbrev p : ℕ
    p = parent i

    abbrev risen : List E
    risen = exchange i p heap

    at :
        (c : ℕ)
        → get_elem? risen c ≡ (
            if nat_eq c p
            then get_elem? heap i
            else if nat_eq c i
            then get_elem? heap p
            else get_elem? heap c)
    at = get-exchange i p heap v.inside (omega (arith, v.inside))

    rise-edges :
        (c : ℕ)
        → 0 < c
        → c ≢ p
        → less comparator (get_elem? risen c) (get_elem? risen (parent c)) ≡ false
    rise-edges c pos other =
        let cc_lt = less_asym comparator order (get_elem? heap i) (get_elem? heap p) above in
        let sibling =
          less_below comparator order (get_elem? heap i) (get_elem? heap p) (get_elem? heap c)
            above in
        ground (arith, at c, at (parent c), v.edges c, v.bridged c)

    rise-IsBridged : IsBridged comparator 0 risen p
    rise-IsBridged c pos child p_pos low =
        let (y, ey) = get-inside heap p (omega (arith, v.inside)) in
        let step = v.edges p p_pos (omega arith) in
        let chain = less_chain comparator order (get_elem? heap (parent p)) y (get_elem? heap c) in
        ground (arith, at c, at (parent p), v.edges c)

    rise-IsRising : IsRising risen p
    rise-IsRising = record {
      inside = omega (arith, v.inside, length-exchange i p heap v.inside (omega (arith, v.inside)));
      edges = rise-edges;
      bridged = rise-IsBridged;
    }

  sift_up_loop-IsHeap :
      (fuel i : ℕ) (heap : List E)
      → i < fuel
      → IsRising heap i
      → IsHeap comparator (sift_up_loop comparator fuel i heap)
        × Perm (sift_up_loop comparator fuel i heap) heap
  unfolding sift_up_loop
  sift_up_loop-IsHeap zero i heap enough v = absurd (omega arith)
  sift_up_loop-IsHeap (suc fuel) i heap enough v = elim (Bool-cases (ltb 0 i)) [
    | inr root ↦ rw (sift_up_loop, root) (λ c pos low. v.edges c pos (ground arith), Perm.rfl)
    | inl deep ↦
        elim (Bool-cases (less comparator (get_elem? heap i) (get_elem? heap (parent i)))) [
          | inr settled ↦
              rw (sift_up_loop, deep, settled) (λ c pos low. ground (arith, v.edges c), Perm.rfl)
          | inl above ↦
              let positive : 0 < i = ground arith in
              let inside = v.inside in
              let (valid, same) =
                sift_up_loop-IsHeap fuel (parent i) (exchange i (parent i) heap) (omega arith)
                  (rise-IsRising heap i v positive above) in
              rw (sift_up_loop, deep, above)
                (valid, Perm.trans same (exchange-perm i (parent i) heap inside (omega arith)))
        ]
  ]

  -- With an array in order but for its entry at `i`, which is higher than its place, _siftUp leaves a
  -- heap of the same entries.
  pub sift_up-IsHeap :
      (i : ℕ) (heap : List E)
      → IsRising heap i
      → IsHeap comparator (sift_up comparator i heap) × Perm (sift_up comparator i heap) heap
  sift_up-IsHeap i heap v = sift_up_loop-IsHeap (i + 1) i heap (omega arith) v
