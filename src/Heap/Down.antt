-- ===== src/Heap/Down.antt =====
-- _siftDown sinks an entry that is too high in the tree.
use mathlib.Core.List.{Perm}
use mathlib.Core.List.Perm
use leave_ledger.Common.{
  ℕ, zero, suc, ◌+◌, ◌*◌, ◌≤◌, ◌<◌, ◌≡◌, ◌≢◌, ◌⊎◌, true, false, Option, List, get_elem?, length,
  get-outside, exchange, get-exchange, exchange-perm, length-exchange, Bool-cases, Option-cases,
  inl, inr, nat_eq, nat_eq_self, arith, refl, subst, if◌then◌else◌,
}
use leave_ledger.Common.Int.{ℤ}
use leave_ledger.Heap.{less, smallest, sift_down_loop, sift_down}
use leave_ledger.Heap.Order.{
  IsComparator, IsHeapFrom, IsBridged, parent, less_asym, less_below, less_trans, less_self,
}

module _ {ℓ} {E : Type ℓ} (comparator : E → E → ℤ) (order : IsComparator comparator) where
  -- Only the edges below `i` may be out of order.
  pub record IsSinking (lo : ℕ) (heap : List E) (i : ℕ) : Type 0 where
    pub edges :
        (c : ℕ)
        → 0 < c
        → lo ≤ parent c
        → parent c ≢ i
        → less comparator (get_elem? heap c) (get_elem? heap (parent c)) ≡ false
    pub bridged : IsBridged comparator lo heap i

  less-inside :
      (heap : List E) (i : ℕ) (o : Option E)
      → less comparator (get_elem? heap i) o ≡ true
      → i < length heap
  less-inside heap i o h = elim (Option-cases (get_elem? heap i)) [
    | inl missing ↦ absurd (ground arith)
    | inr (x, found) ↦ get-outside heap i x found
  ]

  -- `s` is a child of `i` that precedes it, and its sibling does not precede `s`.
  record IsSmallest (heap : List E) (i s : ℕ) : Type 0 where
    inside : s < length heap
    child : (s ≡ 2 * i + 1) ⊎ (s ≡ 2 * i + 2)
    below : less comparator (get_elem? heap s) (get_elem? heap i) ≡ true
    least :
        (c : ℕ)
        → 0 < c
        → parent c ≡ i
        → less comparator (get_elem? heap c) (get_elem? heap s) ≡ false

  -- A fact about both children is a fact about every child.
  each_child :
      (P : ℕ → Type 0) (i : ℕ)
      → P (2 * i + 1)
      → P (2 * i + 2)
      → (c : ℕ) → 0 < c
      → parent c ≡ i
      → P c
  each_child P i l r c pos child = elim (Bool-cases (nat_eq c (2 * i + 1))) [
    | inl is_left ↦ let same : 2 * i + 1 ≡ c = ground arith in subst P same l
    | inr other ↦ let same : 2 * i + 2 ≡ c = ground arith in subst P same r
  ]

  smallest-cases :
      (heap : List E) (i : ℕ)
      → ((smallest comparator heap i ≡ i)
          × ((c : ℕ)
              → 0 < c
              → parent c ≡ i
              → less comparator (get_elem? heap c) (get_elem? heap i) ≡ false))
        ⊎ IsSmallest heap i (smallest comparator heap i)
  unfolding smallest
  smallest-cases heap i =
      let left = get_elem? heap (2 * i + 1) in
      let right = get_elem? heap (2 * i + 2) in
      let here = get_elem? heap i in
      let children =
        λ (o : Option E). each_child (λ c. less comparator (get_elem? heap c) o ≡ false) i in
      elim (Bool-cases (less comparator left here)) [
        | inl l ↦ elim (Bool-cases (less comparator right left)) [
          | inl r ↦
              rw (smallest, l, r)
                (inr (record {
                  inside = less-inside heap (2 * i + 2) left r;
                  child = inr refl;
                  below = less_trans comparator order right left here r l;
                  least =
                      children right (less_asym comparator order right left r)
                        (less_self comparator order right);
                }))
          | inr nr ↦
              rw (smallest, l, nr)
                (inr (record {
                  inside = less-inside heap (2 * i + 1) here l;
                  child = inl refl;
                  below = l;
                  least = children left (less_self comparator order left) nr;
                }))
        ]
        | inr nl ↦ elim (Bool-cases (less comparator right here)) [
          | inl r ↦
              rw (smallest, nl, r)
                (inr (record {
                  inside = less-inside heap (2 * i + 2) here r;
                  child = inr refl;
                  below = r;
                  least =
                      children right (less_below comparator order right here left r nl)
                        (less_self comparator order right);
                }))
          | inr nr ↦ rw (smallest, nl, nr) (inl (refl, children here nl nr))
        ]
      ]

  module _ (lo : ℕ) (heap : List E) (i s : ℕ) (v : IsSinking lo heap i)
      (small : IsSmallest heap i s) where
    abbrev sunk : List E
    sunk = exchange i s heap

    here_inside : i < length heap
    here_inside = omega (arith, small.inside, small.child)

    at :
        (c : ℕ)
        → get_elem? sunk c ≡ (
            if nat_eq c s
            then get_elem? heap i
            else if nat_eq c i
            then get_elem? heap s
            else get_elem? heap c)
    at = get-exchange i s heap here_inside small.inside

    child_of : parent s ≡ i
    child_of = omega (arith, small.child)

    sink-edges :
        (c : ℕ)
        → 0 < c
        → lo ≤ parent c
        → parent c ≢ s
        → less comparator (get_elem? sunk c) (get_elem? sunk (parent c)) ≡ false
    sink-edges c pos low other =
        let below = less_asym comparator order (get_elem? heap s) (get_elem? heap i) small.below in
        ground (
          arith,
          at c,
          at (parent c),
          v.edges c,
          small.least c,
          v.bridged s,
          v.bridged c,
          child_of,
          small.child,
        )

    sink-IsBridged : IsBridged comparator lo sunk s
    sink-IsBridged c pos child s_pos low =
        ground (arith, at c, at (parent s), v.edges c, child_of, small.child)

    sink-IsSinking : IsSinking lo sunk s
    sink-IsSinking = record { edges = sink-edges; bridged = sink-IsBridged }

  sift_down_loop-IsHeap :
      (fuel lo i : ℕ) (heap : List E)
      → length heap < fuel + i
      → 0 < fuel
      → IsSinking lo heap i
      → IsHeapFrom comparator lo (sift_down_loop comparator fuel i heap)
        × Perm (sift_down_loop comparator fuel i heap) heap
  unfolding sift_down_loop
  sift_down_loop-IsHeap zero lo i heap enough some_fuel v = absurd (omega arith)
  sift_down_loop-IsHeap (suc fuel) lo i heap enough some_fuel v = elim (smallest-cases heap i) [
    | inl (stays, least) ↦
        rw (sift_down_loop, stays, nat_eq_self i)
          (λ c pos low. ground (arith, v.edges c, least c), Perm.rfl)
    | inr small ↦
        let s = smallest comparator heap i in
        let moves : nat_eq s i ≡ false = ground (arith, small.child) in
        let inside = here_inside lo heap i s v small in
        let size = length-exchange i s heap inside small.inside in
        let (valid, same) =
          sift_down_loop-IsHeap fuel lo s (exchange i s heap) (omega (arith, size, small.child))
            (omega (arith, small.inside, small.child)) (sink-IsSinking lo heap i s v small) in
        rw (sift_down_loop, moves)
          (valid, Perm.trans same (exchange-perm i s heap inside small.inside))
  ]

  -- With an array in order from `lo` on but for its entry at `i`, which is deeper than its place,
  -- _siftDown leaves the same entries in order from `lo` on.
  pub sift_down-IsHeapFrom :
      (lo i : ℕ) (heap : List E)
      → IsSinking lo heap i
      → IsHeapFrom comparator lo (sift_down comparator i heap)
        × Perm (sift_down comparator i heap) heap
  sift_down-IsHeapFrom lo i heap v =
      sift_down_loop-IsHeap (length heap + 1) lo i heap (omega arith) (omega arith) v
