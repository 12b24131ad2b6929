-- ===== src/Heap.antt =====
-- src/common/utils/priority-queue.util.js, the heap operations on the array: `_siftUp`, `_siftDown` and
-- `_buildHeap`, for any comparator. A test of an index against the length is there a test whether the
-- entry exists: `less` is false if one does not.
pub mod Order
pub mod Up
pub mod Down
pub mod Build
use leave_ledger.Common.{
  ℕ, zero, suc, ◌+◌, ◌-◌, ◌*◌, ◌/◌, Bool, true, false, Option, none, some, List, [], ◌∷◌, ◌++◌,
  nat_eq, get_elem?, length, exchange, ltb, if◌then◌else◌,
}
use leave_ledger.Common.Int.{ℤ, pos, ltb_ℤ}

module _ {ℓ} {E : Type ℓ} (comparator : E → E → ℤ) where
  -- `comparator(a, b) < 0`
  abbrev pub precedes : E → E → Bool
  precedes a b = ltb_ℤ (comparator a b) (pos 0)

  abbrev pub less : Option E → Option E → Bool
  less (some x) (some y) = precedes x y
  less _ _ = false

  -- _siftUp; the index halves, so that `fuel` = index + 1 rounds are enough.
  unfoldable pub sift_up_loop : ℕ → ℕ → List E → List E
  sift_up_loop zero idx heap = heap
  sift_up_loop (suc fuel) idx heap =
      let parent = (idx - 1) / 2 in
      let risen = sift_up_loop fuel parent (exchange idx parent heap) in
      if ltb 0 idx
      then (if less (get_elem? heap idx) (get_elem? heap parent) then risen else heap)
      else heap

  abbrev pub sift_up : ℕ → List E → List E
  sift_up idx = sift_up_loop (idx + 1) idx

  -- `smallest`, after the two tests.
  unfoldable pub smallest : List E → ℕ → ℕ
  smallest heap idx =
      let left = 2 * idx + 1 in
      let right = 2 * idx + 2 in
      let s = if less (get_elem? heap left) (get_elem? heap idx) then left else idx in
      if less (get_elem? heap right) (get_elem? heap s) then right else s

  -- _siftDown; the index grows and stays in the array, so that as many rounds as entries are enough.
  unfoldable pub sift_down_loop : ℕ → ℕ → List E → List E
  unfolding smallest
  sift_down_loop zero idx heap = heap
  sift_down_loop (suc fuel) idx heap =
      let s = smallest heap idx in
      let sunk = sift_down_loop fuel s (exchange idx s heap) in if nat_eq s idx then heap else sunk

  abbrev pub sift_down : ℕ → List E → List E
  sift_down idx heap = sift_down_loop (length heap + 1) idx heap

  -- The loop of _buildHeap, for the indices below `i`, downwards.
  unfoldable pub build_loop : ℕ → List E → List E
  unfolding sift_down_loop
  build_loop zero heap = heap
  build_loop (suc i) heap = build_loop i (sift_down i heap)

  abbrev pub build_heap : List E → List E
  build_heap heap = build_loop (length heap / 2) heap
