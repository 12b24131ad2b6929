-- ===== src/PriorityQueue/Greatest.antt =====
-- _findMaxIndex of src/common/utils/priority-queue.util.js, and the removal of an entry.
use mathlib.Core.List.{Perm}
use mathlib.Core.List.Perm
use leave_ledger.Common.{
  ℕ, zero, suc, ◌+◌, ◌-◌, ◌*◌, ◌/◌, ◌≤◌, ◌<◌, ◌≡◌, refl, true, false, not, Option, none, some, List,
  [], ◌∷◌, get_elem?, length, every, every-get, get-inside, get-outside, Bool-cases, inl, inr,
  arith, subst, if◌then◌else◌, ltb, leb,
}
use leave_ledger.Common.Int.{ℤ}
use leave_ledger.Heap.{precedes, less}
use leave_ledger.Heap.Order.{IsComparator, IsHeap, parent, less_above, less_chain, less_self}
use leave_ledger.PriorityQueue.{Entry, exceeds, find_max_loop, find_max_index, remove_at}

pub remove_at-perm {ℓ} :
    {E : Type ℓ} (i : ℕ) (xs : List E) (x : E)
    → get_elem? xs i ≡ some x
    → Perm (x ∷ remove_at i xs) xs
remove_at-perm i [] x h = cc
remove_at-perm zero (y ∷ xs) x h = let e : y ≡ x = ground arith in rw e Perm.rfl
remove_at-perm (suc i) (y ∷ xs) x h =
    Perm.trans (Perm.swap y x (remove_at i xs)) (Perm.cons y (remove_at-perm i xs x h))

module _ {ℓ} {A : Type ℓ} (max_size : Option ℕ) (comparator : Entry A → Entry A → ℤ)
    (order : IsComparator comparator) where
  -- The entry of `m` comes first against no entry from index `from` up to `i`.
  abbrev IsMaxOf : ℕ → ℕ → List (Entry A) → ℕ → Type 0
  IsMaxOf from i heap m =
      (c : ℕ) → from ≤ c → c < i → less comparator (get_elem? heap m) (get_elem? heap c) ≡ false

  exceeds-less : (x y : Option (Entry A)) → exceeds max_size comparator x y ≡ less comparator y x
  exceeds-less none none = refl
  exceeds-less none (some y) = refl
  exceeds-less (some x) none = refl
  exceeds-less (some x) (some y) = order.sign x y

  -- The larger of the entry so far and the next one.
  step-IsMaxOf :
      (from i m : ℕ) (heap : List (Entry A))
      → IsMaxOf from i heap m
      → IsMaxOf from
          (i + 1)
          heap
          (if exceeds max_size comparator (get_elem? heap i) (get_elem? heap m) then i else m)
  step-IsMaxOf from i m heap h c low high =
      let same = exceeds-less (get_elem? heap i) (get_elem? heap m) in
      let raised =
        less_above comparator order (get_elem? heap m) (get_elem? heap i) (get_elem? heap c) in
      let itself = less_self comparator order (get_elem? heap i) in
      elim (Bool-cases (ltb c i)) [
        | inl old ↦ ground (arith, h c)
        | inr new ↦
            let e : i ≡ c = ground arith in
            subst
              (λ c'.
                less comparator
                  (get_elem? heap (
                    if exceeds max_size comparator (get_elem? heap i) (get_elem? heap m)
                    then i
                    else m))
                  (get_elem? heap c')
                ≡ false)
              e (ground arith)
      ]

  find_max_loop-IsMaxOf :
      (left from i m : ℕ) (heap : List (Entry A))
      → i + left ≡ length heap
      → m < length heap
      → IsMaxOf from i heap m
      → IsMaxOf from (length heap) heap (find_max_loop max_size comparator left i m heap)
        × (find_max_loop max_size comparator left i m heap < length heap)
  unfolding find_max_loop
  find_max_loop-IsMaxOf zero from i m heap e inside h =
      (λ c low high. h c low (omega arith), inside)
  find_max_loop-IsMaxOf (suc left) from i m heap e inside h =
      find_max_loop-IsMaxOf left from (i + 1)
        (if exceeds max_size comparator (get_elem? heap i) (get_elem? heap m) then i else m) heap
        (omega arith) (ground arith) (step-IsMaxOf from i m heap h)

  -- An entry with a child is not after every leaf.
  leaf-max :
      (fuel c m : ℕ) (heap : List (Entry A))
      → IsHeap comparator heap
      → length heap ≤ c + fuel
      → c < length heap
      → IsMaxOf (length heap / 2) (length heap) heap m
      → less comparator (get_elem? heap m) (get_elem? heap c) ≡ false
  leaf-max zero c m heap h enough inside most = absurd (omega arith)
  leaf-max (suc fuel) c m heap h enough inside most = elim (Bool-cases (leb (length heap / 2) c)) [
    | inl leaf ↦ most c (ground arith) inside
    | inr inner ↦
        let child : ℕ = 2 * c + 1 in
        let up : parent child ≡ c = omega arith in
        let (y, ey) = get-inside heap child (ground arith) in
        let below = leaf-max fuel child m heap h (omega arith) (ground arith) most in
        less_chain comparator order (get_elem? heap c) y (get_elem? heap m)
          (subst (λ o. less comparator o (get_elem? heap c) ≡ false) ey
            (subst (λ p. less comparator (get_elem? heap child) (get_elem? heap p) ≡ false) up
              (h child (omega arith) (omega arith))))
          (subst (λ o. less comparator (get_elem? heap m) o ≡ false) ey below)
  ]

  -- _findMaxIndex finds an entry that is before no other.
  pub find_max_index-greatest :
      (heap : List (Entry A))
      → IsHeap comparator heap
      → 0 < length heap
      → (worst : Entry A) × (get_elem? heap (find_max_index max_size comparator heap) ≡ some worst)
        × (every (λ x. not (precedes comparator worst x)) heap ≡ true)
  unfolding find_max_index
  find_max_index-greatest heap h some_entry =
      let start : ℕ = length heap / 2 in
      let (most, inside) =
        find_max_loop-IsMaxOf (length heap - (start + 1)) start (start + 1) start heap (omega arith)
          (omega arith)
          (λ c low high.
            let e : start ≡ c = omega arith in
            subst (λ c'. less comparator (get_elem? heap start) (get_elem? heap c') ≡ false) e
              (less_self comparator order (get_elem? heap start))) in
      let m = find_max_index max_size comparator heap in
      let (worst, found) = get-inside heap m inside in
      (
        worst,
        found,
        every-get (λ x. not (precedes comparator worst x)) heap
            (λ i x e.
              let last =
                leaf-max (length heap) i m heap h (omega arith) (get-outside heap i x e) most in
              ground arith),
      )
