-- ===== src/Heap/Order.antt =====
-- Comparators, and the order of a heap.
use leave_ledger.Common.{
  ℕ, zero, suc, ◌-◌, ◌/◌, ◌<◌, ◌≤◌, ◌≡◌, refl, subst, true, false, Option, none, some, List,
  get_elem?, length, get-inside, Bool-cases, inl, inr, arith,
}
use leave_ledger.Common.Int.{ℤ, pos, ltb_ℤ}
use leave_ledger.Heap.{precedes, less}

-- What a comparator function is documented to be: its sign orders the entries, with ties.
pub record IsComparator {ℓ} {E : Type ℓ} (comparator : E → E → ℤ) : Type ℓ where
  pub asym : (a b : E) → precedes comparator a b ≡ true → precedes comparator b a ≡ false
  pub sign : (a b : E) → ltb_ℤ (pos 0) (comparator a b) ≡ precedes comparator b a
  pub chain :
      (a b c : E)
      → precedes comparator b a ≡ false
      → precedes comparator c b ≡ false
      → precedes comparator c a ≡ false

abbrev pub parent : ℕ → ℕ
parent c = (c - 1) / 2

module _ {ℓ} {E : Type ℓ} (comparator : E → E → ℤ) where
  -- Every entry whose parent is at `lo` or later does not precede its parent.
  abbrev pub IsHeapFrom : ℕ → List E → Type 0
  IsHeapFrom lo heap =
      (c : ℕ)
      → 0 < c
      → lo ≤ parent c
      → less comparator (get_elem? heap c) (get_elem? heap (parent c)) ≡ false

  abbrev pub IsHeap : List E → Type 0
  IsHeap = IsHeapFrom 0

  -- The entries two edges below the parent of `i` do not precede it.
  abbrev pub IsBridged : ℕ → List E → ℕ → Type 0
  IsBridged lo heap i =
      (c : ℕ)
      → 0 < c
      → parent c ≡ i
      → 0 < i
      → lo ≤ parent i
      → less comparator (get_elem? heap c) (get_elem? heap (parent i)) ≡ false

  module _ (order : IsComparator comparator) where
    pub less_asym : (x y : Option E) → less comparator x y ≡ true → less comparator y x ≡ false
    less_asym none y h = cc
    less_asym (some x) none h = cc
    less_asym (some x) (some y) h = order.asym x y h

    -- `x` before `y`, and `z` not before `y`: then `z` is not before `x`.
    pub less_below :
        (x y z : Option E)
        → less comparator x y ≡ true
        → less comparator z y ≡ false
        → less comparator z x ≡ false
    less_below none y z h k = cc
    less_below (some x) none z h k = cc
    less_below (some x) (some y) none h k = refl
    less_below (some x) (some y) (some z) h k = order.chain x y z (order.asym x y h) k

    -- The same with the strict order on the other side.
    pub less_above :
        (x y z : Option E)
        → less comparator x y ≡ true
        → less comparator x z ≡ false
        → less comparator y z ≡ false
    less_above none y z h k = cc
    less_above (some x) none z h k = cc
    less_above (some x) (some y) none h k = refl
    less_above (some x) (some y) (some z) h k = order.chain z x y k (order.asym x y h)

    pub less_chain :
        (x : Option E) (y : E) (z : Option E)
        → less comparator (some y) x ≡ false
        → less comparator z (some y) ≡ false
        → less comparator z x ≡ false
    less_chain none y none h k = refl
    less_chain none y (some z) h k = refl
    less_chain (some x) y none h k = refl
    less_chain (some x) y (some z) h k = order.chain x y z h k

    pub less_trans :
        (x y z : Option E)
        → less comparator x y ≡ true
        → less comparator y z ≡ true
        → less comparator x z ≡ true
    less_trans none y z h k = cc
    less_trans (some x) none z h k = cc
    less_trans (some x) (some y) none h k = cc
    less_trans (some x) (some y) (some z) h k = elim (Bool-cases (precedes comparator x z)) [
      | inl before ↦ before
      | inr not_before ↦ absurd (ground (arith, order.chain y z x (order.asym y z k) not_before))
    ]

    pub less_self : (x : Option E) → less comparator x x ≡ false
    less_self none = refl
    less_self (some x) = elim (Bool-cases (precedes comparator x x)) [
      | inl before ↦ order.asym x x before
      | inr not_before ↦ not_before
    ]

    least_below :
        (k : ℕ) (heap : List E) (i : ℕ)
        → IsHeap heap
        → i < k
        → i < length heap
        → less comparator (get_elem? heap i) (get_elem? heap 0) ≡ false
    least_below zero heap i h f p = absurd (omega arith)
    least_below (suc k) heap zero h f p = less_self (get_elem? heap 0)
    least_below (suc k) heap (suc i) h f p =
        let (y, ey) = get-inside heap (parent (suc i)) (omega arith) in
        less_chain (get_elem? heap 0) y (get_elem? heap (suc i))
          (subst (λ o. less comparator o (get_elem? heap 0) ≡ false) ey
            (least_below k heap (parent (suc i)) h (omega arith) (omega arith)))
          (subst (λ o. less comparator (get_elem? heap (suc i)) o ≡ false) ey
            (h (suc i) (omega arith) (omega arith)))

    -- No entry of a heap precedes the first one.
    pub heap-first :
        (heap : List E) (i : ℕ)
        → IsHeap heap
        → i < length heap
        → less comparator (get_elem? heap i) (get_elem? heap 0) ≡ false
    heap-first heap i h p = least_below (suc i) heap i h (omega arith) p
