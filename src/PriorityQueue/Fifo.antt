-- ===== src/PriorityQueue/Fifo.antt =====
-- The default comparator of src/common/utils/priority-queue.util.js.
use mathlib.Core.List.{Perm}
use leave_ledger.Common.{
  ℕ, ◌≤◌, ◌≡◌, Bool, true, false, not, Option, List, [], ◌∷◌, Pairs, All-imp, map, arith, ltb,
  if◌then◌else◌,
}
use leave_ledger.Common.Int.{ℤ, pos, ◌-ℤ◌, ◌≤ℤ◌, ltb_ℤ, -ℤ_parts}
use leave_ledger.Heap.{precedes}
use leave_ledger.Heap.Order.{IsComparator}
use leave_ledger.PriorityQueue.{Entry, Queue, or_else, compare_entries, drain}
use leave_ledger.PriorityQueue.Valid.{IsValid}
use leave_ledger.PriorityQueue.Drain.{drain-IsSorted}

-- By priority first, then by number.
abbrev before {ℓ} : {A : Type ℓ} → Entry A → Entry A → Bool
before a b =
    if ltb_ℤ a.priority b.priority
    then true
    else if ltb_ℤ b.priority a.priority
    then false
    else ltb a.insert_seq b.insert_seq

or_else-sign :
    (x y : ℤ)
    → ltb_ℤ (or_else x y) (pos 0)
      ≡ (if ltb_ℤ x (pos 0) then true else if ltb_ℤ (pos 0) x then false else ltb_ℤ y (pos 0))
or_else-sign x y = ground arith

or_else-above :
    (x y : ℤ)
    → ltb_ℤ (pos 0) (or_else x y)
      ≡ (if ltb_ℤ x (pos 0) then false else if ltb_ℤ (pos 0) x then true else ltb_ℤ (pos 0) y)
or_else-above x y = ground arith

module _ {ℓ} {A : Type ℓ} where
  compare_entries-before : (a b : Entry A) → precedes compare_entries a b ≡ before a b
  unfolding compare_entries
  compare_entries-before a b =
      rw (or_else-sign (a.priority -ℤ b.priority) (pos a.insert_seq -ℤ pos b.insert_seq)) (
        ground
          (arith, -ℤ_parts a.priority b.priority, -ℤ_parts (pos a.insert_seq) (pos b.insert_seq)))

  compare_entries-after : (a b : Entry A) → ltb_ℤ (pos 0) (compare_entries a b) ≡ before b a
  unfolding compare_entries
  compare_entries-after a b =
      rw (or_else-above (a.priority -ℤ b.priority) (pos a.insert_seq -ℤ pos b.insert_seq)) (
        ground
          (arith, -ℤ_parts a.priority b.priority, -ℤ_parts (pos a.insert_seq) (pos b.insert_seq)))

  pub compare_entries-IsComparator : IsComparator (compare_entries {A = A})
  compare_entries-IsComparator = record {
    asym = λ a b h. ground (arith, compare_entries-before a b, compare_entries-before b a);
    sign = λ a b. ground (arith, compare_entries-after a b, compare_entries-before b a);
    chain = λ a b c h k.
        ground (
          arith,
          compare_entries-before b a,
          compare_entries-before c b,
          compare_entries-before c a,
        );
  }

  -- `x` has the lower priority number, or the same one and was enqueued no later.
  pub record IsServedBefore (x y : Entry A) : Type 0 where
    pub urgency : x.priority ≤ℤ y.priority
    pub arrival : x.priority ≡ y.priority → x.insert_seq ≤ y.insert_seq

  Pairs-imp :
      {R S : Entry A → Entry A → Type 0} (xs : List (Entry A))
      → ((x y : Entry A) → R x y → S x y)
      → Pairs R xs
      → Pairs S xs
  Pairs-imp [] step h = tt
  Pairs-imp {R = R} {S = S} (x ∷ xs) step h =
      (All-imp (R x) (S x) xs (step x) h.0, Pairs-imp xs step h.1)

  served : (x y : Entry A) → not (precedes compare_entries y x) ≡ true → IsServedBefore x y
  served x y h = record {
    urgency = ground (arith, compare_entries-before y x);
    arrival = λ e. ground (arith, compare_entries-before y x);
  }

  -- With the default comparator, drain of a queue in its invariant returns the values of all its
  -- entries by priority, and those of one priority in the order in which they were enqueued; the queue
  -- is then empty.
  pub drain-IsServedBefore :
      (max_size : Option ℕ) (q : Queue A)
      → IsValid max_size compare_entries q
      → (entries : List (Entry A)) × ((drain max_size compare_entries q).0
          ≡ map (λ x. x.value) entries)
        × Perm entries q.heap
        × Pairs IsServedBefore entries
        × ((drain max_size compare_entries q).1.heap ≡ [])
  drain-IsServedBefore max_size q v =
      let (entries, values, same, sorted, ends) =
        drain-IsSorted max_size compare_entries compare_entries-IsComparator q v in
      (entries, values, same, Pairs-imp entries served sorted, ends)
