-- ===== src/PriorityQueue/Bag.antt =====
-- A priority queue of src/common/utils/priority-queue.util.js as a bag of entries: what enqueue and
-- dequeue do, without the array and its order.
use mathlib.Core.Bool.{Bool-set}
use mathlib.Core.List.{Perm}
use mathlib.Core.List.Perm
use mathlib.Core.Quot
use mathlib.Core.Quot.{Quot, Quot-set}
use native.Mathlib.Nat.{ℕ_set}
use leave_ledger.Common.{
  ℕ, ◌≡◌, ◌≢◌, refl, sym, Bool, true, false, not, Option, none, some, List, [], ◌∷◌, length, leb,
  every, every-perm, length-perm, ap, subst,
}
use leave_ledger.Common.Int.{ℤ}
use leave_ledger.Heap.{precedes}
use leave_ledger.Heap.Order.{IsComparator}
use leave_ledger.PriorityQueue.{Entry, Queue, enqueue, dequeue_entry}
use leave_ledger.PriorityQueue.Valid.{IsValid}
use leave_ledger.PriorityQueue.Enqueue.{IsOutcome, numbered, enqueue-IsOutcome}
use leave_ledger.PriorityQueue.Dequeue.{dequeue_entry-IsTaken}
use leave_ledger.PriorityQueue.Drain.{dequeue_empty}

abbrev pub Bag {ℓ} : Type ℓ → Type ℓ
Bag A = Quot (Perm {A = A})

module _ {ℓ} {E : Type ℓ} where
  abbrev pub add : E → Bag E → Bag E
  add x = Quot.lift Quot-set (λ xs. Quot.mk (x ∷ xs)) (λ xs ys h. Quot.sound (Perm.cons x h))

  abbrev pub bag_size : Bag E → ℕ
  bag_size = Quot.lift ℕ_set length length-perm

  -- Every entry of the bag passes the test.
  abbrev pub every_of : (E → Bool) → Bag E → Bool
  every_of p = Quot.lift Bool-set (every p) (every-perm p)

module _ {ℓ} {A : Type ℓ} (max_size : Option ℕ) (comparator : Entry A → Entry A → ℤ) where
  abbrev pub bag : Queue A → Bag (Entry A)
  bag q = Quot.mk q.heap

  abbrev pub is_full_bag : Bag (Entry A) → Bool
  is_full_bag b = elim max_size [ none ↦ false | some n ↦ leb n (bag_size b) ]

  -- A call, with its answer, on a bag.
  pub data BagPut (entry : Entry A) (b : Bag (Entry A))
      : Option (Option (Entry A)) → Bag (Entry A) → Type ℓ where
    room : is_full_bag b ≡ false → BagPut entry b (some none) (add entry b)
    dropped :
        is_full_bag b ≡ true
        → every_of (λ x. not (precedes comparator entry x)) b ≡ true
        → BagPut entry b (some none) b
    evicted :
        {b' : Bag (Entry A)} (worst : Entry A)
        → is_full_bag b ≡ true
        → precedes comparator entry worst ≡ true
        → every_of (λ x. not (precedes comparator worst x)) b ≡ true
        → add worst b' ≡ add entry b
        → BagPut entry b (some (some worst)) b'

  pub data BagTake : Bag (Entry A) → Option (Entry A) → Bag (Entry A) → Type ℓ where
    nothing : BagTake (Quot.mk []) none (Quot.mk [])
    taken :
        {b b' : Bag (Entry A)} (least : Entry A)
        → add least b' ≡ b
        → every_of (λ x. not (precedes comparator x least)) b' ≡ true
        → BagTake b (some least) b'

  -- What the queue's code answers to a dequeue: the entry, and the queue that is left.
  abbrev answer : Queue A → Option (Entry A × Queue A) → Option (Entry A) × Queue A
  answer q none = (none, q)
  answer q (some (x, q')) = (some x, q')

  abbrev pub take_entry : Queue A → Option (Entry A) × Queue A
  take_entry q = answer q (dequeue_entry max_size comparator q)

  module _ (order : IsComparator comparator) where
    put-BagPut :
        (entry : Entry A) (q q' : Queue A) (reply : Option (Option (Entry A)))
        → IsOutcome max_size comparator q entry reply q'
        → BagPut entry (bag q) reply (bag q')
    put-BagPut entry q q' reply (IsOutcome.room space same) =
        subst (BagPut entry (bag q) (some none)) (sym (Quot.sound same)) (BagPut.room space)
    put-BagPut entry q q' reply (IsOutcome.dropped full last same) =
        subst (BagPut entry (bag q) (some none)) (ap (λ h. Quot.mk h) (sym same))
          (BagPut.dropped full last)
    put-BagPut entry q q' reply (IsOutcome.evicted worst full before last same) =
        BagPut.evicted worst full before last (Quot.sound same)

    take-BagTake :
        (q : Queue A) (heap : List (Entry A))
        → q.heap ≡ heap
        → IsValid max_size comparator q
        → BagTake (bag q) (take_entry q).0 (bag (take_entry q).1)
    take-BagTake q [] e v =
        rw (dequeue_empty max_size comparator q e)
          (subst (λ h. BagTake (Quot.mk h) none (Quot.mk h)) (sym e) BagTake.nothing)
    take-BagTake q (x ∷ rest) e v =
        let (q', step, t) = dequeue_entry-IsTaken max_size comparator order q x rest e v in
        rw step (BagTake.taken x (Quot.sound t.others) t.least)

    -- With a comparator and a capacity other than 0, a queue in its invariant implements the bag of its
    -- entries: enqueue adds the new entry, or on a full bag drops it or exchanges it for a greatest one,
    -- and dequeue takes out a least entry, or nothing from an empty bag.
    pub queue-IsBag :
        max_size ≢ some 0
        → (q : Queue A) → IsValid max_size comparator q
        → ((value : A) (priority : ℤ)
            → BagPut
                (numbered max_size comparator value priority q)
                (bag q)
                (enqueue max_size comparator value priority q).0
                (bag (enqueue max_size comparator value priority q).1))
          × BagTake (bag q) (take_entry q).0 (bag (take_entry q).1)
    queue-IsBag some_room q v = (
      λ value priority.
          put-BagPut (numbered max_size comparator value priority q) q
            (enqueue max_size comparator value priority q).1
            (enqueue max_size comparator value priority q).0
            (enqueue-IsOutcome max_size comparator order value priority q v some_room).0,
      take-BagTake q q.heap refl v,
    )
