-- ===== src/PriorityQueue/Reach.antt =====
-- The queues that src/common/utils/priority-queue.util.js reaches from a new one by its operations.
use leave_ledger.Common.{ℕ, ◌≡◌, ◌≢◌, refl, Bool, Option, none, some, [], length, arith, List, ◌∷◌}
use leave_ledger.Common.Int.{ℤ}
use leave_ledger.Heap.Order.{IsComparator}
use leave_ledger.PriorityQueue.{Entry, Queue, new_queue, enqueue, dequeue, drain, remove_where}
use leave_ledger.PriorityQueue.Valid.{IsWithin, IsValid}
use leave_ledger.PriorityQueue.Enqueue.{enqueue-IsOutcome}
use leave_ledger.PriorityQueue.Dequeue.{dequeue_entry-IsTaken}
use leave_ledger.PriorityQueue.Drain.{dequeue_empty, drain-IsSorted}
use leave_ledger.PriorityQueue.Remove.{remove_where-keeps}

module _ {ℓ} {A : Type ℓ} (max_size : Option ℕ) (comparator : Entry A → Entry A → ℤ) where
  -- The queues after any sequence of calls.
  pub data Reachable : Queue A → Type ℓ where
    start : Reachable new_queue
    enqueued :
        {q : Queue A} (value : A) (priority : ℤ)
        → Reachable q
        → Reachable (enqueue max_size comparator value priority q).1
    dequeued : {q : Queue A} → Reachable q → Reachable (dequeue max_size comparator q).1
    drained : {q : Queue A} → Reachable q → Reachable (drain max_size comparator q).1
    removed :
        {q : Queue A} (predicate : A → Bool)
        → Reachable q
        → Reachable (remove_where max_size comparator predicate q).1

  empty-IsValid : (q : Queue A) → q.heap ≡ [] → IsValid max_size comparator q
  empty-IsValid q e = record {
    ordered = λ c pos low. rw e refl;
    older = rw e refl;
    within = within_zero max_size (length q.heap) (rw e refl);
  }
    where
      within_zero : (m : Option ℕ) (n : ℕ) → n ≡ 0 → IsWithin m n
      within_zero none n h = tt
      within_zero (some m) n h = omega arith

  module _ (order : IsComparator comparator) where
    dequeue-IsValid :
        (q : Queue A) (heap : List (Entry A))
        → q.heap ≡ heap
        → IsValid max_size comparator q
        → IsValid max_size comparator (dequeue max_size comparator q).1
    unfolding dequeue
    dequeue-IsValid q [] e v = rw (dequeue, dequeue_empty max_size comparator q e) v
    dequeue-IsValid q (x ∷ rest) e v =
        let (q', taken, t) = dequeue_entry-IsTaken max_size comparator order q x rest e v in
        rw (dequeue, taken) t.valid

    -- With a comparator and a capacity other than 0, every queue that calls reach is a heap within its
    -- capacity whose entries were all numbered before the next one.
    pub Reachable-IsValid :
        max_size ≢ some 0 → (q : Queue A) → Reachable q → IsValid max_size comparator q
    Reachable-IsValid some_room q Reachable.start = empty-IsValid new_queue refl
    Reachable-IsValid some_room q (Reachable.enqueued {q = p} value priority r) =
        (enqueue-IsOutcome max_size comparator order value priority p
          (Reachable-IsValid some_room p r) some_room).1
    Reachable-IsValid some_room q (Reachable.dequeued {q = p} r) =
        dequeue-IsValid p p.heap refl (Reachable-IsValid some_room p r)
    Reachable-IsValid some_room q (Reachable.drained {q = p} r) =
        let (entries, values, same, sorted, ends) =
          drain-IsSorted max_size comparator order p (Reachable-IsValid some_room p r) in
        empty-IsValid (drain max_size comparator p).1 ends
    Reachable-IsValid some_room q (Reachable.removed {q = p} predicate r) =
        let (same, size, valid) =
          remove_where-keeps max_size comparator order predicate p
            (Reachable-IsValid some_room p r) in
        valid
