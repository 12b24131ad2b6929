-- ===== src/PriorityQueue/Drain.antt =====
-- drain of src/common/utils/priority-queue.util.js: every entry, and in which order.
use mathlib.Core.List.{Perm}
use mathlib.Core.List.Perm
use leave_ledger.Common.{
  ℕ, zero, suc, ◌≤◌, ◌≡◌, refl, true, not, Option, none, some, List, [], ◌∷◌, map, length,
  every-perm, every-All, length-perm, Pairs, arith, subst, ◌∙◌,
}
use leave_ledger.Common.Int.{ℤ}
use leave_ledger.Heap.{precedes}
use leave_ledger.Heap.Order.{IsComparator}
use leave_ledger.PriorityQueue.{Entry, Queue, dequeue_entry, drain_loop, drain}
use leave_ledger.PriorityQueue.Valid.{IsValid}
use leave_ledger.PriorityQueue.Dequeue.{dequeue_entry-IsTaken}

module _ {ℓ} {A : Type ℓ} (max_size : Option ℕ) (comparator : Entry A → Entry A → ℤ) where
  -- No entry is before an earlier one of the list.
  abbrev pub IsSorted : List (Entry A) → Type ℓ
  IsSorted = Pairs (λ x y. not (precedes comparator y x) ≡ true)

  pub dequeue_empty : (q : Queue A) → q.heap ≡ [] → dequeue_entry max_size comparator q ≡ none
  unfolding dequeue_entry
  dequeue_empty q e = rw (dequeue_entry, e) refl

  drain_loop_empty :
      (fuel : ℕ) (q : Queue A) → q.heap ≡ [] → drain_loop max_size comparator fuel q ≡ ([], q)
  unfolding drain_loop
  drain_loop_empty zero q e = refl
  drain_loop_empty (suc fuel) q e = rw (drain_loop, dequeue_empty q e) refl

  drain_loop-suc :
      (fuel : ℕ) (q q' : Queue A) (x : Entry A)
      → dequeue_entry max_size comparator q ≡ some (x, q')
      → drain_loop max_size comparator (suc fuel) q ≡ (
        x ∷ (drain_loop max_size comparator fuel q').0,
        (drain_loop max_size comparator fuel q').1,
      )
  unfolding drain_loop
  drain_loop-suc fuel q q' x e = rw (drain_loop, e) refl

  module _ (order : IsComparator comparator) where
    drain_loop-IsSorted :
        (fuel : ℕ) (q : Queue A) (heap : List (Entry A))
        → q.heap ≡ heap
        → length heap ≤ fuel
        → IsValid max_size comparator q
        → Perm (drain_loop max_size comparator fuel q).0 heap
          × IsSorted (drain_loop max_size comparator fuel q).0
          × ((drain_loop max_size comparator fuel q).1.heap ≡ [])
    drain_loop-IsSorted fuel q [] e enough v = rw (drain_loop_empty fuel q e) (Perm.rfl, tt, e)
    drain_loop-IsSorted zero q (x ∷ rest) e enough v = absurd (omega arith)
    drain_loop-IsSorted (suc fuel) q (x ∷ rest) e enough v =
        let (q', taken, t) = dequeue_entry-IsTaken max_size comparator order q x rest e v in
        let others : Perm (x ∷ q'.heap) (x ∷ rest) = subst (Perm (x ∷ q'.heap)) e t.others in
        let (same, sorted, ends) =
          drain_loop-IsSorted fuel q' q'.heap refl
            (omega (arith, length-perm (x ∷ q'.heap) (x ∷ rest) others)) t.valid in
        let drained = (drain_loop max_size comparator fuel q').0 in
        rw (drain_loop-suc fuel q q' x taken) (
          Perm.trans (Perm.cons x same) others,
          (
            every-All (λ y. not (precedes comparator y x)) drained
                (every-perm (λ y. not (precedes comparator y x)) drained q'.heap same ∙ t.least),
            sorted,
          ),
          ends,
        )

    -- Of every queue in its invariant, drain returns the values of a list that has exactly the queue's
    -- entries, none of them before an earlier one, and it leaves the queue empty.
    pub drain-IsSorted :
        (q : Queue A)
        → IsValid max_size comparator q
        → (entries : List (Entry A)) × ((drain max_size comparator q).0
            ≡ map (λ x. x.value) entries)
          × Perm entries q.heap
          × IsSorted entries
          × ((drain max_size comparator q).1.heap ≡ [])
    unfolding drain
    drain-IsSorted q v =
        let (same, sorted, ends) =
          drain_loop-IsSorted (length q.heap) q q.heap refl (omega arith) v in
        ((drain_loop max_size comparator (length q.heap) q).0, refl, same, sorted, ends)
