-- ===== src/PriorityQueue/Dequeue.antt =====
-- dequeue of src/common/utils/priority-queue.util.js.
use mathlib.Core.List.{Perm}
use mathlib.Core.List.Perm
use leave_ledger.Common.{
  ℕ, suc, ◌-◌, ◌≡◌, refl, Bool, true, not, Option, some, List, [], ◌∷◌, get_elem?, length, every,
  every-perm, every-get, length-perm, take, get-inside, get-outside, ◌∙◌, arith, subst,
}
use leave_ledger.Common.Int.{ℤ}
use leave_ledger.Heap.{precedes, sift_down}
use leave_ledger.Heap.Order.{IsComparator, IsHeap, heap-first}
use leave_ledger.PriorityQueue.{Entry, Queue, dequeue_entry}
use leave_ledger.PriorityQueue.Valid.{IsWithin-less, IsValid, is_older, replace-IsHeap}

module _ {ℓ} {A : Type ℓ} (max_size : Option ℕ) (comparator : Entry A → Entry A → ℤ) where
  -- No entry of the list is before `min`.
  abbrev pub is_least : Entry A → List (Entry A) → Bool
  is_least min = every (λ y. not (precedes comparator y min))

  -- A dequeue takes a least entry and leaves the others.
  pub record IsTaken (q : Queue A) (min : Entry A) (q' : Queue A) : Type ℓ where
    pub valid : IsValid max_size comparator q'
    pub others : Perm (min ∷ q'.heap) q.heap
    pub least : is_least min q'.heap ≡ true
    pub numbered : q'.seq ≡ q.seq

  dequeue_one :
      (q : Queue A) (min : Entry A)
      → q.heap ≡ min ∷ []
      → dequeue_entry max_size comparator q ≡ some (min, record q { heap = [] })
  unfolding dequeue_entry
  dequeue_one q min e = rw (dequeue_entry, e) refl

  dequeue_more :
      (q : Queue A) (min y last : Entry A) (ys : List (Entry A))
      → q.heap ≡ min ∷ y ∷ ys
      → get_elem? (y ∷ ys) (length ys) ≡ some last
      → dequeue_entry max_size comparator q
        ≡ some (min, record q { heap = sift_down comparator 0 (last ∷ take (length ys) (y ∷ ys)) })
  unfolding dequeue_entry
  dequeue_more q min y last ys e h =
      let same : suc (length ys) - 1 ≡ length ys = omega arith in
      rw (dequeue_entry, e, same, h, e) refl

  module _ (order : IsComparator comparator) where
    first-is_least :
        (min : Entry A) (rest : List (Entry A))
        → IsHeap comparator (min ∷ rest)
        → is_least min rest ≡ true
    first-is_least min rest h =
        every-get (λ y. not (precedes comparator y min)) rest
          (λ i y e.
            let inside = get-outside rest i y e in
            let above = heap-first comparator order (min ∷ rest) (suc i) h (omega arith) in
            ground arith)

    -- An entry comes out of every queue that is not empty.
    pub dequeue_entry-IsTaken :
        (q : Queue A) (x : Entry A) (rest : List (Entry A))
        → q.heap ≡ x ∷ rest
        → IsValid max_size comparator q
        → (q' : Queue A) × (dequeue_entry max_size comparator q ≡ some (x, q')) × IsTaken q x q'
    dequeue_entry-IsTaken q x [] e v = (
      record q { heap = [] },
      dequeue_one q x e,
      record {
        valid = record {
          ordered = λ c pos low. refl;
          older = refl;
          within = IsWithin-less max_size (length q.heap) 0 (omega arith) v.within;
        };
        others = rw e Perm.rfl;
        least = refl;
        numbered = refl;
      },
    )
    dequeue_entry-IsTaken q x (y ∷ ys) e v =
        let (last, at_end) = get-inside (y ∷ ys) (length ys) (omega arith) in
        let sunk = sift_down comparator 0 (last ∷ take (length ys) (y ∷ ys)) in
        let h : IsHeap comparator (x ∷ y ∷ ys) = rw (← e) v.ordered in
        let (valid, same) =
          replace-IsHeap max_size comparator order x last (y ∷ ys) (length ys) h refl at_end in
        let everyone : every (is_older q.seq) (x ∷ y ∷ ys) ≡ true =
          subst (λ h'. every (is_older q.seq) h' ≡ true) e v.older in
        (
          record q { heap = sunk },
          dequeue_more q x y last ys e at_end,
          record {
            valid = record {
              ordered = valid;
              older = every-perm (is_older q.seq) sunk (y ∷ ys) same ∙ ground arith;
              within =
                  IsWithin-less max_size (length q.heap) (length sunk)
                    (let size : length q.heap ≡ suc (suc (length ys)) = rw e refl in
                      omega (arith, length-perm sunk (y ∷ ys) same))
                    v.within;
            };
            others = rw e (Perm.cons x same);
            least =
                every-perm (λ z. not (precedes comparator z x)) sunk (y ∷ ys) same
                ∙ first-is_least x (y ∷ ys) h;
            numbered = refl;
          },
        )
