-- ===== src/PriorityQueue/Valid.antt =====
-- What holds of every queue of src/common/utils/priority-queue.util.js between two calls, and how the
-- two ways of placing an entry keep it.
use mathlib.Core.List.{Perm}
use mathlib.Core.List.Perm
use leave_ledger.Common.{
  ℕ, zero, suc, ◌+◌, ◌<◌, ◌≤◌, ◌≡◌, Bool, true, Option, none, some, List, [], ◌∷◌, ◌++◌, get_elem?,
  length, take, ltb, every, length-append, get-snoc, snoc-perm, get-take, take-last-perm, arith,
  if◌then◌else◌,
}
use leave_ledger.Common.Int.{ℤ}
use leave_ledger.Heap.{sift_down}
use leave_ledger.Heap.Order.{IsComparator, IsHeap, parent}
use leave_ledger.Heap.Up.{sift_up-IsHeap}
use leave_ledger.Heap.Down.{sift_down-IsHeapFrom}
use leave_ledger.PriorityQueue.{Entry, Queue, push_entry}

-- The number of entries is within `maxSize`.
abbrev pub IsWithin : Option ℕ → ℕ → Type 0
IsWithin none size = Unit
IsWithin (some n) size = size ≤ n

pub IsWithin-less : (m : Option ℕ) (n n' : ℕ) → n' ≤ n → IsWithin m n → IsWithin m n'
IsWithin-less none n n' h w = tt
IsWithin-less (some m) n n' h w = omega arith

-- The entry was numbered before `seq`.
abbrev pub is_older {ℓ} : {A : Type ℓ} → ℕ → Entry A → Bool
is_older seq e = ltb e.insert_seq seq

module _ {ℓ} {A : Type ℓ} (max_size : Option ℕ) (comparator : Entry A → Entry A → ℤ) where
  pub record IsValid (q : Queue A) : Type ℓ where
    pub ordered : IsHeap comparator q.heap
    pub older : every (is_older q.seq) q.heap ≡ true
    pub within : IsWithin max_size (length q.heap)

  module _ (order : IsComparator comparator) where
    -- An entry pushed on a heap.
    pub push_entry-IsHeap :
        (e : Entry A) (heap : List (Entry A))
        → IsHeap comparator heap
        → IsHeap comparator (push_entry max_size comparator e heap)
          × Perm (push_entry max_size comparator e heap) (e ∷ heap)
    push_entry-IsHeap e heap h =
        let (valid, same) = sift_up-IsHeap comparator order (length heap) (heap ++ e ∷ []) (record {
          inside = omega (arith, length-append heap (e ∷ []));
          edges = λ c pos other. ground (arith, get-snoc heap e c, get-snoc heap e (parent c), h c);
          bridged = λ c pos child i_pos low. ground (arith, get-snoc heap e c);
        }) in
        (valid, Perm.trans same (snoc-perm heap e))

    get-replaced :
        (x last : Entry A) (rest : List (Entry A)) (n c : ℕ)
        → 0 < c
        → get_elem? (last ∷ take n rest) c
          ≡ (if ltb c (n + 1) then get_elem? (x ∷ rest) c else none)
    get-replaced x last rest n zero pos = absurd (omega arith)
    get-replaced x last rest n (suc c) pos = ground (arith, get-take n rest c)

    -- The last entry put in the place of the first one, and sunk.
    pub replace-IsHeap :
        (x last : Entry A) (rest : List (Entry A)) (n : ℕ)
        → IsHeap comparator (x ∷ rest)
        → length rest ≡ suc n
        → get_elem? rest n ≡ some last
        → IsHeap comparator (sift_down comparator 0 (last ∷ take n rest))
          × Perm (sift_down comparator 0 (last ∷ take n rest)) rest
    replace-IsHeap x last rest n h size at_end =
        let kept = get-replaced x last rest n in
        let (valid, same) = sift_down-IsHeapFrom comparator order 0 0 (last ∷ take n rest) (record {
          edges = λ c pos low other. ground (arith, kept c, kept (parent c), h c);
          bridged = λ c pos child i_pos low. absurd (omega arith);
        }) in
        (valid, Perm.trans same (take-last-perm n rest last size at_end))
