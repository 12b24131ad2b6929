-- ===== src/PriorityQueue/Enqueue.antt =====
-- enqueue of src/common/utils/priority-queue.util.js, with room and without.
use mathlib.Core.List.{Perm}
use mathlib.Core.List.Perm
use leave_ledger.Common.{
  ℕ, zero, suc, ◌+◌, ◌<◌, ◌≡◌, ◌≢◌, refl, Bool, true, false, not, Option, none, some, List, ◌∷◌,
  get_elem?, length, every, every-get, get-every, every-perm, every-imp, length-perm, Bool-cases,
  inl, inr, arith, subst, ◌∙◌,
}
use leave_ledger.Common.Int.{ℤ}
use leave_ledger.Heap.{precedes, build_heap}
use leave_ledger.Heap.Order.{IsComparator, IsHeap}
use leave_ledger.Heap.Build.{build_heap-IsHeap}
use leave_ledger.PriorityQueue.{
  Entry, Queue, find_max_index, remove_at, is_full, push_entry, enqueue,
}
use leave_ledger.PriorityQueue.Valid.{IsWithin, IsValid, is_older, push_entry-IsHeap}
use leave_ledger.PriorityQueue.Greatest.{find_max_index-greatest, remove_at-perm}

module _ {ℓ} {A : Type ℓ} (max_size : Option ℕ) (comparator : Entry A → Entry A → ℤ) where
  abbrev pub full : Queue A → Bool
  full = is_full max_size comparator

  -- The entry is before no entry of the list.
  abbrev pub is_greatest : Entry A → List (Entry A) → Bool
  is_greatest e = every (λ x. not (precedes comparator e x))

  -- The three ends of an enqueue: the field `evicted` and the queue it leaves.
  pub data IsOutcome (q : Queue A) (entry : Entry A)
      : Option (Option (Entry A)) → Queue A → Type ℓ where
    room :
        {q' : Queue A}
        → full q ≡ false
        → Perm q'.heap (entry ∷ q.heap)
        → IsOutcome q entry (some none) q'
    dropped :
        {q' : Queue A}
        → full q ≡ true
        → is_greatest entry q.heap ≡ true
        → q'.heap ≡ q.heap
        → IsOutcome q entry (some none) q'
    evicted :
        {q' : Queue A} (worst : Entry A)
        → full q ≡ true
        → precedes comparator entry worst ≡ true
        → is_greatest worst q.heap ≡ true
        → Perm (worst ∷ q'.heap) (entry ∷ q.heap)
        → IsOutcome q entry (some (some worst)) q'

  abbrev pub numbered : A → ℤ → Queue A → Entry A
  numbered value priority q = record { priority = priority; value = value; insert_seq = q.seq }

  enqueue-room :
      (value : A) (priority : ℤ) (q : Queue A)
      → full q ≡ false
      → enqueue max_size comparator value priority q ≡ (
        some none,
        record q {
          seq = q.seq + 1;
          heap = push_entry max_size comparator (numbered value priority q) q.heap;
        },
      )
  unfolding enqueue
  enqueue-room value priority q h = rw (enqueue, h) refl

  module _ (value : A) (priority : ℤ) (q : Queue A) (worst : Entry A) (h : full q ≡ true)
      (found : get_elem? q.heap (find_max_index max_size comparator q.heap) ≡ some worst) where
    enqueue-dropped :
        precedes comparator (numbered value priority q) worst ≡ false
        → enqueue max_size comparator value priority q ≡ (some none, record q { seq = q.seq + 1 })
    unfolding enqueue
    enqueue-dropped after = rw (enqueue, h, found, after) refl

    enqueue-evicted :
        precedes comparator (numbered value priority q) worst ≡ true
        → enqueue max_size comparator value priority q ≡ (
          some (some worst),
          record q {
            seq = q.seq + 1;
            heap = push_entry max_size comparator (numbered value priority q) (
                build_heap comparator
                  (remove_at (find_max_index max_size comparator q.heap) q.heap));
          },
        )
    unfolding enqueue
    enqueue-evicted before = rw (enqueue, h, found, before) refl

-- A queue that is not full has room for one more entry; a full one with a positive capacity has one.
room-IsWithin {ℓ} :
    {A : Type ℓ} (m : Option ℕ) (comparator : Entry A → Entry A → ℤ) (q : Queue A)
    → is_full m comparator q ≡ false
    → IsWithin m (length q.heap + 1)
room-IsWithin none comparator q h = tt
room-IsWithin (some n) comparator q h = ground arith

full-positive {ℓ} :
    {A : Type ℓ} (m : Option ℕ) (comparator : Entry A → Entry A → ℤ) (q : Queue A)
    → is_full m comparator q ≡ true
    → m ≢ some 0
    → 0 < length q.heap
full-positive none comparator q h some_room = cc
full-positive (some zero) comparator q h some_room = absurd (some_room refl)
full-positive (some (suc n)) comparator q h some_room = ground arith

module _ {ℓ} {A : Type ℓ} (max_size : Option ℕ) (comparator : Entry A → Entry A → ℤ)
    (order : IsComparator comparator) where
  older-suc :
      (seq : ℕ) (heap : List (Entry A))
      → every (is_older seq) heap ≡ true
      → every (is_older (seq + 1)) heap ≡ true
  older-suc seq heap = every-imp (is_older seq) (is_older (seq + 1)) heap (λ x h. ground arith)

  -- The queue with its next entry, from a heap of others.
  pushed-IsValid :
      (e : Entry A) (heap : List (Entry A)) (seq : ℕ)
      → IsHeap comparator heap
      → e.insert_seq ≡ seq
      → every (is_older seq) heap ≡ true
      → IsWithin max_size (length heap + 1)
      → IsValid max_size comparator
          (record { heap = push_entry max_size comparator e heap; seq = seq + 1 })
        × Perm (push_entry max_size comparator e heap) (e ∷ heap)
  pushed-IsValid e heap seq h number older_ones space =
      let (valid, same) = push_entry-IsHeap max_size comparator order e heap h in
      let pushed = push_entry max_size comparator e heap in
      let rest = older-suc seq heap older_ones in
      (
        record {
          ordered = valid;
          older = every-perm (is_older (seq + 1)) pushed (e ∷ heap) same ∙ ground arith;
          within =
              subst (IsWithin max_size)
                (let size = length-perm pushed (e ∷ heap) same in omega arith) space;
        },
        same,
      )

  module _ (value : A) (priority : ℤ) (q : Queue A) (v : IsValid max_size comparator q) where
    -- A full queue, and its greatest entry.
    full-IsOutcome :
        (worst : Entry A)
        → full max_size comparator q ≡ true
        → get_elem? q.heap (find_max_index max_size comparator q.heap) ≡ some worst
        → is_greatest max_size comparator worst q.heap ≡ true
        → IsOutcome max_size comparator q
            (numbered max_size comparator value priority q)
            (enqueue max_size comparator value priority q).0
            (enqueue max_size comparator value priority q).1
          × IsValid max_size comparator (enqueue max_size comparator value priority q).1
    full-IsOutcome worst h found greatest =
        let entry = numbered max_size comparator value priority q in
        elim (Bool-cases (precedes comparator entry worst)) [
          | inr after ↦
              rw (enqueue-dropped max_size comparator value priority q worst h found after) (
                IsOutcome.dropped h
                    (every-get (λ x. not (precedes comparator entry x)) q.heap
                      (λ i x e.
                        let below =
                          get-every (λ x. not (precedes comparator worst x)) q.heap i x greatest
                            e in
                        ground (arith, order.chain x worst entry)))
                    refl,
                record {
                  ordered = v.ordered;
                  older = older-suc q.seq q.heap v.older;
                  within = v.within;
                },
              )
          | inl before ↦
              let others = remove_at (find_max_index max_size comparator q.heap) q.heap in
              let removed =
                remove_at-perm (find_max_index max_size comparator q.heap) q.heap worst found in
              let (built, rebuilt) = build_heap-IsHeap comparator order others in
              let all : Perm (worst ∷ build_heap comparator others) q.heap =
                Perm.trans (Perm.cons worst rebuilt) removed in
              let older =
                every-perm (is_older q.seq) (worst ∷ build_heap comparator others) q.heap all
                ∙ v.older in
              let (valid, pushed) =
                pushed-IsValid entry (build_heap comparator others) q.seq built refl (ground arith)
                  (subst (IsWithin max_size)
                    (let size = length-perm (worst ∷ build_heap comparator others) q.heap all in
                      omega arith)
                    v.within) in
              rw (enqueue-evicted max_size comparator value priority q worst h found before) (
                IsOutcome.evicted worst h before greatest (
                    Perm.trans (Perm.cons worst pushed) (
                      Perm.trans (Perm.swap entry worst (build_heap comparator others))
                        (Perm.cons entry all))),
                valid,
              )
        ]

    pub enqueue-IsOutcome :
        max_size ≢ some 0
        → IsOutcome max_size comparator q
            (numbered max_size comparator value priority q)
            (enqueue max_size comparator value priority q).0
            (enqueue max_size comparator value priority q).1
          × IsValid max_size comparator (enqueue max_size comparator value priority q).1
    enqueue-IsOutcome some_room = elim (Bool-cases (full max_size comparator q)) [
      | inr space ↦
          let (valid, same) =
            pushed-IsValid (numbered max_size comparator value priority q) q.heap q.seq v.ordered
              refl v.older (room-IsWithin max_size comparator q space) in
          rw (enqueue-room max_size comparator value priority q space)
            (IsOutcome.room space same, valid)
      | inl h ↦
          let (worst, found, greatest) =
            find_max_index-greatest max_size comparator order q.heap v.ordered
              (full-positive max_size comparator q h some_room) in
          full-IsOutcome worst h found greatest
    ]
