-- ===== src/PriorityQueue/Tests.antt =====
-- The priority queue of src/common/utils/priority-queue.util.js with room for two entries.
use mathlib.Core.List.{Perm}
use leave_ledger.Common.{ℕ, ◌≡◌, ◌≢◌, refl, Option, none, some, List, [], ◌∷◌, map, Pairs, exchange}
use leave_ledger.Common.Int.{ℤ, pos, ◌-ℤ◌}
use leave_ledger.Heap.{sift_up_loop, sift_down_loop, build_loop, smallest}
use leave_ledger.PriorityQueue.{
  Entry, Queue, compare_entries, new_queue, enqueue, dequeue_entry, drain_loop, drain,
  find_max_index, find_max_loop,
}
use leave_ledger.PriorityQueue.Valid.{IsValid}
use leave_ledger.PriorityQueue.Enqueue.{numbered}
use leave_ledger.PriorityQueue.Bag.{BagPut, BagTake, bag, take_entry, queue-IsBag}
use leave_ledger.PriorityQueue.Reach.{Reachable, Reachable-IsValid}
use leave_ledger.PriorityQueue.Fifo.{
  IsServedBefore, compare_entries-IsComparator, drain-IsServedBefore,
}

abbrev capacity : Option ℕ
capacity = some 2

abbrev one : Queue ℕ
one = (enqueue capacity compare_entries 7 (pos 5) new_queue).1

abbrev two : Queue ℕ
two = (enqueue capacity compare_entries 8 (pos 1) one).1

two_drained : (drain capacity compare_entries two).0 ≡ 8 ∷ 7 ∷ []
unfolding drain drain_loop dequeue_entry enqueue sift_up_loop sift_down_loop smallest exchange
    compare_entries ◌-ℤ◌
two_drained = refl

-- A third entry of the middle priority takes the place of the entry 7.
three_drained :
    (drain capacity compare_entries (enqueue capacity compare_entries 9 (pos 3) two).1).0
    ≡ 8 ∷ 9 ∷ []
unfolding drain drain_loop dequeue_entry enqueue sift_up_loop sift_down_loop smallest exchange
    compare_entries ◌-ℤ◌ find_max_index find_max_loop build_loop
three_drained = refl

-- With no capacity at all the comparison with a missing entry fails.
enqueue_nowhere : (enqueue (some 0) compare_entries 9 (pos 3) (new_queue {A = ℕ})).0 ≡ none
unfolding enqueue
enqueue_nowhere = refl

capacity_given : capacity ≢ some 0
capacity_given h = cc

two-Reachable : Reachable capacity compare_entries two
two-Reachable = Reachable.enqueued 8 (pos 1) (Reachable.enqueued 7 (pos 5) Reachable.start)

two-IsValid : IsValid capacity compare_entries two
two-IsValid =
    Reachable-IsValid capacity compare_entries compare_entries-IsComparator capacity_given two
      two-Reachable

drain-IsServedBefore_example :
    (entries : List (Entry ℕ)) × ((drain capacity compare_entries two).0
      ≡ map (λ x. x.value) entries)
    × Perm entries two.heap
    × Pairs IsServedBefore entries
    × ((drain capacity compare_entries two).1.heap ≡ [])
drain-IsServedBefore_example = drain-IsServedBefore capacity two two-IsValid

queue-IsBag_example :
    ((value : ℕ) (priority : ℤ)
      → BagPut capacity compare_entries
          (numbered capacity compare_entries value priority two)
          (bag capacity compare_entries two)
          (enqueue capacity compare_entries value priority two).0
          (bag capacity compare_entries (enqueue capacity compare_entries value priority two).1))
    × BagTake capacity compare_entries
        (bag capacity compare_entries two)
        (take_entry capacity compare_entries two).0
        (bag capacity compare_entries (take_entry capacity compare_entries two).1)
queue-IsBag_example =
    queue-IsBag capacity compare_entries compare_entries-IsComparator capacity_given two two-IsValid
