-- ===== src/DeadLetters/Tests.antt =====
-- A dead letter queue of src/common/utils/dead-letter-queue.util.js with one message, tried twice.
use leave_ledger.Common.{◌^◌, ◌≡◌, refl, arith, true, false, none, some, String}
use leave_ledger.Common.Eq.{String-Eq}
use leave_ledger.DeadLetters.{
  Options, configure, Letters, Item, Moment, new_letters, enqueue, can_retry, calculate_next_retry,
}
use leave_ledger.DeadLetters.Redrive.{Attempt, redrive_eligible}
use leave_ledger.DeadLetters.Valid.{IsValid}
use leave_ledger.DeadLetters.Reach.{Reachable, configured-IsValid}
use leave_ledger.DeadLetters.Redriven.{
  visit_all, count, is_taken, is_refused, redrive_eligible-visited,
}

abbrev defaults : Options
defaults = record {
  max_retries = none;
  base_backoff = none;
  max_backoff = none;
  max_capacity = none;
}

abbrev outbox : Item String
outbox = record { id = "m1"; channel = "outbox"; payload = "hello"; error = none }

abbrev morning : Moment
morning = record { now = 1000; random = 2 ^ 52 }

abbrev one : Letters String
one = (enqueue (configure defaults) outbox morning new_letters).1

abbrev two : Letters String
two = (enqueue (configure defaults) outbox morning one).1

-- Two attempts: 100 * 2 ^ 2 ms and a tenth of them.
two_due : can_retry "m1" 1440 two ≡ true
unfolding can_retry enqueue configure calculate_next_retry
two_due = refl

two_early : can_retry "m1" 1439 two ≡ false
unfolding can_retry enqueue configure calculate_next_retry
two_early = refl

two-Reachable : Reachable (configure defaults) two
two-Reachable =
    Reachable.enqueued outbox morning (omega arith)
      (Reachable.enqueued outbox morning (omega arith) Reachable.start)

two-IsValid : IsValid (configure defaults) two
two-IsValid = configured-IsValid defaults two two-Reachable

configured-IsValid_example : IsValid (configure defaults) two
configured-IsValid_example = configured-IsValid defaults two two-Reachable

abbrev refuse : String → String → Attempt
refuse payload channel = record { thrown = some none; moment = morning }

redrive_eligible-visited_example :
    ((redrive_eligible (configure defaults) 2000 refuse two).letters.messages
      ≡ visit_all (configure defaults) 2000 refuse two.messages)
    × ((redrive_eligible (configure defaults) 2000 refuse two).succeeded
        ≡ count
            (configure defaults)
            2000
            refuse
            (is_taken (configure defaults) 2000 refuse)
            two.messages)
    × ((redrive_eligible (configure defaults) 2000 refuse two).failed
        ≡ count
            (configure defaults)
            2000
            refuse
            (is_refused (configure defaults) 2000 refuse)
            two.messages)
redrive_eligible-visited_example =
    redrive_eligible-visited (configure defaults) 2000 refuse two two-IsValid
