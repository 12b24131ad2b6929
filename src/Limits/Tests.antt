-- ===== src/Limits/Tests.antt =====
-- Runs of the limiters of src/common/utils/rate-limiter.util.js and token-bucket-limiter.util.js.
use leave_ledger.Common.{◌+◌, ◌-◌, ◌*◌, ◌≤◌, ◌≡◌, refl, arith, none, List, [], ◌∷◌}
use leave_ledger.Limits.{Window, new_bucket, check, try_consume, or_given}
use leave_ledger.Limits.Rate.{Visit, count, in_window, let_through, check-bounded}
use leave_ledger.Limits.Tokens.{Demand, given_out, ends_at, given_out-bounded}

abbrev pair : Window
pair = record { window_ms = 100; max_requests = 2 }

abbrev visits : List Visit
visits =
    record { key = "a"; now = 10 }
    ∷ record { key = "b"; now = 20 }
    ∷ record { key = "a"; now = 30 }
    ∷ record { key = "a"; now = 109 }
    ∷ record { key = "a"; now = 110 }
    ∷ []

-- The third visit of a is within the window of the first, the fourth is not.
visits_through : let_through pair "a" visits [] [] ≡ 10 ∷ 30 ∷ 110 ∷ []
unfolding check
visits_through = refl

check-bounded_example :
    count (in_window pair 109) (let_through pair "a" visits [] []) ≤ pair.max_requests
check-bounded_example =
    check-bounded pair "a" visits 109
      (omega arith, (omega arith, (omega arith, (omega arith, (omega arith, tt)))))

abbrev demands : List Demand
demands =
    record { tokens = 8; now = 1000 }
    ∷ record { tokens = 4; now = 1100 }
    ∷ record { tokens = 3; now = 1400 }
    ∷ []

-- Two tokens are left, then two and a half, then four.
demands_given : (given_out demands (new_bucket none none 1000)).0 ≡ 11
unfolding new_bucket try_consume
demands_given = refl

given_out-bounded_example :
    (1000 * (given_out demands (new_bucket none none 1000)).0
      ≤ 1000 * or_given none 10 + (ends_at 1000 demands - 1000) * or_given none 5)
    × ((given_out demands (new_bucket none none 1000)).1.tokens ≤ 1000 * or_given none 10)
given_out-bounded_example =
    given_out-bounded none none 1000 demands (omega arith, (omega arith, (omega arith, tt)))
