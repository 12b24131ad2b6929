-- ===== src/Idempotency/Tests.antt =====
-- A request that a client sends three times, for src/common/utils/idempotency.util.js; a payload is its own
-- fingerprint.
use leave_ledger.Common.{ℕ, ◌≡◌, refl, arith, String, List, [], ◌∷◌}
use leave_ledger.Common.Eq.{String-Eq}
use leave_ledger.Idempotency.{Reply, Call, begin, complete, run_call, run}
use leave_ledger.Idempotency.Answers.{begin-once}

abbrev own : String → String
own x = x

abbrev in_between : List (Call ℕ String)
in_between = Call.beginning "k1" "body" 1100 ∷ Call.removing "k2" ∷ Call.completing "k1" 201 ∷ []

third_answer :
    (begin own 5000 "k1" "body" 1200
      (run own 5000 in_between (begin own 5000 "k1" "body" 1000 []).1)).0
    ≡ Reply.already 201
unfolding begin complete run_call
third_answer = refl

begin-once_example :
    (begin own 5000 "k1" "other" 1200
      (run own 5000 in_between (begin own 5000 "k1" "body" 1000 []).1)).0
    ≡ Reply.reused
unfolding begin
begin-once_example =
    begin-once own 5000 "k1" "body" 1000 [] refl in_between (refl, (refl, (refl, tt))) "other" 1200
      (omega arith)
