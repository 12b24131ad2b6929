-- ===== src/Entities/Sets.antt =====
-- Equality of rows (src/modules/timeoff/entities/timeoff-request.entity.js) is a proposition.
use leave_ledger.Common.{String, Bool-cases, inl, inr, ◌≡◌, true, false, subst}
use leave_ledger.Common.Eq.{◌==◌, String-Eq, eq_of_same, eq_self}
use leave_ledger.Entities.{TimeOffRequest}
use mathlib.Core.HLevel.{hedberg}

String_discrete : Discrete String
String_discrete s t = elim (Bool-cases (s == t)) [
  | inl same ↦ yes (eq_of_same s t same)
  | inr other ↦ no (λ e. differ e other)
]
  where
    differ : s ≡ t → (s == t) ≡ false → ⊥
    differ e other = let same : (s == t) ≡ true = subst (λ u. (s == u) ≡ true) e (eq_self s) in cc

pub TimeOffRequest_set : IsSet TimeOffRequest
TimeOffRequest_set = hlevel (hedberg String_discrete)
