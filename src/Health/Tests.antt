-- ===== src/Health/Tests.antt =====
-- The health of an instance whose circuit is open, and a report of three indicators.
use leave_ledger.Common.{◌≡◌, refl, some, none, List, [], ◌∷◌}
use leave_ledger.Common.Eq.{String-Eq}
use leave_ledger.Constants.{CircuitState, circuit_eq}
use leave_ledger.Health.{Status, answering, get_health, is_circuit_open, database_status}
use leave_ledger.Health.Aggregator.{
  Indicator, resolved, thrown, Overall, register_indicator, check, check_all, check_one,
}

open_circuit : (get_health (some CircuitState.opened) answering).status ≡ Status.degraded
unfolding get_health is_circuit_open database_status circuit_eq
open_circuit = refl

abbrev three : List Indicator
three =
    record { name = "db"; probe = resolved none }
    ∷ record { name = "hcm"; probe = resolved (some "degraded") }
    ∷ record { name = "disk"; probe = thrown "full" }
    ∷ []

-- The disk is registered again, with a probe that answers.
disk_again : (check (register_indicator "disk" (resolved (some "up")) three)).0 ≡ Overall.degraded
unfolding check check_all check_one register_indicator
disk_again = refl
