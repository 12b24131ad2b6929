-- ===== src/Health/Agree.antt =====
-- The two probes of src/modules/health/health.controller.js agree.
use leave_ledger.Common.{◌≡◌, ◌↔◌, refl, true, Option, arith}
use leave_ledger.Constants.{CircuitState}
use leave_ledger.Health.{
  DataSource, uninitialized, answering, failing, degraded, down, get_readiness, get_health,
  is_circuit_open,
}

-- A load balancer that asks for the readiness and an operator that asks for the health get the same
-- HTTP status and the same error, whatever the circuit breaker does: an open circuit is reported as
-- DEGRADED and takes no instance out of service, and only if the database answers.
pub get_health-get_readiness :
    (circuit : Option CircuitState) (source : DataSource)
    → let ready = get_readiness source in
      let health = get_health circuit source in
      (health.http_status ≡ ready.http_status)
      × (health.error ≡ ready.error)
      × ((health.status ≡ down) ↔ (ready.status ≡ down))
      × ((health.status ≡ degraded)
          ↔ ((ready.http_status ≡ 200) × (is_circuit_open circuit ≡ true)))
unfolding get_health get_readiness
get_health-get_readiness circuit uninitialized = (refl, refl, grind arith, grind arith)
get_health-get_readiness circuit (failing message) = (refl, refl, grind arith, grind arith)
get_health-get_readiness circuit answering = (refl, refl, grind arith, grind arith)
