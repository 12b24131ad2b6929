-- ===== src/Health.antt =====
-- src/modules/health/health.controller.js, the liveness, the readiness and the health of the service.
-- The time, the uptime and the memory of the process, and the text of `metrics`, are left out.
pub mod Aggregator
pub mod Agree
mod Tests
use leave_ledger.Common.{ℕ, String, Bool, true, false, Option, none, some, if◌then◌else◌}
use leave_ledger.Common.Eq.{◌==◌}
use leave_ledger.Constants.{CircuitState, CircuitState-Eq}

-- The data source: missing or not initialized, or the outcome of `SELECT 1`.
pub data DataSource : Type 0 where
  uninitialized answering : DataSource
  failing : String → DataSource

pub data Status : Type 0 where
  up degraded down : Status

pub record Readiness : Type 0 where
  pub http_status : ℕ
  pub status : Status
  pub database_ready : Bool
  pub error : Option String

pub record Health : Type 0 where
  pub http_status : ℕ
  pub status : Status
  pub database : Status
  pub error : Option String
  pub circuit : Option CircuitState

-- `dbError`
unfoldable pub database_error : DataSource → Option String
database_error uninitialized = some "Database connection is not initialized"
database_error answering = none
database_error (failing message) = some message

-- `dbStatus`, as `getHealth` writes it.
unfoldable pub database_status : DataSource → Status
database_status answering = up
database_status _ = down

-- getLiveness
unfoldable pub get_liveness : ℕ × Status
get_liveness = (200, up)

-- getReadiness
unfoldable pub get_readiness : DataSource → Readiness
unfolding database_error
get_readiness answering = record {
  http_status = 200;
  status = up;
  database_ready = true;
  error = none;
}
get_readiness source = record {
  http_status = 503;
  status = down;
  database_ready = false;
  error = database_error source;
}

-- `circuitStatus && circuitStatus.state === 'OPEN'`
unfoldable pub is_circuit_open : Option CircuitState → Bool
is_circuit_open none = false
is_circuit_open (some state) = state == CircuitState.opened

-- getHealth; `circuit` is the state of the breaker of HcmService, if there is one.
unfoldable pub get_health : Option CircuitState → DataSource → Health
unfolding database_error database_status is_circuit_open
get_health circuit source =
    let database = database_status source in
    let is_down : Bool = elim database [ down ↦ true | _ ↦ false ] in
    record {
      http_status = if is_down then 503 else 200;
      status = if is_down then down else if is_circuit_open circuit then degraded else up;
      database = database;
      error = database_error source;
      circuit = circuit;
    }
