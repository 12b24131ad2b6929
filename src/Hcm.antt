-- ===== src/Hcm.antt =====
-- src/modules/hcm: the client of the external HCM system, its circuit breaker and retries, and the
-- jobs that reconcile with it. The HCM itself is not part of the repository: what it answers is a
-- parameter.
pub mod Circuit
pub mod Retry
pub mod Client
pub mod Reconcile
pub mod Batch
pub mod Pending
use leave_ledger.Common.{Bool, Option}
use leave_ledger.Entities.{TimeOffRequest}

-- What the client returns to the jobs, `none` for `null`: the `valid` field of a validation, and the
-- `success` field of an approval, each possibly absent.
pub record Answers : Type 0 where
  pub validation : TimeOffRequest → Option (Option Bool)
  pub approval : TimeOffRequest → Option (Option Bool)
