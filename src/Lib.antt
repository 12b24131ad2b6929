-- ===== src/Lib.antt =====
-- LeaveLedger: a time-off service over employee balances, reconciled with an external HCM system.
--
-- The program's parts, and the files that model them:
-- * src/common/constants/index.js (enumerations, VALID_TRANSITIONS, time constants) is Constants;
--   its ErrorCodes, with the HTTP exceptions and driver errors that carry them, are Result.
-- * src/common/utils/date.util.js is Dates.
-- * src/modules/balance (BalanceService, the employee_balances table) is Balance: `deduct`,
--   `release`, `finalize` and `real_time` are the assignments of atomicDeduct, releaseFromPending,
--   finalizeUsed and applyHcmRealTimeUpdate to a loaded row; `atomic_deduct` and the others are the
--   whole operations on a table.
-- * src/modules/timeoff (TimeOffService, the tables time_off_requests and idempotency_records) is
--   Entities (rows, DTO, response), Store (the state), TimeOff (decisions), TimeOff/Create
--   (createRequest, with its retry loop and its recovery from database errors) and TimeOff/Listing
--   (listRequests). Database/Paged has the queries that order and cut the rows.
-- * The controllers of src/modules/timeoff, src/modules/balance and src/modules/hcm are Api, and
--   src/common/filters/all-exceptions.filter.js, which answers what a handler throws, is Api/Filter.
--   `serve_time_off` goes from a route to the answer and the state after it.
-- * Ledger ties the services together: the invariant between requests and balances (IsConsistent),
--   the steps that calls, callbacks and jobs are (Ledger/Reach), and what a key that was used once
--   answers later (Ledger/Replay, Ledger/Expired).
-- * src/modules/hcm and its helpers in src/common/utils: Hcm/Circuit is circuit-breaker.util.js,
--   Hcm/Retry is retry.util.js, Hcm/Client is HcmService, Hcm/Reconcile and Hcm/Batch are
--   runBatchSync with _reconcileRecord, Hcm/Batch/Manual has triggerManualBatchSync and the runs that
--   it starts, in two parts around the HCM's answer, Hcm/Batch/Logs is getSyncLogs, and Hcm/Pending
--   is retryPendingHcmSyncs of HcmSyncService.
--   TimeOff/Notify has the callbacks of TimeOffService that call the HCM after a response.
-- * mock-hcm/src/server.js, the stand-in of the external HCM, is MockHcm (its state), MockHcm/Routes
--   (the requests that the service sends) and MockHcm/Admin (those that tests send); MockHcm/Drift
--   puts it together with the reconciliation of Hcm/Reconcile.
-- * The classes of src/common/utils that stand by themselves: Heap and PriorityQueue are
--   priority-queue.util.js, DeadLetters is dead-letter-queue.util.js (its redrives in
--   DeadLetters/Redrive), Locks is lock.util.js, Limits is rate-limiter.util.js and
--   token-bucket-limiter.util.js, Audit is audit-logger.util.js, Idempotency is
--   idempotency.util.js, and EventBus is event-bus.util.js (its replays in EventBus/Replays). A Map
--   is the list of its entries in the order of insertion.
-- * src/common/utils/hash.util.js, with which a body's hash is made, is Json: JSON values, with objects
--   as fields in their order. Audit hashes such values.
-- * src/modules/health/health.controller.js is Health, and health-aggregator.util.js of
--   src/common/utils is Health/Aggregator.
--
-- TypeORM and the database are not in the repository: a table is a parameter of type `Repository`
-- (Database), whose laws say what TypeORM documents of the calls that are made. Tables that are lists
-- of rows meet them. Rows that a query orders by one column may stand in any
-- order where it is the same, in every query anew. The hash of a body, SHA-256, the clock, new ids and
-- driver errors are parameters (those of a call in `Env`), as are the HCM's answers (`Answers`, and `Client` for HTTP outcomes and times).
--
-- A call is a function from the state before to a result: the state after and the response, or the
-- exception, in which case the transaction leaves no trace. Calls are atomic, as the service's
-- per-employee lock and the serializable transactions make them; what a call schedules with
-- `setImmediate` is a list of tasks in the state.
--
-- Amounts are whole thousandths of a day, so that the tolerances 0.001 and 0.01 are exact; rounding
-- of doubles is not modelled. Dates are validated year, month and day numbers. The retry of
-- createRequest's transaction and that of HCM calls recur on the attempts that are left, the source's
-- own bounds. The loops of a heap have one round more than its index or its array has entries as fuel,
-- since each round goes one level up or down; drain has a round for each entry. Tokens of a bucket are counted in thousandths.
-- A batch run is atomic in Hcm/Batch and Ledger, and in two steps in Hcm/Batch/Manual; the starts and
-- ends of circuit breaker calls are separate steps.
--
-- Not modelled: routing, pipes and validation decorators (the framework's), dependency injection,
-- logging, the process figures of the health controller, and the small utilities that the services do
-- not call (request deduplication, audit hash chain, roles, metrics, trace context, backoff, the
-- second circuit state machine, date ranges).
mod Common
pub mod Constants
pub mod Result
pub mod Database
pub mod Dates
pub mod Balance
pub mod Entities
pub mod Store
pub mod TimeOff
pub mod Ledger
pub mod Hcm
pub mod Heap
pub mod PriorityQueue
pub mod DeadLetters
pub mod MockHcm
pub mod Locks
pub mod Limits
pub mod Audit
pub mod Idempotency
pub mod Api
pub mod EventBus
pub mod Json
pub mod Health
