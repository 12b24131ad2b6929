-- ===== src/Store.antt =====
-- The state that the time-off service works on: the three tables, and the tasks that it hands to
-- `setImmediate`, in order.
use leave_ledger.Common.{String, List, ℕ, Option}
use leave_ledger.Common.Int.{ℤ}
use leave_ledger.Balance.{BalanceKey, BalanceRepository}
use leave_ledger.Database.{Repository, list_repository}
use leave_ledger.Balance.{same_balance}
use leave_ledger.Result.{Failure}
use leave_ledger.Entities.{
  TimeOffRequest, IdempotencyRecord, CreateDto, same_request, request_conflict, same_record,
}

abbrev pub RequestRepository : Type 1
RequestRepository = Repository TimeOffRequest same_request request_conflict

abbrev pub RecordRepository : Type 1
RecordRepository = Repository IdempotencyRecord same_record same_record

pub record Database : Type 1 where
  pub balances : BalanceRepository
  pub requests : RequestRepository
  pub records : RecordRepository

-- The callbacks that wait to run after the response.
pub data Task : Type 0 where
  validate : String → BalanceKey → ℤ → Task
  notify_approval : TimeOffRequest → String → Task

-- What one call of the service reads of its environment.
pub record Env : Type 0 where
  -- `Date.now()`
  pub now : ℕ
  -- The id that the database generates for a new request.
  pub new_id : String
  -- `hashObject` of the body: SHA-256 of its JSON with sorted keys.
  pub request_hash : CreateDto → String
  -- The error that the driver raises in the transaction's n-th attempt, if it does.
  pub fault : ℕ → Option Failure

module _ (D : Database) where
  pub record State : Type 0 where
    pub balances : D.balances.Table
    pub requests : D.requests.Table
    pub records : D.records.Table
    pub scheduled : List Task

-- Tables that are lists of rows.
abbrev pub list_database : Database
list_database = record {
  balances = list_repository same_balance same_balance;
  requests = list_repository same_request request_conflict;
  records = list_repository same_record same_record;
}
