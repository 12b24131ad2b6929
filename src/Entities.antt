-- ===== src/Entities.antt =====
-- The rows of time_off_requests and idempotency_records, the request body, and the response.
-- `createdAt`, `updatedAt` and `version` are kept by the ORM and left out, as is the surrogate id of
-- an idempotency record; a timestamp is its milliseconds since the epoch.
pub mod Sets
use leave_ledger.Common.{ℕ, String, Bool, Option, ◌||◌}
use leave_ledger.Common.Int.{ℤ}
use leave_ledger.Common.Eq.{◌==◌, String-Eq}
use leave_ledger.Constants.{LeaveType, RequestStatus, HcmSyncStatus}
use leave_ledger.Dates.{IsoDate}
use leave_ledger.Balance.{BalanceKey}

pub record TimeOffRequest : Type 0 where
  pub id : String
  pub idempotency_key : String
  pub employee_id : String
  pub location_id : String
  pub leave_type : LeaveType
  pub start_date : IsoDate
  pub end_date : IsoDate
  pub days_requested : ℤ
  pub status : RequestStatus
  pub requested_by : String
  pub approved_by : Option String
  pub approved_at : Option ℕ
  pub rejection_reason : Option String
  pub notes : Option String
  pub hcm_validated : Bool
  pub hcm_sync_status : HcmSyncStatus
  pub hcm_sync_attempts : ℕ
  pub hcm_last_sync_at : Option ℕ

-- The balance that the request draws on.
abbrev pub request_key : TimeOffRequest → BalanceKey
request_key r = record {
  employee_id = r.employee_id;
  location_id = r.location_id;
  leave_type = r.leave_type;
}

-- What `_serializeRequest` returns.
pub record Response : Type 0 where
  pub id : String
  pub idempotency_key : String
  pub employee_id : String
  pub location_id : String
  pub leave_type : LeaveType
  pub start_date : IsoDate
  pub end_date : IsoDate
  pub days_requested : ℤ
  pub status : RequestStatus
  pub requested_by : String
  pub approved_by : Option String
  pub approved_at : Option ℕ
  pub rejection_reason : Option String
  pub notes : Option String
  pub hcm_validated : Bool
  pub hcm_sync_status : HcmSyncStatus

unfoldable pub serialize_request : TimeOffRequest → Response
serialize_request r = record {
  id = r.id;
  idempotency_key = r.idempotency_key;
  employee_id = r.employee_id;
  location_id = r.location_id;
  leave_type = r.leave_type;
  start_date = r.start_date;
  end_date = r.end_date;
  days_requested = r.days_requested;
  status = r.status;
  requested_by = r.requested_by;
  approved_by = r.approved_by;
  approved_at = r.approved_at;
  rejection_reason = r.rejection_reason;
  notes = r.notes;
  hcm_validated = r.hcm_validated;
  hcm_sync_status = r.hcm_sync_status;
}

pub record IdempotencyRecord : Type 0 where
  pub idempotency_key : String
  pub employee_id : String
  pub request_hash : String
  pub response_status : ℕ
  pub response_body : Response
  pub expires_at : ℕ

-- CreateTimeOffRequestDto, after validation; empty notes count as missing.
pub record CreateDto : Type 0 where
  pub employee_id : String
  pub location_id : String
  pub leave_type : LeaveType
  pub start_date : IsoDate
  pub end_date : IsoDate
  pub notes : Option String

-- `where: { id }`
abbrev pub has_id : String → TimeOffRequest → Bool
has_id id r = id == r.id

abbrev pub same_request : TimeOffRequest → TimeOffRequest → Bool
same_request r = has_id r.id

-- `where: { idempotencyKey }`
abbrev pub has_idempotency_key : String → TimeOffRequest → Bool
has_idempotency_key key r = key == r.idempotency_key

-- The unique columns of a new request: its id and its idempotency key.
abbrev pub request_conflict : TimeOffRequest → TimeOffRequest → Bool
request_conflict r s = has_id r.id s || has_idempotency_key r.idempotency_key s

abbrev pub has_record_key : String → IdempotencyRecord → Bool
has_record_key key r = key == r.idempotency_key

abbrev pub same_record : IdempotencyRecord → IdempotencyRecord → Bool
same_record r = has_record_key r.idempotency_key
