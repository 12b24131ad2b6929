-- ===== src/TimeOff/Create.antt =====
-- src/modules/timeoff/timeoff.service.js, `createRequest` and its helpers: idempotency, the retried
-- transaction, and the recovery after a database error.
use leave_ledger.Common.{
  ℕ, zero, suc, ◌+◌, ◌*◌, String, Bool, true, false, ◌&&◌, ◌||◌, not, Option, none, some, [], ◌∷◌,
  ◌++◌, ltb, some_of, if◌then◌else◌,
}
use leave_ledger.Common.Int.{pos}
use leave_ledger.Common.Eq.{◌==◌, String-Eq, ℕ-Eq}
use leave_ledger.Constants.{RequestStatus, HcmSyncStatus, RequestStatus-Eq, idempotency_ttl_ms}
use leave_ledger.Result.{
  Failure, Result, ok, err, ◌>>=◌, or_throw, throw_if, missing_idempotency_key, invalid_date_range,
  overlapping_request, idempotency_conflict, balance_conflict, sqlite_constraint, sqlite_transient,
  driver_error,
}
use leave_ledger.Dates.{IsoDate, iso_day, calculate_days_requested, is_not_in_past, dates_overlap}
use leave_ledger.Balance.{atomic_deduct}
use leave_ledger.Entities.{
  TimeOffRequest, IdempotencyRecord, CreateDto, Response, request_key, serialize_request,
  has_idempotency_key, has_record_key,
}
use leave_ledger.Store.{Database, State, Env, validate}
use leave_ledger.TimeOff.{is_active}

-- _isSqliteConstraintError
unfoldable pub is_sqlite_constraint_error : Failure → Bool
is_sqlite_constraint_error sqlite_constraint = true
is_sqlite_constraint_error _ = false

-- _isSqliteTransientTxError
unfoldable pub is_sqlite_transient_tx_error : Failure → Bool
is_sqlite_transient_tx_error sqlite_transient = true
is_sqlite_transient_tx_error _ = false

-- _runCreateTransactionWithRetry: `left` attempts remain, and `attempt` is the next one's number.
unfoldable pub retry_transaction {ℓ} : {A : Type ℓ} → (ℕ → Result A) → ℕ → ℕ → Result A
unfolding is_sqlite_transient_tx_error
retry_transaction run zero attempt = err driver_error
retry_transaction run (suc left) attempt =
    let again = retry_transaction run left (attempt + 1) in
    elim (run attempt) [
      | ok a ↦ ok a
      | err e ↦ if not (is_sqlite_transient_tx_error e) || left == 0 then err e else again
    ]

abbrev pub max_attempts : ℕ
max_attempts = 3

-- The request that `createRequest` inserts.
unfoldable pub new_request : Env → CreateDto → String → ℕ → TimeOffRequest
new_request env dto key days = record {
  id = env.new_id;
  idempotency_key = key;
  employee_id = dto.employee_id;
  location_id = dto.location_id;
  leave_type = dto.leave_type;
  start_date = dto.start_date;
  end_date = dto.end_date;
  days_requested = pos (1000 * days);
  status = RequestStatus.pending;
  requested_by = dto.employee_id;
  approved_by = none;
  approved_at = none;
  rejection_reason = none;
  notes = dto.notes;
  hcm_validated = false;
  hcm_sync_status = HcmSyncStatus.pending;
  hcm_sync_attempts = 0;
  hcm_last_sync_at = none;
}

-- The idempotency record that goes with it.
unfoldable pub new_record : Env → CreateDto → String → TimeOffRequest → IdempotencyRecord
new_record env dto key saved = record {
  idempotency_key = key;
  employee_id = dto.employee_id;
  request_hash = env.request_hash dto;
  response_status = 201;
  response_body = serialize_request saved;
  expires_at = env.now + idempotency_ttl_ms;
}

-- The active requests that `_assertNoOverlap` loads.
unfoldable pub competes : String → String → TimeOffRequest → Bool
competes employee_id location_id r =
    r.employee_id == employee_id && r.location_id == location_id && is_active r

unfoldable pub overlaps : IsoDate → IsoDate → TimeOffRequest → Bool
overlaps start end r = dates_overlap start end r.start_date r.end_date

module _ (D : Database) where
  -- _checkIdempotency; `none` is `null`.
  unfoldable pub check_idempotency : ℕ → String → String → State D → Result (Option Response)
  check_idempotency now key hash st = elim (D.records.find_one (has_record_key key) st.records) [
    | none ↦ ok none
    | some existing ↦
        if ltb existing.expires_at now
        then ok none
        else throw_if (not (existing.request_hash == hash)) idempotency_conflict
            (ok (some existing.response_body))
  ]

  -- _recoverAfterConstraint
  unfoldable pub recover_after_constraint : ℕ → String → String → State D → Result (Option Response)
  recover_after_constraint now key hash st = do
    cached ← check_idempotency now key hash st
    elim cached [
      | some response ↦ ok (some response)
      | none ↦ elim (D.requests.find_one (has_idempotency_key key) st.requests) [
        | some existing ↦ ok (some (serialize_request existing))
        | none ↦ ok none
      ]
    ]

  -- The transaction of `createRequest`, steps 4 to 8.
  unfoldable pub create_transaction :
      Env → CreateDto → String → ℕ → State D → Result (TimeOffRequest × State D)
  create_transaction env dto key days st =
      let request = new_request env dto key days in
      let active = D.requests.find (competes dto.employee_id dto.location_id) st.requests in
      throw_if (some_of (overlaps dto.start_date dto.end_date) active) overlapping_request do
        deducted ← atomic_deduct D.balances (request_key request) request.days_requested st.balances
        requests ← or_throw (D.requests.insert request st.requests) sqlite_constraint
        records ←
            or_throw (D.records.insert (new_record env dto key request) st.records)
              sqlite_constraint
        ok (request, record st { balances = deducted.1; requests = requests; records = records })

  -- One attempt: the driver may raise an error, and nothing is committed then.
  unfoldable pub attempt_create :
      Env → CreateDto → String → ℕ → State D → ℕ → Result (TimeOffRequest × State D)
  attempt_create env dto key days st n = elim (env.fault n) [
    | some e ↦ err e
    | none ↦ create_transaction env dto key days st
  ]

  -- The `catch` of `createRequest`.
  unfoldable pub handle_create_error :
      Env → CreateDto → String → Failure → State D → Result Response
  unfolding is_sqlite_constraint_error is_sqlite_transient_tx_error
  handle_create_error env dto key e st = do
    let recover = recover_after_constraint env.now key (env.request_hash dto) st
    first ← if is_sqlite_constraint_error e then recover else ok none
    elim first [
      | some recovered ↦ ok recovered
      | none ↦
          if is_sqlite_transient_tx_error e
          then (recover >>= λ second. elim second [
            | some recovered ↦ ok recovered
            | none ↦ err balance_conflict
          ])
          else err e
    ]

  -- What `createRequest` does under the lock.
  unfoldable pub create_locked :
      Env → CreateDto → String → ℕ → State D → Result (Response × State D)
  create_locked env dto key days st = do
    cached ← check_idempotency env.now key (env.request_hash dto) st
    elim cached [
      | some response ↦ ok (response, st)
      | none ↦ elim (retry_transaction (attempt_create env dto key days st) max_attempts 1) [
        | ok (created, st') ↦ ok (
          serialize_request created,
          record st' {
            scheduled =
                st'.scheduled
                ++ validate created.id (request_key created) created.days_requested ∷ [];
          },
        )
        | err e ↦ handle_create_error env dto key e st >>= λ response. ok (response, st)
      ]
    ]

  -- createRequest; a missing or empty key is `none`.
  unfoldable pub create_request :
      Env → CreateDto → Option String → State D → Result (Response × State D)
  create_request env dto none st = err missing_idempotency_key
  create_request env dto (some key) st =
      throw_if (not (is_not_in_past env.now dto.start_date)) invalid_date_range (
        throw_if (ltb (iso_day dto.end_date) (iso_day dto.start_date)) invalid_date_range do
          let days = calculate_days_requested dto.start_date dto.end_date
          cached ← check_idempotency env.now key (env.request_hash dto) st
          elim cached [
            | some response ↦ ok (response, st)
            | none ↦ create_locked env dto key days st
          ])
