-- ===== src/Ledger/Expired.antt =====
-- A key whose idempotency record has expired, in createRequest of
-- src/modules/timeoff/timeoff.service.js.
use leave_ledger.Common.{
  ℕ, ◌≤◌, ◌<◌, ◌≡◌, String, true, false, some, none, arith, some_of, some_of-first, some_of-imp,
}
use leave_ledger.Result.{ok, err, sqlite_constraint}
use leave_ledger.Database.{insert-conflict}
use leave_ledger.Dates.{iso_day, is_not_in_past, calculate_days_requested}
use leave_ledger.Balance.{EmployeeBalance, atomic_deduct}
use leave_ledger.Entities.{
  TimeOffRequest, IdempotencyRecord, CreateDto, request_key, serialize_request, has_idempotency_key,
  request_conflict,
}
use leave_ledger.Store.{Database, State, Env}
use leave_ledger.TimeOff.Create.{
  new_request, competes, overlaps, check_idempotency, create_request, create_locked,
  create_transaction, attempt_create, retry_transaction, handle_create_error,
  recover_after_constraint,
}
use leave_ledger.Ledger.Replay.{find_record}

module _ (D : Database) (env : Env) (dto : CreateDto) (key : String) (st : State D)
    (rec : IdempotencyRecord) (r : TimeOffRequest) (recorded : find_record D key st ≡ some rec)
    (expired : rec.expires_at < env.now)
    (taken : D.requests.find_one (has_idempotency_key key) st.requests ≡ some r) where
  abbrev days : ℕ
  days = calculate_days_requested dto.start_date dto.end_date

  abbrev new : TimeOffRequest
  new = new_request env dto key days

  conflicts : some_of (request_conflict new) (D.requests.rows st.requests) ≡ true
  unfolding new_request
  conflicts =
      some_of-imp (has_idempotency_key key) (request_conflict new) (D.requests.rows st.requests)
        (λ x e. ground arith)
        (some_of-first (has_idempotency_key key) (D.requests.rows st.requests) r
          (rw D.requests.find_one-rows at taken))

  passes : check_idempotency D env.now key (env.request_hash dto) st ≡ ok none
  unfolding check_idempotency
  passes = ground arith

  refused :
      (free : some_of
          (overlaps dto.start_date dto.end_date)
          (D.requests.find (competes dto.employee_id dto.location_id) st.requests)
        ≡ false)
      (b : EmployeeBalance) (t : D.balances.Table)
      → atomic_deduct D.balances (request_key new) new.days_requested st.balances ≡ ok (b, t)
      → create_transaction D env dto key days st ≡ err sqlite_constraint
  unfolding create_transaction
  refused free b t covered = ground (arith, insert-conflict D.requests new st.requests conflicts)

  -- With a stored request under the key, a call after the record's expiry creates nothing, even if it
  -- overlaps no request, its balance covers it and the driver raises nothing: it answers with the
  -- stored request, whatever the body asks for.
  pub create_request-expired :
      (b : EmployeeBalance) (t : D.balances.Table)
      → env.fault 1 ≡ none
      → is_not_in_past env.now dto.start_date ≡ true
      → iso_day dto.start_date ≤ iso_day dto.end_date
      → some_of
          (overlaps dto.start_date dto.end_date)
          (D.requests.find (competes dto.employee_id dto.location_id) st.requests)
        ≡ false
      → atomic_deduct D.balances (request_key new) new.days_requested st.balances ≡ ok (b, t)
      → create_request D env dto (some key) st ≡ ok (serialize_request r, st)
  unfolding create_request create_locked retry_transaction attempt_create handle_create_error
      recover_after_constraint
  create_request-expired b t no_fault present ordered free covered =
      ground (arith, passes, refused free b t covered)
