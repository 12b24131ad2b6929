-- ===== src/TimeOff/Fresh.antt =====
-- createRequest with a key that was never used, on dates that are free and days that are there.
mod Tests
use leave_ledger.Common.{
  ℕ, ◌≤◌, ◌≡◌, String, true, false, some, none, Option, arith, some_of, first, [], ◌∷◌, ◌++◌,
  Option-cases, inl, inr, refl, some_of-first,
}
use leave_ledger.Common.Int.{◌≤ℤ◌, pos}
use leave_ledger.Result.{ok, err}
use leave_ledger.Database.{insert-ok}
use leave_ledger.Dates.{iso_day, is_not_in_past, calculate_days_requested}
use leave_ledger.Balance.{EmployeeBalance, atomic_deduct, deduct}
use leave_ledger.Balance.Moves.{find_key, atomic_deduct-ok}
use leave_ledger.Entities.{
  TimeOffRequest, IdempotencyRecord, CreateDto, Response, request_key, serialize_request, has_id,
  has_idempotency_key, has_record_key, request_conflict, same_record,
}
use leave_ledger.Store.{Database, State, Env}
use leave_ledger.TimeOff.Create.{
  new_request, new_record, competes, overlaps, check_idempotency, create_request, create_locked,
  create_transaction, attempt_create, retry_transaction,
}
use leave_ledger.TimeOff.Outcome.{announced}
use leave_ledger.Ledger.Create.{create_transaction-inv}
use leave_ledger.Ledger.Asked.{IsCreated, Created-IsCreated}

module _ (D : Database) (env : Env) (dto : CreateDto) (key : String) (st : State D) where
  abbrev pub fresh_request : TimeOffRequest
  fresh_request = new_request env dto key (calculate_days_requested dto.start_date dto.end_date)

  module _ (b : EmployeeBalance)
      (unrecorded : some_of
          (same_record (new_record env dto key fresh_request))
          (D.records.rows st.records)
        ≡ false)
      (unused : some_of (request_conflict fresh_request) (D.requests.rows st.requests) ≡ false)
      (free : some_of
          (overlaps dto.start_date dto.end_date)
          (D.requests.find (competes dto.employee_id dto.location_id) st.requests)
        ≡ false)
      (has : find_key D.balances (request_key fresh_request) st.balances ≡ some b)
      (covered : fresh_request.days_requested ≤ℤ b.available_balance) where
    passes : check_idempotency D env.now key (env.request_hash dto) st ≡ ok none
    unfolding check_idempotency new_record
    passes = elim (Option-cases (D.records.find_one (has_record_key key) st.records)) [
      | inl missing ↦ ground arith
      | inr (rec, found) ↦ absurd (
          ground (
            arith,
            some_of-first (has_record_key key) (D.records.rows st.records) rec
                (rw D.records.find_one-rows at found),
          ))
    ]

    committed :
        (requests : D.requests.Table) × (D.requests.rows requests
          ≡ D.requests.rows st.requests ++ fresh_request ∷ [])
        × ((records : D.records.Table) × (create_transaction D env dto key
                (calculate_days_requested dto.start_date dto.end_date)
                st
              ≡ ok (
                fresh_request,
                record st {
                  balances = D.balances.save (deduct fresh_request.days_requested b) st.balances;
                  requests = requests;
                  records = records;
                },
              )))
    unfolding create_transaction
    committed =
        let (requests, stored, rows) = insert-ok D.requests fresh_request st.requests unused in
        let (records, recorded, rec_rows) =
          insert-ok D.records (new_record env dto key fresh_request) st.records unrecorded in
        let deducted =
          atomic_deduct-ok D.balances (request_key fresh_request) fresh_request.days_requested
            st.balances b has covered in
        (requests, rows, (records, ground arith))

    -- With a key and an id that no record or request has, dates in order, not past and free of active
    -- requests, a balance that covers the days, and a driver that raises nothing, createRequest
    -- succeeds: the request of the body, pending, is appended to the requests and is the answer, its
    -- days move from available to pending in its balance, every other balance stays as it was, and
    -- its validation is scheduled.
    pub create_request-fresh :
        env.fault 1 ≡ none
        → is_not_in_past env.now dto.start_date ≡ true
        → iso_day dto.start_date ≤ iso_day dto.end_date
        → (resp : Response) × (st' : State D) × (create_request D env dto (some key) st
            ≡ ok (resp, st'))
          × IsCreated D env dto key st resp st'
    unfolding create_request create_locked retry_transaction attempt_create
    create_request-fresh no_fault present ordered =
        let (requests, rows, (records, done)) = committed in
        let stored : State D = record st {
          balances = D.balances.save (deduct fresh_request.days_requested b) st.balances;
          requests = requests;
          records = records;
        } in
        (
          serialize_request fresh_request,
          announced D env dto fresh_request stored,
          ground (arith, passes),
          Created-IsCreated D env dto key st fresh_request stored (
              create_transaction-inv D env dto key
                (calculate_days_requested dto.start_date dto.end_date) st fresh_request stored
                done),
        )
