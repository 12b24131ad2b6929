-- ===== src/Ledger/Create.antt =====
-- The transaction of createRequest (src/modules/timeoff/timeoff.service.js) on a consistent state.
use leave_ledger.Common.{
  ℕ, ◌≡◌, String, false, some, List, [], ◌∷◌, ◌++◌, arith, keep, some_of, All,
}
use leave_ledger.Common.Int.{◌≤ℤ◌}
use leave_ledger.Common.Eq.{String-Eq}
use text.Mathlib.TextEquality.{eq_iff}
use leave_ledger.Constants.{RequestStatus-Eq}
use leave_ledger.Result.{
  ok, Result, or_throw, sqlite_constraint, throw_if-inv, >>=-inv, or_throw-inv,
}
use leave_ledger.Database.{insert-some}
use leave_ledger.Dates.Overlap.{dates_overlap_comm}
use leave_ledger.Balance.{EmployeeBalance, deduct, atomic_deduct}
use leave_ledger.Balance.Moves.{find_key, atomic_deduct-inv}
use leave_ledger.Entities.{TimeOffRequest, CreateDto, request_key, request_conflict, same_record}
use leave_ledger.Store.{Database, State, Env}
use leave_ledger.TimeOff.Create.{new_request, new_record, competes, overlaps, create_transaction}
use leave_ledger.Ledger.{clash, Apart}

-- Whoever does not clash with a request's rivals, and shares no unique column, is apart from it.
pub All-Apart :
    (new : TimeOffRequest) (rs : List TimeOffRequest)
    → some_of
        (overlaps new.start_date new.end_date)
        (keep (competes new.employee_id new.location_id) rs)
      ≡ false
    → some_of (request_conflict new) rs ≡ false
    → All (λ x. Apart x new) rs
unfolding overlaps competes clash
All-Apart new [] free unique = tt
All-Apart new (x ∷ rs) free unique = (
  ground (
    arith,
    eq_iff x.id new.id,
    eq_iff new.id x.id,
    eq_iff x.idempotency_key new.idempotency_key,
    eq_iff new.idempotency_key x.idempotency_key,
    dates_overlap_comm x.start_date x.end_date new.start_date new.end_date,
  ),
  All-Apart new rs (ground arith) (ground arith),
)

-- The transaction that commits: what it read, and what it wrote.
module _ (D : Database) (env : Env) (dto : CreateDto) (key : String) (days : ℕ) (st : State D) where
  abbrev new : TimeOffRequest
  new = new_request env dto key days

  pub record Created (r : TimeOffRequest) (st' : State D) : Type 0 where
    pub request : r ≡ new
    pub balance : EmployeeBalance
    pub own : find_key D.balances (request_key new) st.balances ≡ some balance
    pub covered : new.days_requested ≤ℤ balance.available_balance
    pub deducted : st'.balances ≡ D.balances.save (deduct new.days_requested balance) st.balances
    pub requests : D.requests.rows st'.requests ≡ D.requests.rows st.requests ++ new ∷ []
    pub records :
        D.records.rows st'.records ≡ D.records.rows st.records ++ new_record env dto key new ∷ []
    pub unique : some_of (request_conflict new) (D.requests.rows st.requests) ≡ false
    pub free :
        some_of
          (overlaps dto.start_date dto.end_date)
          (keep (competes dto.employee_id dto.location_id) (D.requests.rows st.requests))
        ≡ false
    pub fresh :
        some_of (same_record (new_record env dto key new)) (D.records.rows st.records) ≡ false
    pub scheduled : st'.scheduled ≡ st.scheduled

  Created-intro :
      (r : TimeOffRequest) (st' : State D) (b' : EmployeeBalance) (t' : D.balances.Table)
      (requests : D.requests.Table) (records : D.records.Table)
      → some_of
          (overlaps dto.start_date dto.end_date)
          (D.requests.find (competes dto.employee_id dto.location_id) st.requests)
        ≡ false
      → atomic_deduct D.balances (request_key new) new.days_requested st.balances ≡ ok (b', t')
      → D.requests.insert new st.requests ≡ some requests
      → D.records.insert (new_record env dto key new) st.records ≡ some records
      → ◌≡◌ {A = Result (TimeOffRequest × State D)}
          (ok (new, record st { balances = t'; requests = requests; records = records }))
          (ok (r, st'))
      → Created r st'
  Created-intro r st' b' t' requests records free deducted in_requests in_records e =
      let (b, own, covered, made, saved) =
        atomic_deduct-inv D.balances (request_key new) new.days_requested st.balances b' t'
          deducted in
      let stored = insert-some D.requests new st.requests requests in_requests in
      let recorded =
        insert-some D.records (new_record env dto key new) st.records records in_records in
      record {
        request = ground arith;
        balance = b;
        own = own;
        covered = covered;
        deducted = ground arith;
        requests = ground (arith, stored);
        records = ground (arith, recorded);
        unique = stored.0;
        free = rw D.requests.find-rows at free;
        fresh = recorded.0;
        scheduled = ground arith;
      }

  pub create_transaction-inv :
      (r : TimeOffRequest) (st' : State D)
      → create_transaction D env dto key days st ≡ ok (r, st')
      → Created r st'
  unfolding create_transaction
  create_transaction-inv r st' e =
      let active = D.requests.find (competes dto.employee_id dto.location_id) st.requests in
      let (free, e1) =
        throw_if-inv (some_of (overlaps dto.start_date dto.end_date) active) _ _ (r, st') e in
      let ((b', t'), deducted, e2) =
        >>=-inv (atomic_deduct D.balances (request_key new) new.days_requested st.balances) _ e1 in
      let (requests, in_requests, e3) =
        >>=-inv (or_throw (D.requests.insert new st.requests) sqlite_constraint) _ e2 in
      let (records, in_records, e4) =
        >>=-inv
          (or_throw (D.records.insert (new_record env dto key new) st.records) sqlite_constraint) _
          e3 in
      Created-intro r st' b' t' requests records free deducted
        (or_throw-inv _ _ requests in_requests) (or_throw-inv _ _ records in_records) e4
