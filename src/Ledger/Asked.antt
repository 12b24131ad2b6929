-- ===== src/Ledger/Asked.antt =====
-- What a client of createRequest (src/modules/timeoff/timeoff.service.js) finds after an answer.
use leave_ledger.Common.{
  ◌*◌, ◌≡◌, ◌⊎◌, ap, subst, sym, String, false, none, some, Option, inl, inr, [], ◌∷◌, ◌++◌,
}
use leave_ledger.Common.Int.{pos}
use leave_ledger.Constants.{RequestStatus, HcmSyncStatus}
use leave_ledger.Result.{ok}
use leave_ledger.Dates.{calculate_days_requested}
use leave_ledger.Balance.Held.{IsHeld, deduct-IsHeld}
use leave_ledger.Entities.{TimeOffRequest, CreateDto, Response, request_key, serialize_request}
use leave_ledger.Store.{Database, State, Env, validate}
use leave_ledger.TimeOff.Create.{new_request, create_request}
use leave_ledger.TimeOff.Outcome.{announced, create_request-inv}
use leave_ledger.Ledger.Create.{Created, create_transaction-inv}

-- The request that a body asks for: it waits for a decision and for the HCM.
abbrev pub asked : Env → CreateDto → String → TimeOffRequest
asked env dto key = record {
  id = env.new_id;
  idempotency_key = key;
  employee_id = dto.employee_id;
  location_id = dto.location_id;
  leave_type = dto.leave_type;
  start_date = dto.start_date;
  end_date = dto.end_date;
  days_requested = pos (1000 * calculate_days_requested dto.start_date dto.end_date);
  status = RequestStatus.pending;
  requested_by = dto.employee_id;
  approved_by = none;
  approved_at = none;
  rejection_reason = none;
  notes = dto.notes;
  hcm_validated = false;
  hcm_sync_status = HcmSyncStatus.pending;
  hcm_sync_attempts = 0;
  hcm_last_sync_at = none;
}

module _ (D : Database) (env : Env) (dto : CreateDto) (key : String) (st : State D) where
  -- The request was created: it is the one new row and the answer, its days are held, and its
  -- validation is scheduled.
  pub record IsCreated (resp : Response) (st' : State D) : Type 0 where
    pub response : resp ≡ serialize_request (asked env dto key)
    pub waits : resp.status ≡ RequestStatus.pending
    pub row : D.requests.rows st'.requests ≡ D.requests.rows st.requests ++ asked env dto key ∷ []
    pub held :
        IsHeld D.balances
          (request_key (asked env dto key))
          (asked env dto key).days_requested
          st.balances
          st'.balances
    pub scheduled : st'.scheduled ≡ (
        st.scheduled
        ++ validate env.new_id (request_key (asked env dto key)) (asked env dto key).days_requested
          ∷ [])

  pub Created-IsCreated :
      (r : TimeOffRequest) (stored : State D)
      → Created D env dto key (calculate_days_requested dto.start_date dto.end_date) st r stored
      → IsCreated (serialize_request r) (announced D env dto r stored)
  unfolding new_request serialize_request
  Created-IsCreated r stored c = record {
    response = ap serialize_request c.request;
    waits = ap (λ x. (serialize_request x).status) c.request;
    row = c.requests;
    held =
        subst
          (IsHeld D.balances (request_key (asked env dto key)) (asked env dto key).days_requested
            st.balances)
          (sym c.deducted)
          (deduct-IsHeld D.balances (request_key (asked env dto key))
            (asked env dto key).days_requested st.balances c.balance c.own c.covered);
    scheduled =
        subst
          (λ x. (announced D env dto x stored).scheduled ≡ (
            st.scheduled
            ++ validate env.new_id (request_key (asked env dto key))
                (asked env dto key).days_requested
              ∷ []))
          (sym c.request)
          (ap
            (λ tasks.
              tasks
              ++ validate env.new_id (request_key (asked env dto key))
                  (asked env dto key).days_requested
                ∷ [])
            c.scheduled);
  }

-- If createRequest returns, it leaves the state as it was, or it was given a key and created the
-- request of its body under it: the request, pending, is the one row appended to the requests, and the
-- answer; a balance that covered its days has them moved from available to pending, with every other
-- balance as it was; and its validation is scheduled once, with nothing else.
pub create_request-IsCreated :
    (D : Database) (env : Env) (dto : CreateDto) (key : Option String) (st : State D)
    (resp : Response) (st' : State D)
    → create_request D env dto key st ≡ ok (resp, st')
    → (st' ≡ st) ⊎ ((k : String) × (key ≡ some k) × IsCreated D env dto k st resp st')
create_request-IsCreated D env dto key st resp st' e =
    elim (create_request-inv D env dto key st resp st' e) [
      | inl same ↦ inl same
      | inr (k, given, done) ↦
          let c =
            create_transaction-inv D env dto k
              (calculate_days_requested dto.start_date dto.end_date) st done.request done.stored
              done.transaction in
          let made = Created-IsCreated D env dto k st done.request done.stored c in
          inr (
            k,
            given,
            subst (λ x. IsCreated D env dto k st x st') (sym done.response)
                (subst (IsCreated D env dto k st (serialize_request done.request)) (sym done.state)
                  made),
          )
    ]
