-- ===== src/TimeOff/Outcome.antt =====
-- How createRequest of src/modules/timeoff/timeoff.service.js can return.
use leave_ledger.Common.{
  ℕ, zero, suc, ◌+◌, ◌≡◌, ◌⊎◌, refl, String, some, none, Option, inl, inr, Option-cases, [], ◌∷◌,
  ◌++◌, arith, not, ltb,
}
use leave_ledger.Result.{invalid_date_range, Result, ok, throw_if-inv, >>=-inv, Result-cases}
use leave_ledger.Dates.{calculate_days_requested, is_not_in_past, iso_day}
use leave_ledger.Entities.{TimeOffRequest, CreateDto, Response, request_key, serialize_request}
use leave_ledger.Store.{Database, State, Env, validate}
use leave_ledger.TimeOff.Create.{
  check_idempotency, retry_transaction, attempt_create, create_transaction, create_locked,
  create_request, max_attempts,
}

-- A retried transaction returns what one of its attempts returned.
pub retry_transaction-inv {ℓ} :
    {A : Type ℓ} (run : ℕ → Result A) (left attempt : ℕ) (a : A)
    → retry_transaction run left attempt ≡ ok a
    → (n : ℕ) × (run n ≡ ok a)
unfolding retry_transaction
retry_transaction-inv run zero attempt a e = absurd (ground arith)
retry_transaction-inv run (suc left) attempt a e = elim (Result-cases (run attempt)) [
  | inl (b, done) ↦ (attempt, ground arith)
  | inr (f, failed) ↦ retry_transaction-inv run left (attempt + 1) a (ground arith)
]

module _ (D : Database) (env : Env) (dto : CreateDto) where
  -- The state after a commit: the validation of the request is scheduled.
  abbrev pub announced : TimeOffRequest → State D → State D
  announced r st = record st {
    scheduled = st.scheduled ++ validate r.id (request_key r) r.days_requested ∷ [];
  }

  pub record Committed (key : String) (st : State D) (resp : Response) (st' : State D)
      : Type 0 where
    pub request : TimeOffRequest
    pub stored : State D
    pub transaction :
        create_transaction D env dto key (calculate_days_requested dto.start_date dto.end_date) st
        ≡ ok (request, stored)
    pub response : resp ≡ serialize_request request
    pub state : st' ≡ announced request stored

  attempt_create-inv :
      (key : String) (days : ℕ) (st : State D) (n : ℕ) (a : TimeOffRequest × State D)
      → attempt_create D env dto key days st n ≡ ok a
      → create_transaction D env dto key days st ≡ ok a
  unfolding attempt_create
  attempt_create-inv key days st n a e = ground arith

  create_locked-inv :
      (key : String) (st : State D) (resp : Response) (st' : State D)
      → create_locked D env dto key (calculate_days_requested dto.start_date dto.end_date) st
        ≡ ok (resp, st')
      → (st' ≡ st) ⊎ Committed key st resp st'
  unfolding create_locked
  create_locked-inv key st resp st' e =
      let days = calculate_days_requested dto.start_date dto.end_date in
      let (cached, checked, e1) =
        >>=-inv (check_idempotency D env.now key (env.request_hash dto) st) _ e in
      elim (Option-cases cached) [
        | inr (response, hit) ↦ inl (ground arith)
        | inl miss ↦
            elim (Result-cases
              (retry_transaction (attempt_create D env dto key days st) max_attempts 1)) [
                | inl ((r, st''), done) ↦ inr (record {
                  request = r;
                  stored = st'';
                  transaction =
                      let (n, ran) =
                        retry_transaction-inv (attempt_create D env dto key days st) max_attempts 1
                          (r, st'') done in
                      attempt_create-inv key days st n (r, st'') ran;
                  response = ground arith;
                  state = ground arith;
                })
                | inr (f, failed) ↦ inl (ground arith)
              ]
      ]

  -- If createRequest returns, it leaves the state as it was, or it was given a key, its transaction
  -- committed under that key, the response is the stored request's, and the validation of that request
  -- is scheduled once.
  pub create_request-inv :
      (key : Option String) (st : State D) (resp : Response) (st' : State D)
      → create_request D env dto key st ≡ ok (resp, st')
      → (st' ≡ st) ⊎ ((k : String) × (key ≡ some k) × Committed k st resp st')
  unfolding create_request
  create_request-inv none st resp st' e = absurd (ground arith)
  create_request-inv (some key) st resp st' e =
      let (present, e1) =
        throw_if-inv (not (is_not_in_past env.now dto.start_date)) invalid_date_range _ (resp, st')
          e in
      let (ordered, e2) =
        throw_if-inv (ltb (iso_day dto.end_date) (iso_day dto.start_date)) invalid_date_range _
          (resp, st') e1 in
      let (cached, checked, e3) =
        >>=-inv (check_idempotency D env.now key (env.request_hash dto) st) _ e2 in
      elim (Option-cases cached) [
        | inr (response, hit) ↦ inl (ground arith)
        | inl miss ↦ elim (create_locked-inv key st resp st' (ground arith)) [
          | inl same ↦ inl same
          | inr done ↦ inr (key, refl, done)
        ]
      ]
