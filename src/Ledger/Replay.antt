-- ===== src/Ledger/Replay.antt =====
-- Idempotency: what a key that was used once answers later (`_checkIdempotency` and
-- `_recoverAfterConstraint` of src/modules/timeoff/timeoff.service.js).
use leave_ledger.Common.{
  ℕ, ◌≤◌, ◌+◌, ◌≡◌, ◌≢◌, refl, sym, ap, ◌∙◌, subst, String, true, false, some, Option, inl, inr,
  arith, ltb, if◌then◌else◌, first-append_some, first-append_new,
}
use leave_ledger.Common.Eq.{String-Eq, eq_self}
use text.Mathlib.TextEquality.{eq_iff}
use leave_ledger.Constants.{idempotency_ttl_ms}
use leave_ledger.Result.{ok, err, invalid_date_range, idempotency_conflict}
use leave_ledger.Dates.{iso_day, is_not_in_past, calculate_days_requested}
use leave_ledger.Entities.{
  IdempotencyRecord, CreateDto, Response, serialize_request, has_record_key,
}
use leave_ledger.Store.{Database, State, Env}
use leave_ledger.TimeOff.{approve_request, reject_request, cancel_request}
use leave_ledger.TimeOff.Create.{new_request, new_record, check_idempotency, create_request}
use leave_ledger.TimeOff.Outcome.{Committed, create_request-inv}
use leave_ledger.Ledger.Create.{create_transaction-inv}
use leave_ledger.Ledger.Decision.{Decision}
use leave_ledger.Ledger.Reach.{Step, Reach}

module _ (D : Database) where
  abbrev pub find_record : String → State D → Option IdempotencyRecord
  find_record key st = D.records.find_one (has_record_key key) st.records

  Committed-find_record :
      (env : Env) (dto : CreateDto) (key k : String) (st st' : State D) (resp : Response)
      (rec : IdempotencyRecord)
      → Committed D env dto k st resp st'
      → find_record key st ≡ some rec
      → find_record key st' ≡ some rec
  Committed-find_record env dto key k st st' resp rec c e =
      let made = create_transaction-inv D env dto k _ st c.request c.stored c.transaction in
      subst (λ u. find_record key u ≡ some rec) (sym c.state)
        (rw (D.records.find_one-rows (has_record_key key) c.stored.records, made.records)
          (first-append_some (has_record_key key) (D.records.rows st.records) _ rec
            (rw D.records.find_one-rows at e)))

  decision-records :
      {id : String} {st st' : State D} → Decision D id st st' → st.records ≡ st'.records
  unfolding approve_request reject_request cancel_request
  decision-records {id} {st} {st'} (Decision.approved now approver resp e) = ground arith
  decision-records {id} {st} {st'} (Decision.rejected now approver reason resp e) = ground arith
  decision-records {id} {st} {st'} (Decision.cancelled reason resp e) = ground arith

  step-find_record :
      (key : String) (rec : IdempotencyRecord) {st st' : State D}
      → Step D st st'
      → find_record key st ≡ some rec
      → find_record key st' ≡ some rec
  step-find_record key rec {st} {st'} (Step.created env dto k resp e) h =
      elim (create_request-inv D env dto k st resp st' e) [
        | inl same ↦ subst (λ u. find_record key u ≡ some rec) (sym same) h
        | inr (k', given, c) ↦ Committed-find_record env dto key k' st st' resp rec c h
      ]
  step-find_record key rec {st} {st'} (Step.decided id d) h =
      subst (λ t. D.records.find_one (has_record_key key) t ≡ some rec) (decision-records d) h
  step-find_record key rec (Step.seeded now k total v t nonneg e same) h =
      subst (λ u. find_record key u ≡ some rec) same h
  step-find_record key rec (Step.refreshed now k hcm same) h =
      subst (λ u. find_record key u ≡ some rec) same h
  step-find_record key rec (Step.validated now answer id same) h =
      subst (λ u. find_record key u ≡ some rec) same h
  step-find_record key rec (Step.announced now hcm given id same) h =
      subst (λ u. find_record key u ≡ some rec) same h
  step-find_record key rec (Step.retried now hcm order same) h =
      subst (λ u. find_record key u ≡ some rec) same h
  step-find_record key rec (Step.reconciled now recs nonneg same) h =
      subst (λ u. find_record key u ≡ some rec) same h

  -- An idempotency record stays, whatever the service does next.
  pub Reach-find_record :
      (key : String) (rec : IdempotencyRecord) {st st' : State D}
      → Reach D st st'
      → find_record key st ≡ some rec
      → find_record key st' ≡ some rec
  Reach-find_record key rec Reach.here h = h
  Reach-find_record key rec (Reach.next r s) h =
      step-find_record key rec s (Reach-find_record key rec r h)

  Committed-stores :
      (env : Env) (dto : CreateDto) (key : String) (st st' : State D) (resp : Response)
      → Committed D env dto key st resp st'
      → (rec : IdempotencyRecord) × (find_record key st' ≡ some rec)
        × (rec.response_body ≡ resp)
        × (rec.request_hash ≡ env.request_hash dto)
        × (rec.expires_at ≡ env.now + idempotency_ttl_ms)
  unfolding new_record
  Committed-stores env dto key st st' resp c =
      let days = calculate_days_requested dto.start_date dto.end_date in
      let made = create_transaction-inv D env dto key days st c.request c.stored c.transaction in
      let new = new_request env dto key days in
      let rec = new_record env dto key new in
      (
        rec,
        subst (λ u. find_record key u ≡ some rec) (sym c.state)
            (rw (D.records.find_one-rows (has_record_key key) c.stored.records, made.records)
              (first-append_new (has_record_key key) (D.records.rows st.records) rec made.fresh
                (eq_self key))),
        ap serialize_request (sym made.request) ∙ sym c.response,
        refl,
        refl,
      )

  check_idempotency-hit :
      (now : ℕ) (key hash : String) (st : State D) (rec : IdempotencyRecord)
      → find_record key st ≡ some rec
      → now ≤ rec.expires_at
      → rec.request_hash ≡ hash
      → check_idempotency D now key hash st ≡ ok (some rec.response_body)
  unfolding check_idempotency
  check_idempotency-hit now key hash st rec found live same =
      ground (arith, eq_iff rec.request_hash hash)

  check_idempotency-other :
      (now : ℕ) (key hash : String) (st : State D) (rec : IdempotencyRecord)
      → find_record key st ≡ some rec
      → now ≤ rec.expires_at
      → rec.request_hash ≢ hash
      → check_idempotency D now key hash st ≡ err idempotency_conflict
  unfolding check_idempotency
  check_idempotency-other now key hash st rec found live other =
      ground (arith, eq_iff rec.request_hash hash)

  -- The dates of a request that was created are in order.
  created-ordered :
      (env : Env) (dto : CreateDto) (key : String) (st st' : State D) (resp : Response)
      → create_request D env dto (some key) st ≡ ok (resp, st')
      → ltb (iso_day dto.end_date) (iso_day dto.start_date) ≡ false
  unfolding create_request
  created-ordered env dto key st st' resp e = ground arith

  module _ (env env' : Env) (dto dto' : CreateDto) (key : String) (st st' later : State D)
      (resp : Response) (first_call : create_request D env dto (some key) st ≡ ok (resp, st'))
      (changed : st' ≢ st) (since : Reach D st' later)
      (in_time : env'.now ≤ env.now + idempotency_ttl_ms) where
    stored :
        (rec : IdempotencyRecord) × (find_record key later ≡ some rec)
        × (rec.response_body ≡ resp)
        × (rec.request_hash ≡ env.request_hash dto)
        × (rec.expires_at ≡ env.now + idempotency_ttl_ms)
    stored = elim (create_request-inv D env dto (some key) st resp st' first_call) [
      | inl same ↦ absurd (changed same)
      | inr (k, given, c) ↦
          let is_key : k ≡ key = ground arith in
          let (rec, found, body, hash, expires) =
            Committed-stores env dto key st st' resp
              (subst (λ j. Committed D env dto j st resp st') is_key c) in
          (rec, Reach-find_record key rec since found, body, hash, expires)
    ]

    -- After a call that created a request, and whatever the service did since, the same call within
    -- the record's lifetime answers with the same response and changes nothing, if the start date is
    -- not yet past; if it is, the call is refused.
    pub create_request-replay :
        env'.request_hash dto ≡ env.request_hash dto
        → create_request D env' dto (some key) later ≡ (
            if is_not_in_past env'.now dto.start_date
            then ok (resp, later)
            else err invalid_date_range)
    unfolding create_request
    create_request-replay same_hash =
        let (rec, found, body, hash, expires) = stored in
        ground (
          arith,
          created-ordered env dto key st st' resp first_call,
          check_idempotency-hit env'.now key (env'.request_hash dto) later rec found,
        )

    -- After a call that created a request, and whatever the service did since, a call within the
    -- record's lifetime with the same key and a body of another hash is refused as a conflict, if its
    -- start date is not past and its dates are in order.
    pub create_request-conflict :
        env'.request_hash dto' ≢ env.request_hash dto
        → is_not_in_past env'.now dto'.start_date ≡ true
        → iso_day dto'.start_date ≤ iso_day dto'.end_date
        → create_request D env' dto' (some key) later ≡ err idempotency_conflict
    unfolding create_request
    create_request-conflict other_hash present ordered =
        let (rec, found, body, hash, expires) = stored in
        ground
          (arith, check_idempotency-other env'.now key (env'.request_hash dto') later rec found)
