-- ===== src/Api/Errors.antt =====
-- The answers of the controllers of src/modules/timeoff/timeoff.controller.js to decisions.
use leave_ledger.Common.{
  ℕ, ◌≡◌, ◌≢◌, ◌⊎◌, refl, sym, subst, String, Bool, true, false, none, some, inl, inr, Bool-cases,
  Option-cases, arith, if◌then◌else◌,
}
use leave_ledger.Common.Eq.{◌==◌}
use leave_ledger.Constants.{RequestStatus, RequestStatus-Eq, status_eq_iff}
use leave_ledger.Result.{
  Failure, Result, ok, err, ◌>>=◌, invalid_status_transition, request_not_found, validation_failed,
}
use leave_ledger.Database.Paged.{Paged}
use leave_ledger.Entities.{TimeOffRequest, Response, has_id, serialize_request}
use leave_ledger.Store.{Database, State, Env}
use leave_ledger.Ledger.{IsConsistent}
use leave_ledger.Api.Decide.{decide-not_found, decide-refused, decided_as, decide-pending}
use leave_ledger.Api.Filter.{catch_exception}
use leave_ledger.Api.{
  Answer, to_exception, failure_code, Decision, Reply, patch, request, Context, respond, decide,
  time_off_controller, serve_time_off,
}

module _ (D : Database) (created_at : TimeOffRequest → ℕ) (Q : Paged D.requests created_at)
    (is_uuid : String → Bool) where
  -- The request of an answer, in the reply.
  abbrev as_reply : Result (Response × State D) → Result (Reply × State D)
  as_reply result = result >>= λ done. ok (request done.0, done.1)

  pub serve-decision :
      (c : Context) (env : Env) (id : String) (d : Decision) (st : State D)
      (result : Result (Response × State D))
      → is_uuid id ≡ true
      → decide D env.now id d st ≡ result
      → serve_time_off D created_at Q is_uuid c env (patch id (some d)) st
        ≡ respond c 200 st (as_reply result)
  unfolding serve_time_off time_off_controller
  serve-decision c env id d st result uuid e = rw (uuid, e) refl

  -- The status that a decision is answered with.
  abbrev pub decision_status : String → State D → ℕ
  decision_status id st =
      if is_uuid id
      then elim (D.requests.find_one (has_id id) st.requests) [
        | none ↦ 404
        | some r ↦ if r.status == RequestStatus.pending then 200 else 409
      ]
      else 400

  abbrev failed : Failure → Result (Reply × State D)
  failed e = err e

  abbrev AnswersWith : ℕ → State D → Answer × State D → Type 0
  AnswersWith n st a = (a.0.status ≡ n) × ((a.0.status ≡ 200) ⊎ (a.1 ≡ st))

  -- An error is answered with its status, and leaves the state.
  refused-AnswersWith :
      (c : Context) (st : State D) (e : Failure) (n : ℕ)
      → (respond c 200 st (failed e)).0.status ≡ n
      → AnswersWith n st (respond c 200 st (err e))
  unfolding respond
  refused-AnswersWith c st e n status = (status, inr refl)

  serve-not_uuid :
      (c : Context) (env : Env) (id : String) (d : Decision) (st : State D)
      → is_uuid id ≡ false
      → serve_time_off D created_at Q is_uuid c env (patch id (some d)) st
        ≡ respond c 200 st (err validation_failed)
  unfolding serve_time_off time_off_controller
  serve-not_uuid c env id d st other = rw other refl

  module _ (c : Context) (env : Env) (id : String) (d : Decision) (st : State D) where
    abbrev Served : ℕ → Type 0
    Served n = AnswersWith n st (serve_time_off D created_at Q is_uuid c env (patch id (some d)) st)

    pub Served-err :
        (e : Failure) (n : ℕ)
        → is_uuid id ≡ true
        → decide D env.now id d st ≡ err e
        → (respond c 200 st (failed e)).0.status ≡ n
        → Served n
    Served-err e n uuid refused status =
        subst (AnswersWith n st) (sym (serve-decision c env id d st (err e) uuid refused))
          (refused-AnswersWith c st e n status)

    Served-ok :
        (r : Response) (st' : State D)
        → is_uuid id ≡ true
        → decide D env.now id d st ≡ ok (r, st')
        → Served 200
    unfolding respond
    Served-ok r st' uuid done =
        subst (AnswersWith 200 st) (sym (serve-decision c env id d st (ok (r, st')) uuid done))
          (refl, inl refl)

    Served-found :
        (r : TimeOffRequest)
        → IsConsistent D st
        → is_uuid id ≡ true
        → D.requests.find_one (has_id id) st.requests ≡ some r
        → Served (if r.status == RequestStatus.pending then 200 else 409)
    unfolding respond to_exception failure_code catch_exception
    Served-found r h uuid found = elim (Bool-cases (r.status == RequestStatus.pending)) [
      | inl pending ↦
          let is_pending = (status_eq_iff r.status RequestStatus.pending).0 pending in
          let done = decide-pending D st id r found env.now d h is_pending in
          rw pending (
            Served-ok (serialize_request (decided_as D st id r found env.now d)) done.after uuid
              done.answered)
      | inr decided ↦
          let is_decided : r.status ≢ RequestStatus.pending =
            λ e. absurd (ground (arith, (status_eq_iff r.status RequestStatus.pending).1 e)) in
          rw decided (
            Served-err invalid_status_transition 409 uuid
              (decide-refused D st id r found env.now d is_decided) refl)
    ]

  -- In a consistent state a decision whose body the framework accepts is answered with 400 if the id
  -- is no UUID, with 404 if no request has the id, with 409 if the request is not pending, and with 200
  -- otherwise; every answer but 200 leaves the state as it was.
  pub patch-statuses :
      (c : Context) (env : Env) (id : String) (d : Decision) (st : State D)
      → IsConsistent D st
      → let (answer, st') = serve_time_off D created_at Q is_uuid c env (patch id (some d)) st in
        (answer.status ≡ decision_status id st) × ((answer.status ≡ 200) ⊎ (st' ≡ st))
  unfolding respond to_exception failure_code catch_exception
  patch-statuses c env id d st h = elim (Bool-cases (is_uuid id)) [
    | inr other ↦
        let status : decision_status id st ≡ 400 = rw other refl in
        subst (Served c env id d st) (sym status) (
          subst (AnswersWith 400 st) (sym (serve-not_uuid c env id d st other))
            (refused-AnswersWith c st validation_failed 400 refl))
    | inl uuid ↦ elim (Option-cases (D.requests.find_one (has_id id) st.requests)) [
      | inl unknown ↦
          let status : decision_status id st ≡ 404 = rw (uuid, unknown) refl in
          subst (Served c env id d st) (sym status) (
            Served-err c env id d st request_not_found 404 uuid
              (decide-not_found D env.now id d st unknown) refl)
      | inr (r, found) ↦
          let status : decision_status id st
              ≡ (if r.status == RequestStatus.pending then 200 else 409) =
            rw (uuid, found) refl in
          subst (Served c env id d st) (sym status) (Served-found c env id d st r h uuid found)
    ]
  ]
