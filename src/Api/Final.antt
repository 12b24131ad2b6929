-- ===== src/Api/Final.antt =====
-- What a client of src/modules/timeoff/timeoff.controller.js sees after a decision.
use leave_ledger.Common.{ℕ, ◌≡◌, inl, inr, refl, sym, subst, String, Bool, true, some, arith}
use leave_ledger.Constants.{RequestStatus}
use leave_ledger.Result.{ok, invalid_status_transition}
use leave_ledger.Database.Paged.{Paged}
use leave_ledger.Entities.{TimeOffRequest, has_id, serialize_request}
use leave_ledger.Store.{Database, State, Env}
use leave_ledger.TimeOff.{get_request}
use leave_ledger.Ledger.{IsConsistent}
use leave_ledger.Api.{
  Answer, Decision, patch, get, request, reply, Context, respond, to_exception, failure_code,
  time_off_controller, serve_time_off,
}
use leave_ledger.Api.Decide.{decided_as, decide-refused, decide-pending}
use leave_ledger.Api.Errors.{serve-decision, Served-err}
use leave_ledger.Api.Filter.{catch_exception}

module _ (D : Database) (created_at : TimeOffRequest → ℕ) (Q : Paged D.requests created_at)
    (is_uuid : String → Bool) where
  -- The answer to GET /time-off/requests/:id for a request that is found.
  serve-get :
      (c : Context) (env : Env) (id : String) (st : State D) (r : TimeOffRequest)
      → is_uuid id ≡ true
      → D.requests.find_one (has_id id) st.requests ≡ some r
      → serve_time_off D created_at Q is_uuid c env (get id) st
        ≡ (record { status = 200; body = reply (request (serialize_request r)) }, st)
  unfolding serve_time_off time_off_controller respond get_request
  serve-get c env id st r uuid found = rw (uuid, found) refl

  -- A pending request of a consistent state is decided as the client asks (approved, rejected or
  -- cancelled, with who decided and why): the answer is 200 with that request, which is stored. A GET
  -- right after it has the same answer, and a decision right after it is answered with 409 and
  -- changes nothing.
  pub patch-final :
      (c : Context) (env : Env) (id : String) (d : Decision) (st : State D) (r : TimeOffRequest)
      → IsConsistent D st
      → is_uuid id ≡ true
      → (found : D.requests.find_one (has_id id) st.requests ≡ some r)
      → r.status ≡ RequestStatus.pending
      → let (answer, st') = serve_time_off D created_at Q is_uuid c env (patch id (some d)) st in
        let new = decided_as D st id r found env.now d in
        (answer ≡ record { status = 200; body = reply (request (serialize_request new)) })
        × (D.requests.find_one (has_id id) st'.requests ≡ some new)
        × ((c' : Context) (env' : Env)
            → serve_time_off D created_at Q is_uuid c' env' (get id) st' ≡ (answer, st'))
        × ((c' : Context) (env' : Env) (d' : Decision)
            → let (again, st'') =
                serve_time_off D created_at Q is_uuid c' env' (patch id (some d')) st' in
              (again.status ≡ 409) × (st'' ≡ st'))
  unfolding respond to_exception failure_code catch_exception
  patch-final c env id d st r h uuid found pending =
      let done = decide-pending D st id r found env.now d h pending in
      let new = decided_as D st id r found env.now d in
      let served =
        serve-decision D created_at Q is_uuid c env id d st (ok (serialize_request new, done.after))
          uuid done.answered in
      subst
        (λ (a : Answer × State D).
          (a.0 ≡ record { status = 200; body = reply (request (serialize_request new)) })
          × (D.requests.find_one (has_id id) a.1.requests ≡ some new)
          × ((c' : Context) (env' : Env)
              → serve_time_off D created_at Q is_uuid c' env' (get id) a.1 ≡ a)
          × ((c' : Context) (env' : Env) (d' : Decision)
              → let (again, st'') =
                  serve_time_off D created_at Q is_uuid c' env' (patch id (some d')) a.1 in
                (again.status ≡ 409) × (st'' ≡ a.1)))
        (sym served)
        (
          refl,
          done.found_after,
          λ c' env'. serve-get c' env' id done.after new uuid done.found_after,
          λ c' env' d'.
              let refused =
                decide-refused D done.after id new done.found_after env'.now d' done.decided in
              let (status, kept) =
                Served-err D created_at Q is_uuid c' env' id d' done.after invalid_status_transition
                  409 uuid refused refl in
              (
                status,
                elim kept [
                  | inl done_again ↦ absurd (omega (arith, done_again, status))
                  | inr same ↦ same
                ],
              ),
        )
