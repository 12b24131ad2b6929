-- ===== src/Ledger/Decision.antt =====
-- The decisions of src/modules/timeoff/timeoff.service.js that return: the states before and after.
use leave_ledger.Common.{ℕ, ◌≡◌, subst, String, some, Option, Option-cases, inl, inr, arith}
use leave_ledger.Constants.{RequestStatus}
use leave_ledger.Result.{ok}
use leave_ledger.Entities.{TimeOffRequest, Response, has_id}
use leave_ledger.Store.{Database, State}
use leave_ledger.TimeOff.{approve_request, reject_request, cancel_request}
use leave_ledger.TimeOff.Transitions.{assert_valid_transition_iff}
use leave_ledger.Ledger.{IsConsistent}
use leave_ledger.Ledger.Decisions.{
  approve_request-pending, reject_request_done, cancel_request-pending,
}

module _ (D : Database) where
  -- The request of that id waits for a decision.
  abbrev pub Pending : String → State D → Type 0
  Pending id st =
      (r : TimeOffRequest) × (D.requests.find_one (has_id id) st.requests ≡ some r)
      × (r.status ≡ RequestStatus.pending)

  approve_request-inv :
      (now : ℕ) (id approver : String) (st st' : State D) (resp : Response)
      → approve_request D now id approver st ≡ ok (resp, st')
      → Pending id st
  unfolding approve_request
  approve_request-inv now id approver st st' resp e =
      elim (Option-cases (D.requests.find_one (has_id id) st.requests)) [
        | inl missing ↦ absurd (ground arith)
        | inr (r, found) ↦ (
          r,
          found,
          ((assert_valid_transition_iff r.status RequestStatus.approved).0 (ground arith)).0,
        )
      ]

  reject_request-inv :
      (now : ℕ) (id approver reason : String) (st st' : State D) (resp : Response)
      → reject_request D now id approver reason st ≡ ok (resp, st')
      → Pending id st
  unfolding reject_request
  reject_request-inv now id approver reason st st' resp e =
      elim (Option-cases (D.requests.find_one (has_id id) st.requests)) [
        | inl missing ↦ absurd (ground arith)
        | inr (r, found) ↦ (
          r,
          found,
          ((assert_valid_transition_iff r.status RequestStatus.rejected).0 (ground arith)).0,
        )
      ]

  cancel_request-inv :
      (id : String) (reason : Option String) (st st' : State D) (resp : Response)
      → cancel_request D id reason st ≡ ok (resp, st')
      → Pending id st
  unfolding cancel_request
  cancel_request-inv id reason st st' resp e =
      elim (Option-cases (D.requests.find_one (has_id id) st.requests)) [
        | inl missing ↦ absurd (ground arith)
        | inr (r, found) ↦ (
          r,
          found,
          ((assert_valid_transition_iff r.status RequestStatus.cancelled).0 (ground arith)).0,
        )
      ]

  -- A decision that returns.
  pub data Decision (id : String) (st st' : State D) : Type 0 where
    approved :
        (now : ℕ) (approver : String) (resp : Response)
        → approve_request D now id approver st ≡ ok (resp, st')
        → Decision id st st'
    rejected :
        (now : ℕ) (approver reason : String) (resp : Response)
        → reject_request D now id approver reason st ≡ ok (resp, st')
        → Decision id st st'
    cancelled :
        (reason : Option String) (resp : Response)
        → cancel_request D id reason st ≡ ok (resp, st')
        → Decision id st st'

  -- approveRequest, rejectRequest and cancelRequest return only for a request that is stored and
  -- pending.
  pub Decision-Pending : {id : String} {st st' : State D} → Decision id st st' → Pending id st
  Decision-Pending {id} {st} {st'} (Decision.approved now approver resp e) =
      approve_request-inv now id approver st st' resp e
  Decision-Pending {id} {st} {st'} (Decision.rejected now approver reason resp e) =
      reject_request-inv now id approver reason st st' resp e
  Decision-Pending {id} {st} {st'} (Decision.cancelled reason resp e) =
      cancel_request-inv id reason st st' resp e

  approve_request-IsConsistent :
      (now : ℕ) (id approver : String) (st st' : State D) (resp : Response)
      → IsConsistent D st
      → approve_request D now id approver st ≡ ok (resp, st')
      → IsConsistent D st'
  approve_request-IsConsistent now id approver st st' resp h e =
      let (r, found, waits) = approve_request-inv now id approver st st' resp e in
      let (u, done, valid, stored, tasks) =
        approve_request-pending D st h id r found waits now approver in
      let same : u ≡ st' = ground arith in subst (IsConsistent D) same valid

  reject_request-IsConsistent :
      (now : ℕ) (id approver reason : String) (st st' : State D) (resp : Response)
      → IsConsistent D st
      → reject_request D now id approver reason st ≡ ok (resp, st')
      → IsConsistent D st'
  reject_request-IsConsistent now id approver reason st st' resp h e =
      let (r, found, waits) = reject_request-inv now id approver reason st st' resp e in
      let (u, done, valid, stored, tasks, returned) =
        reject_request_done D st h id r found waits now approver reason in
      let same : u ≡ st' = ground arith in subst (IsConsistent D) same valid

  cancel_request-IsConsistent :
      (id : String) (reason : Option String) (st st' : State D) (resp : Response)
      → IsConsistent D st
      → cancel_request D id reason st ≡ ok (resp, st')
      → IsConsistent D st'
  cancel_request-IsConsistent id reason st st' resp h e =
      let (r, found, waits) = cancel_request-inv id reason st st' resp e in
      let (u, done, valid, stored, tasks) = cancel_request-pending D st h id r found waits reason in
      let same : u ≡ st' = ground arith in subst (IsConsistent D) same valid

  pub Decision-IsConsistent :
      {id : String} {st st' : State D} → Decision id st st' → IsConsistent D st → IsConsistent D st'
  Decision-IsConsistent {id} {st} {st'} (Decision.approved now approver resp e) h =
      approve_request-IsConsistent now id approver st st' resp h e
  Decision-IsConsistent {id} {st} {st'} (Decision.rejected now approver reason resp e) h =
      reject_request-IsConsistent now id approver reason st st' resp h e
  Decision-IsConsistent {id} {st} {st'} (Decision.cancelled reason resp e) h =
      cancel_request-IsConsistent id reason st st' resp h e
