-- ===== src/Ledger/Synced.antt =====
-- The updates of the HCM columns of requests, by the callbacks of
-- src/modules/timeoff/timeoff.service.js and the retry job of src/modules/hcm/hcm-sync.service.js.
use leave_ledger.Common.{
  take, ℕ, ◌≡◌, refl, sym, ◌∙◌, String, Bool, true, false, some, none, Option, Bool-cases, inl, inr,
  List, [], ◌∷◌, arith, All-map_where, Pairs-map_where, map_where,
}
use leave_ledger.Constants.{RequestStatus}
use leave_ledger.Balance.{BalanceKey}
use leave_ledger.Entities.{TimeOffRequest, request_key, has_id}
use leave_ledger.Store.{Database, State}
use leave_ledger.TimeOff.Notify.{
  validation_row, approval_row, announce_row, sync_row, notify_hcm_async,
  notify_approval_to_hcm_async,
}
use leave_ledger.Hcm.{Answers}
use leave_ledger.Hcm.Pending.{
  retry_row, update_sync_attempt, retry_all, retry_pending_hcm_syncs, sync_pending,
}
use leave_ledger.Ledger.{share, held, clash, Apart, IsConsistent}

-- The two rows differ in their HCM columns at most.
pub record SameLedger (r new : TimeOffRequest) : Type 0 where
  pub id : new.id ≡ r.id
  pub key : new.idempotency_key ≡ r.idempotency_key
  pub employee : new.employee_id ≡ r.employee_id
  pub location : new.location_id ≡ r.location_id
  pub leave : new.leave_type ≡ r.leave_type
  pub start : new.start_date ≡ r.start_date
  pub end : new.end_date ≡ r.end_date
  pub days : new.days_requested ≡ r.days_requested
  pub status : new.status ≡ r.status

module _ (f : TimeOffRequest → TimeOffRequest)
    (same : (r : TimeOffRequest) → SameLedger r (f r)) where
  same-left : (x y : TimeOffRequest) → Apart x y → Apart (f x) y
  unfolding clash
  same-left x y h = ground (arith, same x)

  same-right : (x y : TimeOffRequest) → Apart x y → Apart x (f y)
  unfolding clash
  same-right x y h = ground (arith, same y)

  request_key-same : (r : TimeOffRequest) → request_key (f r) ≡ request_key r
  request_key-same r = ground (arith, same r)

  share-same :
      (s : RequestStatus) (k : BalanceKey) (r : TimeOffRequest) → share s k (f r) ≡ share s k r
  unfolding share
  share-same s k r = rw (request_key-same r, (same r).status, (same r).days) refl

  held-same :
      (s : RequestStatus) (k : BalanceKey) (p : TimeOffRequest → Bool) (rs : List TimeOffRequest)
      → held s k (map_where p f rs) ≡ held s k rs
  unfolding held
  held-same s k p [] = refl
  held-same s k p (r ∷ rs) = elim (Bool-cases (p r)) [
    | inl here ↦ rw (here, share-same s k r, held-same s k p rs) refl
    | inr later ↦ rw (later, held-same s k p rs) refl
  ]

  pub synced-IsConsistent :
      (D : Database) (p : TimeOffRequest → Bool) (st : State D)
      → IsConsistent D st
      → IsConsistent D (record st { requests = D.requests.update p f st.requests })
  synced-IsConsistent D p st h =
      let rs = D.requests.rows st.requests in
      record {
        balanced = h.balanced;
        linked = λ k b found. rw D.requests.update-rows (
          (h.linked k b found).0 ∙ sym (held-same RequestStatus.pending k p rs),
          (h.linked k b found).1 ∙ sym (held-same RequestStatus.approved k p rs),
        );
        funded = rw D.requests.update-rows (
            All-map_where _ p f rs
              (λ r (nonneg, (b, has)) e.
                (rw (same r).days nonneg, (b, rw (request_key-same r) has)))
              h.funded);
        apart =
            rw D.requests.update-rows (Pairs-map_where Apart p f rs same-left same-right h.apart);
      }

validation_row-SameLedger :
    (now : ℕ) (answer : Option (Option Bool)) (r : TimeOffRequest)
    → SameLedger r (validation_row now answer r)
unfolding validation_row
validation_row-SameLedger now none r = ground arith
validation_row-SameLedger now (some none) r = ground arith
validation_row-SameLedger now (some (some true)) r = ground arith
validation_row-SameLedger now (some (some false)) r = ground arith

approval_row-SameLedger :
    (hcm : Answers) (now : ℕ) (given r : TimeOffRequest)
    → SameLedger r (approval_row hcm now given r)
unfolding approval_row announce_row sync_row
approval_row-SameLedger hcm now given r = ground arith

retry_row-SameLedger :
    (hcm : Answers) (now : ℕ) (loaded r : TimeOffRequest)
    → SameLedger r (retry_row hcm now loaded r)
unfolding retry_row update_sync_attempt
retry_row-SameLedger hcm now loaded r = ground arith

module _ (D : Database) where
  pub notify_hcm_async-IsConsistent :
      (now : ℕ) (answer : Option (Option Bool)) (id : String) (st : State D)
      → IsConsistent D st
      → IsConsistent D
          (record st { requests = notify_hcm_async D.requests now answer id st.requests })
  unfolding notify_hcm_async
  notify_hcm_async-IsConsistent now answer id st h =
      synced-IsConsistent (validation_row now answer) (validation_row-SameLedger now answer) D
        (has_id id) st h

  pub notify_approval-IsConsistent :
      (now : ℕ) (hcm : Answers) (given : TimeOffRequest) (id : String) (st : State D)
      → IsConsistent D st
      → IsConsistent D (record st {
        requests = notify_approval_to_hcm_async D.requests now hcm given id st.requests;
      })
  unfolding notify_approval_to_hcm_async
  notify_approval-IsConsistent now hcm given id st h =
      synced-IsConsistent (approval_row hcm now given) (approval_row-SameLedger hcm now given) D
        (has_id id) st h

  retry_all-IsConsistent :
      (hcm : Answers) (now : ℕ) (rs : List TimeOffRequest) (st : State D)
      → IsConsistent D st
      → IsConsistent D (record st { requests = retry_all D.requests hcm now rs st.requests })
  unfolding retry_all
  retry_all-IsConsistent hcm now [] st h = h
  retry_all-IsConsistent hcm now (r ∷ rs) st h =
      retry_all-IsConsistent hcm now rs
        (record st { requests = D.requests.update (has_id r.id) (retry_row hcm now r) st.requests })
        (synced-IsConsistent (retry_row hcm now r) (retry_row-SameLedger hcm now r) D (has_id r.id)
          st h)

  pub retry_pending-IsConsistent :
      (hcm : Answers) (order : List TimeOffRequest → List TimeOffRequest) (now : ℕ) (st : State D)
      → IsConsistent D st
      → IsConsistent D
          (record st { requests = retry_pending_hcm_syncs D.requests hcm order now st.requests })
  unfolding retry_pending_hcm_syncs
  retry_pending-IsConsistent hcm order now st h =
      retry_all-IsConsistent hcm now (take 50 (order (D.requests.find sync_pending st.requests))) st
        h
