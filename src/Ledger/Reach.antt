-- ===== src/Ledger/Reach.antt =====
-- The states that the services of src/modules reach, by steps: calls, callbacks and jobs.
use leave_ledger.Common.{ℕ, ◌≡◌, sym, subst, Bool, List, String, Option, inl, inr, [], arith}
use leave_ledger.Common.Int.{ℤ, pos, ◌≤ℤ◌}
use leave_ledger.Result.{ok}
use leave_ledger.Balance.{
  BalanceKey, BalanceView, HcmData, has_key, upsert_balance, apply_hcm_real_time_update,
}
use leave_ledger.Entities.{TimeOffRequest, CreateDto, Response}
use leave_ledger.Store.{Database, State, Env}
use leave_ledger.TimeOff.Create.{create_request}
use leave_ledger.TimeOff.Outcome.{create_request-inv}
use leave_ledger.TimeOff.Notify.{notify_hcm_async, notify_approval_to_hcm_async}
use leave_ledger.Hcm.{Answers}
use leave_ledger.Hcm.Pending.{retry_pending_hcm_syncs}
use leave_ledger.Hcm.Reconcile.{HcmRecord}
use leave_ledger.Hcm.Batch.{reconcile_batch}
use leave_ledger.Hcm.Batch.Balanced.{NonNegative}
use leave_ledger.Ledger.Synced.{
  notify_hcm_async-IsConsistent, notify_approval-IsConsistent, retry_pending-IsConsistent,
}
use leave_ledger.Ledger.Batched.{reconcile_batch-IsConsistent}
use leave_ledger.Ledger.{IsConsistent}
use leave_ledger.Ledger.Create.{create_transaction-inv}
use leave_ledger.Ledger.Created.{Created-IsConsistent}
use leave_ledger.Ledger.Seed.{upsert_balance-IsConsistent, real_time-IsConsistent}
use leave_ledger.Ledger.Decision.{Decision, Decision-IsConsistent}

module _ (D : Database) where
  -- One call that returns. A call that throws leaves the state as it was.
  pub data Step (st st' : State D) : Type 0 where
    created :
        (env : Env) (dto : CreateDto) (key : Option String) (resp : Response)
        → create_request D env dto key st ≡ ok (resp, st')
        → Step st st'
    decided : (id : String) → Decision D id st st' → Step st st'
    seeded :
        (now : ℕ) (k : BalanceKey) (total : ℤ) (v : BalanceView) (t : D.balances.Table)
        → pos 0 ≤ℤ total
        → upsert_balance D.balances now k total st.balances ≡ ok (v, t)
        → record st { balances = t } ≡ st'
        → Step st st'
    refreshed :
        (now : ℕ) (k : BalanceKey) (hcm : HcmData)
        → record st { balances = (apply_hcm_real_time_update D.balances now k hcm st.balances).1 }
          ≡ st'
        → Step st st'
    -- A callback to the HCM, when its answers are there.
    validated :
        (now : ℕ) (answer : Option (Option Bool)) (id : String)
        → record st { requests = notify_hcm_async D.requests now answer id st.requests } ≡ st'
        → Step st st'
    announced :
        (now : ℕ) (hcm : Answers) (given : TimeOffRequest) (id : String)
        → record st {
          requests = notify_approval_to_hcm_async D.requests now hcm given id st.requests;
        }
          ≡ st'
        → Step st st'
    -- A run of the retry job, and one of the batch reconciliation.
    retried :
        (now : ℕ) (hcm : Answers) (order : List TimeOffRequest → List TimeOffRequest)
        → record st { requests = retry_pending_hcm_syncs D.requests hcm order now st.requests }
          ≡ st'
        → Step st st'
    reconciled :
        (now : ℕ) (recs : List HcmRecord)
        → NonNegative D.balances recs
        → record st { balances = (reconcile_batch D.balances now recs st.balances).1 } ≡ st'
        → Step st st'

  pub data Reach (st : State D) : State D → Type 0 where
    here : Reach st st
    next : {u v : State D} → Reach st u → Step u v → Reach st v

  created-IsConsistent :
      (env : Env) (dto : CreateDto) (key : Option String) (st st' : State D) (resp : Response)
      → IsConsistent D st
      → create_request D env dto key st ≡ ok (resp, st')
      → IsConsistent D st'
  created-IsConsistent env dto key st st' resp h e =
      elim (create_request-inv D env dto key st resp st' e) [
        | inl same ↦ subst (IsConsistent D) (sym same) h
        | inr (k, given, c) ↦
            let valid =
              Created-IsConsistent D env dto k _ st c.stored c.request h
                (create_transaction-inv D env dto k _ st c.request c.stored c.transaction) in
            subst (IsConsistent D) (sym c.state) (record {
              balanced = valid.balanced;
              linked = valid.linked;
              funded = valid.funded;
              apart = valid.apart;
            })
      ]

  Step-IsConsistent : {st st' : State D} → Step st st' → IsConsistent D st → IsConsistent D st'
  Step-IsConsistent {st} {st'} (created env dto key resp e) h =
      created-IsConsistent env dto key st st' resp h e
  Step-IsConsistent (decided id d) h = Decision-IsConsistent D d h
  Step-IsConsistent {st} {st'} (seeded now k total v t nonneg e same) h =
      subst (IsConsistent D) same (upsert_balance-IsConsistent D st h now k total v t nonneg e)
  Step-IsConsistent {st} {st'} (refreshed now k hcm same) h =
      subst (IsConsistent D) same (real_time-IsConsistent D st h now k hcm)
  Step-IsConsistent {st} {st'} (validated now answer id same) h =
      subst (IsConsistent D) same (notify_hcm_async-IsConsistent D now answer id st h)
  Step-IsConsistent {st} {st'} (announced now hcm given id same) h =
      subst (IsConsistent D) same (notify_approval-IsConsistent D now hcm given id st h)
  Step-IsConsistent {st} {st'} (retried now hcm order same) h =
      subst (IsConsistent D) same (retry_pending-IsConsistent D hcm order now st h)
  Step-IsConsistent {st} {st'} (reconciled now recs nonneg same) h =
      subst (IsConsistent D) same (reconcile_batch-IsConsistent D now recs st nonneg h)

  -- Every state that calls of the services, their callbacks to the HCM, retry runs and batch runs
  -- reach in any order from a consistent state is consistent, if seeded totals and those that a batch
  -- reports are not negative: each balance adds up with no negative part, its pending and used days
  -- are those of its pending and approved requests, and no two active requests of one employee at
  -- one location overlap.
  pub Reach-IsConsistent :
      {st st' : State D} → Reach st st' → IsConsistent D st → IsConsistent D st'
  Reach-IsConsistent here h = h
  Reach-IsConsistent (next r s) h = Step-IsConsistent s (Reach-IsConsistent r h)

  -- An empty database is consistent.
  pub empty-IsConsistent :
      (st : State D)
      → D.balances.rows st.balances ≡ []
      → D.requests.rows st.requests ≡ []
      → IsConsistent D st
  empty-IsConsistent st no_balances no_requests = record {
    balanced = rw no_balances tt;
    linked = λ k b found. absurd (ground (arith, D.balances.find_one-rows (has_key k) st.balances));
    funded = rw no_requests tt;
    apart = rw no_requests tt;
  }
