-- ===== src/Ledger.antt =====
-- The invariant that ties the balances to the requests (src/modules/timeoff/timeoff.service.js and
-- src/modules/balance/balance.service.js together), and its laws on lists of requests.
pub mod Sums
pub mod Settle
pub mod Effects
pub mod Decisions
pub mod Create
pub mod Asked
pub mod Created
pub mod Seed
pub mod Decision
pub mod Reach
pub mod Replay
pub mod Expired
pub mod Synced
pub mod Batched
pub mod Tests
use leave_ledger.Common.{◌≡◌, Bool, false, ◌&&◌, some, List, [], ◌∷◌, All, Pairs, if◌then◌else◌}
use leave_ledger.Common.Int.{ℤ, pos, ◌+ℤ◌, ◌≤ℤ◌}
use leave_ledger.Common.Eq.{◌==◌, String-Eq}
use leave_ledger.Constants.{RequestStatus, RequestStatus-Eq}
use leave_ledger.Dates.{dates_overlap}
use leave_ledger.Balance.{BalanceKey, EmployeeBalance, key_eq}
use leave_ledger.Balance.Moves.{find_key}
use leave_ledger.Balance.Reach.{AllBalanced}
use leave_ledger.Entities.{TimeOffRequest, request_key, has_id, has_idempotency_key}
use leave_ledger.Store.{Database, State}
use leave_ledger.TimeOff.{is_active}

-- The days of one request, if it has the status and draws on the balance.
unfoldable pub share : RequestStatus → BalanceKey → TimeOffRequest → ℤ
share s k r = if r.status == s && key_eq k (request_key r) then r.days_requested else pos 0

-- The days of all such requests.
unfoldable pub held : RequestStatus → BalanceKey → List TimeOffRequest → ℤ
held s k [] = pos 0
held s k (r ∷ rs) = share s k r +ℤ held s k rs

-- Two active requests of one employee at one location on a common day.
unfoldable pub clash : TimeOffRequest → TimeOffRequest → Bool
clash r s =
    is_active r
    && is_active s
    && r.employee_id == s.employee_id
    && r.location_id == s.location_id
    && dates_overlap r.start_date r.end_date s.start_date s.end_date

-- Different requests: other ids, other idempotency keys, and no clash.
pub record Apart (r s : TimeOffRequest) : Type 0 where
  pub other_id : has_id r.id s ≡ false
  pub other_key : has_idempotency_key r.idempotency_key s ≡ false
  pub disjoint : clash r s ≡ false

module _ (D : Database) where
  pub record IsConsistent (st : State D) : Type 0 where
    pub balanced : AllBalanced D.balances st.balances
    -- The pending days of a balance are those of its pending requests, the used days those of its
    -- approved ones.
    pub linked :
        (k : BalanceKey) (b : EmployeeBalance)
        → find_key D.balances k st.balances ≡ some b
        → (b.pending_balance ≡ held RequestStatus.pending k (D.requests.rows st.requests))
          × (b.used_balance ≡ held RequestStatus.approved k (D.requests.rows st.requests))
    -- Every request asks for at least no days, and draws on a balance that exists.
    pub funded :
        All
          (λ r.
            (pos 0 ≤ℤ r.days_requested)
            × ((b : EmployeeBalance) × (find_key D.balances (request_key r) st.balances ≡ some b)))
          (D.requests.rows st.requests)
    pub apart : Pairs Apart (D.requests.rows st.requests)
