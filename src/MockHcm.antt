-- ===== src/MockHcm.antt =====
-- mock-hcm/src/server.js: the stand-in of the HCM that the service runs against. A request's body is
-- parsed: a missing field is `none`, and amounts are whole thousandths of a day. The object of balances
-- is the list of its properties, in the order of insertion. Latencies, the clock and the random number
-- of a request are parameters.
pub mod Routes
pub mod Admin
pub mod Sound
pub mod Reach
pub mod Filed
pub mod Drift
mod Tests
use leave_ledger.Common.{
  ℕ, zero, suc, ◌+◌, ◌-◌, String, Bool, true, false, not, ◌&&◌, ◌||◌, Option, none, some, List, [],
  ◌∷◌, first, put, keep, length, map_where, ltb, leb, if◌then◌else◌,
}
use leave_ledger.Common.Int.{ℤ, pos, ◌+ℤ◌, ◌-ℤ◌, ltb_ℤ}
use leave_ledger.Common.Eq.{◌==◌, String-Eq}
use Prim.Native.String.{◌++◌ as append}

pub data FailureMode : Type 0 where
  mode_503 : FailureMode
  mode_timeout : FailureMode

pub data Override : Type 0 where
  always_valid : Override
  always_invalid : Override

-- `mockBehavior`
pub record Behavior : Type 0 where
  pub forced_failure_mode : Option FailureMode
  pub forced_failure_remaining : ℕ
  pub validation_override : Option Override
  pub batch_partial : Bool
  pub stale_version_mode : Bool

abbrev pub calm : Behavior
calm = record {
  forced_failure_mode = none;
  forced_failure_remaining = 0;
  validation_override = none;
  batch_partial = false;
  stale_version_mode = false;
}

-- The three names in a path or a body.
pub record Place : Type 0 where
  pub employee_id : String
  pub location_id : String
  pub leave_type : String

-- A property of `hcmBalances`.
pub record Holding : Type 0 where
  pub place : Place
  pub total_balance : ℤ
  pub available_balance : ℤ
  pub version : String

abbrev pub balance_key : Place → String
balance_key p = append p.employee_id (append "_" (append p.location_id (append "_" p.leave_type)))

abbrev pub at_place : Place → Holding → Bool
at_place p r = balance_key r.place == balance_key p

pub record Server : Type 0 where
  pub behavior : Behavior
  pub balances : List Holding

-- The record that `ensureBalanceRecord` and GET put in the place of a missing one.
abbrev pub empty_holding : Place → Holding
empty_holding p = record {
  place = p;
  total_balance = pos 0;
  available_balance = pos 0;
  version = "v1";
}

abbrev pub holding_at : Place → List Holding → Holding
holding_at p rs = elim (first (at_place p) rs) [ none ↦ empty_holding p | some r ↦ r ]

-- ensureBalanceRecord
abbrev pub ensure : Place → List Holding → List Holding
ensure p rs = elim (first (at_place p) rs) [
  | none ↦ put (at_place p) (empty_holding p) rs
  | some r ↦ rs
]

-- What becomes of a request before its handler: it may be delayed beyond the client's timeout, and
-- is handled all the same.
pub data Passage : Type 0 where
  prompt : Passage
  late : Passage
  unavailable : Passage

-- The drawn number and the two probabilities, over one denominator.
pub record Draw : Type 0 where
  pub rand : ℕ
  pub timeout_probability : ℕ
  pub flakiness : ℕ

abbrev pub drawn : Draw → Passage
drawn d =
    if ltb d.rand d.timeout_probability
    then Passage.late
    else if ltb d.rand (d.timeout_probability + d.flakiness)
    then Passage.unavailable
    else Passage.prompt

-- simulateInstability
unfoldable pub simulate_instability : Draw → Behavior → Passage × Behavior
simulate_instability d b = elim b.forced_failure_mode [
  | none ↦ (drawn d, b)
  | some mode ↦
      if ltb 0 b.forced_failure_remaining
      then (
        elim mode [
          | FailureMode.mode_timeout ↦ Passage.late
          | FailureMode.mode_503 ↦ Passage.unavailable
        ],
        record b { forced_failure_remaining = b.forced_failure_remaining - 1 },
      )
      else (drawn d, b)
]

-- The answers, with their status codes.
pub data Reply : Type 0 where
  balance : Holding → Reply
  verdict : (valid : Bool) (hcm_balance : ℤ) → Reply
  filed : (reference_id : Option String) (updated_balance : ℤ) (version : String) → Reply
  adjusted : (updated_balance : ℤ) (version : String) → Reply
  snapshot : List Holding → Reply
  granted : (updated_count : ℕ) (grant_days : ℤ) → Reply
  behaves : Behavior → Reply
  refused : (status : ℕ) (error : String) → Reply

-- `record` after `record.availableBalance += days; record.totalBalance += days`
abbrev pub moved : ℤ → String → Holding → Holding
moved days version r = record r {
  available_balance = r.available_balance +ℤ days;
  total_balance = r.total_balance +ℤ days;
  version = version;
}

-- The same with `-=`.
abbrev pub taken : ℤ → String → Holding → Holding
taken days version r = record r {
  available_balance = r.available_balance -ℤ days;
  total_balance = r.total_balance -ℤ days;
  version = version;
}

abbrev pub is_missing : Option String → Bool
is_missing none = true
is_missing (some x) = x == ""

abbrev pub text_of : Option String → String
text_of none = ""
text_of (some x) = x

-- The state at start-up.
abbrev pub vacation_place : Place
vacation_place = record { employee_id = "EMP123"; location_id = "LOC1"; leave_type = "VACATION" }

abbrev pub sick_place : Place
sick_place = record { employee_id = "EMP123"; location_id = "LOC1"; leave_type = "SICK" }

abbrev pub initial : Server
initial = record {
  behavior = calm;
  balances =
      record {
        place = vacation_place;
        total_balance = pos 15000;
        available_balance = pos 15000;
        version = "v1";
      }
      ∷ record {
        place = sick_place;
        total_balance = pos 10000;
        available_balance = pos 10000;
        version = "v1";
      }
      ∷ [];
}
