-- ===== src/MockHcm/Admin.antt =====
-- The administration of mock-hcm/src/server.js: data and behaviour that tests set.
use leave_ledger.Common.{
  ℕ, String, Bool, true, ◌&&◌, ◌||◌, Option, none, some, put, keep, length, map_where,
  if◌then◌else◌,
}
use leave_ledger.Common.Int.{ℤ, pos, negsuc, ltb_ℤ}
use leave_ledger.Common.Eq.{◌==◌, String-Eq}
use leave_ledger.MockHcm.{
  FailureMode, Override, Behavior, calm, Place, Holding, Server, Reply, at_place, moved, is_missing,
  text_of,
}

-- POST /admin/inject
unfoldable pub inject : Place → ℤ → ℤ → String → Server → Reply × Server
inject p total available version s =
    let r : Holding = record {
      place = p;
      total_balance = total;
      available_balance = available;
      version = version;
    } in
    (Reply.balance r, record s { balances = put (at_place p) r s.balances })

-- The tests of the loop of anniversary-refresh: a missing name selects every record.
abbrev pub selects : Option String → String → Bool
selects name x = is_missing name || (x == text_of name)

pub record Selection : Type 0 where
  pub employee_id : Option String
  pub location_id : Option String
  pub leave_type : Option String

abbrev pub selected : Selection → Holding → Bool
selected c r =
    selects c.employee_id r.place.employee_id
    && selects c.location_id r.place.location_id
    && selects c.leave_type r.place.leave_type

-- POST /admin/anniversary-refresh; the amount is missing, unreadable or a number.
unfoldable pub anniversary_refresh :
    Selection → Option (Option ℤ) → String → Server → Reply × Server
anniversary_refresh c grant_days version s =
    let grant : Option ℤ = elim grant_days [ none ↦ some (pos 1000) | some g ↦ g ] in
    elim grant [
      | none ↦ (Reply.refused 400 "grantDays must be a positive number", s)
      | some g ↦
          if ltb_ℤ (pos 0) g
          then (
            Reply.granted (length (keep (selected c) s.balances)) g,
            record s { balances = map_where (selected c) (moved g version) s.balances },
          )
          else (Reply.refused 400 "grantDays must be a positive number", s)
    ]

-- The body of the loop of year-refresh.
abbrev pub renewed : ℤ → String → Holding → Holding
renewed total version r = record r {
  total_balance = total;
  available_balance = total;
  version = version;
}

-- POST /admin/year-refresh
unfoldable pub year_refresh : Option (Option ℤ) → String → Server → Reply × Server
year_refresh default_total version s =
    let total : Option ℤ = elim default_total [ none ↦ some (pos 15000) | some t ↦ t ] in
    elim total [
      | none ↦ (Reply.refused 400 "defaultTotal must be a non-negative number", s)
      | some t ↦
          if ltb_ℤ t (pos 0)
          then (Reply.refused 400 "defaultTotal must be a non-negative number", s)
          else (
            Reply.granted (length s.balances) t,
            record s { balances = map_where (λ r. true) (renewed t version) s.balances },
          )
    ]

-- A field of a body: left out, of a value that is refused, or set.
pub data Field {ℓ} (A : Type ℓ) : Type ℓ where
  left_out : Field A
  unreadable : Field A
  given : A → Field A

pub record Changes : Type 0 where
  pub forced_failure_mode : Field (Option FailureMode)
  pub forced_failure_count : Field ℤ
  pub validation_override : Field (Option Override)
  pub batch_partial : Option Bool
  pub stale_version_mode : Option Bool

abbrev pub or_keep : Option Bool → Bool → Bool
or_keep none old = old
or_keep (some new) old = new

-- `parseInt` of the count gives no number, or a negative one.
abbrev pub counted : Field ℤ → ℕ → Option ℕ
counted (Field.left_out) old = some old
counted (Field.unreadable) old = none
counted (Field.given (pos n)) old = some n
counted (Field.given (negsuc n)) old = none

abbrev pub replaced {ℓ} : {A : Type ℓ} → Field A → A → Option A
replaced (Field.left_out) old = some old
replaced (Field.unreadable) old = none
replaced (Field.given x) old = some x

-- POST /admin/behavior: the fields in turn; those before a refused one are set already.
unfoldable pub change_behavior : Changes → Server → Reply × Server
change_behavior c s = elim (replaced c.forced_failure_mode s.behavior.forced_failure_mode) [
  | none ↦ (Reply.refused 400 "forcedFailureMode must be null, 503, or timeout", s)
  | some mode ↦
      let b1 : Behavior = record (s.behavior) { forced_failure_mode = mode } in
      elim (counted c.forced_failure_count b1.forced_failure_remaining) [
        | none ↦ (
          Reply.refused 400 "forcedFailureCount must be a non-negative number",
          record s { behavior = b1 },
        )
        | some n ↦
            let b2 : Behavior = record b1 { forced_failure_remaining = n } in
            elim (replaced c.validation_override b2.validation_override) [
              | none ↦ (
                Reply.refused 400
                    "validationOverride must be null, always-valid, or always-invalid",
                record s { behavior = b2 },
              )
              | some v ↦
                  let b3 : Behavior = record b2 {
                    validation_override = v;
                    batch_partial = or_keep c.batch_partial b2.batch_partial;
                    stale_version_mode = or_keep c.stale_version_mode b2.stale_version_mode;
                  } in
                  (Reply.behaves b3, record s { behavior = b3 })
            ]
      ]
]

-- POST /admin/reset-behavior
unfoldable pub reset_behavior : Server → Reply × Server
reset_behavior s = (Reply.behaves calm, record s { behavior = calm })
