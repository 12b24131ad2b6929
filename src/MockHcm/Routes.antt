-- ===== src/MockHcm/Routes.antt =====
-- The middleware and the handlers of mock-hcm/src/server.js that the service calls.
use leave_ledger.Common.{
  String, true, false, not, ◌||◌, Option, none, some, List, [], ◌∷◌, first, put, if◌then◌else◌,
}
use leave_ledger.Common.Int.{ℤ, pos, ◌-ℤ◌, ltb_ℤ}
use leave_ledger.Common.Eq.{String-Eq}
use leave_ledger.MockHcm.{
  Behavior, Draw, Holding, Override, Passage, Place, Reply, Server, at_place, ensure, holding_at,
  is_missing, moved, simulate_instability, taken, text_of,
}

-- GET /hcm/balance
unfoldable pub get_balance : Place → Server → Reply
get_balance p s = Reply.balance (holding_at p s.balances)

-- POST /hcm/validate
unfoldable pub validate : Place → ℤ → Server → Reply
validate p days_requested s =
    let r = first (at_place p) s.balances in
    let hcm_balance : ℤ = elim r [ none ↦ pos 0 | some x ↦ x.available_balance ] in
    elim s.behavior.validation_override [
      | some Override.always_invalid ↦ Reply.verdict false hcm_balance
      | some Override.always_valid ↦ Reply.verdict true hcm_balance
      | none ↦ elim r [
        | none ↦ Reply.verdict false hcm_balance
        | some x ↦ Reply.verdict (not (ltb_ℤ x.available_balance days_requested)) hcm_balance
      ]
    ]

-- The body of POST /hcm/time-off; `days` is `none` for a value that is no finite number.
pub record Filing : Type 0 where
  pub employee_id : Option String
  pub location_id : Option String
  pub leave_type : Option String
  pub days_requested : Option (Option ℤ)
  pub reference_id : Option String

abbrev pub filing_place : Filing → Place
filing_place f = record {
  employee_id = text_of f.employee_id;
  location_id = text_of f.location_id;
  leave_type = text_of f.leave_type;
}

-- From ensureBalanceRecord on, for `version` the new ETag.
unfoldable pub file_days : Place → ℤ → Option String → String → Server → Reply × Server
file_days p days reference_id version s =
    let ensured = ensure p s.balances in
    let r = holding_at p ensured in
    if ltb_ℤ r.available_balance days
    then (Reply.refused 422 "INSUFFICIENT_BALANCE", record s { balances = ensured })
    else (
      Reply.filed reference_id (r.available_balance -ℤ days) version,
      record s { balances = put (at_place p) (taken days version r) ensured },
    )

-- POST /hcm/time-off
unfoldable pub time_off : Filing → String → Server → Reply × Server
unfolding file_days
time_off f version s =
    if is_missing f.employee_id || is_missing f.location_id || is_missing f.leave_type
    then (Reply.refused 400 "INVALID_INPUT", s)
    else elim f.days_requested [
      | none ↦ (Reply.refused 400 "INVALID_INPUT", s)
      | some none ↦ (Reply.refused 400 "INVALID_DAYS_REQUESTED", s)
      | some (some days) ↦
          if ltb_ℤ (pos 0) days
          then file_days (filing_place f) days f.reference_id version s
          else (Reply.refused 400 "INVALID_DAYS_REQUESTED", s)
    ]

pub data Action : Type 0 where
  approve : Action
  reject : Action
  other_action : Action

-- `record.version` of PUT, with `now_version` for `v${Date.now()}`.
abbrev pub next_version : Behavior → String → Holding → String
next_version b now_version r = if b.stale_version_mode then r.version else now_version

-- PUT /hcm/balance, for an amount that is a number; a missing one is 0.
unfoldable pub put_balance : Place → Option ℤ → Action → String → Server → Reply × Server
put_balance p days_requested action now_version s =
    let ensured = ensure p s.balances in
    let r = holding_at p ensured in
    let days : ℤ = elim days_requested [ none ↦ pos 0 | some d ↦ d ] in
    let version = next_version s.behavior now_version r in
    let lowered = taken days version r in
    let raised = moved days version r in
    elim action [
      | Action.approve ↦
          if ltb_ℤ r.available_balance days
          then (Reply.refused 422 "INSUFFICIENT_BALANCE", record s { balances = ensured })
          else (
            Reply.adjusted lowered.available_balance version,
            record s { balances = put (at_place p) lowered ensured },
          )
      | Action.reject ↦ (
        Reply.adjusted raised.available_balance version,
        record s { balances = put (at_place p) raised ensured },
      )
      | Action.other_action ↦ (Reply.refused 400 "INVALID_ACTION", record s { balances = ensured })
    ]

-- `values.filter((_, idx) => idx % 2 === 0)`
abbrev pub even_ones {ℓ} : {A : Type ℓ} → List A → List A
even_ones [] = []
even_ones (x ∷ []) = x ∷ []
even_ones (x ∷ y ∷ xs) = x ∷ even_ones xs

-- GET /hcm/batch-sync
unfoldable pub batch_sync : Server → Reply
batch_sync s =
    Reply.snapshot (if s.behavior.batch_partial then even_ones s.balances else s.balances)

-- A request through the middleware, to its handler: what the client sees within its timeout.
unfoldable pub serve : Draw → (Server → Reply × Server) → Server → Option Reply × Server
unfolding simulate_instability
serve d handler s =
    let (passage, b) = simulate_instability d s.behavior in
    let (reply, after) = handler (record s { behavior = b }) in
    elim passage [
      | Passage.prompt ↦ (some reply, after)
      | Passage.late ↦ (none, after)
      | Passage.unavailable ↦
          (some (Reply.refused 503 "Service Unavailable"), record s { behavior = b })
    ]
