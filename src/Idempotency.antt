-- ===== src/Idempotency.antt =====
-- src/common/utils/idempotency.util.js, the class IdempotencyManager. The Map is a list of records with a
-- key; the clock is a parameter of a call, and the SHA-256 fingerprint of a payload of the model.
pub mod Once
pub mod Answers
mod Tests
use leave_ledger.Common.{
  ℕ, zero, suc, ◌+◌, String, Bool, true, false, not, Option, none, some, List, [], ◌∷◌, first, put,
  keep, map_where, leb, if◌then◌else◌,
}
use leave_ledger.Common.Eq.{◌==◌, String-Eq}
use leave_ledger.Common.Keyed.{at_key}

-- `response` with the state COMPLETED, and none with IN_FLIGHT.
pub record Flight {ℓ} (Response : Type ℓ) : Type ℓ where
  pub key : String
  pub completed : Option Response
  pub fingerprint : String
  pub expires_at : ℕ

-- What begin returns, or throws.
pub data Reply {ℓ} (Response : Type ℓ) : Type ℓ where
  new : Reply Response
  in_flight : Reply Response
  already : Response → Reply Response
  reused : Reply Response
  bad_key : Reply Response

pub data Call {ℓ κ} (Response : Type ℓ) (Payload : Type κ) : Type (ℓ ⊔ κ) where
  beginning : String → Payload → ℕ → Call Response Payload
  completing : String → Response → Call Response Payload
  removing : String → Call Response Payload

-- `options.ttlMs || 86400000`
abbrev pub ttl_of : Option ℕ → ℕ
ttl_of none = 86400000
ttl_of (some zero) = 86400000
ttl_of (some (suc n)) = suc n

module _ {ℓ κ} {Response : Type ℓ} {Payload : Type κ} (fingerprint : Payload → String)
    (ttl_ms : ℕ) where
  abbrev pub flight_of : String → List (Flight Response) → Option (Flight Response)
  flight_of key = first (at_key (λ f. f.key) key)

  -- _cleanup
  abbrev pub cleanup : ℕ → List (Flight Response) → List (Flight Response)
  cleanup now = keep (λ f. not (leb f.expires_at now))

  abbrev pub reply_to : Payload → Flight Response → Reply Response
  reply_to payload f =
      if f.fingerprint == fingerprint payload
      then elim f.completed [ none ↦ Reply.in_flight | some r ↦ Reply.already r ]
      else Reply.reused

  abbrev pub started : String → Payload → ℕ → Flight Response
  started key payload now = record {
    key = key;
    completed = none;
    fingerprint = fingerprint payload;
    expires_at = now + ttl_ms;
  }

  -- begin
  unfoldable pub begin :
      String → Payload → ℕ → List (Flight Response) → Reply Response × List (Flight Response)
  begin key payload now store =
      let cleaned = cleanup now store in
      if key == "" then (Reply.bad_key, store) else elim (flight_of key cleaned) [
        | some f ↦ (reply_to payload f, cleaned)
        | none ↦ (Reply.new, put (at_key (λ f. f.key) key) (started key payload now) cleaned)
      ]

  -- complete and remove
  unfoldable pub complete : String → Response → List (Flight Response) → List (Flight Response)
  complete key response store = elim (flight_of key store) [
    | none ↦ store
    | some f ↦ put (at_key (λ f. f.key) key) (record f { completed = some response }) store
  ]

  abbrev pub remove : String → List (Flight Response) → List (Flight Response)
  remove key = keep (λ f. not (at_key (λ f. f.key) key f))

  unfoldable pub run_call : Call Response Payload → List (Flight Response) → List (Flight Response)
  unfolding begin complete
  run_call (Call.beginning key payload now) store = (begin key payload now store).1
  run_call (Call.completing key response) store = complete key response store
  run_call (Call.removing key) store = remove key store

  abbrev pub run : List (Call Response Payload) → List (Flight Response) → List (Flight Response)
  run [] store = store
  run (c ∷ cs) store = run cs (run_call c store)
