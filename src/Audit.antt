-- ===== src/Audit.antt =====
-- src/common/utils/audit-logger.util.js, the class AuditLedger. SHA-256 of the JSON text of a value, in
-- hexadecimal, is a parameter.
pub mod Chained
mod Tests
use leave_ledger.Common.{
  ℕ, String, Bool, true, false, ◌&&◌, Option, none, some, List, [], ◌∷◌, ◌++◌, length,
  if◌then◌else◌,
}
use leave_ledger.Common.Int.{pos}
use leave_ledger.Common.Eq.{◌==◌, String-Eq}
use leave_ledger.Json.{Value, Fields, number, string, object, end, field}

-- An entry without its hash.
pub record Content : Type 0 where
  pub index : ℕ
  pub previous_hash : String
  pub timestamp : ℕ
  pub employee_id : String
  pub mutation : Value
  pub reason : String

pub record Entry : Type 0 where
  pub content : Content
  pub hash : String

abbrev pub Chain : Type 0
Chain = List Entry

-- `'0'.repeat(64)`
abbrev pub zeros : String
zeros = "0000000000000000000000000000000000000000000000000000000000000000"

-- `reason || 'UNSPECIFIED'`
abbrev pub or_unspecified : Option String → String
or_unspecified none = "UNSPECIFIED"
or_unspecified (some x) = if x == "" then "UNSPECIFIED" else x

-- The object whose JSON text is hashed.
unfoldable pub payload : Content → Value
payload c = object (
    field "index" (number (pos c.index)) (
      field "previousHash" (string c.previous_hash) (
        field "timestamp" (number (pos c.timestamp)) (
          field "employeeId" (string c.employee_id)
            (field "mutation" c.mutation (field "reason" (string c.reason) end))))))

-- The hash of the last entry, or `start` if there is none.
abbrev pub last_hash : String → Chain → String
last_hash start [] = start
last_hash start (e ∷ es) = last_hash e.hash es

module _ (digest : Value → String) where
  -- hashEntry
  unfoldable pub hash_entry : Content → String
  unfolding payload
  hash_entry c = digest (payload c)

  abbrev pub new_entry : String → Value → Option String → ℕ → Chain → Entry
  new_entry employee_id mutation reason now chain =
      let content : Content = record {
        index = length chain;
        previous_hash = last_hash zeros chain;
        timestamp = now;
        employee_id = employee_id;
        mutation = mutation;
        reason = or_unspecified reason;
      } in
      record { content = content; hash = hash_entry content }

  -- append; `none` is the TypeError of an empty employee id.
  unfoldable pub append : String → Value → Option String → ℕ → Chain → Option Entry × Chain
  append employee_id mutation reason now chain =
      let entry = new_entry employee_id mutation reason now chain in
      if employee_id == "" then (none, chain) else (some entry, chain ++ entry ∷ [])

  -- The loop of verifyIntegrity, after an entry of the hash `previous`.
  abbrev pub verify_from : String → Chain → Bool
  verify_from previous [] = true
  verify_from previous (e ∷ es) =
      (e.content.previous_hash == previous)
      && (e.hash == hash_entry e.content)
      && verify_from e.hash es

  -- verifyIntegrity
  abbrev pub verify_integrity : Chain → Bool
  verify_integrity = verify_from zeros
