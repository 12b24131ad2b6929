-- ===== src/Audit/Tests.antt =====
-- A ledger of src/common/utils/audit-logger.util.js with two entries; a hash is here the employee.
use leave_ledger.Common.{◌≡◌, refl, String, true, none, some, [], length}
use leave_ledger.Common.Int.{pos}
use leave_ledger.Json.{Value, number, string, object, field}
use leave_ledger.Audit.{Chain, append, hash_entry, payload, zeros, last_hash, verify_integrity}
use leave_ledger.Audit.Chained.{Appended, HasNoCollision, Appended-determined}

abbrev short_hash : Value → String
short_hash (object (field _ _ (field _ _ (field _ _ (field _ (string e) fs))))) = e
short_hash _ = ""

abbrev one : Chain
one = (append short_hash "EMP1" (number (pos 3)) (some "accrual") 1000 []).1

abbrev two : Chain
two = (append short_hash "EMP2" (number (pos 5)) none 2000 one).1

-- The second entry with another amount, and with its hash made again.
changed_amount :
    verify_integrity short_hash (append short_hash "EMP2" (number (pos 6)) none 2000 one).1 ≡ true
unfolding append hash_entry payload
changed_amount = refl

two-Appended : Appended short_hash two
two-Appended =
    Appended.appended "EMP2" (number (pos 5)) none 2000
      (Appended.appended "EMP1" (number (pos 3)) (some "accrual") 1000 Appended.empty)

Appended-determined_example :
    (verify_integrity short_hash two ≡ true)
    × ((other : Chain)
        → length other ≡ length two
        → verify_integrity short_hash other ≡ true
        → last_hash zeros other ≡ last_hash zeros two
        → HasNoCollision short_hash other two
        → other ≡ two)
Appended-determined_example = Appended-determined short_hash two two-Appended
