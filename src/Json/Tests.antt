-- ===== src/Json/Tests.antt =====
-- Two bodies of a time-off request, ordered by the code points of their keys.
use leave_ledger.Common.{String, Bool, true, false, ◌≡◌, ◌≢◌, ◌↔◌, refl, arith, ltb, if◌then◌else◌}
use leave_ledger.Common.Int.{pos}
use leave_ledger.Json.{
  Value, KeyOrder, number, string, object, end, field, insert_field, sort_object_keys,
}
use leave_ledger.Json.Reordered.{Reordered, objects, swapped}
use leave_ledger.Json.Sorted.{sort_object_keys_iff}
use Prim.Native.Char.{code}
use Prim.Native.String.{[], ◌∷◌}
use text.Mathlib.TextEquality.{Char-path}

unfoldable code_before : String → String → Bool
code_before [] t = true
code_before (c ∷ s) [] = false
code_before (c ∷ s) (d ∷ t) =
    let rest = code_before s t in
    if ltb (code c) (code d) then true else if ltb (code d) (code c) then false else rest

code_before-total : (s t : String) → code_before s t ≡ false → code_before t s ≡ true
unfolding code_before
code_before-total [] t h = ground arith
code_before-total (c ∷ s) [] h = refl
code_before-total (c ∷ s) (d ∷ t) h = ground (arith, code_before-total s t)

code_before-antisym : (s t : String) → code_before s t ≡ true → code_before t s ≡ true → s ≡ t
unfolding code_before
code_before-antisym [] [] h k = refl
code_before-antisym [] (d ∷ t) h k = absurd (ground arith)
code_before-antisym (c ∷ s) [] h k = absurd (ground arith)
code_before-antisym (c ∷ s) (d ∷ t) h k =
    let codes : code c ≡ code d = ground arith in
    let rest = code_before-antisym s t (ground arith) (ground arith) in
    λ i. Char-path c d codes i ∷ rest i

code_before_trans :
    (r s t : String) → code_before r s ≡ true → code_before s t ≡ true → code_before r t ≡ true
unfolding code_before
code_before_trans [] s t h k = refl
code_before_trans (b ∷ r) [] t h k = absurd (ground arith)
code_before_trans (b ∷ r) (c ∷ s) [] h k = absurd (ground arith)
code_before_trans (b ∷ r) (c ∷ s) (d ∷ t) h k = ground (arith, code_before_trans r s t)

abbrev by_code : KeyOrder
by_code = record {
  before = code_before;
  total = code_before-total;
  antisym = code_before-antisym;
  trans = code_before_trans;
}

abbrev days_first : Value
days_first = object (field "days" (number (pos 5)) (field "employeeId" (string "e1") end))

abbrev employee_first : Value
employee_first = object (field "employeeId" (string "e1") (field "days" (number (pos 5)) end))

employee_first_sorted : sort_object_keys by_code employee_first ≡ days_first
unfolding sort_object_keys insert_field code_before
employee_first_sorted = refl

proto_lost :
    sort_object_keys by_code
      (object (field "__proto__" (object end) (field "days" (number (pos 5)) end)))
    ≡ object (field "days" (number (pos 5)) end)
unfolding sort_object_keys insert_field
proto_lost = refl

keys_differ : ◌≢◌ {A = String} "employeeId" "days"
keys_differ e = absurd (cc)

one_swap : Reordered employee_first days_first
one_swap = objects (swapped keys_differ)

-- The digest of a value that is no object is not looked at.
abbrev first_key : Value → String
first_key (object (field k v fs)) = k
first_key _ = ""

sort_object_keys_iff_example :
    (sort_object_keys by_code employee_first ≡ sort_object_keys by_code days_first)
    ↔ Reordered employee_first days_first
sort_object_keys_iff_example = sort_object_keys_iff by_code employee_first days_first
