-- ===== src/Json/Sorted.antt =====
-- What `sortObjectKeys` (src/common/utils/hash.util.js) keeps of a value.
use leave_ledger.Common.{String, true, ◌≡◌, ◌≢◌, ◌↔◌, sym, subst, inl, inr, Bool-cases, arith}
use leave_ledger.Common.Eq.{◌==◌, String-Eq, eq_of_same}
use leave_ledger.Json.{
  proto_key, Value, Items, Fields, KeyOrder, null, boolean, number, string, array, object, nil,
  cons, end, field, insert_field, sort_object_keys, sort_items, sort_fields,
}
use leave_ledger.Json.Reordered.{
  Reordered, ReorderedItems, ReorderedFields, same, arrays, objects, no_items, both, no_fields,
  next, swapped, left_out, put_in, through, sort_object_keys-Reordered,
}

same_items : (xs : Items) → ReorderedItems xs xs
same_items nil = no_items
same_items (cons x xs) = both same (same_items xs)

same_fields : (fs : Fields) → ReorderedFields fs fs
same_fields end = no_fields
same_fields (field k v fs) = next same (same_fields fs)

mutual
  Reordered-sym : {v w : Value} → Reordered v w → Reordered w v
  Reordered-sym same = same
  Reordered-sym (arrays r) = arrays (ReorderedItems-sym r)
  Reordered-sym (objects r) = objects (ReorderedFields-sym r)

  ReorderedItems-sym : {xs ys : Items} → ReorderedItems xs ys → ReorderedItems ys xs
  ReorderedItems-sym no_items = no_items
  ReorderedItems-sym (both r rs) = both (Reordered-sym r) (ReorderedItems-sym rs)

  ReorderedFields-sym : {fs gs : Fields} → ReorderedFields fs gs → ReorderedFields gs fs
  ReorderedFields-sym no_fields = no_fields
  ReorderedFields-sym (next r rs) = next (Reordered-sym r) (ReorderedFields-sym rs)
  ReorderedFields-sym (swapped differ) = swapped (λ e. differ (sym e))
  ReorderedFields-sym left_out = put_in
  ReorderedFields-sym put_in = left_out
  ReorderedFields-sym (through r s) = through (ReorderedFields-sym s) (ReorderedFields-sym r)

mutual
  Reordered-trans : {u v w : Value} → Reordered u v → Reordered v w → Reordered u w
  Reordered-trans same s = s
  Reordered-trans (arrays r) same = arrays r
  Reordered-trans (arrays r) (arrays s) = arrays (ReorderedItems-trans r s)
  Reordered-trans (objects r) same = objects r
  Reordered-trans (objects r) (objects s) = objects (through r s)

  ReorderedItems-trans :
      {xs ys zs : Items} → ReorderedItems xs ys → ReorderedItems ys zs → ReorderedItems xs zs
  ReorderedItems-trans no_items s = s
  ReorderedItems-trans (both r rs) (both s ss) =
      both (Reordered-trans r s) (ReorderedItems-trans rs ss)

field-left_out :
    (k : String) (v : Value) (fs : Fields)
    → (k == proto_key) ≡ true
    → ReorderedFields (field k v fs) fs
field-left_out k v fs e =
    subst (λ i. ReorderedFields (field i v fs) fs) (sym (eq_of_same k proto_key e)) left_out

module _ (K : KeyOrder) where
  before_self : (k : String) → K.before k k ≡ true
  before_self k = elim (Bool-cases (K.before k k)) [
    | inl holds ↦ holds
    | inr fails ↦ K.total k k fails
  ]

  insert_field-Reordered :
      (k : String) (v : Value) (fs : Fields)
      → ReorderedFields (field k v fs) (insert_field K k v fs)
  unfolding insert_field
  insert_field-Reordered k v end = next same no_fields
  insert_field-Reordered k v (field j w fs) = elim (Bool-cases (K.before k j)) [
    | inl here ↦ rw here (same_fields (field k v (field j w fs)))
    | inr later ↦
        let differ : k ≢ j = λ e.
          let self : K.before k j ≡ true = subst (λ i. K.before k i ≡ true) e (before_self k) in
          ground arith in
        rw later (through (swapped differ) (next same (insert_field-Reordered k v fs)))
  ]

  mutual
    unfolding sort_object_keys

    Reordered-sort_object_keys : (v : Value) → Reordered v (sort_object_keys K v)
    Reordered-sort_object_keys null = same
    Reordered-sort_object_keys (boolean b) = same
    Reordered-sort_object_keys (number n) = same
    Reordered-sort_object_keys (string s) = same
    Reordered-sort_object_keys (array xs) = arrays (ReorderedItems-sort_items xs)
    Reordered-sort_object_keys (object fs) = objects (ReorderedFields-sort_fields fs)

    ReorderedItems-sort_items : (xs : Items) → ReorderedItems xs (sort_items K xs)
    ReorderedItems-sort_items nil = no_items
    ReorderedItems-sort_items (cons x xs) =
        both (Reordered-sort_object_keys x) (ReorderedItems-sort_items xs)

    ReorderedFields-sort_fields : (fs : Fields) → ReorderedFields fs (sort_fields K fs)
    ReorderedFields-sort_fields end = no_fields
    ReorderedFields-sort_fields (field k v fs) = elim (Bool-cases (k == proto_key)) [
      | inl proto ↦
          rw (sort_fields, proto)
            (through (field-left_out k v fs proto) (ReorderedFields-sort_fields fs))
      | inr kept ↦
          rw (sort_fields, kept)
            (through (next (Reordered-sort_object_keys v) (ReorderedFields-sort_fields fs))
              (insert_field-Reordered k (sort_object_keys K v) (sort_fields K fs)))
    ]

  -- Two values are the same after sorting exactly if one is the other with properties in another order,
  -- and with properties of the name `__proto__` left out or put in, at any depth.
  pub sort_object_keys_iff :
      (v w : Value) → (sort_object_keys K v ≡ sort_object_keys K w) ↔ Reordered v w
  sort_object_keys_iff v w = (
    λ e.
        Reordered-trans (subst (Reordered v) e (Reordered-sort_object_keys v))
          (Reordered-sym (Reordered-sort_object_keys w)),
    sort_object_keys-Reordered K,
  )
