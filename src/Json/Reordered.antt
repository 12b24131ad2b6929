-- ===== src/Json/Reordered.antt =====
-- Values that differ in the order of properties only have one hash (src/common/utils/hash.util.js).
use leave_ledger.Common.{if◌then◌else◌, String, ◌≡◌, ◌≢◌, ◌∙◌, refl, ap, arith}
use leave_ledger.Common.Eq.{◌==◌, String-Eq}
use leave_ledger.Json.{
  proto_key, Value, Items, Fields, KeyOrder, array, object, nil, cons, end, field, insert_field,
  sort_object_keys, sort_items, sort_fields, hash_object,
}

-- One value is the other with properties in another order, and with properties of the name `__proto__`
-- left out or put in, at any depth.
mutual
  pub data Reordered : Value → Value → Type 0 where
    same : {v : Value} → Reordered v v
    arrays : {xs ys : Items} → ReorderedItems xs ys → Reordered (array xs) (array ys)
    objects : {fs gs : Fields} → ReorderedFields fs gs → Reordered (object fs) (object gs)

  pub data ReorderedItems : Items → Items → Type 0 where
    no_items : ReorderedItems nil nil
    both :
        {v w : Value} {xs ys : Items}
        → Reordered v w
        → ReorderedItems xs ys
        → ReorderedItems (cons v xs) (cons w ys)

  pub data ReorderedFields : Fields → Fields → Type 0 where
    no_fields : ReorderedFields end end
    next :
        {k : String} {v w : Value} {fs gs : Fields}
        → Reordered v w
        → ReorderedFields fs gs
        → ReorderedFields (field k v fs) (field k w gs)
    swapped :
        {k j : String} {v w : Value} {fs : Fields}
        → k ≢ j
        → ReorderedFields (field k v (field j w fs)) (field j w (field k v fs))
    left_out : {v : Value} {fs : Fields} → ReorderedFields (field proto_key v fs) fs
    put_in : {v : Value} {fs : Fields} → ReorderedFields fs (field proto_key v fs)
    through :
        {fs gs hs : Fields} → ReorderedFields fs gs → ReorderedFields gs hs → ReorderedFields fs hs

module _ (K : KeyOrder) where
  -- Two fields may be inserted in either order.
  insert_field_swap :
      (k j : String) (v w : Value) (fs : Fields)
      → k ≢ j
      → insert_field K k v (insert_field K j w fs) ≡ insert_field K j w (insert_field K k v fs)
  unfolding insert_field
  insert_field_swap k j v w end differ = ground (arith, K.total k j, K.total j k, K.antisym k j)
  insert_field_swap k j v w (field i u fs) differ = ground (
    arith,
    insert_field_swap k j v w fs differ,
    K.total k j,
    K.total j k,
    K.antisym k j,
    K.trans k j i,
    K.trans j k i,
    K.total i k,
    K.total i j,
  )

  -- What sorting does with one field.
  abbrev put_field : String → Value → Fields → Fields
  put_field k v fs = if k == proto_key then fs else insert_field K k v fs

  put_field_swap :
      (k j : String) (v w : Value) (fs : Fields)
      → k ≢ j
      → put_field k v (put_field j w fs) ≡ put_field j w (put_field k v fs)
  put_field_swap k j v w fs differ = ground (arith, insert_field_swap k j v w fs differ)

  put_field-eq :
      (k : String) {v w : Value} {fs gs : Fields}
      → v ≡ w
      → fs ≡ gs
      → put_field k v fs ≡ put_field k w gs
  put_field-eq k e d = λ i. put_field k (e i) (d i)

  mutual
    unfolding sort_object_keys

    pub sort_object_keys-Reordered :
        {v w : Value} → Reordered v w → sort_object_keys K v ≡ sort_object_keys K w
    sort_object_keys-Reordered same = refl
    sort_object_keys-Reordered (arrays r) = ap array (sort_items-Reordered r)
    sort_object_keys-Reordered (objects r) = ap object (sort_fields-Reordered r)

    sort_items-Reordered :
        {xs ys : Items} → ReorderedItems xs ys → sort_items K xs ≡ sort_items K ys
    sort_items-Reordered no_items = refl
    sort_items-Reordered (both r rs) =
        λ i. cons (sort_object_keys-Reordered r i) (sort_items-Reordered rs i)

    sort_fields-Reordered :
        {fs gs : Fields} → ReorderedFields fs gs → sort_fields K fs ≡ sort_fields K gs
    sort_fields-Reordered no_fields = refl
    sort_fields-Reordered (next {k = k} r rs) =
        put_field-eq k (sort_object_keys-Reordered r) (sort_fields-Reordered rs)
    sort_fields-Reordered (swapped {k = k} {j = j} {v = v} {w = w} {fs = fs} differ) =
        put_field_swap k j (sort_object_keys K v) (sort_object_keys K w) (sort_fields K fs) differ
    sort_fields-Reordered left_out = refl
    sort_fields-Reordered put_in = refl
    sort_fields-Reordered (through r s) = sort_fields-Reordered r ∙ sort_fields-Reordered s

  -- Bodies that differ only in the order of their properties, or in properties of the name `__proto__`,
  -- at any depth, have the same hash, so that a retry whose client writes the properties in another
  -- order is taken for the same request.
  pub hash_object-Reordered :
      (digest : Value → String) (v w : Value)
      → Reordered v w
      → hash_object K digest v ≡ hash_object K digest w
  unfolding hash_object
  hash_object-Reordered digest v w r = ap digest (sort_object_keys-Reordered r)
