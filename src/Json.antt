-- ===== src/Json.antt =====
-- src/common/utils/hash.util.js: `hashObject`, which IdempotencyRecord keeps of a request body. A value
-- is a JSON value; the fields of an object stand in the order of their insertion. Keys that are
-- numerals, which JavaScript orders by itself, are left out. `sort` orders keys by UTF-16 code units:
-- an order of texts is a parameter.
pub mod Reordered
pub mod Sorted
mod Tests
use leave_ledger.Common.{ℕ, String, Bool, true, false, ◌≡◌, ◌⊎◌, inl, inr, if◌then◌else◌}
use leave_ledger.Common.Eq.{◌==◌, String-Eq}
use leave_ledger.Common.Int.{ℤ}

mutual
  pub data Value : Type 0 where
    null : Value
    boolean : Bool → Value
    number : ℤ → Value
    string : String → Value
    array : Items → Value
    object : Fields → Value

  pub data Items : Type 0 where
    nil : Items
    cons : Value → Items → Items

  pub data Fields : Type 0 where
    end : Fields
    field : String → Value → Fields → Fields

pub record KeyOrder : Type 0 where
  pub before : String → String → Bool
  pub total : (a b : String) → before a b ≡ false → before b a ≡ true
  pub antisym : (a b : String) → before a b ≡ true → before b a ≡ true → a ≡ b
  pub trans : (a b c : String) → before a b ≡ true → before b c ≡ true → before a c ≡ true

-- An assignment to this key sets the prototype, and adds no property.
abbrev pub proto_key : String
proto_key = "__proto__"

module _ (K : KeyOrder) where
  -- The field of a key among sorted fields.
  unfoldable pub insert_field : String → Value → Fields → Fields
  insert_field k v end = field k v end
  insert_field k v (field j w fs) =
      let rest = insert_field k v fs in
      if K.before k j then field k v (field j w fs) else field j w rest

  -- sortObjectKeys
  unfoldable mutual
    unfolding insert_field

    pub sort_object_keys : Value → Value
    sort_object_keys null = null
    sort_object_keys (boolean b) = boolean b
    sort_object_keys (number n) = number n
    sort_object_keys (string s) = string s
    sort_object_keys (array xs) = array (sort_items xs)
    sort_object_keys (object fs) = object (sort_fields fs)

    pub sort_items : Items → Items
    sort_items nil = nil
    sort_items (cons x xs) = cons (sort_object_keys x) (sort_items xs)

    pub sort_fields : Fields → Fields
    sort_fields end = end
    sort_fields (field k v fs) =
        let rest = sort_fields fs in
        if k == proto_key then rest else insert_field k (sort_object_keys v) rest

  -- hashObject; `digest` is SHA-256 of the JSON text.
  unfoldable pub hash_object : (Value → String) → Value → String
  unfolding sort_object_keys
  hash_object digest v = digest (sort_object_keys v)
