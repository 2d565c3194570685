-- ===== src/Protocol/Json.antt =====
-- serde_json's `Value` as protocol.rs uses it. A float is kept by its spelling, since the program
-- never computes with one; an object holds its fields in the order of its `Map`, a `BTreeMap`.
pub mod Canonical
pub mod Derive
use pg_mcp.Prelude.{
  String, ℕ, Bool, true, false, ◌&&◌, Option, none, some, List, [], ◌∷◌, str_eq, if◌then◌else◌,
}

-- An unsigned number, the negative number -(n + 1), or a float.
pub data Number : Type 0 where
  pos_int neg_int : ℕ → Number
  float : String → Number

mutual
  pub data Value : Type 0 where
    null : Value
    bool : Bool → Value
    number : Number → Value
    string : String → Value
    array : Items → Value
    object : Fields → Value

  pub data Fields : Type 0 where
    field : String → Value → Fields → Fields
    end : Fields

  -- The elements of an array.
  pub data Items : Type 0 where
    item : Value → Items → Items
    no_items : Items

-- `Map::get`.
unfoldable pub get : String → Fields → Option Value
get key end = none
get key (field k v fs) = if str_eq k key then some v else get key fs

-- `Value::get` by a key.
unfoldable pub get_field : String → Value → Option Value
unfolding get
get_field key (object fs) = get key fs
get_field key null = none
get_field key (bool _) = none
get_field key (number _) = none
get_field key (string _) = none
get_field key (array _) = none

-- `Value::as_str` behind `and_then`.
unfoldable pub as_str : Option Value → Option String
as_str (some (string s)) = some s
as_str _ = none

unfoldable pub is_object : Value → Bool
is_object (object _) = true
is_object null = false
is_object (bool _) = false
is_object (number _) = false
is_object (string _) = false
is_object (array _) = false

-- `keys().all(p)`.
unfoldable pub all_keys : (String → Bool) → Fields → Bool
all_keys p end = true
all_keys p (field k v fs) = p k && all_keys p fs

abbrev pub items : List Value → Items
items [] = no_items
items (v ∷ vs) = item v (items vs)

-- How serde writes an `Option<String>`, a `u32` and a struct of fields.
abbrev pub text_or_null : Option String → Value
text_or_null none = null
text_or_null (some s) = string s

abbrev pub unsigned : ℕ → Value
unsigned n = number (pos_int n)

-- The object of one field.
abbrev pub singleton : String → Value → Value
singleton key v = object (field key v end)
