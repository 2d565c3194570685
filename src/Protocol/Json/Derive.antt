-- ===== src/Protocol/Json/Derive.antt =====
-- The readers and writers that serde derives, over serde_json's `Value`, for the kinds of types
-- that protocol.rs derives them for.
use pg_mcp.Prelude.{
  ℕ, String, Bool, true, false, ltb, Option, none, some, List, [], ◌∷◌, map, any, str_eq,
  if◌then◌else◌, Result, ok, err, ◌>>=◌, ◌≡◌, refl,
}
use pg_mcp.Protocol.Json.{
  Value, null, bool, number, pos_int, string, array, object, Fields, end, field, Items, item,
  no_items, get, items,
}

-- A value that is not one of the type.
pub data Malformed : Type 0 where
  malformed : Malformed

abbrev pub Read {ℓ} : Type ℓ → Type ℓ
Read A = Value → Result A Malformed

abbrev pub read_string : Read String
read_string (string s) = ok s
read_string _ = err malformed

abbrev pub read_bool : Read Bool
read_bool (bool x) = ok x
read_bool _ = err malformed

-- A `u8`.
abbrev pub read_u8 : Read ℕ
read_u8 (number (pos_int n)) = if ltb n 256 then ok n else err malformed
read_u8 _ = err malformed

abbrev pub is_null : Value → Bool
is_null null = true
is_null _ = false

-- An `Option`.
abbrev pub nullable {ℓ} : {A : Type ℓ} → Read A → Read (Option A)
nullable read null = ok none
nullable read v = read v >>= λ a. ok (some a)

abbrev pub option_value {ℓ} : {A : Type ℓ} → (A → Value) → Option A → Value
option_value write none = null
option_value write (some a) = write a

-- A `Vec`.
abbrev pub read_items {ℓ} : {A : Type ℓ} → Read A → Items → Result (List A) Malformed
read_items read no_items = ok []
read_items read (item v vs) = do a ← read v; rest ← read_items read vs; ok (a ∷ rest)

abbrev pub read_vec {ℓ} : {A : Type ℓ} → Read A → Read (List A)
read_vec read (array vs) = read_items read vs
read_vec read _ = err malformed

-- The name of a variant without fields: the name alone, or the one key of an object over null.
abbrev pub variant_name : Read String
variant_name (string s) = ok s
variant_name (object (field s null end)) = ok s
variant_name _ = err malformed

-- The fields of a struct that denies unknown ones: those of an object, or the elements of an
-- array in their place.
abbrev pub only_keys : List String → Fields → Bool
only_keys names end = true
only_keys names (field k v fs) = if any (str_eq k) names then only_keys names fs else false

abbrev pub place_fields : List String → Items → Result Fields Malformed
place_fields [] no_items = ok end
place_fields (name ∷ names) (item v vs) = place_fields names vs >>= λ fs. ok (field name v fs)
place_fields _ _ = err malformed

abbrev pub struct_fields : List String → Read Fields
struct_fields names (object fs) = if only_keys names fs then ok fs else err malformed
struct_fields names (array vs) = place_fields names vs
struct_fields names _ = err malformed

-- A field that must be there, and one of an `Option`, which may be missing.
abbrev pub member {ℓ} : {A : Type ℓ} → Read A → String → Fields → Result A Malformed
member read key fs = elim (get key fs) [ none ↦ err malformed | some v ↦ read v ]

abbrev pub optional_member {ℓ} :
    {A : Type ℓ} → Read A → String → Fields → Result (Option A) Malformed
optional_member read key fs = elim (get key fs) [ none ↦ ok none | some v ↦ nullable read v ]

-- A list is read back if its items are.
pub read_items-map {ℓ} :
    {A : Type ℓ} (read : Read A) (write : A → Value)
    → ((a : A) → read (write a) ≡ ok a)
    → (xs : List A) → read_items read (items (map write xs)) ≡ ok xs
read_items-map read write h [] = refl
read_items-map read write h (x ∷ xs) = rw (h x, read_items-map read write h xs) refl
