-- ===== src/Protocol/Json/Canonical.antt =====
-- protocol.rs: canonical JSON. Keys are sorted by their bytes at every level; arrays and scalars
-- keep their order and spelling.
use Prim.Native.Nat.{Ordering}
use Prim.Native.String.{compare}
use pg_mcp.Prelude.{ℕ, String, Bool, true, false, Option, List, if◌then◌else◌}
use pg_mcp.Protocol.Json.{
  Value, null, bool, number, string, array, object, Items, no_items, item, Fields, end, field,
}

-- The byte order of UTF-8 texts, which is the order of their code points.
abbrev pub str_le : String → String → Bool
str_le a b = elim (compare a b) [ Ordering.gt ↦ false | _ ↦ true ]

-- One step of the sort of the keys: before the first field with a greater key.
unfoldable pub place : String → Value → Fields → Fields
place k v end = field k v end
place k v (field j w fs) = if str_le k j then field k v (field j w fs) else field j w (place k v fs)

-- `keys.sort_by(...)`, with the value of each key.
unfoldable pub sort_fields : Fields → Fields
unfolding place
sort_fields end = end
sort_fields (field k v fs) = place k v (sort_fields fs)

-- `Map::insert`: in key order, and in place of a field with the same key.
unfoldable pub insert : String → Value → Fields → Fields
insert k v end = field k v end
insert k v (field j w fs) = elim (compare k j) [
  | Ordering.lt ↦ field k v (field j w fs)
  | Ordering.eq ↦ field k v fs
  | Ordering.gt ↦ field j w (insert k v fs)
]

-- `for key in keys { sorted.insert(key, ...) }`.
unfoldable pub insert_all : Fields → Fields → Fields
unfolding insert
insert_all end m = m
insert_all (field k v fs) m = insert_all fs (insert k v m)

-- `canonicalize`.
unfoldable mutual
  pub canonicalize : Value → Value
  canonicalize null = null
  canonicalize (bool b) = bool b
  canonicalize (number n) = number n
  canonicalize (string s) = string s
  canonicalize (array vs) = array (canonicalize_items vs)
  canonicalize (object fs) = object (insert_all (sort_fields (canonicalize_fields fs)) end)

  pub canonicalize_items : Items → Items
  canonicalize_items no_items = no_items
  canonicalize_items (item v vs) = item (canonicalize v) (canonicalize_items vs)

  pub canonicalize_fields : Fields → Fields
  canonicalize_fields end = end
  canonicalize_fields (field k v fs) = field k (canonicalize v) (canonicalize_fields fs)

-- serde_json's writer, which is not code of the repository: the bytes of a value, or a failure.
abbrev pub Writer : Type 0
Writer = Value → Option (List ℕ)
