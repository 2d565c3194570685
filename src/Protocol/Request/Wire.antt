-- ===== src/Protocol/Request/Wire.antt =====
-- protocol.rs: how a parameter and a query request are read from JSON.
use pg_mcp.Prelude.{
  ℕ, ◌^◌, ltb, if◌then◌else◌, none, some, List, [], ◌∷◌, Result, ok, err, ◌>>=◌, ◌>>◌,
}
use pg_mcp.Protocol.Json.{number, pos_int, object, Fields, get}
use pg_mcp.Protocol.Json.Derive.{
  Read, Malformed, malformed, read_string, nullable, read_vec, struct_fields, member,
}
use pg_mcp.Protocol.Errors.Wire.{require_keys, allow_keys, decode_value}
use pg_mcp.Protocol.Request.{Parameter, QueryRequest, validate_parameter}

-- A `u32`.
abbrev pub read_u32 : Read ℕ
read_u32 (number (pos_int n)) = if ltb n (2 ^ 32) then ok n else err malformed
read_u32 _ = err malformed

-- `D::Error::custom`, whose text is not read.
abbrev pub custom {ℓ κ} : {A : Type ℓ} {E : Type κ} → Result A E → Result A Malformed
custom (ok a) = ok a
custom (err e) = err malformed

-- `Deserialize for Parameter`.
unfoldable pub read_parameter : Read Parameter
unfolding require_keys allow_keys decode_value validate_parameter
read_parameter (object fs) = do
  custom (require_keys ("type_oid" ∷ "value" ∷ []) fs)
  custom (allow_keys ("type_oid" ∷ "value" ∷ []) fs)
  type_oid ← custom (decode_value (nullable read_u32) fs "type_oid")
  value ← custom (decode_value (nullable read_string) fs "value")
  custom (validate_parameter (record { type_oid = type_oid; value = value }))
  ok (record { type_oid = type_oid; value = value })
read_parameter _ = err malformed

-- `#[serde(default)] parameters`.
abbrev read_parameters : Fields → Result (List Parameter) Malformed
read_parameters fs = elim (get "parameters" fs) [
  | none ↦ ok []
  | some v ↦ read_vec read_parameter v
]

-- The derived reader of `QueryRequest`.
unfoldable pub read_request : Read QueryRequest
unfolding read_parameter get
read_request v = do
  fs ← struct_fields ("sql" ∷ "parameters" ∷ []) v
  sql ← member read_string "sql" fs
  parameters ← read_parameters fs
  ok (record { sql = sql; parameters = parameters })
