-- ===== src/Schema.antt =====
-- crates/postgres-mcp-core/src/schema.rs: the assembly of catalog rows into a schema response.
pub mod Queries
pub mod Assembly
pub mod Retrieve
use Prim.Native.String.{compare}
use Prim.Native.Nat.{Ordering}
use pg_mcp.Prelude.{
  ℕ, zero, suc, String, Bool, true, false, not, ◌+◌, ◌-◌, ◌*◌, ◌^◌, leb, ltb, ◌==◌, ◌&&◌, Option,
  none, some, is_some, List, [], ◌∷◌, ◌++◌, map, length, str_eq, Map, lookup, insert, Result, ok,
  err, ◌>>=◌, ◌>>◌, fail_if, if◌then◌else◌,
}
use pg_mcp.Protocol.Status.{ValidationError, schema_limit, result_limit}
use pg_mcp.Protocol.Json.Canonical.{Writer}
use pg_mcp.Protocol.Errors.{codes, is_ascii_digit}
use pg_mcp.Protocol.Rows.{Row}
use pg_mcp.Protocol.Catalog
use pg_mcp.Protocol.Catalog.{
  RelationKind, IdentityKind, ConstraintKind, SchemaColumn, Constraint, Relation, SchemaInfo,
  SchemaResult, validate_schema,
}
use pg_mcp.Config.{Config}
use pg_mcp.Libpq.{SchemaError, limit, malformed}

-- `slice::get`.
abbrev pub nth {ℓ} : {A : Type ℓ} → List A → ℕ → Option A
nth [] i = none
nth (x ∷ xs) zero = some x
nth (x ∷ xs) (suc i) = nth xs i

-- `optional`: a field that is there and is not NULL.
unfoldable pub optional : Row → ℕ → Option String
optional row i = elim (nth row i) [ none ↦ none | some field ↦ field ]

-- `required`.
unfoldable pub required : Row → ℕ → Result String SchemaError
required row i = elim (optional row i) [ none ↦ err malformed | some text ↦ ok text ]

-- The digits of a `u32`, after those read so far.
abbrev pub u32_digits : ℕ → List ℕ → Option ℕ
u32_digits acc [] = some acc
u32_digits acc (c ∷ cs) =
    let next = acc * 10 + (c - 48) in
    let rest = u32_digits next cs in if is_ascii_digit c && ltb next (2 ^ 32) then rest else none

-- An optional plus sign, and at least one digit.
abbrev unsigned_digits : List ℕ → Option ℕ
unsigned_digits [] = none
unsigned_digits (c ∷ cs) = u32_digits 0 (c ∷ cs)

abbrev signed_digits : List ℕ → Option ℕ
signed_digits [] = none
signed_digits (c ∷ cs) = if c == 43 then unsigned_digits cs else unsigned_digits (c ∷ cs)

-- `parse::<u32>()`.
unfoldable pub parse_u32 : String → Result ℕ SchemaError
parse_u32 text = elim (signed_digits (codes text)) [ none ↦ err malformed | some n ↦ ok n ]

-- `parse_bool`.
unfoldable pub parse_bool : String → Result Bool SchemaError
parse_bool text =
    if str_eq text "t" then ok true else if str_eq text "f" then ok false else err malformed

-- `relation_kind`.
unfoldable pub relation_kind : String → Result RelationKind SchemaError
relation_kind text =
    if str_eq text "r"
    then ok Catalog.table
    else if str_eq text "p"
    then ok Catalog.partitioned_table
    else if str_eq text "v"
    then ok Catalog.view
    else if str_eq text "m"
    then ok Catalog.materialized_view
    else if str_eq text "f"
    then ok Catalog.foreign_table
    else err malformed

-- `constraint_kind`.
unfoldable pub constraint_kind : String → Result ConstraintKind SchemaError
constraint_kind text =
    if str_eq text "p"
    then ok Catalog.primary_key
    else if str_eq text "u"
    then ok Catalog.unique
    else if str_eq text "f"
    then ok Catalog.foreign_key
    else if str_eq text "c"
    then ok Catalog.check
    else if str_eq text "x"
    then ok Catalog.exclusion
    else err malformed

-- The match on `attidentity`.
unfoldable pub identity_kind : Option String → Result IdentityKind SchemaError
identity_kind none = ok Catalog.not_identity
identity_kind (some text) =
    if str_eq text ""
    then ok Catalog.not_identity
    else if str_eq text "a"
    then ok Catalog.always
    else if str_eq text "d"
    then ok Catalog.by_default
    else err malformed

-- The column that a row of `COLUMNS_SQL` describes.
unfoldable pub read_column : Row → Result SchemaColumn SchemaError
read_column row = do
  ordinal_text ← required row 3
  ordinal ← parse_u32 ordinal_text
  oid_text ← required row 4
  type_oid ← parse_u32 oid_text
  nullable_text ← required row 6
  nullable ← parse_bool nullable_text
  identity ← identity_kind (optional row 8)
  name ← required row 2
  type_name ← required row 5
  generated_text ← required row 9
  generated ← parse_bool generated_text
  ok (record {
    name = name;
    ordinal = ordinal;
    type_oid = type_oid;
    type_name = type_name;
    nullable = nullable;
    default_expression = optional row 7;
    identity = identity;
    generated = generated;
  })

-- The constraint that a row of `CONSTRAINTS_SQL` describes.
unfoldable pub read_constraint : Row → Result Constraint SchemaError
read_constraint row = do
  name ← required row 2
  kind_text ← required row 3
  kind ← constraint_kind kind_text
  definition ← required row 4
  ok (record { name = name; kind = kind; definition = definition })
