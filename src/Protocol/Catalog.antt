-- ===== src/Protocol/Catalog.antt =====
-- protocol.rs: the schema response and its aggregate limits.
pub mod Counting
pub mod Budget
use pg_mcp.Prelude.{
  ℕ, String, len, Bool, true, false, Option, none, some, List, [], ◌∷◌, map, ltb, Result, ok, err,
  ◌>>=◌, ◌>>◌, fail_if,
}
use pg_mcp.Protocol.Status.{Check, ValidationError, schema_limit}
use pg_mcp.Protocol.Json.{
  Value, bool, string, array, object, end, field, items, text_or_null, unsigned,
}
use pg_mcp.Protocol.Json.Canonical.{Writer}
use pg_mcp.Protocol.Request.{checked_add}
use pg_mcp.Protocol.Rows.{check_bytes}
use pg_mcp.Config.{Config}

pub data RelationKind : Type 0 where
  table partitioned_table view materialized_view foreign_table : RelationKind

pub data IdentityKind : Type 0 where
  not_identity always by_default : IdentityKind

pub data ConstraintKind : Type 0 where
  primary_key unique foreign_key check exclusion : ConstraintKind

pub record SchemaColumn : Type 0 where
  pub name : String
  pub ordinal : ℕ
  pub type_oid : ℕ
  pub type_name : String
  pub nullable : Bool
  pub default_expression : Option String
  pub identity : IdentityKind
  pub generated : Bool

pub record Constraint : Type 0 where
  pub name : String
  pub kind : ConstraintKind
  pub definition : String

pub record Relation : Type 0 where
  pub name : String
  pub kind : RelationKind
  pub columns : List SchemaColumn
  pub constraints : List Constraint

pub record SchemaInfo : Type 0 where
  pub name : String
  pub relations : List Relation

pub record SchemaResult : Type 0 where
  pub schemas : List SchemaInfo

-- How serde writes the response.
relation_kind_text : RelationKind → String
relation_kind_text table = "table"
relation_kind_text partitioned_table = "partitioned_table"
relation_kind_text view = "view"
relation_kind_text materialized_view = "materialized_view"
relation_kind_text foreign_table = "foreign_table"

identity_text : IdentityKind → String
identity_text not_identity = "none"
identity_text always = "always"
identity_text by_default = "by_default"

constraint_kind_text : ConstraintKind → String
constraint_kind_text primary_key = "primary_key"
constraint_kind_text unique = "unique"
constraint_kind_text foreign_key = "foreign_key"
constraint_kind_text check = "check"
constraint_kind_text exclusion = "exclusion"

column_value : SchemaColumn → Value
column_value c = object (
    field "name" (string c.name) (
      field "ordinal" (unsigned c.ordinal) (
        field "type_oid" (unsigned c.type_oid) (
          field "type_name" (string c.type_name) (
            field "nullable" (bool c.nullable) (
              field "default_expression" (text_or_null c.default_expression) (
                field "identity" (string (identity_text c.identity))
                  (field "generated" (bool c.generated) end))))))))

constraint_value : Constraint → Value
constraint_value c = object (
    field "name" (string c.name) (
      field "kind" (string (constraint_kind_text c.kind))
        (field "definition" (string c.definition) end)))

relation_value : Relation → Value
relation_value r = object (
    field "name" (string r.name) (
      field "kind" (string (relation_kind_text r.kind)) (
        field "columns" (array (items (map column_value r.columns)))
          (field "constraints" (array (items (map constraint_value r.constraints))) end))))

schema_info_value : SchemaInfo → Value
schema_info_value s = object (
    field "name" (string s.name)
      (field "relations" (array (items (map relation_value s.relations))) end))

pub schema_value : SchemaResult → Value
unfolding schema_info_value relation_value constraint_value column_value
schema_value r = object (field "schemas" (array (items (map schema_info_value r.schemas))) end)

-- `check_schema_cell`.
unfoldable pub check_schema_cell : ℕ → String → Check
check_schema_cell limit value = fail_if (ltb limit (len value)) schema_limit

-- `checked_unit`.
unfoldable pub checked_unit : ℕ → Result ℕ ValidationError
unfolding checked_add
checked_unit units = checked_add units 1 schema_limit

-- A loop that counts units and may stop with an error.
abbrev pub count_each {ℓ} :
    {A : Type ℓ} → (ℕ → A → Result ℕ ValidationError) → ℕ → List A → Result ℕ ValidationError
count_each step units [] = ok units
count_each step units (x ∷ xs) = step units x >>= λ next. count_each step next xs

-- The loop bodies of `SchemaResult::validate`, from the inside out.
unfoldable pub check_default : ℕ → Option String → Check
check_default limit none = ok tt
check_default limit (some text) = check_schema_cell limit text

unfoldable pub count_column : Config → ℕ → SchemaColumn → Result ℕ ValidationError
count_column config units c = do
  next ← checked_unit units
  check_schema_cell config.cell_bytes c.name
  check_schema_cell config.cell_bytes c.type_name
  check_default config.cell_bytes c.default_expression
  ok next

unfoldable pub count_constraint : Config → ℕ → Constraint → Result ℕ ValidationError
count_constraint config units c = do
  next ← checked_unit units
  check_schema_cell config.cell_bytes c.name
  check_schema_cell config.cell_bytes c.definition
  ok next

unfoldable pub count_relation : Config → ℕ → Relation → Result ℕ ValidationError
count_relation config units r = do
  own ← checked_unit units
  check_schema_cell config.cell_bytes r.name
  with_columns ← count_each (count_column config) own r.columns
  total ← count_each (count_constraint config) with_columns r.constraints
  fail_if (ltb config.result_rows total) schema_limit
  ok total

unfoldable pub count_schema : Config → ℕ → SchemaInfo → Result ℕ ValidationError
count_schema config units s = do
  own ← checked_unit units
  check_schema_cell config.cell_bytes s.name
  fail_if (ltb config.result_rows own) schema_limit
  count_each (count_relation config) own s.relations

-- `SchemaResult::validate`.
unfoldable pub validate_schema : Writer → Config → SchemaResult → Check
validate_schema to_vec config r = do
  _ ← count_each (count_schema config) 0 r.schemas
  check_bytes to_vec (schema_value r) config.result_json_bytes schema_limit
