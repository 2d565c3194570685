-- ===== src/Schema/Assembly.antt =====
-- schema.rs: the relations collected so far, and the response made of them.
pub mod Order
pub mod Stages
mod Growth
pub mod Complete
use pg_mcp.Prelude.{
  ℕ, String, Bool, true, false, not, ◌==◌, leb, Option, none, some, List, [], ◌∷◌, ◌++◌, map,
  length, Map, lookup, modify, entry_or_insert, Result, ok, err, sort_by, text_le, ◌>>=◌, ◌>>◌,
  fail_if,
}
use pg_mcp.Protocol.Status.{ValidationError, schema_limit, result_limit}
use pg_mcp.Protocol.Json.Canonical.{Writer}
use pg_mcp.Protocol.Rows.{Row}
use pg_mcp.Protocol.Catalog.{
  SchemaColumn, Constraint, Relation, RelationKind, SchemaInfo, SchemaResult, validate_schema,
}
use pg_mcp.Config.{Config}
use pg_mcp.Libpq.{SchemaError, limit, malformed}
use pg_mcp.Schema.{required, parse_u32, relation_kind, read_column, read_constraint}

-- The relations by schema and name.
abbrev pub Schemas : Type 0
Schemas = Map (Map Relation)

abbrev pub by_ordinal : SchemaColumn → SchemaColumn → Bool
by_ordinal a b = leb a.ordinal b.ordinal

abbrev pub by_name : Constraint → Constraint → Bool
by_name a b = text_le a.name b.name

-- `schema_from_maps`, which `retrieve_inner` repeats at its end.
abbrev pub sorted_relation : Relation → Relation
sorted_relation r = record r {
  columns = sort_by by_ordinal r.columns;
  constraints = sort_by by_name r.constraints;
}

abbrev pub sorted_relations : Map Relation → List Relation
sorted_relations [] = []
sorted_relations ((_, r) ∷ relations) = sorted_relation r ∷ sorted_relations relations

abbrev pub schema_infos : Schemas → List SchemaInfo
schema_infos [] = []
schema_infos ((name, relations) ∷ schemas) =
    let rest = schema_infos schemas in
    elim relations [
      | [] ↦ rest
      | first ∷ others ↦
          record { name = name; relations = sorted_relations (first ∷ others) } ∷ rest
    ]

abbrev pub schema_from_maps : Schemas → SchemaResult
schema_from_maps schemas = record { schemas = schema_infos schemas }

-- The relation that the first loop inserts, and the writes of the other two.
abbrev pub new_relation : String → RelationKind → Relation
new_relation name kind = record { name = name; kind = kind; columns = []; constraints = [] }

abbrev pub push_column : SchemaColumn → Relation → Relation
push_column column r = record r { columns = r.columns ++ column ∷ [] }

abbrev pub push_constraint : Constraint → Relation → Relation
push_constraint constraint r = record r { constraints = r.constraints ++ constraint ∷ [] }

-- `schemas.get_mut(schema).and_then(|relations| relations.get_mut(relation))`, as a read.
unfoldable pub find_relation : String → String → Schemas → Result Relation SchemaError
find_relation schema relation schemas = elim (lookup schema schemas) [
  | none ↦ err malformed
  | some relations ↦ elim (lookup relation relations) [ none ↦ err malformed | some r ↦ ok r ]
]

abbrev pub write_relation : String → String → (Relation → Relation) → Schemas → Schemas
write_relation schema relation write schemas = modify schema (modify relation write) schemas

module _ (to_vec : Writer) (config : Config) where
  -- The `map_err` of both validations.
  abbrev pub schema_error : ValidationError → SchemaError
  schema_error schema_limit = limit
  schema_error result_limit = limit
  schema_error _ = malformed

  -- `validate_partial`.
  unfoldable pub validate_partial : Schemas → Result (Unit {0}) SchemaError
  validate_partial schemas = elim (validate_schema to_vec config (schema_from_maps schemas)) [
    | ok _ ↦ ok tt
    | err e ↦ err (schema_error e)
  ]

  abbrev pub validated : Schemas → Result Schemas SchemaError
  validated schemas = validate_partial schemas >> ok schemas

  -- The body of the loop over the relations.
  unfoldable pub add_relation : Schemas → Row → Result Schemas SchemaError
  add_relation schemas row = do
    fail_if (not (length row == 4)) malformed
    schema ← required row 0
    relation ← required row 1
    kind_text ← required row 2
    kind ← relation_kind kind_text
    oid_text ← required row 3
    _ ← parse_u32 oid_text
    validated (
        modify schema (entry_or_insert relation (new_relation relation kind))
          (entry_or_insert schema [] schemas))

  -- The bodies of the loops over the columns and over the constraints: rows of that width describe
  -- an item of a relation that is there.
  unfoldable pub add_item :
      {A : Type 0}
      → ℕ
      → (Row → Result A SchemaError)
      → (A → Relation → Relation)
      → Schemas
      → Row
      → Result Schemas SchemaError
  add_item width read push schemas row = do
    fail_if (not (length row == width)) malformed
    schema ← required row 0
    relation ← required row 1
    _ ← find_relation schema relation schemas
    item ← read row
    validated (write_relation schema relation (push item) schemas)

  abbrev pub add_column : Schemas → Row → Result Schemas SchemaError
  add_column = add_item 10 read_column push_column

  abbrev pub add_constraint : Schemas → Row → Result Schemas SchemaError
  add_constraint = add_item 5 read_constraint push_constraint

  -- A loop over rows that may stop with an error.
  abbrev pub each_row :
      (Schemas → Row → Result Schemas SchemaError) → Schemas → List Row → Result Schemas SchemaError
  each_row step schemas [] = ok schemas
  each_row step schemas (row ∷ rows) = step schemas row >>= λ next. each_row step next rows

  -- `retrieve_inner`, from the answers of its three queries.
  unfoldable pub assemble : List Row → List Row → List Row → Result SchemaResult SchemaError
  assemble relations columns constraints = do
    with_relations ← each_row add_relation [] relations
    with_columns ← each_row add_column with_relations columns
    schemas ← each_row add_constraint with_columns constraints
    validate_partial schemas
    ok (schema_from_maps schemas)
