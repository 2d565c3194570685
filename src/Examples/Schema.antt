-- ===== src/Examples/Schema.antt =====
-- The retrieval of a small catalog.
use pg_mcp.Prelude.{
  ℕ, zero, suc, String, len, Bool, true, ◌+◌, false, none, some, List, [], ◌∷◌, Result, ok, err,
  ◌≡◌, refl, arith, modify, lookup, insert, insert_sorted, sort_by,
}
use pg_mcp.Protocol.Rows.{Row, check_bytes}
use pg_mcp.Protocol.Request.{checked_add}
use pg_mcp.Protocol.Catalog
use pg_mcp.Protocol.Catalog.{
  SchemaColumn, Constraint, Relation, SchemaInfo, SchemaResult, validate_schema, count_schema,
  count_relation, count_column, count_constraint, check_default, check_schema_cell, checked_unit,
}
use pg_mcp.Libpq
use pg_mcp.Libpq.{
  Adapter, ResultSet, AdapterError, StatusSnapshot, PollControl, first_word, take_word,
}
use pg_mcp.Schema.{
  optional, required, parse_u32, parse_bool, relation_kind, constraint_kind, identity_kind,
  read_column, read_constraint,
}
use pg_mcp.Schema.Assembly.{assemble, find_relation, validate_partial, add_relation, add_item}
use pg_mcp.Schema.Assembly.Complete.{assemble_complete, response_weight, rows_weight}
use pg_mcp.Schema.Assembly.Stages.{assemble-IsPresentable, IsPresentable}
use pg_mcp.Schema.Retrieve.{retrieve, retrieve_inner}
use pg_mcp.Worker.Native.{NativeState, get_schema, observation}
use pg_mcp.Worker.Native.Snapshot.{get_schema-IsSnapshot, IsSnapshot}
use pg_mcp.Worker.Backend.{schema}
use pg_mcp.Worker.Translate.{libpq_control}
use pg_mcp.Examples.Data.{writer, settings, context}

-- One table with two columns, listed out of order, and one constraint.
abbrev relation_rows : List Row
relation_rows = (some "app" ∷ some "jobs" ∷ some "r" ∷ some "16384" ∷ []) ∷ []

abbrev column_row : String → String → Row
column_row name ordinal =
    some "app"
    ∷ some "jobs"
    ∷ some name
    ∷ some ordinal
    ∷ some "23"
    ∷ some "integer"
    ∷ some "f"
    ∷ none
    ∷ some ""
    ∷ some "f"
    ∷ []

abbrev column_rows : List Row
column_rows = column_row "state" "2" ∷ column_row "id" "1" ∷ []

abbrev constraint_rows : List Row
constraint_rows =
    (some "app" ∷ some "jobs" ∷ some "jobs_pkey" ∷ some "p" ∷ some "PRIMARY KEY (id)" ∷ []) ∷ []

abbrev column_of : String → ℕ → SchemaColumn
column_of name ordinal = record {
  name = name;
  ordinal = ordinal;
  type_oid = 23;
  type_name = "integer";
  nullable = false;
  default_expression = none;
  identity = Catalog.not_identity;
  generated = false;
}

abbrev key : Constraint
key = record { name = "jobs_pkey"; kind = Catalog.primary_key; definition = "PRIMARY KEY (id)" }

abbrev jobs : Relation
jobs = record {
  name = "jobs";
  kind = Catalog.table;
  columns = column_of "id" 1 ∷ column_of "state" 2 ∷ [];
  constraints = key ∷ [];
}

abbrev snapshot : SchemaResult
snapshot = record { schemas = record { name = "app"; relations = jobs ∷ [] } ∷ [] }

assembled : assemble writer settings relation_rows column_rows constraint_rows ≡ ok snapshot
unfolding assemble add_relation add_item validate_partial validate_schema count_schema
    count_relation count_column count_constraint check_default check_schema_cell checked_unit
    checked_add check_bytes required optional parse_u32 parse_bool relation_kind constraint_kind
    identity_kind read_column read_constraint find_relation insert_sorted sort_by modify lookup
    insert
assembled = refl

assemble_complete_example :
    response_weight (λ s r c. 1) (λ s r c. len s) snapshot
    ≡ rows_weight (λ s r c. 1) (λ s r c. len s) column_rows constraint_rows
assemble_complete_example =
    assemble_complete (λ s r c. 1) (λ s r c. len s) writer settings relation_rows column_rows
      constraint_rows snapshot assembled

assemble-IsPresentable_example :
    IsPresentable writer settings relation_rows column_rows constraint_rows snapshot
assemble-IsPresentable_example =
    assemble-IsPresentable writer settings relation_rows column_rows constraint_rows snapshot
      assembled

-- A server that counts the queries it has answered, and may lose the last one.
abbrev answer : List Row → ResultSet
answer rows = record { columns = []; rows = rows; command_tag = "SELECT"; affected_rows = none }

abbrev lost : AdapterError
lost = record {
  class_of = Libpq.ErrorClass.connection_lost;
  sqlstate = none;
  outcome_unknown = true;
}

abbrev answers : Bool → ℕ → Result ResultSet AdapterError
answers works zero = ok (answer relation_rows)
answers works (suc zero) = ok (answer column_rows)
answers true (suc (suc _)) = ok (answer constraint_rows)
answers false (suc (suc _)) = err lost

abbrev server : Bool → Adapter
server works = record {
  Connection = ℕ;
  status = λ conn. record {
    connection_status = Libpq.ConnectionStatus.good;
    transaction_status = Libpq.TransactionStatus.idle;
    busy = false;
  };
  execute = λ sql deadline control conn now. (
    ok (record { columns = []; rows = []; command_tag = first_word sql; affected_rows = none }),
    conn,
    now + 1,
  );
  query = λ sql ps limits deadline control conn now. (answers works conn, suc conn, now + 1);
  cancel_and_drain = λ reason deadline conn now. (ok true, conn, now);
}

retrieved :
    retrieve writer (server true) settings 100 (libpq_control context) 0 0 ≡ (ok snapshot, 3, 5)
unfolding retrieve retrieve_inner first_word take_word
retrieved = ground (arith, assembled)

not_retrieved :
    (retrieve writer (server false) settings 100 (libpq_control context) 0 0).0
    ≡ err (Libpq.backend lost)
unfolding retrieve retrieve_inner first_word take_word
not_retrieved = refl

abbrev session : NativeState (server true)
session = record { connection = some 0; clock = 0 }

get_schema_answers :
    (get_schema (server true) writer settings context session).0
    ≡ ok (schema snapshot (observation (server true) session))
unfolding get_schema
get_schema_answers = ground (arith, retrieved)

get_schema-IsSnapshot_example : IsSnapshot (server true) writer settings context session snapshot
get_schema-IsSnapshot_example =
    get_schema-IsSnapshot (server true) writer settings context session snapshot
      (observation (server true) session) get_schema_answers
