-- ===== src/Schema/Retrieve.antt =====
-- schema.rs: the retrieval of a snapshot inside one repeatable-read, read-only transaction.
pub mod Committed
use pg_mcp.Prelude.{ℕ, String, ◌^◌, ◌-◌, max, [], str_eq, if◌then◌else◌, Result, ok, err}
use pg_mcp.Protocol.Json.Canonical.{Writer}
use pg_mcp.Protocol.Catalog.{SchemaResult}
use pg_mcp.Config.{Config}
use pg_mcp.Libpq.{
  Adapter, PollControl, QueryLimits, ResultSet, SchemaError, backend, malformed, first_word,
}
use pg_mcp.Schema.Queries.{relations_sql, columns_sql, constraints_sql}
use pg_mcp.Schema.Assembly.{assemble}

-- The limits of the three queries: at least the ten columns of `COLUMNS_SQL`, and no limit on the
-- size of the encoded result but `usize::MAX`.
abbrev pub unlimited : Config → QueryLimits
unlimited config = record {
  sql_bytes = config.sql_bytes;
  parameters = config.parameters;
  parameter_bytes = config.parameter_bytes;
  result_rows = config.result_rows;
  columns = max config.columns 10;
  cell_bytes = config.cell_bytes;
  result_json_bytes = 2 ^ 64 - 1;
}

abbrev pub begin_sql : String
begin_sql = "BEGIN ISOLATION LEVEL REPEATABLE READ READ ONLY"

module _ (to_vec : Writer) (a : Adapter) (config : Config) (deadline : ℕ)
    (control : PollControl) where
  -- `query`.
  abbrev pub catalog_query :
      String → a.Connection → ℕ → Result ResultSet SchemaError × a.Connection × ℕ
  catalog_query sql conn now =
      let (answer, conn', now') = a.query sql [] (unlimited config) deadline control conn now in
      (elim answer [ ok r ↦ ok r | err e ↦ err (backend e) ], conn', now')

  -- `execute_checked`: the tag of the answer is the first word of the command.
  abbrev pub execute_checked :
      String → a.Connection → ℕ → Result (Unit {0}) SchemaError × a.Connection × ℕ
  execute_checked sql conn now =
      let (answer, conn', now') = a.execute sql deadline control conn now in
      (
        elim answer [
          | err e ↦ err (backend e)
          | ok r ↦ if str_eq r.command_tag (first_word sql) then ok tt else err malformed
        ],
        conn',
        now',
      )

  -- `retrieve_inner`.
  unfoldable pub retrieve_inner :
      a.Connection → ℕ → Result SchemaResult SchemaError × a.Connection × ℕ
  retrieve_inner conn now =
      let (relations, conn', now') = catalog_query relations_sql conn now in
      elim relations [
        | err e ↦ (err e, conn', now')
        | ok r ↦
            let (columns, conn'', now'') = catalog_query columns_sql conn' now' in
            elim columns [
              | err e ↦ (err e, conn'', now'')
              | ok c ↦
                  let (constraints, conn''', now''') = catalog_query constraints_sql conn'' now'' in
                  elim constraints [
                    | err e ↦ (err e, conn''', now''')
                    | ok k ↦ (assemble to_vec config r.rows c.rows k.rows, conn''', now''')
                  ]
            ]
      ]

  -- A failure after BEGIN: the answer of the ROLLBACK is dropped.
  abbrev pub rolled_back :
      SchemaError → a.Connection → ℕ → Result SchemaResult SchemaError × a.Connection × ℕ
  rolled_back e conn now =
      let (_, conn', now') = a.execute "ROLLBACK" deadline control conn now in (err e, conn', now')

  -- `retrieve`.
  unfoldable pub retrieve : a.Connection → ℕ → Result SchemaResult SchemaError × a.Connection × ℕ
  retrieve conn now =
      let (begun, conn', now') = execute_checked begin_sql conn now in
      elim begun [
        | err e ↦ (err e, conn', now')
        | ok _ ↦
            let (result, conn'', now'') = retrieve_inner conn' now' in
            elim result [
              | err e ↦ rolled_back e conn'' now''
              | ok snapshot ↦
                  let (committed, conn''', now''') = execute_checked "COMMIT" conn'' now'' in
                  elim committed [
                    | err e ↦ rolled_back e conn''' now'''
                    | ok _ ↦ (ok snapshot, conn''', now''')
                  ]
            ]
      ]
