-- ===== src/Worker/Native/Snapshot.antt =====
-- What a schema response of the libpq backend stands for.
use pg_mcp.Prelude.{some, ok, ◌≡◌, inl, inr, arith, Option-cases}
use pg_mcp.Protocol.Json.Canonical.{Writer}
use pg_mcp.Protocol.Catalog.{SchemaResult, validate_schema}
use pg_mcp.Config.{Config}
use pg_mcp.Libpq.{Adapter}
use pg_mcp.Schema.Retrieve.Committed.{IsCommitted, retrieve-IsCommitted}
use pg_mcp.Schema.Assembly.Stages.{assemble-IsPresentable}
use pg_mcp.Worker.Backend.{BackendObservation, RequestContext, schema}
use pg_mcp.Worker.Native.{NativeState, get_schema}
use pg_mcp.Worker.Translate.{libpq_control}

module _ (a : Adapter) (to_vec : Writer) (config : Config) (c : RequestContext)
    (s : NativeState a) where
  -- The connection was there, its read-only transaction is committed, and the response is the one
  -- assembled in it, within the limits that the worker checks.
  abbrev pub IsSnapshot : SchemaResult → Type 0
  IsSnapshot r =
      (conn : a.Connection) × (s.connection ≡ some conn)
      × (validate_schema to_vec config r ≡ ok tt)
      × IsCommitted to_vec a config c.deadline (libpq_control c) conn s.clock r

  -- A schema response of the backend was assembled in a read-only transaction that the server
  -- committed, and it passes the validation that the worker repeats before it answers.
  pub get_schema-IsSnapshot :
      (r : SchemaResult) (o : BackendObservation)
      → (get_schema a to_vec config c s).0 ≡ ok (schema r o)
      → IsSnapshot r
  unfolding get_schema
  get_schema-IsSnapshot r o h = elim (Option-cases s.connection) [
    | inl e ↦ absurd (ground (arith, e))
    | inr (conn, e) ↦
        let committed =
          retrieve-IsCommitted to_vec a config c.deadline (libpq_control c) conn s.clock r
            (ground (arith, e)) in
        let (relations, columns, constraints, _, _, _, _, made, _, _) = committed in
        (
          conn,
          e,
          (assemble-IsPresentable to_vec config relations.rows columns.rows constraints.rows r
              made).0,
          committed,
        )
  ]
