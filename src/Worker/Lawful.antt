-- ===== src/Worker/Lawful.antt =====
-- What a worker relies on from its backend.
use pg_mcp.Prelude.{true, false, ok, ◌≡◌}
use pg_mcp.Config.{Config}
use pg_mcp.Worker.Backend.{
  Backend, BackendResult, BackendObservation, RequestContext, opened, schema, committed,
  rolled_back, closed,
}
use pg_mcp.Worker.Registry.{
  Operation, get_schema, open_read, open_write, commit, rollback, close, query,
}
use pg_mcp.Worker.Execute.{call}
use pg_mcp.Worker.Guidance.{IsNative}

-- The answers that belong to an operation.
abbrev pub Answers : Operation → BackendResult → Type 0
Answers get_schema (schema s o) = Unit
Answers open_read (opened mode o) = mode ≡ "read"
Answers open_write (opened mode o) = mode ≡ "write"
Answers (query r) (BackendResult.query q o ddl) = Unit
Answers commit (committed o) = Unit
Answers rollback (rolled_back changed o) = Unit
Answers close (closed o verified) = Unit
Answers _ _ = ⊥

-- Each call answers in its own kind, native observations are as libpq documents them, and after a
-- close that is reported as verified nothing is busy.
pub record Lawful (b : Backend) : Type 0 where
  pub answers :
      (op : Operation) (config : Config) (c : RequestContext) (s : b.State) (a : BackendResult)
      → (call b op config c s).0 ≡ ok a
      → Answers op a
  pub native : (s : b.State) → IsNative (b.observe s)
  pub closed_quiet :
      (op : Operation) (config : Config) (c : RequestContext) (s : b.State) (o : BackendObservation)
      → (call b op config c s).0 ≡ ok (closed o true)
      → (b.observe (call b op config c s).1).busy ≡ false
