-- ===== src/Worker/Native/Contract.antt =====
-- The libpq backend keeps the contract that the worker relies on.
use pg_mcp.Prelude.{◌↔◌, is_ok, Option-cases, true, false, none, ok, ◌≡◌, ◌≢◌, ◌⊎◌, inl, inr, arith}
use pg_mcp.Protocol.Json.Canonical.{Writer}
use pg_mcp.Config.{Config}
use pg_mcp.Libpq
use pg_mcp.Libpq.{Adapter}
use pg_mcp.Worker.Backend.{
  BackendTransactionStatus, BackendObservation, BackendResult, RequestContext, closed,
  ShutdownWorkerResult,
}
use pg_mcp.Worker.Registry.{
  Operation, get_schema, open_read, open_write, commit, rollback, close, query,
}
use pg_mcp.Worker.Execute.{call}
use pg_mcp.Worker.Guidance.{IsNative}
use pg_mcp.Worker.Lawful.{Answers, Lawful}
use pg_mcp.Worker.Native.{
  NativeState, native_backend, observation, execute_command, open_transaction, after_query_error,
  dispatch_commit, shutdown,
}
use pg_mcp.Worker.Translate.{is_open}
use pg_mcp.Worker.Native

-- libpq's documentation of PQtransactionStatus: the status of a bad connection is unknown.
abbrev pub IsDocumented : Adapter → Type 0
IsDocumented a =
    (conn : a.Connection)
    → (a.status conn).connection_status ≢ Libpq.ConnectionStatus.good
    → (a.status conn).transaction_status ≡ Libpq.TransactionStatus.unknown

module _ (a : Adapter) (to_vec : Writer) where
  -- A call that succeeds answers in the kind of its operation: an opening with the mode that was
  -- asked for, the others each with their own answer.
  pub call-Answers :
      (op : Operation) (config : Config) (c : RequestContext) (s : NativeState a)
      (r : BackendResult)
      → (call (native_backend a to_vec) op config c s).0 ≡ ok r
      → Answers op r
  unfolding call Native.open_transaction Native.get_schema Native.query Native.after_query_error
      Native.commit Native.dispatch_commit Native.rollback Native.close
  call-Answers get_schema config c s r h = ground arith
  call-Answers open_read config c s r h = ground arith
  call-Answers open_write config c s r h = ground arith
  call-Answers (query q) config c s r h = ground arith
  call-Answers commit config c s r h = ground arith
  call-Answers rollback config c s r h = ground arith
  call-Answers close config c s r h = ground arith

  observation-IsNative : IsDocumented a → (s : NativeState a) → IsNative (observation a s)
  observation-IsNative doc s = elim (Option-cases s.connection) [
    | inl e ↦ ground (arith, e)
    | inr (conn, e) ↦ ground (arith, e, doc conn)
  ]

  native_closed_quiet :
      (op : Operation) (config : Config) (c : RequestContext) (s : NativeState a)
      (o : BackendObservation)
      → (call (native_backend a to_vec) op config c s).0 ≡ ok (closed o true)
      → (observation a (call (native_backend a to_vec) op config c s).1).busy ≡ false
  unfolding call Native.open_transaction Native.get_schema Native.query Native.after_query_error
      Native.commit Native.dispatch_commit Native.rollback Native.close
  native_closed_quiet get_schema config c s o h = ground arith
  native_closed_quiet open_read config c s o h = ground arith
  native_closed_quiet open_write config c s o h = ground arith
  native_closed_quiet (query q) config c s o h = ground arith
  native_closed_quiet commit config c s o h = ground arith
  native_closed_quiet rollback config c s o h = ground arith
  native_closed_quiet close config c s o h = ground arith

  -- With a status as libpq documents it, the backend over libpq keeps the worker's contract: each
  -- call answers in its own kind, and a close that is reported as verified leaves nothing busy.
  pub native_backend-Lawful : IsDocumented a → Lawful (native_backend a to_vec)
  native_backend-Lawful doc = record {
    answers = call-Answers;
    native = observation-IsNative doc;
    closed_quiet = native_closed_quiet;
  }

module _ (a : Adapter) where
  -- No connection is left, and the verdict is `verified` exactly if no transaction was open, or
  -- the rollback was answered and left the connection idle.
  abbrev pub IsShutDown : RequestContext → NativeState a → Type 0
  IsShutDown c s =
      let (answer, s') = execute_command a "ROLLBACK" c true s in
      ((shutdown a c s).1.connection ≡ none)
      × (((shutdown a c s).0 ≡ ShutdownWorkerResult.verified) ↔ (
          (is_open (observation a s).transaction_status ≡ false)
          ⊎ ((is_ok answer ≡ true)
              × ((observation a s').transaction_status ≡ BackendTransactionStatus.idle))))

  -- A shutdown leaves no connection, and is reported as verified exactly if no transaction was
  -- open, or the rollback was answered and left the connection idle.
  pub shutdown_iff : (c : RequestContext) (s : NativeState a) → IsShutDown c s
  unfolding shutdown
  shutdown_iff c s = ground arith
