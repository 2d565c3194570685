-- ===== src/Worker/Native.antt =====
-- worker.rs: `LibpqBackend`, the backend of a worker over one libpq connection.
pub mod Contract
pub mod Factory
pub mod Commit
pub mod Snapshot
pub mod Over
use pg_mcp.Prelude.{
  ℕ, String, Bool, true, false, ◌&&◌, ◌||◌, not, ◌+◌, Option, none, some, is_ok, map, str_eq,
  if◌then◌else◌, Result, ok, err,
}
use pg_mcp.Protocol.Errors.{
  ErrorCode, known_error, connection_lost, database_error, schema_limit, internal,
  commit_outcome_unknown, tx_failed, no_tx_open, active_transaction,
}
use pg_mcp.Protocol.Request.{Parameter, QueryRequest}
use pg_mcp.Protocol.Rows.{QueryResult, ResultColumn}
use pg_mcp.Protocol.Json.Canonical.{Writer}
use pg_mcp.Config.{Config}
use pg_mcp.Schema.Retrieve.{retrieve}
use pg_mcp.Libpq
use pg_mcp.Libpq.{
  Adapter, AdapterError, PollControl, ResultSet, StatusSnapshot, direct_ddl_command_tag,
}
use pg_mcp.Worker.Backend.{
  BackendConnectionStatus, BackendTransactionStatus, BackendObservation, BackendResult,
  BackendFailure, nothing_observed, RequestContext, ShutdownWorkerResult, Backend, cancelled,
  stopping, expired, is_cancelled,
}
use pg_mcp.Worker.Translate.{
  libpq_control, no_client_cancel_control, class_code, failure, refused, observe_connection,
  observe_transaction, observation_of, is_idle, is_open, limits, parameter, result_column,
  query_result,
}

module _ (a : Adapter) where
  -- The connection, if it is still there, and the instant at which the worker stands.
  pub record NativeState : Type 0 where
    pub connection : Option a.Connection
    pub clock : ℕ

  -- `LibpqBackend::observation`.
  abbrev pub observation : NativeState → BackendObservation
  observation s = elim s.connection [
    | none ↦ nothing_observed
    | some conn ↦ observation_of (a.status conn)
  ]

  abbrev pub moved_to : a.Connection × ℕ → NativeState
  moved_to (conn, now) = record { connection = some conn; clock = now }

  -- `LibpqBackend::execute_command`.
  unfoldable pub execute_command :
      String → RequestContext → Bool → NativeState → Result ResultSet BackendFailure × NativeState
  execute_command sql c ignore_client_cancel s = elim s.connection [
    | none ↦ (err (refused connection_lost (observation s) true), s)
    | some conn ↦
        let control =
          if ignore_client_cancel then no_client_cancel_control c else libpq_control c in
        let (answer, conn', now') = a.execute sql c.deadline control conn s.clock in
        let s' = moved_to (conn', now') in
        elim answer [ ok r ↦ (ok r, s') | err e ↦ (err (failure e (observation s')), s') ]
  ]

  -- `open_read` and `open_write`.
  unfoldable pub open_transaction :
      String
      → String
      → RequestContext
      → NativeState
      → Result BackendResult BackendFailure × NativeState
  open_transaction sql mode c s =
      let (answer, s') = execute_command sql c false s in
      elim answer [
        | err f ↦ (err f, s')
        | ok r ↦
            if str_eq r.command_tag "BEGIN"
            then (ok (BackendResult.opened mode (observation s')), s')
            else (err (refused database_error (observation s') false), s')
      ]

  -- `get_schema`.
  unfoldable pub get_schema :
      Writer
      → Config
      → RequestContext
      → NativeState
      → Result BackendResult BackendFailure × NativeState
  get_schema to_vec config c s = elim s.connection [
    | none ↦ (err (refused connection_lost (observation s) true), s)
    | some conn ↦
        let (answer, conn', now') =
          retrieve to_vec a config c.deadline (libpq_control c) conn s.clock in
        let s' = moved_to (conn', now') in
        elim answer [
          | ok r ↦ (ok (BackendResult.schema r (observation s')), s')
          | err Libpq.limit ↦ (err (refused schema_limit (observation s') false), s')
          | err Libpq.malformed ↦ (err (refused internal (observation s') false), s')
          | err (Libpq.backend e) ↦ (err (failure e (observation s')), s')
        ]
  ]

  -- The reason of the cancellation after a failed query, in the order of the code.
  abbrev pub cancel_reason : RequestContext → ℕ → Option Libpq.CancelReason
  cancel_reason c now =
      if stopping c now
      then some Libpq.CancelReason.shutdown
      else if cancelled c now
      then some Libpq.CancelReason.cancelled
      else if expired c now
      then some Libpq.CancelReason.deadline
      else none

  abbrev pub query_failure : RequestContext → AdapterError → BackendObservation → ℕ → BackendFailure
  query_failure c e o now =
      let f = failure e o in
      if cancelled c now || expired c now then record f { outcome_unknown = true } else f

  -- The `Err(error)` arm of `query`, on the connection that the query left.
  unfoldable pub after_query_error :
      RequestContext
      → AdapterError
      → a.Connection × ℕ
      → Result BackendResult BackendFailure × NativeState
  after_query_error c e (conn, now) =
      let o = observation_of (a.status conn) in
      elim (cancel_reason c now) [
        | none ↦ (err (query_failure c e o now), moved_to (conn, now))
        | some reason ↦
            let (drained, conn', now') =
              a.cancel_and_drain reason (now + c.cancel_drain_grace) conn now in
            let s' = moved_to (conn', now') in
            elim drained [
              | err x ↦ (err (failure x (observation s')), s')
              | ok b ↦ (err (query_failure c e o s'.clock), s')
            ]
      ]

  -- `query`.
  unfoldable pub query :
      QueryRequest
      → Config
      → RequestContext
      → NativeState
      → Result BackendResult BackendFailure × NativeState
  query r config c s = elim s.connection [
    | none ↦ (err (refused connection_lost (observation s) true), s)
    | some conn ↦
        let (answer, conn', now') =
          a.query r.sql (map parameter r.parameters) (limits config) c.deadline (libpq_control c)
            conn s.clock in
        elim answer [
          | ok result ↦ (
            ok (
                BackendResult.query (query_result result) (observation (moved_to (conn', now')))
                  (direct_ddl_command_tag result.command_tag)),
            moved_to (conn', now'),
          )
          | err e ↦ after_query_error c e (conn', now')
        ]
  ]

  -- `commit`, from the dispatch of COMMIT.
  unfoldable pub dispatch_commit :
      RequestContext → NativeState → Result BackendResult BackendFailure × NativeState
  dispatch_commit c s =
      let (answer, s') = execute_command "COMMIT" c true s in
      elim answer [
        | err f ↦ (
          err (record (refused commit_outcome_unknown (observation s') true) {
            sqlstate = f.sqlstate;
          }),
          s',
        )
        | ok r ↦
            if str_eq r.command_tag "COMMIT" && is_idle (observation s').transaction_status
            then (ok (BackendResult.committed (observation s')), s')
            else (err (refused commit_outcome_unknown (observation s') true), s')
      ]

  -- `commit`.
  unfoldable pub commit :
      RequestContext → NativeState → Result BackendResult BackendFailure × NativeState
  commit c s = elim (observation s).transaction_status [
    | BackendTransactionStatus.in_error ↦ (err (refused tx_failed (observation s) false), s)
    | BackendTransactionStatus.in_transaction ↦ dispatch_commit c s
    | _ ↦ (err (refused no_tx_open (observation s) false), s)
  ]

  -- `rollback`.
  unfoldable pub rollback :
      RequestContext → NativeState → Result BackendResult BackendFailure × NativeState
  rollback c s =
      let (answer, s') = execute_command "ROLLBACK" c true s in
      if is_idle (observation s).transaction_status
      then (ok (BackendResult.rolled_back false (observation s)), s)
      else elim answer [
        | err f ↦ (err f, s')
        | ok r ↦
            if str_eq r.command_tag "ROLLBACK" && is_idle (observation s').transaction_status
            then (ok (BackendResult.rolled_back true (observation s')), s')
            else (err (refused connection_lost (observation s') true), s')
      ]

  -- `close`.
  unfoldable pub close :
      RequestContext → NativeState → Result BackendResult BackendFailure × NativeState
  close c s =
      if is_open (observation s).transaction_status
      then (err (refused active_transaction (observation s) false), s)
      else (ok (BackendResult.closed nothing_observed true), record s { connection = none })

  -- `shutdown`.
  unfoldable pub shutdown : RequestContext → NativeState → ShutdownWorkerResult × NativeState
  shutdown c s =
      let (answer, s') = execute_command "ROLLBACK" c true s in
      if is_open (observation s).transaction_status
      then (
        if is_ok answer && is_idle (observation s').transaction_status
            then ShutdownWorkerResult.verified
            else ShutdownWorkerResult.uncertain "rollback",
        record s' { connection = none },
      )
      else (ShutdownWorkerResult.verified, record s { connection = none })

  -- `LibpqBackend`.
  abbrev pub native_backend : Writer → Backend
  native_backend to_vec = record {
    State = NativeState;
    open_read = open_transaction "BEGIN READ ONLY" "read";
    open_write = open_transaction "BEGIN READ WRITE" "write";
    get_schema = get_schema to_vec;
    query = query;
    commit = commit;
    rollback = rollback;
    close = close;
    observe = observation;
    shutdown = shutdown;
  }
