-- ===== src/Worker/Translate.antt =====
-- worker.rs: what `LibpqBackend` hands to the adapter, and how it reads what comes back.
use pg_mcp.Prelude.{Bool, true, false, ◌||◌, none, map, ◌≡◌, refl}
use pg_mcp.Protocol.Errors.{ErrorCode, known_error, code, message}
use pg_mcp.Protocol.Request.{Parameter}
use pg_mcp.Protocol.Rows.{QueryResult, ResultColumn}
use pg_mcp.Config.{Config}
use pg_mcp.Libpq
use pg_mcp.Libpq.{
  Adapter, AdapterError, PollControl, ResultSet, StatusSnapshot, direct_ddl_command_tag,
}
use pg_mcp.Worker.Backend.{
  BackendConnectionStatus, BackendTransactionStatus, BackendObservation, BackendFailure,
  RequestContext, cancelled, stopping, expired,
}

-- The impls of `PollControl`.
abbrev pub libpq_control : RequestContext → PollControl
libpq_control c = record {
  shutdown_requested = λ now. stopping c now;
  cancelled = λ now. cancelled c now || expired c now;
  cancel_drain_grace = c.cancel_drain_grace;
}

abbrev pub no_client_cancel_control : RequestContext → PollControl
no_client_cancel_control c = record {
  shutdown_requested = λ now. stopping c now;
  cancelled = λ now. false;
  cancel_drain_grace = c.cancel_drain_grace;
}

-- `LibpqBackend::failure`.
abbrev pub class_code : Libpq.ErrorClass → ErrorCode
class_code Libpq.config = ErrorCode.config_error
class_code Libpq.ErrorClass.invalid_input = ErrorCode.invalid_input
class_code Libpq.database = ErrorCode.database_error
class_code Libpq.ErrorClass.database_mismatch = ErrorCode.database_mismatch
class_code Libpq.ErrorClass.connection_lost = ErrorCode.connection_lost
class_code Libpq.ErrorClass.unsupported_server = ErrorCode.unsupported_server
class_code Libpq.ErrorClass.result_limit = ErrorCode.result_limit
class_code Libpq.ErrorClass.copy_unsupported = ErrorCode.copy_unsupported
class_code Libpq.ErrorClass.cancelled = ErrorCode.cancelled
class_code Libpq.ErrorClass.deadline_exceeded = ErrorCode.deadline_exceeded
class_code Libpq.ErrorClass.server_stopping = ErrorCode.server_stopping
class_code Libpq.ErrorClass.internal = ErrorCode.internal

abbrev pub failure : AdapterError → BackendObservation → BackendFailure
failure e o = record {
  error = known_error (class_code e.class_of);
  observation = o;
  sqlstate = e.sqlstate;
  outcome_unknown = e.outcome_unknown;
}

-- The failures that the backend makes on its own.
abbrev pub refused : ErrorCode → BackendObservation → Bool → BackendFailure
refused code o outcome_unknown = record {
  error = known_error code;
  observation = o;
  sqlstate = none;
  outcome_unknown = outcome_unknown;
}

abbrev pub observe_connection : Libpq.ConnectionStatus → BackendConnectionStatus
observe_connection Libpq.good = BackendConnectionStatus.good
observe_connection Libpq.ConnectionStatus.bad = BackendConnectionStatus.bad
observe_connection Libpq.ConnectionStatus.closed = BackendConnectionStatus.unknown

abbrev pub observe_transaction : Libpq.TransactionStatus → BackendTransactionStatus
observe_transaction Libpq.idle = BackendTransactionStatus.idle
observe_transaction Libpq.active = BackendTransactionStatus.active
observe_transaction Libpq.in_transaction = BackendTransactionStatus.in_transaction
observe_transaction Libpq.in_error = BackendTransactionStatus.in_error
observe_transaction Libpq.unknown = BackendTransactionStatus.unknown

abbrev pub observation_of : StatusSnapshot → BackendObservation
observation_of s = record {
  connection_status = observe_connection s.connection_status;
  transaction_status = observe_transaction s.transaction_status;
  busy = s.busy;
}

abbrev pub is_idle : BackendTransactionStatus → Bool
is_idle BackendTransactionStatus.idle = true
is_idle _ = false

abbrev pub is_open : BackendTransactionStatus → Bool
is_open BackendTransactionStatus.in_transaction = true
is_open BackendTransactionStatus.in_error = true
is_open _ = false

abbrev pub limits : Config → Libpq.QueryLimits
limits config = record {
  sql_bytes = config.sql_bytes;
  parameters = config.parameters;
  parameter_bytes = config.parameter_bytes;
  result_rows = config.result_rows;
  columns = config.columns;
  cell_bytes = config.cell_bytes;
  result_json_bytes = config.result_json_bytes;
}

abbrev pub parameter : Parameter → Libpq.QueryParameter
parameter p = record { type_oid = p.type_oid; value = p.value }

abbrev pub result_column : Libpq.Column → ResultColumn
result_column c = record { name = c.name; type_oid = c.type_oid }

abbrev pub query_result : ResultSet → QueryResult
query_result r = record {
  columns = map result_column r.columns;
  rows = r.rows;
  command_tag = r.command_tag;
  affected_rows = r.affected_rows;
}

-- The backend keeps the code and the message of the adapter's error.
class_code_lem :
    (c : Libpq.ErrorClass)
    → (code (class_code c) ≡ Libpq.class_name c) × (message (class_code c) ≡ Libpq.class_message c)
unfolding code message Libpq.class_name Libpq.class_message
class_code_lem Libpq.config = (refl, refl)
class_code_lem Libpq.ErrorClass.invalid_input = (refl, refl)
class_code_lem Libpq.database = (refl, refl)
class_code_lem Libpq.ErrorClass.database_mismatch = (refl, refl)
class_code_lem Libpq.ErrorClass.connection_lost = (refl, refl)
class_code_lem Libpq.ErrorClass.unsupported_server = (refl, refl)
class_code_lem Libpq.ErrorClass.result_limit = (refl, refl)
class_code_lem Libpq.ErrorClass.copy_unsupported = (refl, refl)
class_code_lem Libpq.ErrorClass.cancelled = (refl, refl)
class_code_lem Libpq.ErrorClass.deadline_exceeded = (refl, refl)
class_code_lem Libpq.ErrorClass.server_stopping = (refl, refl)
class_code_lem Libpq.ErrorClass.internal = (refl, refl)
