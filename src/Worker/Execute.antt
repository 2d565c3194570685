-- ===== src/Worker/Execute.antt =====
-- worker.rs: `operation_precondition` and `execute_operation`.
use pg_mcp.Prelude.{
  ℕ, String, Bool, true, false, Option, none, some, if◌then◌else◌, is_ok, Result, ok, err,
}
use pg_mcp.Protocol.Status.{
  HandleState, closed_state, ValidationError, parameter_count_limit, parameter_byte_limit,
  embedded_nul, invalid_query,
}
use pg_mcp.Protocol.Json.{Value, null, bool, string, singleton, object, field, end}
use pg_mcp.Protocol.Json.Canonical.{Writer}
use pg_mcp.Protocol.Errors.{
  ErrorCode, CoreError, known_error, unknown_error, handle_unknown, tx_already_open,
  schema_required, tx_failed, queue_full, no_tx_open, connection_lost, active_transaction,
  server_stopping, cancelled, deadline_exceeded, invalid_input, schema_limit, result_limit,
  cleanup_uncertain,
}
use pg_mcp.Protocol.Envelope.{
  Envelope, success_envelope, error_envelope, error_envelope_with_sqlstate,
}
use pg_mcp.Protocol.Request.{validate_with_limits}
use pg_mcp.Protocol.Rows.{query_value, validate_result}
use pg_mcp.Protocol.Catalog.{schema_value, validate_schema}
use pg_mcp.Config.{Config}
use pg_mcp.Worker.Backend.{
  BackendTransactionStatus, idle, active, in_transaction, in_error, BackendResult, BackendFailure,
  RequestContext, Backend, stopping, cancelled as context_cancelled, expired,
}
use pg_mcp.Worker.Registry.{
  PublishedHandle, RegistryState, Operation, get_schema, open_read, open_write, commit, rollback,
  close, query, published_of, current_state, current_database, current_schema_dirty,
  update_observation, update_schema_dirty, publish_closed,
}

-- The `match` of `operation_precondition` on a handle that is not closed: the operation, the
-- published transaction status, and whether a schema was observed.
unfoldable pub refusal : Operation → BackendTransactionStatus → Bool → Option ErrorCode
refusal get_schema idle observed = none
refusal get_schema _ observed = some tx_already_open
refusal open_read t false = some schema_required
refusal open_read idle true = none
refusal open_read in_error true = some tx_failed
refusal open_read _ true = some tx_already_open
refusal open_write t false = some schema_required
refusal open_write idle true = none
refusal open_write in_error true = some tx_failed
refusal open_write _ true = some tx_already_open
refusal (query r) t false = some schema_required
refusal (query r) in_transaction true = none
refusal (query r) in_error true = some tx_failed
refusal (query r) active true = some queue_full
refusal (query r) idle true = some no_tx_open
refusal (query r) BackendTransactionStatus.unknown true = some connection_lost
refusal commit in_transaction observed = none
refusal commit in_error observed = some tx_failed
refusal commit _ observed = some no_tx_open
refusal rollback active observed = some connection_lost
refusal rollback BackendTransactionStatus.unknown observed = some connection_lost
refusal rollback _ observed = none
refusal close in_transaction observed = some active_transaction
refusal close in_error observed = some active_transaction
refusal close _ observed = none

unfoldable pub published_refusal : Operation → PublishedHandle → Option ErrorCode
unfolding refusal
published_refusal op p =
    if p.closed
    then some handle_unknown
    else refusal op p.observation.transaction_status p.schema_observed

-- `operation_precondition`; a handle that is not registered is not refused here.
unfoldable pub operation_precondition : RegistryState → String → Operation → Option ErrorCode
unfolding published_refusal
operation_precondition r h op = elim (published_of h r) [
  | none ↦ none
  | some p ↦ published_refusal op p
]

-- `CoreFailure`.
pub record CoreFailure : Type 0 where
  pub error : CoreError
  pub handle_state : Option HandleState
  pub sqlstate : Option String
  pub outcome_unknown : Bool

-- `CoreFailure::process`.
abbrev pub process_failure : CoreError → CoreFailure
process_failure e = record {
  error = e;
  handle_state = none;
  sqlstate = none;
  outcome_unknown = e.outcome_unknown;
}

-- `CoreFailure::for_handle`.
abbrev pub handle_failure : RegistryState → String → CoreError → CoreFailure
handle_failure r h e = record {
  error = e;
  handle_state = current_state h r;
  sqlstate = none;
  outcome_unknown = e.outcome_unknown;
}

abbrev pub Outcome : Type 0
Outcome = Result (Envelope Value) CoreFailure

-- `error_envelope_for`.
unfoldable pub error_envelope_for : RegistryState → String → CoreError → Envelope Value
error_envelope_for r h e = error_envelope (current_state h r) e e.outcome_unknown

-- `error_code_for_validation`.
unfoldable pub error_code_for_validation : ValidationError → ErrorCode
error_code_for_validation parameter_count_limit = invalid_input
error_code_for_validation parameter_byte_limit = invalid_input
error_code_for_validation embedded_nul = invalid_input
error_code_for_validation invalid_query = invalid_input
error_code_for_validation ValidationError.schema_limit = schema_limit
error_code_for_validation _ = result_limit

-- A query that stood in the queue may have crossed dispatch, so its outcome is unknown.
abbrev pub interrupted : Operation → ErrorCode → CoreError
interrupted (query r) c = unknown_error c
interrupted _ c = known_error c

-- What a verified close answers.
abbrev pub disposed_value : Value
disposed_value = object (
    field "disposed" (bool true)
      (field "cleanup_verified" (bool true) (field "transaction_outcome" null end)))

-- The `match result` of `execute_operation`: what is published for a backend's answer, and the
-- reply.
unfoldable pub publish_result :
    Writer
    → Config
    → String
    → Result BackendResult BackendFailure
    → RegistryState
    → Outcome × RegistryState
publish_result to_vec config h (ok (BackendResult.opened mode o)) r =
    let r' = update_observation h o none r in
    (ok (success_envelope (current_state h r') (singleton "opened" (string mode))), r')
publish_result to_vec config h (ok (BackendResult.schema s o)) r =
    let r' = update_schema_dirty h false (update_observation h o (some true) r) in
    if is_ok (validate_schema to_vec config s)
    then (ok (success_envelope (current_state h r') (schema_value s)), r')
    else (err (handle_failure r h (known_error schema_limit)), r)
publish_result to_vec config h (ok (BackendResult.query q o direct_ddl)) r =
    let dirty = if direct_ddl then update_schema_dirty h true r else r in
    let r' = update_observation h o none dirty in
    if is_ok (validate_result to_vec config q)
    then (ok (success_envelope (current_state h r') (query_value q)), r')
    else (err (handle_failure r h (known_error result_limit)), r)
publish_result to_vec config h (ok (BackendResult.committed o)) r =
    let flag = if current_schema_dirty h r then some false else none in
    let r' = update_schema_dirty h false (update_observation h o flag r) in
    (ok (success_envelope (current_state h r') (singleton "committed" (bool true))), r')
publish_result to_vec config h (ok (BackendResult.rolled_back changed o)) r =
    let r' = update_schema_dirty h false (update_observation h o none r) in
    (ok (success_envelope (current_state h r') (singleton "rolled_back" (bool changed))), r')
publish_result to_vec config h (ok (BackendResult.closed o true)) r =
    let r' = publish_closed h (update_observation h o (some false) r) in
    (ok (success_envelope (some (closed_state h (current_database h r'))) disposed_value), r')
publish_result to_vec config h (ok (BackendResult.closed o false)) r =
    let r' = update_observation h o (some false) r in
    (err (handle_failure r' h (unknown_error cleanup_uncertain)), r')
publish_result to_vec config h (err f) r =
    let r' = update_observation h f.observation none r in
    (
      ok (error_envelope_with_sqlstate (current_state h r') f.error f.outcome_unknown f.sqlstate),
      r',
    )

-- Why an operation is answered without a call, at the instant of the checks: the precondition,
-- then shutdown, cancellation and deadline in this order.
unfoldable pub early_error :
    RegistryState → String → Operation → RequestContext → ℕ → Option CoreError
early_error r h op c now = elim (operation_precondition r h op) [
  | some e ↦ some (known_error e)
  | none ↦
      if stopping c now
      then some (known_error server_stopping)
      else if context_cancelled c now
      then some (interrupted op cancelled)
      else if expired c now
      then some (interrupted op deadline_exceeded)
      else none
]

-- `request.validate(config)`, which only a query makes before its call.
unfoldable pub invalid_request : Operation → Config → Option CoreError
invalid_request (query q) config =
    elim (validate_with_limits q config.sql_bytes config.parameters config.parameter_bytes) [
      | ok _ ↦ none
      | err e ↦ some (known_error (error_code_for_validation e))
    ]
invalid_request _ config = none

-- Both reasons, in the order of the code.
unfoldable pub error_before_call :
    RegistryState → String → Config → Operation → RequestContext → ℕ → Option CoreError
error_before_call r h config op c now = elim (early_error r h op c now) [
  | some e ↦ some e
  | none ↦ invalid_request op config
]

-- The backend call of an operation.
unfoldable pub call :
    (b : Backend)
    → Operation
    → Config
    → RequestContext
    → b.State
    → Result BackendResult BackendFailure × b.State
call b get_schema config c s = b.get_schema config c s
call b open_read config c s = b.open_read c s
call b open_write config c s = b.open_write c s
call b (query q) config c s = b.query q config c s
call b commit config c s = b.commit c s
call b rollback config c s = b.rollback c s
call b close config c s = b.close c s

module _ (b : Backend) (to_vec : Writer) where
  unfoldable pub run_backend :
      RegistryState
      → String
      → Config
      → Operation
      → RequestContext
      → b.State
      → Outcome × RegistryState × b.State
  run_backend r h config op c s =
      let (answer, s') = call b op config c s in
      let (outcome, r') = publish_result to_vec config h answer r in (outcome, r', s')

  -- `execute_operation`.
  unfoldable pub execute_operation :
      RegistryState
      → String
      → Config
      → Operation
      → RequestContext
      → ℕ
      → b.State
      → Outcome × RegistryState × b.State
  unfolding run_backend
  execute_operation r h config op c now s = elim (error_before_call r h config op c now) [
    | some e ↦ (ok (error_envelope_for r h e), r, s)
    | none ↦ run_backend r h config op c s
  ]
