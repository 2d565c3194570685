-- ===== src/Libpq.antt =====
-- libpq.rs and schema.rs, as the worker's backend sees them: the errors and results of the
-- adapter, the classification of command tags, and the interface of a connection.
pub mod Collector
pub mod Dsn
pub mod Session
use pg_mcp.Prelude.{
  ℕ, String, Bool, true, false, ◌||◌, not, Option, none, List, [], ◌∷◌, any, str_eq, ◌==◌,
  if◌then◌else◌, Result,
}
use Prim.Native.Char.{code as char_code}
use pg_mcp.Protocol.Rows.{Row}

-- `PollControl`, each question asked at an instant.
pub record PollControl : Type 0 where
  pub shutdown_requested : ℕ → Bool
  pub cancelled : ℕ → Bool
  pub cancel_drain_grace : ℕ

pub data CancelReason : Type 0 where
  shutdown cancelled deadline : CancelReason

pub record QueryLimits : Type 0 where
  pub sql_bytes : ℕ
  pub parameters : ℕ
  pub parameter_bytes : ℕ
  pub result_rows : ℕ
  pub columns : ℕ
  pub cell_bytes : ℕ
  pub result_json_bytes : ℕ

pub record QueryParameter : Type 0 where
  pub type_oid : Option ℕ
  pub value : Option String

pub record Column : Type 0 where
  pub name : String
  pub type_oid : ℕ

pub record ResultSet : Type 0 where
  pub columns : List Column
  pub rows : List Row
  pub command_tag : String
  pub affected_rows : Option String

pub data ConnectionStatus : Type 0 where
  good bad closed : ConnectionStatus

pub data TransactionStatus : Type 0 where
  idle active in_transaction in_error unknown : TransactionStatus

pub record StatusSnapshot : Type 0 where
  pub connection_status : ConnectionStatus
  pub transaction_status : TransactionStatus
  pub busy : Bool

pub data ErrorClass : Type 0 where
  config invalid_input database database_mismatch connection_lost unsupported_server : ErrorClass
  result_limit copy_unsupported cancelled deadline_exceeded server_stopping internal : ErrorClass

pub record AdapterError : Type 0 where
  pub class_of : ErrorClass
  pub sqlstate : Option String
  pub outcome_unknown : Bool

-- `AdapterError::{new, with_sqlstate, unknown}`.
abbrev pub adapter_error : ErrorClass → AdapterError
adapter_error c = record { class_of = c; sqlstate = none; outcome_unknown = false }

abbrev pub with_sqlstate : AdapterError → Option String → AdapterError
with_sqlstate e state = record e { sqlstate = state }

abbrev pub unknown_adapter_error : ErrorClass → AdapterError
unknown_adapter_error c = record { class_of = c; sqlstate = none; outcome_unknown = true }

-- `CancelReason::error`.
abbrev pub reason_error : CancelReason → AdapterError
reason_error shutdown = adapter_error server_stopping
reason_error CancelReason.cancelled = adapter_error ErrorClass.cancelled
reason_error deadline = adapter_error deadline_exceeded

-- `SchemaError` of schema.rs.
pub data SchemaError : Type 0 where
  backend : AdapterError → SchemaError
  limit malformed : SchemaError

-- `u8::is_ascii_whitespace`.
abbrev pub is_ascii_whitespace : ℕ → Bool
is_ascii_whitespace b = b == 32 || b == 9 || b == 10 || b == 12 || b == 13

-- `split_ascii_whitespace().next().unwrap_or_default()`.
unfoldable pub take_word : String → String
take_word String.[] = String.[]
take_word (String.◌∷◌ c s) =
    let rest = take_word s in
    if is_ascii_whitespace (char_code c) then String.[] else String.◌∷◌ c rest

unfoldable pub first_word : String → String
first_word String.[] = String.[]
first_word (String.◌∷◌ c s) =
    let rest = first_word s in
    if is_ascii_whitespace (char_code c) then rest else take_word (String.◌∷◌ c s)

-- The two lists of `direct_ddl_command_tag`.
abbrev pub row_commands : List String
row_commands =
    "SELECT" ∷ "INSERT" ∷ "UPDATE" ∷ "DELETE" ∷ "MERGE" ∷ "VALUES" ∷ "FETCH" ∷ "MOVE" ∷ "SET"
    ∷ "SHOW" ∷ "BEGIN" ∷ "COMMIT" ∷ "ROLLBACK" ∷ "ABORT" ∷ "END" ∷ "SAVEPOINT" ∷ "RELEASE"
    ∷ "DISCARD" ∷ "NOTIFY" ∷ "LISTEN" ∷ "UNLISTEN" ∷ []

abbrev pub catalog_commands : List String
catalog_commands =
    "CREATE" ∷ "ALTER" ∷ "DROP" ∷ "TRUNCATE" ∷ "REINDEX" ∷ "GRANT" ∷ "REVOKE" ∷ "COMMENT"
    ∷ "REFRESH" ∷ "SECURITY" ∷ "DO" ∷ "CALL" ∷ "EXECUTE" ∷ []

abbrev pub is_one_of : List String → String → Bool
is_one_of names s = any (str_eq s) names

-- `direct_ddl_command_tag`.
unfoldable pub direct_ddl_command_tag : String → Bool
direct_ddl_command_tag tag =
    if is_one_of row_commands (first_word tag)
    then false
    else (is_one_of catalog_commands (first_word tag) || not (str_eq tag ""))

-- What the backend and schema.rs call of libpq.rs. A call takes the connection and the instant
-- at which it starts, and leaves the connection and the instant at which it returns.
pub record Adapter : Type 1 where
  pub Connection : Type 0
  pub status : Connection → StatusSnapshot
  pub execute :
      String → ℕ → PollControl → Connection → ℕ → Result ResultSet AdapterError × Connection × ℕ
  pub query :
      String
      → List QueryParameter
      → QueryLimits
      → ℕ
      → PollControl
      → Connection
      → ℕ
      → Result ResultSet AdapterError × Connection × ℕ
  pub cancel_and_drain :
      CancelReason → ℕ → Connection → ℕ → Result Bool AdapterError × Connection × ℕ

-- `ErrorClass::code`.
unfoldable pub class_name : ErrorClass → String
class_name config = "CONFIG_ERROR"
class_name invalid_input = "INVALID_INPUT"
class_name database = "DATABASE_ERROR"
class_name database_mismatch = "DATABASE_MISMATCH"
class_name connection_lost = "CONNECTION_LOST"
class_name unsupported_server = "UNSUPPORTED_SERVER"
class_name result_limit = "RESULT_LIMIT"
class_name copy_unsupported = "COPY_UNSUPPORTED"
class_name ErrorClass.cancelled = "CANCELLED"
class_name deadline_exceeded = "DEADLINE_EXCEEDED"
class_name server_stopping = "SERVER_STOPPING"
class_name internal = "INTERNAL"

-- `ErrorClass::message`.
unfoldable pub class_message : ErrorClass → String
class_message config = "Invalid server configuration."
class_message invalid_input = "Invalid query or parameters."
class_message database = "PostgreSQL rejected the operation."
class_message database_mismatch = "Connected database does not match configuration."
class_message connection_lost = "Connection lost; operation outcome may be unknown."
class_message unsupported_server = "PostgreSQL server 12 or newer is required."
class_message result_limit = "Result exceeds configured limits; execution may have taken effect."
class_message copy_unsupported = "COPY streaming is unsupported; connection disposed."
class_message ErrorClass.cancelled = "Request cancelled; execution may have taken effect."
class_message deadline_exceeded = "Request deadline exceeded; execution may have taken effect."
class_message server_stopping = "Server is stopping."
class_message internal = "Internal adapter failure."
