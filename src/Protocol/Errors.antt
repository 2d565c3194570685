-- ===== src/Protocol/Errors.antt =====
-- protocol.rs: the closed error vocabulary, the core error, and the error payload.
pub mod Wire
use Prim.Native.Char.{code as char_code}
use pg_mcp.Prelude.{
  ℕ, String, Bool, true, false, ◌&&◌, ◌||◌, not, Option, none, some, List, [], ◌∷◌, len, leb, ◌==◌,
  str_eq, all, Result, ok, ◌>>◌, fail_if,
}
use pg_mcp.Protocol.Status.{
  Check, ValidationError, parameter_count_limit, parameter_byte_limit, invalid_sql_state,
  static_error_message,
}

pub data ErrorCode : Type 0 where
  unsupported_server handle_unknown handle_limit : ErrorCode
  database_unknown database_mismatch config_error : ErrorCode
  queue_full server_stopping schema_required : ErrorCode
  schema_limit tx_already_open no_tx_open : ErrorCode
  tx_failed active_transaction invalid_input : ErrorCode
  database_error result_limit copy_unsupported : ErrorCode
  cancelled deadline_exceeded connection_lost : ErrorCode
  commit_outcome_unknown cleanup_uncertain internal : ErrorCode

-- `ErrorCode::ALL`.
abbrev pub all_codes : List ErrorCode
all_codes =
    unsupported_server ∷ handle_unknown ∷ handle_limit ∷ database_unknown ∷ database_mismatch
    ∷ config_error ∷ queue_full ∷ server_stopping ∷ schema_required ∷ schema_limit ∷ tx_already_open
    ∷ no_tx_open ∷ tx_failed ∷ active_transaction ∷ invalid_input ∷ database_error ∷ result_limit
    ∷ copy_unsupported ∷ cancelled ∷ deadline_exceeded ∷ connection_lost ∷ commit_outcome_unknown
    ∷ cleanup_uncertain ∷ internal ∷ []

-- `ErrorCode::code`, which is also the spelling that serde reads and writes.
unfoldable pub code : ErrorCode → String
code unsupported_server = "UNSUPPORTED_SERVER"
code handle_unknown = "HANDLE_UNKNOWN"
code handle_limit = "HANDLE_LIMIT"
code database_unknown = "DATABASE_UNKNOWN"
code database_mismatch = "DATABASE_MISMATCH"
code config_error = "CONFIG_ERROR"
code queue_full = "QUEUE_FULL"
code server_stopping = "SERVER_STOPPING"
code schema_required = "SCHEMA_REQUIRED"
code schema_limit = "SCHEMA_LIMIT"
code tx_already_open = "TX_ALREADY_OPEN"
code no_tx_open = "NO_TX_OPEN"
code tx_failed = "TX_FAILED"
code active_transaction = "ACTIVE_TRANSACTION"
code invalid_input = "INVALID_INPUT"
code database_error = "DATABASE_ERROR"
code result_limit = "RESULT_LIMIT"
code copy_unsupported = "COPY_UNSUPPORTED"
code cancelled = "CANCELLED"
code deadline_exceeded = "DEADLINE_EXCEEDED"
code connection_lost = "CONNECTION_LOST"
code commit_outcome_unknown = "COMMIT_OUTCOME_UNKNOWN"
code cleanup_uncertain = "CLEANUP_UNCERTAIN"
code internal = "INTERNAL"

-- `ErrorCode::message`.
unfoldable pub message : ErrorCode → String
message unsupported_server = "PostgreSQL server 12 or newer is required."
message handle_unknown = "Unknown handle."
message handle_limit = "Handle limit reached."
message database_unknown = "Database is not configured."
message database_mismatch = "Connected database does not match configuration."
message config_error = "Invalid server configuration."
message queue_full = "Request queue is full."
message server_stopping = "Server is stopping."
message schema_required = "Inspect schema before opening a transaction."
message schema_limit = "Schema response exceeds configured limits."
message tx_already_open = "A transaction is already open."
message no_tx_open = "No transaction is open."
message tx_failed = "Transaction failed; roll back before continuing."
message active_transaction = "Resolve the transaction before closing this handle."
message invalid_input = "Invalid query or parameters."
message database_error = "PostgreSQL rejected the operation."
message result_limit = "Result exceeds configured limits; execution may have taken effect."
message copy_unsupported = "COPY streaming is unsupported; connection disposed."
message cancelled = "Request cancelled; execution may have taken effect."
message deadline_exceeded = "Request deadline exceeded; execution may have taken effect."
message connection_lost = "Connection lost; operation outcome may be unknown."
message commit_outcome_unknown = "Commit outcome is unknown; do not retry automatically."
message cleanup_uncertain = "Cleanup could not be verified."
message internal = "Internal adapter failure."

pub record CoreError : Type 0 where
  pub code : ErrorCode
  pub outcome_unknown : Bool

-- `CoreError::new`, and the constants of the same names.
abbrev pub known_error : ErrorCode → CoreError
known_error c = record { code = c; outcome_unknown = false }

-- `CoreError::unknown`.
abbrev pub unknown_error : ErrorCode → CoreError
unknown_error c = record { code = c; outcome_unknown = true }

-- `From<ValidationError> for CoreError`.
unfoldable pub from_validation : ValidationError → CoreError
from_validation ValidationError.schema_limit = known_error schema_limit
from_validation parameter_count_limit = known_error result_limit
from_validation parameter_byte_limit = known_error result_limit
from_validation ValidationError.result_limit = known_error result_limit
from_validation _ = known_error invalid_input

-- `TransactionOutcome`, whose only value is `Unknown`.
pub data TransactionOutcome : Type 0 where
  outcome_unknown : TransactionOutcome

pub record ErrorPayload : Type 0 where
  pub code : ErrorCode
  pub message : String
  pub sqlstate : Option String
  pub transaction_outcome : Option TransactionOutcome

-- The code points of a text. A byte of a character beyond ASCII is no ASCII byte, so a test for
-- ASCII bytes may read code points.
abbrev pub codes : String → List ℕ
codes (String.◌∷◌ first rest) = char_code first ∷ codes rest
codes String.[] = []

-- `u8::is_ascii_digit`.
abbrev pub is_ascii_digit : ℕ → Bool
is_ascii_digit b = leb b'0' b && leb b b'9'

-- `u8::is_ascii_alphanumeric`.
abbrev pub is_ascii_alphanumeric : ℕ → Bool
is_ascii_alphanumeric b =
    is_ascii_digit b || (leb b'A' b && leb b b'Z') || (leb b'a' b && leb b b'z')

abbrev pub bad_sqlstate : Option String → Bool
bad_sqlstate none = false
bad_sqlstate (some s) = not (len s == 5) || not (all is_ascii_alphanumeric (codes s))

unfoldable pub validate_sqlstate : Option String → Check
validate_sqlstate state = fail_if (bad_sqlstate state) invalid_sql_state

-- `ErrorPayload::new`.
unfoldable pub new_payload : ErrorCode → ErrorPayload
new_payload c = record {
  code = c;
  message = message c;
  sqlstate = none;
  transaction_outcome = none;
}

-- `ErrorPayload::try_with_sqlstate`.
unfoldable pub try_with_sqlstate :
    ErrorPayload → Option String → Result ErrorPayload ValidationError
unfolding validate_sqlstate
try_with_sqlstate p state = do validate_sqlstate state; ok (record p { sqlstate = state })

-- `ErrorPayload::with_unknown_outcome`.
unfoldable pub with_unknown_outcome : ErrorPayload → ErrorPayload
with_unknown_outcome p = record p { transaction_outcome = some outcome_unknown }

-- `ErrorPayload::is_outcome_unknown`.
unfoldable pub is_outcome_unknown : ErrorPayload → Bool
is_outcome_unknown p = elim p.transaction_outcome [ none ↦ false | some _ ↦ true ]

-- `ErrorPayload::validate`.
unfoldable pub validate_payload : ErrorPayload → Check
unfolding validate_sqlstate
validate_payload p = do
  fail_if (not (str_eq p.message (message p.code))) static_error_message
  validate_sqlstate p.sqlstate
