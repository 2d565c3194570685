-- ===== src/Protocol/Envelope/Wire.antt =====
-- protocol.rs: how an envelope is written to JSON and read back.
pub mod Lossless
use mathlib.Core.Path.{subst}
use mathlib.Core.Bool.{true≢false}
use pg_mcp.Prelude.{
  sym, ℕ, String, Bool, false, not, ◌&&◌, Option, none, some, List, [], ◌∷◌, map, str_eq,
  if◌then◌else◌, Result, ok, err, ◌>>=◌, ◌>>◌, is_some, ◌≡◌, refl, arith,
}
use pg_mcp.Protocol.Json.{
  Value, bool, string, array, object, Fields, end, field, get, items, unsigned,
}
use pg_mcp.Protocol.Json.Derive.{
  Read, is_null, malformed, read_string, read_bool, read_u8, nullable, option_value, read_vec,
  variant_name, struct_fields, member, optional_member, read_items-map,
}
use pg_mcp.Protocol.Status.{ValidationError, ConnectionStatus, TransactionStatus, HandleState}
use pg_mcp.Protocol.Moves.{Move}
use pg_mcp.Protocol.Errors.{ErrorPayload, validate_payload}
use pg_mcp.Protocol.Errors.Wire.{
  DecodeError, not_an_object, invalid_field, no_single_outcome, refused, require_keys, allow_keys,
  decode_value, decode, encode, decode-encode, encode_given,
}
use pg_mcp.Protocol.Envelope.{Envelope, envelope_version, validate_envelope}

-- `ConnectionStatus` and `TransactionStatus` by their names.
unfoldable pub connection_name : ConnectionStatus → String
connection_name ConnectionStatus.good = "ok"
connection_name ConnectionStatus.bad = "bad"
connection_name ConnectionStatus.closed = "closed"

unfoldable pub transaction_name : TransactionStatus → String
transaction_name TransactionStatus.idle = "idle"
transaction_name TransactionStatus.active = "active"
transaction_name TransactionStatus.in_transaction = "in_transaction"
transaction_name TransactionStatus.in_error = "in_error"
transaction_name TransactionStatus.unknown = "unknown"

unfoldable pub read_connection : Read ConnectionStatus
read_connection v = do
  name ← variant_name v
  if str_eq name "ok"
      then ok ConnectionStatus.good
      else if str_eq name "bad"
      then ok ConnectionStatus.bad
      else if str_eq name "closed"
      then ok ConnectionStatus.closed
      else err malformed

unfoldable pub read_transaction : Read TransactionStatus
read_transaction v = do
  name ← variant_name v
  if str_eq name "idle"
      then ok TransactionStatus.idle
      else if str_eq name "active"
      then ok TransactionStatus.active
      else if str_eq name "in_transaction"
      then ok TransactionStatus.in_transaction
      else if str_eq name "in_error"
      then ok TransactionStatus.in_error
      else if str_eq name "unknown"
      then ok TransactionStatus.unknown
      else err malformed

-- The derived reader and writer of `HandleState`.
unfoldable pub read_state : Read HandleState
unfolding get read_connection read_transaction
read_state v = do
  fs ←
      struct_fields
        ("handle" ∷ "database" ∷ "connection_status" ∷ "transaction_status" ∷ "transaction_open"
          ∷ "busy" ∷ "schema_observed" ∷ [])
        v
  handle ← member read_string "handle" fs
  database ← member read_string "database" fs
  connection ← member read_connection "connection_status" fs
  transaction ← member read_transaction "transaction_status" fs
  opened ← optional_member read_bool "transaction_open" fs
  busy ← member read_bool "busy" fs
  observed ← member read_bool "schema_observed" fs
  ok (record {
    handle = handle;
    database = database;
    connection_status = connection;
    transaction_status = transaction;
    transaction_open = opened;
    busy = busy;
    schema_observed = observed;
  })

unfoldable pub state_value : HandleState → Value
unfolding connection_name transaction_name
state_value s = object (
    field "handle" (string s.handle) (
      field "database" (string s.database) (
        field "connection_status" (string (connection_name s.connection_status)) (
          field "transaction_status" (string (transaction_name s.transaction_status)) (
            field "transaction_open" (option_value bool s.transaction_open) (
              field "busy" (bool s.busy)
                (field "schema_observed" (bool s.schema_observed) end)))))))

-- The derived reader and writer of `Move`.
unfoldable pub read_move : Read Move
unfolding get
read_move v = do
  fs ← struct_fields ("tool" ∷ "arguments" ∷ "guidance" ∷ []) v
  tool ← member read_string "tool" fs
  arguments ← member (λ x. ok x) "arguments" fs
  guidance ← member read_string "guidance" fs
  ok (record { tool = tool; arguments = arguments; guidance = guidance })

unfoldable pub move_value : Move → Value
move_value m = object (
    field "tool" (string m.tool)
      (field "arguments" m.arguments (field "guidance" (string m.guidance) end)))

-- `is_some_and(|value| !value.is_null())`; `is_none_or(Value::is_null)` is its negation.
abbrev pub is_given : Option Value → Bool
is_given none = false
is_given (some v) = not (is_null v)

abbrev pub or_refused {ℓ} : {A : Type ℓ} → Result A ValidationError → Result A DecodeError
or_refused (ok a) = ok a
or_refused (err e) = err (refused e)

-- `serde_json::from_value`.
abbrev pub or_invalid {ℓ} : {A : Type ℓ} → String → Option Value → Read A → Result A DecodeError
or_invalid key none read = err (invalid_field key)
or_invalid key (some v) read = elim (read v) [ ok a ↦ ok a | err _ ↦ err (invalid_field key) ]

-- `Deserialize for ErrorPayload`, where the kind of the error is dropped.
abbrev pub read_payload : Read ErrorPayload
read_payload v = elim (decode v) [ ok p ↦ ok p | err _ ↦ err malformed ]

module _ (T : Type 0) (read : Read T) (write : T → Value) where
  -- The outcome of an envelope: `result`, `error`, or neither.
  abbrev outcome_fields : Option T → Option ErrorPayload → Fields
  outcome_fields (some t) error = field "result" (write t) end
  outcome_fields none (some p) = field "error" (encode p) end
  outcome_fields none none = end

  -- `Serialize for Envelope`.
  unfoldable pub encode_envelope : Envelope T → Result Value DecodeError
  unfolding move_value state_value
  encode_envelope e = do
    or_refused (validate_envelope e)
    ok (
        object (
          field "envelope_version" (unsigned e.version) (
            field "handle_state" (option_value state_value e.handle_state) (
              field "next_moves" (array (items (map move_value e.next_moves)))
                (outcome_fields e.result e.error)))))

  -- The two branches of the reader that make an envelope.
  unfoldable pub finish_envelope :
      ℕ
      → Option HandleState
      → List Move
      → Option T
      → Option ErrorPayload
      → Result (Envelope T) DecodeError
  finish_envelope version state moves result error =
      let e : Envelope T = record {
        version = version;
        handle_state = state;
        next_moves = moves;
        result = result;
        error = error;
      } in
      or_refused (validate_envelope e) >>= λ _. ok e

  unfoldable pub decode_outcome :
      ℕ
      → Option HandleState
      → List Move
      → Option Value
      → Option Value
      → Result (Envelope T) DecodeError
  unfolding finish_envelope
  decode_outcome version state moves result error =
      if is_given result && not (is_given error)
      then or_invalid "result" result read
        >>= (λ t. finish_envelope version state moves (some t) none)
      else if not (is_given result) && is_given error
      then or_invalid "error" error read_payload
        >>= (λ p. finish_envelope version state moves none (some p))
      else err no_single_outcome

  -- `Deserialize for Envelope`.
  unfoldable pub decode_envelope : Value → Result (Envelope T) DecodeError
  unfolding require_keys allow_keys decode_value read_state read_move decode_outcome get
  decode_envelope (object fs) = do
    require_keys ("envelope_version" ∷ "handle_state" ∷ "next_moves" ∷ []) fs
    allow_keys ("envelope_version" ∷ "handle_state" ∷ "next_moves" ∷ "result" ∷ "error" ∷ []) fs
    version ← decode_value read_u8 fs "envelope_version"
    state ← decode_value (nullable read_state) fs "handle_state"
    moves ← decode_value (read_vec read_move) fs "next_moves"
    decode_outcome version state moves (get "result" fs) (get "error" fs)
  decode_envelope _ = err not_an_object
