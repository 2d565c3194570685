-- ===== src/Examples/Protocol.antt =====
-- Concrete states, errors, requests and results.
use pg_mcp.Prelude.{arith, ◌>>=◌, true, false, none, some, [], ◌∷◌, ok, ◌≡◌, refl}
use pg_mcp.Protocol.Status.{
  HandleState, good, idle, new_state, idle_state, validate_state, IsConsistent,
  new_state-IsConsistent,
}
use pg_mcp.Protocol.Moves.{for_handle, validate_move, next_moves, close_refusal_moves}
use pg_mcp.Protocol.Moves.Table.{moves-Follows, Follows, tools}
use pg_mcp.Protocol.Errors.{ErrorPayload, message, database_error, validate_payload, new_payload}
use pg_mcp.Protocol.Json.{Value, null, bool, number, string, array, object, singleton}
use pg_mcp.Protocol.Json.Derive.{is_null}
use pg_mcp.Protocol.Envelope.{Envelope, success, validate_envelope}
use pg_mcp.Protocol.Envelope.Wire.{encode_envelope, decode_envelope}
use pg_mcp.Protocol.Envelope.Wire.Lossless.{decode-encode_envelope}
use pg_mcp.Protocol.Request.{
  QueryRequest, validate_with_limits, value_bytes, check_parameters, is_blank, contains_nul,
  validate_parameter,
}
use pg_mcp.Protocol.Rows.{QueryResult}

abbrev resting : HandleState
resting = new_state "h-1" "app" good idle false true

resting-IsConsistent : IsConsistent resting
resting-IsConsistent = new_state-IsConsistent "h-1" "app" good idle false true (λ e. cc)

moves-Follows_example :
    Follows resting (tools (next_moves resting)) (tools (close_refusal_moves resting))
moves-Follows_example = moves-Follows resting resting-IsConsistent

abbrev payload : ErrorPayload
payload = new_payload database_error

payload_valid : validate_payload payload ≡ ok tt
unfolding validate_payload new_payload message
payload_valid = refl

abbrev request : QueryRequest
request = record {
  sql = "SELECT $1";
  parameters =
      record { type_oid = none; value = some "abc" }
      ∷ record { type_oid = some 25; value = none }
      ∷ [];
}

request_accepted : validate_with_limits request 100 4 8 ≡ ok tt
unfolding validate_with_limits check_parameters is_blank contains_nul validate_parameter value_bytes
request_accepted = refl

abbrev rows : QueryResult
rows = record { columns = []; rows = []; command_tag = "SELECT 0"; affected_rows = some "0" }

-- The answer of `open_database`, whose result is a JSON object.
abbrev listed : Envelope Value
listed =
    success (some (idle_state "h-1" "app" true)) (for_handle "get_schema" "h-1" "Inspect." ∷ [])
      (singleton "handle" (string "h-1"))

listed_valid : validate_envelope listed ≡ ok tt
unfolding validate_envelope success idle_state new_state for_handle validate_state validate_move
listed_valid = refl

listed_given : (v : Value) → listed.result ≡ some v → is_null v ≡ false
unfolding success
listed_given null e = absurd (ground (arith, e))
listed_given (bool b) e = refl
listed_given (number n) e = refl
listed_given (string s) e = refl
listed_given (array vs) e = refl
listed_given (object fs) e = refl

decode-encode_envelope_example :
    encode_envelope Value (λ v. ok v) (λ v. v) listed >>= decode_envelope Value (λ v. ok v) (λ v. v)
    ≡ ok listed
decode-encode_envelope_example =
    decode-encode_envelope Value (λ v. ok v) (λ v. v) (λ v. refl) listed listed_given listed_valid
