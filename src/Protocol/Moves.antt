-- ===== src/Protocol/Moves.antt =====
-- protocol.rs: `Move` and the move lists that follow from an observed handle state.
pub mod Table
use pg_mcp.Prelude.{
  String, Bool, true, false, ◌&&◌, ◌||◌, not, Option, none, some, List, [], ◌∷◌, len, ◌==◌, str_eq,
  if◌then◌else◌, Result, ok, err, ◌>>=◌, ◌>>◌, fail_if, is_some, ◌≡◌, arith, eq_iff,
}
use pg_mcp.Protocol.Status.{
  HandleState, TransactionStatus, idle, active, in_transaction, in_error, unknown, is_closed,
  is_bad, is_unknown, is_active, Check, ValidationError, invalid_move, validate_state,
}
use pg_mcp.Protocol.Json.{
  Value, object, string, end, singleton, get_field, as_str, is_object, all_keys,
}

abbrev pub query_guidance : String
query_guidance = "Provide SQL and parameters; do not replay a failed statement blindly."

abbrev pub schema_guidance : String
schema_guidance = "Inspect schema before opening a transaction."

abbrev pub open_read_guidance : String
open_read_guidance = "Start a PostgreSQL read-only transaction."

abbrev pub open_write_guidance : String
open_write_guidance = "Start a PostgreSQL read-write transaction."

abbrev pub commit_guidance : String
commit_guidance = "Commit the current transaction."

abbrev pub rollback_guidance : String
rollback_guidance = "Roll back the current transaction."

abbrev pub close_guidance : String
close_guidance = "Dispose this handle locally."

abbrev pub in_error_rollback_guidance : String
in_error_rollback_guidance = "Transaction failed; roll back before continuing."

abbrev pub unknown_close_guidance : String
unknown_close_guidance = "Connection unusable; dispose locally. Transaction outcome may be unknown."

pub record Move : Type 0 where
  pub tool : String
  pub arguments : Value
  pub guidance : String

-- The closure of `Move::validate` over the argument object: a key other than `handle`, or no text
-- under `handle` where the tool wants one.
bad_arguments : String → Value → Bool
bad_arguments tool (object fs) =
    not (all_keys (λ key. str_eq key "handle") fs)
    || (not (str_eq tool "list_handles")
        && not (str_eq tool "open_database")
        && not (is_some (as_str (get_field "handle" (object fs)))))
bad_arguments tool _ = false

-- `Move::validate`.
unfoldable pub validate_move : Move → Check
unfolding bad_arguments get_field as_str is_object all_keys
validate_move m = do
  fail_if (str_eq m.tool "" || not (is_object m.arguments) || str_eq m.guidance "") invalid_move
  fail_if (bad_arguments m.tool m.arguments) invalid_move

-- `Move::for_handle`.
unfoldable pub for_handle : String → String → String → Move
for_handle tool handle guidance = record {
  tool = tool;
  arguments = singleton "handle" (string handle);
  guidance = guidance;
}

-- `Move::process`.
unfoldable pub process_move : String → String → Move
process_move tool guidance = record { tool = tool; arguments = object end; guidance = guidance }

-- `Move::handle_argument`.
unfoldable pub handle_argument : Move → Option String
unfolding get_field as_str
handle_argument m = as_str (get_field "handle" m.arguments)

-- The final `match` of `moves_for_state`; the last two arms are `unreachable!()` there.
unfoldable pub status_moves : TransactionStatus → String → Bool → Bool → List Move
unfolding for_handle
status_moves in_error handle observed refusal =
    for_handle "rollback" handle in_error_rollback_guidance ∷ []
status_moves in_transaction handle observed true =
    for_handle "commit" handle commit_guidance ∷ for_handle "rollback" handle rollback_guidance ∷ []
status_moves in_transaction handle observed false =
    for_handle "query" handle query_guidance
    ∷ for_handle "commit" handle commit_guidance
    ∷ for_handle "rollback" handle rollback_guidance
    ∷ []
status_moves idle handle true refusal =
    for_handle "open_read" handle open_read_guidance
    ∷ for_handle "open_write" handle open_write_guidance
    ∷ for_handle "get_schema" handle schema_guidance
    ∷ for_handle "close_database" handle close_guidance
    ∷ []
status_moves idle handle false refusal =
    for_handle "get_schema" handle schema_guidance
    ∷ for_handle "close_database" handle close_guidance
    ∷ []
status_moves unknown handle observed refusal = []
status_moves active handle observed refusal = []

-- The early returns of `moves_for_state`, after its validation.
unfoldable pub moves_after_validation : HandleState → Bool → List Move
unfolding status_moves for_handle
moves_after_validation s refusal =
    if is_closed s.connection_status
    then []
    else if is_bad s.connection_status || is_unknown s.transaction_status
    then for_handle "close_database" s.handle unknown_close_guidance ∷ []
    else if s.busy || is_active s.transaction_status
    then []
    else status_moves s.transaction_status s.handle s.schema_observed refusal

unfoldable pub moves_for_state : HandleState → Bool → Result (List Move) ValidationError
unfolding moves_after_validation
moves_for_state s refusal = validate_state s >>= λ _. ok (moves_after_validation s refusal)

-- `unwrap_or_default` on a list of moves.
abbrev or_no_moves : Result (List Move) ValidationError → List Move
or_no_moves (ok moves) = moves
or_no_moves (err _) = []

unfoldable pub next_moves : HandleState → List Move
unfolding moves_for_state
next_moves s = or_no_moves (moves_for_state s false)

unfoldable pub close_refusal_moves : HandleState → List Move
unfolding moves_for_state
close_refusal_moves s = or_no_moves (moves_for_state s true)

abbrev pub process_moves : List Move
process_moves = []
