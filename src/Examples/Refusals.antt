-- ===== src/Examples/Refusals.antt =====
-- Requests that are refused, and the suggestions of a handle.
use pg_mcp.Prelude.{true, false, some, ◌≡◌, refl, [], lookup}
use pg_mcp.Protocol.Errors.{known_error, tx_already_open, deadline_exceeded}
use pg_mcp.Protocol.Moves.{next_moves}
use pg_mcp.Protocol.Request.{QueryRequest}
use pg_mcp.Protocol.Status.{validate_state}
use pg_mcp.Worker.Backend.{RequestContext}
use pg_mcp.Worker.Registry.{PublishedHandle, get_schema, commit, published_of, state}
use pg_mcp.Worker.Execute.{
  error_before_call, published_refusal, early_error, operation_precondition, invalid_request,
  refusal,
}
use pg_mcp.Worker.Loop.{serve_operation, Turn}
use pg_mcp.Worker.Guidance.{Suggests-Accepts, Suggests, Accepts}
use pg_mcp.Worker.Turn.Refusal.{serve_precondition, IsErrorReply}
use pg_mcp.Examples.Data.{
  connected, context, writer, settings, seen_inside, handle_at, registry_with, toy, open_handle,
  here, inside,
}

-- A `get_schema` inside the transaction is refused; a commit after its deadline is not sent.
abbrev late : RequestContext
late = record context { deadline = 0 }

abbrev refused_turn : Turn (toy true)
refused_turn =
    serve_operation (toy true) writer (registry_with open_handle) "h-1" settings get_schema context
      0 (connected true inside)

is_refused : published_refusal get_schema open_handle ≡ some tx_already_open
unfolding published_refusal refusal
is_refused = refl

serve_precondition_example :
    (refused_turn.backend ≡ connected true inside)
    × (refused_turn.ends ≡ false)
    × IsErrorReply (known_error tx_already_open) refused_turn.reply
serve_precondition_example =
    serve_precondition (toy true) writer (registry_with open_handle) "h-1" settings get_schema
      context 0 (connected true inside) open_handle tx_already_open (here open_handle) is_refused

abbrev late_turn : Turn (toy true)
late_turn =
    serve_operation (toy true) writer (registry_with open_handle) "h-1" settings commit late 0
      (connected true inside)

is_late :
    error_before_call (registry_with open_handle) "h-1" settings commit late 0
    ≡ some (known_error deadline_exceeded)
unfolding error_before_call early_error operation_precondition published_of lookup invalid_request
    published_refusal refusal
is_late = refl

commit_is_suggested : Suggests open_handle commit
unfolding next_moves state validate_state
commit_is_suggested = refl

Suggests-Accepts_example : Accepts open_handle commit
Suggests-Accepts_example =
    Suggests-Accepts open_handle commit (λ bad. absurd (bad refl)) (λ _. refl) commit_is_suggested

commit_is_accepted : Accepts open_handle commit
unfolding published_refusal refusal
commit_is_accepted = refl

abbrev unobserved_handle : PublishedHandle
unobserved_handle = handle_at seen_inside false false

abbrev request : QueryRequest
request = record { sql = "SELECT 1"; parameters = [] }
