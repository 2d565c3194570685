-- ===== src/Examples/Commits.antt =====
-- A call of the tool `commit` that succeeds.
use pg_mcp.Prelude.{true, false, none, some, ok, err, ◌≡◌, refl, lookup, adjust, ◌∷◌, []}
use pg_mcp.Protocol.Json.{Value, null}
use pg_mcp.Worker.Backend.{RequestContext, BackendObservation}
use pg_mcp.Worker.Registry.{RegistryState, WorkerEntry, operation, commit, published_of}
use pg_mcp.Worker.Execute.{
  Outcome, execute_operation, error_before_call, early_error, operation_precondition,
  invalid_request, publish_result, call,
}
use pg_mcp.Worker.Loop.{Turn, serve_operation, refresh_envelope_state, publish_observation}
use pg_mcp.Worker.Native
use pg_mcp.Worker.Native.{native_backend, dispatch_commit, execute_command}
use pg_mcp.Libpq.{take_word}
use pg_mcp.Protocol.Envelope.{success_envelope}
use pg_mcp.Worker.Native.Commit.{IsDone}
use pg_mcp.Worker.Admission.{admit, admitted, enqueue, try_send, request_context}
use pg_mcp.Worker.Dispatch.{Beside, dispatch, core_commit}
use pg_mcp.Server.Tools.{tool_result, structured, canonical_value}
use pg_mcp.Server.Commits.{served, commit_tool-IsDone}
use pg_mcp.Examples.Data.{
  adapter, connected, inside, seen_inside, handle_at, registry_with, writer, settings,
}

abbrev registry : RegistryState
registry = registry_with (handle_at seen_inside true false)

abbrev beside : Beside
beside = record {
  between = λ r. r;
  receiving = true;
  reply = served (adapter true) writer "h-1" settings (λ r. r) 1 (connected true inside);
}

abbrev request_made : RequestContext
request_made = request_context settings none none 0

abbrev admitted_registry : RegistryState
admitted_registry = record registry {
  handles =
      adjust "h-1"
        (λ (e : WorkerEntry). record e { queue = operation commit request_made ∷ []; admitted = 2 })
        registry.handles;
}

abbrev turn : Turn (native_backend (adapter true) writer)
turn =
    serve_operation (native_backend (adapter true) writer) writer admitted_registry "h-1" settings
      commit request_made 1 (connected true inside)

abbrev value_of : Outcome → Value
value_of (ok e) = canonical_value e
value_of (err f) = null

is_committed : core_commit beside none 0 none "h-1" registry ≡ some (turn.reply, turn.registry)
unfolding dispatch admit lookup adjust enqueue try_send
is_committed = refl

is_shown : tool_result turn.reply ≡ structured (value_of turn.reply)
unfolding tool_result serve_operation execute_operation error_before_call early_error
    operation_precondition published_of lookup adjust invalid_request publish_result call
    Native.commit dispatch_commit execute_command take_word refresh_envelope_state success_envelope
    publish_observation
is_shown = refl

commit_tool-IsDone_example :
    (entry : WorkerEntry) × (lookup "h-1" registry.handles ≡ some entry)
    × ((r₁ : RegistryState) × (admit
            (operation commit (request_context entry.config none none 0))
            true
            "h-1"
            registry
          ≡ admitted r₁))
    × ((o : BackendObservation) × IsDone
          (adapter true)
          (request_context entry.config none none 0)
          (connected true inside)
          o)
commit_tool-IsDone_example =
    commit_tool-IsDone (adapter true) writer "h-1" settings (λ r. r) 1 (connected true inside)
      (λ r. r) true none 0 none registry turn.registry turn.reply (value_of turn.reply) is_committed
      is_shown
