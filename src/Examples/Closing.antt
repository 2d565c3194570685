-- ===== src/Examples/Closing.antt =====
-- A close, from the request to the published state.
use pg_mcp.Prelude.{true, false, adjust, lookup, some, ◌≡◌, refl}
use pg_mcp.Protocol.Envelope.{success_envelope}
use pg_mcp.Worker.Registry.{
  PublishedHandle, close, published_of, made_closed, update_handle, update_observation,
  publish_closed,
}
use pg_mcp.Worker.Execute.{
  call, error_before_call, published_refusal, early_error, operation_precondition, invalid_request,
  refusal, publish_result, run_backend, execute_operation,
}
use pg_mcp.Worker.Loop.{
  serve_operation, unknown_failure, Turn, publish_observation, release_admission, succeeded,
}
use pg_mcp.Worker.Native
use pg_mcp.Examples.Data.{
  connected, context, writer, settings, seen_at_rest, handle_at, registry_with, toy, at_rest,
}

abbrev resting_handle : PublishedHandle
resting_handle = handle_at seen_at_rest true false

abbrev close_turn : Turn (toy true)
close_turn =
    serve_operation (toy true) writer (registry_with resting_handle) "h-1" settings close context 0
      (connected true at_rest)

after_close : published_of "h-1" close_turn.registry ≡ some (made_closed resting_handle)
unfolding serve_operation execute_operation run_backend error_before_call early_error
    operation_precondition published_refusal refusal invalid_request call publish_result
    published_of lookup adjust update_handle update_observation publish_closed publish_observation
    unknown_failure release_admission Native.close success_envelope succeeded
after_close = refl
