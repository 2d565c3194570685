-- ===== src/Examples/Worker.antt =====
-- Turns of the worker loop over the libpq backend.
use pg_mcp.Prelude.{
  arith, Bool, adjust, true, false, none, some, ok, ◌≡◌, refl, ◌⊎◌, [], ◌∷◌, lookup,
}
use pg_mcp.Protocol.Errors.{is_outcome_unknown}
use pg_mcp.Protocol.Moves.{next_moves}
use pg_mcp.Protocol.Moves.Table.{tools}
use pg_mcp.Protocol.Catalog.{validate_schema}
use pg_mcp.Protocol.Catalog.Budget.{validate_schema_iff}
use pg_mcp.Worker.Turn.Valid.{serve_reply_valid}
use pg_mcp.Protocol.Json.{Value, bool, singleton}
use pg_mcp.Protocol.Envelope.{
  Envelope, validate_envelope, success_envelope, error_envelope_with_sqlstate, payload_of,
}
use pg_mcp.Libpq.{first_word, take_word}
use pg_mcp.Schema.Assembly.{assemble, validate_partial}
use pg_mcp.Schema.Retrieve.{retrieve, retrieve_inner}
use pg_mcp.Worker.Translate.{libpq_control}
use pg_mcp.Worker.Backend.{committed}
use pg_mcp.Worker.Lawful.{Lawful}
use pg_mcp.Worker.Registry.{
  RegistryState, current_state, PublishedHandle, get_schema, commit, published_of, state,
  made_unknown, update_handle, update_observation, update_schema_dirty, publish_unknown,
  current_schema_dirty,
}
use pg_mcp.Worker.Execute.{
  call, error_before_call, published_refusal, early_error, operation_precondition, invalid_request,
  refusal, publish_result, run_backend, execute_operation,
}
use pg_mcp.Worker.Loop.{
  serve_operation, unknown_failure, Turn, publish_observation, release_admission,
  refresh_envelope_state, succeeded,
}
use pg_mcp.Worker.Native.{native_backend, dispatch_commit, execute_command}
use pg_mcp.Worker.Native
use pg_mcp.Worker.Native.Contract.{native_backend-Lawful}
use pg_mcp.Worker.Handle.{after_turn}
use pg_mcp.Worker.Turn.{published-serve_operation, after_execute, outcome_of, backend_after}
use pg_mcp.Worker.Turn.Schema.{
  serve-schema_observed, serve_unknown_commit, serve_committed, IsSchema,
}
use pg_mcp.Worker.Open.{fresh_entry}
use pg_mcp.Worker.Turn.Reply.{serve_others}
use pg_mcp.Examples.Data.{
  adapter, adapter-IsDocumented, connected, context, writer, settings, seen_at_rest, handle_at,
  registry_with, toy, open_handle, here, inside, at_rest,
}

toy-Lawful : (works : Bool) → Lawful (toy works)
toy-Lawful works = native_backend-Lawful (adapter works) writer (adapter-IsDocumented works)

-- The turn of a commit, over a network that works or fails.
abbrev commit_turn : (works : Bool) → Turn (toy works)
commit_turn works =
    serve_operation (toy works) writer (registry_with open_handle) "h-1" settings commit context 0
      (connected works inside)

published-serve_operation_example :
    published_of "h-1" (commit_turn true).registry
    ≡ some (
        after_turn commit
          (outcome_of
            (toy true)
            writer
            (registry_with open_handle)
            "h-1"
            settings
            commit
            context
            0
            (connected true inside))
          ((toy true).observe (
            backend_after
              (toy true)
              writer
              (registry_with open_handle)
              "h-1"
              settings
              commit
              context
              0
              (connected true inside)))
          (after_execute
            (toy true)
            writer
            (registry_with open_handle)
            "h-1"
            settings
            commit
            context
            0
            (connected true inside)
            open_handle))
published-serve_operation_example =
    published-serve_operation (toy true) writer (registry_with open_handle) "h-1" settings commit
      context 0 (connected true inside) open_handle (here open_handle)

after_commit :
    published_of "h-1" (commit_turn true).registry ≡ some (handle_at seen_at_rest false false)
unfolding serve_operation execute_operation run_backend error_before_call early_error
    operation_precondition published_refusal refusal invalid_request call publish_result
    published_of lookup adjust update_handle update_observation update_schema_dirty publish_unknown
    publish_observation unknown_failure release_admission current_schema_dirty Native.commit
    dispatch_commit execute_command take_word success_envelope error_envelope_with_sqlstate
    payload_of is_outcome_unknown refresh_envelope_state succeeded
after_commit = refl

after_lost_commit :
    published_of "h-1" (commit_turn false).registry ≡ some (made_unknown open_handle)
unfolding serve_operation execute_operation run_backend error_before_call early_error
    operation_precondition published_refusal refusal invalid_request call publish_result
    published_of lookup adjust update_handle update_observation update_schema_dirty publish_unknown
    publish_observation unknown_failure release_admission current_schema_dirty Native.commit
    dispatch_commit execute_command take_word success_envelope error_envelope_with_sqlstate
    payload_of is_outcome_unknown refresh_envelope_state succeeded
after_lost_commit = refl

lost_is_unknown : unknown_failure (commit_turn false).reply ≡ true
unfolding serve_operation execute_operation run_backend error_before_call early_error
    operation_precondition published_refusal refusal invalid_request call publish_result
    published_of lookup adjust update_handle update_observation update_schema_dirty publish_unknown
    publish_observation unknown_failure release_admission current_schema_dirty Native.commit
    dispatch_commit execute_command take_word success_envelope error_envelope_with_sqlstate
    payload_of is_outcome_unknown refresh_envelope_state succeeded
lost_is_unknown = refl

commit_is_called :
    error_before_call (registry_with open_handle) "h-1" settings commit context 0 ≡ none
unfolding error_before_call early_error operation_precondition published_of lookup invalid_request
    published_refusal refusal
commit_is_called = refl

commit_answer :
    (call (toy true) commit settings context (connected true inside)).0
    ≡ ok (committed seen_at_rest)
unfolding call Native.commit dispatch_commit execute_command take_word
commit_answer = refl

goes_on : (commit_turn true).ends ≡ false
unfolding serve_operation
goes_on = refl

serve_committed_example :
    (handle_at seen_at_rest false false).schema_observed ≡ false
    × (handle_at seen_at_rest false false).schema_dirty ≡ false
serve_committed_example =
    serve_committed (toy true) (toy-Lawful true) writer (registry_with open_handle) "h-1" settings
      commit context 0 (connected true inside) open_handle (handle_at seen_at_rest false false)
      (here open_handle) after_commit seen_at_rest commit_is_called commit_answer

serve_unknown_commit_example :
    tools (next_moves (state (made_unknown open_handle))) ≡ "close_database" ∷ []
serve_unknown_commit_example =
    serve_unknown_commit (toy false) (toy-Lawful false) writer (registry_with open_handle) "h-1"
      settings commit context 0 (connected false inside) open_handle (made_unknown open_handle)
      (here open_handle) after_lost_commit refl refl lost_is_unknown

-- A `get_schema` on a handle at rest.
abbrev new_handle : PublishedHandle
new_handle = handle_at seen_at_rest false false

abbrev schema_turn : Turn (toy true)
schema_turn =
    serve_operation (toy true) writer (registry_with new_handle) "h-1" settings get_schema context 0
      (connected true at_rest)

no_schema_fits : validate_schema writer settings (record { schemas = [] }) ≡ ok tt
no_schema_fits =
    (validate_schema_iff writer settings (record { schemas = [] }) (omega arith)).1
      (record { texts_fit = tt; units_fit = omega arith; bytes_fit = ([], refl, omega arith) })

empty_snapshot :
    retrieve writer (adapter true) settings 100 (libpq_control context) at_rest 0
    ≡ (ok (record { schemas = [] }), at_rest, 0)
unfolding retrieve retrieve_inner assemble validate_partial first_word take_word
empty_snapshot = ground (arith, no_schema_fits)

after_schema : published_of "h-1" schema_turn.registry ≡ some (handle_at seen_at_rest true false)
unfolding serve_operation execute_operation run_backend error_before_call early_error
    operation_precondition published_refusal refusal invalid_request call publish_result
    published_of lookup adjust update_handle update_observation update_schema_dirty publish_unknown
    publish_observation unknown_failure release_admission current_schema_dirty Native.get_schema
    success_envelope error_envelope_with_sqlstate payload_of is_outcome_unknown
    refresh_envelope_state succeeded
after_schema = ground (arith, no_schema_fits, empty_snapshot)

serve-schema_observed_example :
    (false ≡ true)
    ⊎ ((get_schema ≡ get_schema)
        × IsSchema writer settings
            (call (toy true) get_schema settings context (connected true at_rest)).0)
serve-schema_observed_example =
    serve-schema_observed (toy true) (toy-Lawful true) writer (registry_with new_handle) "h-1"
      settings get_schema context 0 (connected true at_rest) new_handle
      (handle_at seen_at_rest true false) (here new_handle) after_schema refl

-- Another handle is published beside the one of the turn.
abbrev two_handles : RegistryState
two_handles = record (registry_with open_handle) {
  handles =
      ("h-1", fresh_entry open_handle "app" settings)
      ∷ ("h-2", fresh_entry new_handle "app" settings)
      ∷ [];
}

serve_others_example :
    published_of "h-2"
      (serve_operation
        (toy true)
        writer
        two_handles
        "h-1"
        settings
        commit
        context
        0
        (connected true inside)).registry
    ≡ published_of "h-2" two_handles
serve_others_example =
    serve_others (toy true) writer two_handles "h-1" settings commit context 0
      (connected true inside) "h-2" refl

-- The reply to the commit.
abbrev committed_reply : Envelope Value
committed_reply =
    success_envelope (some (state (handle_at seen_at_rest false false)))
      (singleton "committed" (bool true))

replies_committed : (commit_turn true).reply ≡ ok committed_reply
unfolding serve_operation execute_operation run_backend error_before_call early_error
    operation_precondition published_refusal refusal invalid_request call publish_result
    published_of lookup adjust update_handle update_observation update_schema_dirty publish_unknown
    publish_observation unknown_failure release_admission current_schema_dirty Native.commit
    dispatch_commit execute_command take_word success_envelope error_envelope_with_sqlstate
    payload_of is_outcome_unknown refresh_envelope_state succeeded current_state
replies_committed = refl

serve_reply_valid_example : validate_envelope committed_reply ≡ ok tt
serve_reply_valid_example =
    serve_reply_valid (toy true) (toy-Lawful true) writer (registry_with open_handle) "h-1" settings
      commit context 0 (connected true inside) open_handle (handle_at seen_at_rest false false)
      (here open_handle) after_commit refl committed_reply goes_on replies_committed
