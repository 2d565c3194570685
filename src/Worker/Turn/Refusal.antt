-- ===== src/Worker/Turn/Refusal.antt =====
-- Requests that are answered without a call of the backend.
use pg_mcp.Prelude.{ℕ, String, false, none, some, ok, ◌≡◌, refl, arith}
use pg_mcp.Protocol.Json.{Value}
use pg_mcp.Protocol.Json.Canonical.{Writer}
use pg_mcp.Protocol.Errors.{ErrorCode, CoreError, known_error}
use pg_mcp.Protocol.Envelope.{Envelope, payload_of, error_envelope}
use pg_mcp.Config.{Config}
use pg_mcp.Worker.Backend.{Backend, RequestContext}
use pg_mcp.Worker.Registry.{PublishedHandle, RegistryState, Operation, published_of}
use pg_mcp.Worker.Execute.{
  published_refusal, operation_precondition, early_error, error_before_call, error_envelope_for,
  Outcome,
}
use pg_mcp.Worker.Loop.{serve_operation, refresh_envelope_state, succeeded, Turn}
use pg_mcp.Worker.Turn.{execute_refused}

-- A reply that carries an error and no result.
abbrev pub IsErrorReply : CoreError → Outcome → Type 0
IsErrorReply x reply =
    (e : Envelope Value) × (reply ≡ ok e)
    × (e.result ≡ none)
    × (e.error ≡ some (payload_of x x.outcome_unknown none))

module _ (b : Backend) (to_vec : Writer) (r : RegistryState) (h : String) (config : Config)
    (op : Operation) (c : RequestContext) (now : ℕ) (s : b.State) where
  -- A request that is refused before its call leaves the backend as it was, does not end the
  -- worker, and is answered with that error alone.
  pub serve_refused :
      (x : CoreError)
      → error_before_call r h config op c now ≡ some x
      → let t : Turn b = serve_operation b to_vec r h config op c now s in
        (t.backend ≡ s) × (t.ends ≡ false) × IsErrorReply x t.reply
  unfolding serve_operation error_envelope_for error_envelope refresh_envelope_state succeeded
  serve_refused x e =
      rw (execute_refused b to_vec r h config op c now s x e)
        (refl, ground arith, (_, refl, ground arith, ground arith))

module _ (b : Backend) (to_vec : Writer) (r : RegistryState) (h : String) (config : Config)
    (op : Operation) (c : RequestContext) (now : ℕ) (s : b.State) where
  error_before_call_of_refusal :
      (p : PublishedHandle) (code : ErrorCode)
      → published_of h r ≡ some p
      → published_refusal op p ≡ some code
      → error_before_call r h config op c now ≡ some (known_error code)
  unfolding error_before_call early_error operation_precondition
  error_before_call_of_refusal p code here refused = ground arith

  -- The precondition on the published handle guards the connection: where it refuses an
  -- operation, the backend is not called, whatever the tokens and the deadline say, and the reply
  -- is the error of the precondition with a known outcome.
  pub serve_precondition :
      (p : PublishedHandle) (code : ErrorCode)
      → published_of h r ≡ some p
      → published_refusal op p ≡ some code
      → let t : Turn b = serve_operation b to_vec r h config op c now s in
        (t.backend ≡ s) × (t.ends ≡ false) × IsErrorReply (known_error code) t.reply
  serve_precondition p code here refused =
      serve_refused b to_vec r h config op c now s (known_error code)
        (error_before_call_of_refusal p code here refused)
