-- ===== src/Worker/Loop.antt =====
-- worker.rs: what `worker_loop` does with one request, and with a queue of them.
use pg_mcp.Prelude.{
  ℕ, String, Bool, true, false, ◌&&◌, ◌-◌, none, some, List, [], ◌∷◌, if◌then◌else◌, is_some,
  adjust, ok, err,
}
use pg_mcp.Protocol.Json.{Value}
use pg_mcp.Protocol.Json.Canonical.{Writer}
use pg_mcp.Protocol.Errors.{is_outcome_unknown}
use pg_mcp.Protocol.Envelope.{Envelope, moves_of}
use pg_mcp.Config.{Config}
use pg_mcp.Worker.Backend.{BackendObservation, RequestContext, Backend, ShutdownWorkerResult}
use pg_mcp.Worker.Registry.{
  RegistryState, Operation, close, commit, Request, operation, shutdown, current_state,
  update_observation, publish_unknown, publish_closed, WorkerShutdownEntry, ShutdownOutcome,
}
use pg_mcp.Worker.Execute.{Outcome, execute_operation}

abbrev pub is_close : Operation → Bool
is_close close = true
is_close _ = false

abbrev pub is_commit : Operation → Bool
is_commit commit = true
is_commit _ = false

-- `unknown_failure` of the loop.
unfoldable pub unknown_failure : Outcome → Bool
unknown_failure (err f) = f.outcome_unknown
unknown_failure (ok e) = elim e.error [ none ↦ false | some p ↦ is_outcome_unknown p ]

-- `result.as_ref().is_ok_and(|envelope| envelope.result.is_some())`.
unfoldable pub succeeded : Outcome → Bool
succeeded (err f) = false
succeeded (ok e) = is_some e.result

-- `refresh_envelope_state`.
unfoldable pub refresh_envelope_state :
    RegistryState → String → Bool → Envelope Value → Envelope Value
refresh_envelope_state r h verified_close e =
    if verified_close
    then e
    else record e { handle_state = current_state h r; next_moves = moves_of (current_state h r) }

abbrev pub refresh : RegistryState → String → Bool → Outcome → Outcome
refresh r h verified_close (ok e) = ok (refresh_envelope_state r h verified_close e)
refresh r h verified_close (err f) = err f

-- The drop of the `AdmissionGuard`. The subtraction saturates at 0, as `-` does.
unfoldable pub release_admission : String → RegistryState → RegistryState
release_admission h r = record r {
  handles = adjust h (λ e. record e { admitted = e.admitted - 1 }) r.handles;
}

-- The publication after an operation: the native observation, and the loss of what an unknown
-- outcome leaves unproved.
unfoldable pub publish_observation :
    String → Operation → Outcome → BackendObservation → RegistryState → RegistryState
unfolding unknown_failure
publish_observation h op outcome o r =
    let seen = update_observation h o none r in
    if unknown_failure outcome
    then (if is_commit op then publish_unknown h seen else update_observation h o (some false) seen)
    else seen

-- What one turn of the loop leaves: the reply, the registry, the backend, and whether it ends.
pub record Turn (b : Backend) : Type 0 where
  pub reply : Outcome
  pub registry : RegistryState
  pub backend : b.State
  pub ends : Bool

-- `WorkerShutdownEntry::{verified, uncertain}`.
abbrev pub shutdown_entry : String → ShutdownWorkerResult → WorkerShutdownEntry
shutdown_entry h ShutdownWorkerResult.verified = record {
  handle = h;
  outcome = ShutdownOutcome.verified;
  stage = none;
}
shutdown_entry h (ShutdownWorkerResult.uncertain stage) = record {
  handle = h;
  outcome = ShutdownOutcome.uncertain;
  stage = some stage;
}

module _ (b : Backend) (to_vec : Writer) where
  -- `Request::Operation`, at the instant of its checks.
  unfoldable pub serve_operation :
      RegistryState → String → Config → Operation → RequestContext → ℕ → b.State → Turn b
  serve_operation r h config op c now s =
      let (outcome, r₁, s₁) = execute_operation b to_vec r h config op c now s in
      let r₂ = publish_observation h op outcome (b.observe s₁) r₁ in
      let closed = is_close op && succeeded outcome in
      record {
        reply = refresh r₂ h closed outcome;
        registry = release_admission h r₂;
        backend = s₁;
        ends = closed;
      }

  -- `Request::Shutdown`.
  unfoldable pub serve_shutdown :
      RegistryState
      → String
      → RequestContext
      → b.State
      → WorkerShutdownEntry × RegistryState × b.State
  serve_shutdown r h c s =
      let (outcome, s') = b.shutdown c s in (shutdown_entry h outcome, publish_closed h r, s')

  -- `worker_loop` over the requests that it receives, each with the instant of its checks, up to
  -- a verified close or a shutdown. The replies are those of the operations served.
  unfoldable pub worker_loop :
      RegistryState
      → String
      → Config
      → List (Request × ℕ)
      → b.State
      → List Outcome × RegistryState × b.State
  worker_loop r h config [] s = ([], r, s)
  worker_loop r h config ((operation op c, now) ∷ rest) s =
      let t : Turn b = serve_operation r h config op c now s in
      let (replies, r', s') = worker_loop t.registry h config rest t.backend in
      if t.ends then (t.reply ∷ [], t.registry, t.backend) else (t.reply ∷ replies, r', s')
  worker_loop r h config ((shutdown c, now) ∷ rest) s =
      let (entry, r', s') = serve_shutdown r h c s in ([], r', s')
