-- ===== src/Worker/Open/Detached.antt =====
-- worker.rs: the thread of an open that met a shutdown after it had started its worker.
use pg_mcp.Prelude.{
  ℕ, Option, none, ◌+◌, if◌then◌else◌, String, Bool, true, some, List, [], Result, ok,
}
use pg_mcp.Config.{Config, ConfigError}
use pg_mcp.Worker.Backend.{Token, RequestContext, BackendObservation, BackendFailure, from_secs}
use pg_mcp.Worker.Registry.{RegistryState, Request, shutdown}
use pg_mcp.Worker.Admission.{is_running, try_send, sent, full, disconnected}
use pg_mcp.Worker.Open.{connected_error, fresh_handle, fresh_entry}

-- The context of the shutdown request that an open sends to the worker that it gives up.
abbrev pub stop_context : Config → Token → ℕ → RequestContext
stop_context config core_shutdown now = record {
  cancellation = none;
  shutdown = core_shutdown;
  deadline = now + from_secs config.cancel_drain_grace_seconds;
  cancel_drain_grace = from_secs config.cancel_drain_grace_seconds;
}

-- What an open leaves of the thread that it spawned before it met the shutdown, and whose join
-- handle it drops: the queue of that worker, with the `Request::Shutdown` that it is sent, at the
-- instant `later`; `receiving` says whether the worker still holds the
-- receiver. The registry has no entry for that worker.
unfoldable pub detached_worker :
    RequestContext
    → (now later : ℕ) → Token
    → Bool
    → Result Config ConfigError
    → Result (BackendObservation × String) BackendFailure
    → Bool
    → RegistryState
    → Option (List Request)
unfolding try_send connected_error
detached_worker c now later core_shutdown receiving (ok config) (ok (o, database)) true r =
    elim (connected_error c now o) [
      | some e ↦ none
      | none ↦
          if is_running r.lifecycle
          then none
          else elim (try_send (shutdown (stop_context config core_shutdown later)) receiving
              (fresh_entry (fresh_handle "" database o) "" config)) [
                | sent e ↦ some e.queue
                | full ↦ some []
                | disconnected ↦ some []
              ]
    ]
detached_worker c now later core_shutdown receiving config connected spawned r = none
