-- ===== src/Worker/Admission.antt =====
-- worker.rs: the admission of a request in `Core::dispatch`, and the bounded channel to the worker.
pub mod Queue
pub mod Outcomes
use pg_mcp.Prelude.{
  ℕ, String, Bool, true, false, not, ◌+◌, ◌-◌, max, leb, Option, none, some, List, [], ◌∷◌, ◌++◌,
  length, if◌then◌else◌, lookup, adjust,
}
use pg_mcp.Protocol.Errors.{
  ErrorCode, CoreError, known_error, queue_full, connection_lost, server_stopping, handle_unknown,
}
use pg_mcp.Config.{Config}
use pg_mcp.Worker.Backend.{Token, RequestContext, from_secs}
use pg_mcp.Worker.Registry.{
  RegistryState, RegistryLifecycle, running, stopping, stopped, WorkerEntry, Request, state,
}
use pg_mcp.Worker.Execute.{CoreFailure, process_failure, handle_failure}

-- The context that `dispatch` makes, at the instant `now`, from the configuration of the handle.
abbrev pub request_context : Config → Token → Token → ℕ → RequestContext
request_context config cancellation shutdown now = record {
  cancellation = cancellation;
  shutdown = shutdown;
  deadline = now + from_secs config.request_timeout_seconds;
  cancel_drain_grace = from_secs config.cancel_drain_grace_seconds;
}

-- `mpsc::channel(config.outstanding_requests.max(1))`.
abbrev pub capacity : Config → ℕ
capacity config = max config.outstanding_requests 1

-- The answers of tokio's `try_send`.
pub data Sending : Type 0 where
  sent : WorkerEntry → Sending
  full disconnected : Sending

-- `entry.sender.try_send(request)`, where `receiving` says whether the worker still holds the
-- receiver.
unfoldable pub try_send : Request → Bool → WorkerEntry → Sending
try_send request receiving e =
    if not receiving
    then disconnected
    else if leb (capacity e.config) (length e.queue)
    then full
    else sent (record e { queue = e.queue ++ (request ∷ []) })

abbrev pub give_back : WorkerEntry → WorkerEntry
give_back e = record e { admitted = e.admitted - 1 }

-- The guard on `admitted`, its increment and the send: why the request is not taken and whether
-- its outcome is unknown, and the entry afterwards.
unfoldable pub enqueue : Request → Bool → WorkerEntry → Option (ErrorCode × Bool) × WorkerEntry
enqueue request receiving e =
    let counted = record e { admitted = e.admitted + 1 } in
    if leb e.config.outstanding_requests e.admitted
    then (some (queue_full, false), e)
    else elim (try_send request receiving counted) [
      | sent e' ↦ (none, e')
      | full ↦ (some (queue_full, false), give_back counted)
      | disconnected ↦ (some (connection_lost, true), give_back counted)
    ]

-- What the second block of `dispatch` comes to. `blocked` is a lock of the registry by the thread
-- that holds it, which std::sync::Mutex does not return from.
pub data Admission : Type 0 where
  admitted : RegistryState → Admission
  refused : CoreFailure → RegistryState → Admission
  blocked : Admission

abbrev pub is_running : RegistryLifecycle → Bool
is_running running = true
is_running stopping = false
is_running stopped = false

-- `CoreFailure::for_handle`, by a thread that holds the lock of the registry or not: it calls
-- `current_state`, which locks the registry.
abbrev pub for_handle_under_lock : (held : Bool) → String → CoreError → RegistryState → Admission
for_handle_under_lock true h error r = blocked
for_handle_under_lock false h error r = refused (handle_failure r h error) r

-- The second block of `dispatch`, under the lock of the registry.
unfoldable pub admit : Request → Bool → String → RegistryState → Admission
admit request receiving h r =
    if not (is_running r.lifecycle)
    then refused (process_failure (known_error server_stopping)) r
    else elim (lookup h r.handles) [
      | none ↦ refused (process_failure (known_error handle_unknown)) r
      | some e ↦
          if e.published.closed
          then for_handle_under_lock true h (known_error handle_unknown) r
          else (let (failed, e') = enqueue request receiving e in
              let r' = record r { handles = adjust h (λ _. e') r.handles } in
              elim failed [
                | none ↦ admitted r'
                | some (code, outcome_unknown) ↦
                    refused
                      (record {
                        error = known_error code;
                        handle_state = some (state e.published);
                        sqlstate = none;
                        outcome_unknown = outcome_unknown;
                      })
                      r'
              ])
    ]
