-- ===== src/Worker/Dispatch.antt =====
-- worker.rs: `Core::dispatch`, and the operations of `Core` that call it.
use pg_mcp.Prelude.{ℕ, String, Bool, Option, none, some, List, err, lookup}
use pg_mcp.Protocol.Errors.{known_error, unknown_error, handle_unknown, connection_lost}
use pg_mcp.Protocol.Request.{Parameter}
use pg_mcp.Worker.Backend.{Token}
use pg_mcp.Worker.Registry.{
  RegistryState, Operation, Request, operation, get_schema, open_read, open_write, commit, rollback,
  close, query,
}
use pg_mcp.Worker.Execute.{Outcome, process_failure, handle_failure}
use pg_mcp.Worker.Admission.{Admission, admit, admitted, refused, blocked, request_context}

-- What happens beside one dispatch: what the other tasks write to the registry between its two
-- locks, whether the worker still holds the receiver, and the reply to a request that was admitted,
-- with the registry then. There is none where the worker drops the sender of the reply.
pub record Beside : Type 0 where
  pub between : RegistryState → RegistryState
  pub receiving : Bool
  pub reply : Request → RegistryState → Option Outcome × RegistryState

-- `response.await`.
abbrev pub answered : String → Option Outcome × RegistryState → Outcome × RegistryState
answered h (some outcome, r) = (outcome, r)
answered h (none, r) = (err (handle_failure r h (unknown_error connection_lost)), r)

-- The end of `dispatch`, after its second lock.
abbrev pub after_admission :
    Beside → String → Request → Admission → Option (Outcome × RegistryState)
after_admission b h request blocked = none
after_admission b h request (refused f r) = some (err f, r)
after_admission b h request (admitted r) = some (answered h (b.reply request r))

-- `Core::dispatch`, with the token of the core's shutdown, at the instant `now`. It is none where
-- the thread locks the registry that it holds.
unfoldable pub dispatch :
    Beside
    → Token
    → ℕ
    → Operation
    → Token
    → String
    → RegistryState
    → Option (Outcome × RegistryState)
unfolding admit
dispatch b shutdown now op cancellation h r = elim (lookup h r.handles) [
  | none ↦ some (err (process_failure (known_error handle_unknown)), r)
  | some e ↦
      let request = operation op (request_context e.config cancellation shutdown now) in
      after_admission b h request (admit request b.receiving h (b.between r))
]

-- The operations of `Core` on one handle.
module _ (b : Beside) (shutdown : Token) (now : ℕ) (cancellation : Token) (h : String) where
  abbrev pub CoreCall : Type 0
  CoreCall = RegistryState → Option (Outcome × RegistryState)

  abbrev pub core_get_schema : CoreCall
  core_get_schema = dispatch b shutdown now get_schema cancellation h

  abbrev pub core_open_read : CoreCall
  core_open_read = dispatch b shutdown now open_read cancellation h

  abbrev pub core_open_write : CoreCall
  core_open_write = dispatch b shutdown now open_write cancellation h

  abbrev pub core_query : String → List Parameter → CoreCall
  core_query sql parameters =
      dispatch b shutdown now (query (record { sql = sql; parameters = parameters })) cancellation h

  abbrev pub core_commit : CoreCall
  core_commit = dispatch b shutdown now commit cancellation h

  abbrev pub core_rollback : CoreCall
  core_rollback = dispatch b shutdown now rollback cancellation h

  abbrev pub core_close_database : CoreCall
  core_close_database = dispatch b shutdown now close cancellation h
