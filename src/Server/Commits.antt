-- ===== src/Server/Commits.antt =====
-- The tool `commit`, from its call down to libpq: `call_tool`, `Core::dispatch`, one turn of
-- `worker_loop` and `LibpqBackend::commit`.
use pg_mcp.Prelude.{
  ℕ, String, Bool, true, false, Option, none, some, Result, ok, err, ◌≡◌, refl, arith, Option-cases,
  inl, inr, lookup,
}
use pg_mcp.Protocol.Json.{Value}
use pg_mcp.Protocol.Errors.{known_error, unknown_error, handle_unknown, connection_lost}
use mathlib.Core.Path.{subst}
use pg_mcp.Protocol.Json.Canonical.{Writer}
use pg_mcp.Protocol.Envelope.{error_envelope, error_envelope_with_sqlstate}
use pg_mcp.Config.{Config}
use pg_mcp.Libpq.{Adapter}
use pg_mcp.Worker.Backend.{
  Backend, BackendObservation, BackendResult, BackendFailure, RequestContext, Token, committed,
}
use pg_mcp.Worker.Registry.{
  RegistryState, WorkerEntry, Request, Operation, operation, shutdown, commit,
}
use pg_mcp.Worker.Execute.{
  Outcome, CoreFailure, publish_result, call, error_before_call, error_envelope_for,
  execute_operation, run_backend, process_failure, handle_failure,
}
use pg_mcp.Worker.Loop.{Turn, serve_operation, refresh, refresh_envelope_state}
use pg_mcp.Worker.Lawful.{Answers}
use pg_mcp.Worker.Native.{NativeState, native_backend}
use pg_mcp.Worker.Native.Contract.{call-Answers}
use pg_mcp.Worker.Native.Commit.{IsDone, commit_iff}
use pg_mcp.Worker.Admission.{Admission, admit, admitted, refused, blocked, request_context}
use pg_mcp.Worker.Dispatch.{Beside, dispatch, after_admission, answered, core_commit}
use pg_mcp.Server.Tools.{structured, tool_result}

-- An envelope without an error.
abbrev IsSuccess : Outcome → Type 0
IsSuccess (ok e) = e.error ≡ none
IsSuccess (err f) = ⊥

publish_result-succeeds :
    (to_vec : Writer) (config : Config) (h : String) (answer : Result BackendResult BackendFailure)
    (r : RegistryState)
    → IsSuccess (publish_result to_vec config h answer r).0
    → (res : BackendResult) × (answer ≡ ok res)
unfolding publish_result error_envelope_with_sqlstate
publish_result-succeeds to_vec config h (ok res) r s = (res, refl)
publish_result-succeeds to_vec config h (err f) r s = absurd (ground (arith))

refresh-succeeds :
    (r : RegistryState) (h : String) (closed : Bool) (outcome : Outcome)
    → IsSuccess (refresh r h closed outcome)
    → IsSuccess outcome
unfolding refresh_envelope_state
refresh-succeeds r h true (ok e) s = s
refresh-succeeds r h false (ok e) s = s
refresh-succeeds r h closed (err f) s = s

tool_result-structured :
    (outcome : Outcome) (v : Value) → tool_result outcome ≡ structured v → IsSuccess outcome
unfolding tool_result
tool_result-structured (ok e) v h = ground (arith)
tool_result-structured (err f) v h = absurd (ground (arith))

module _ (b : Backend) (to_vec : Writer) where
  execute_operation-succeeds :
      (r : RegistryState) (h : String) (config : Config) (op : Operation) (c : RequestContext)
      (now : ℕ) (s : b.State)
      → IsSuccess (execute_operation b to_vec r h config op c now s).0
      → (res : BackendResult) × ((call b op config c s).0 ≡ ok res)
  unfolding execute_operation run_backend error_envelope_for error_envelope
  execute_operation-succeeds r h config op c now s e =
      elim (Option-cases (error_before_call r h config op c now)) [
        | inr (refusal, before) ↦ absurd (ground (arith, rw (before, execute_operation) at e))
        | inl none_before ↦
            publish_result-succeeds to_vec config h (call b op config c s).0 r
              (rw (none_before, execute_operation) at e)
      ]

  serve_operation-succeeds :
      (r : RegistryState) (h : String) (config : Config) (op : Operation) (c : RequestContext)
      (now : ℕ) (s : b.State)
      → IsSuccess (serve_operation b to_vec r h config op c now s).reply
      → (res : BackendResult) × ((call b op config c s).0 ≡ ok res)
  unfolding serve_operation
  serve_operation-succeeds r h config op c now s e =
      execute_operation-succeeds r h config op c now s
        (refresh-succeeds _ h _ (execute_operation b to_vec r h config op c now s).0 e)

failed : (outcome : Outcome) (f : CoreFailure) → outcome ≡ err f → IsSuccess outcome → ⊥
failed outcome f e s = subst IsSuccess e s

-- An operation that succeeds was admitted, and is answered by the reply to its request.
module _ (b : Beside) (h : String) (request : Request) (outcome : Outcome)
    (r' : RegistryState) where
  answered-succeeds :
      (x : Option Outcome × RegistryState)
      → answered h x ≡ (outcome, r')
      → IsSuccess outcome
      → x.0 ≡ some outcome
  answered-succeeds (some o, r) e s = ground (arith, e)
  answered-succeeds (none, r) e s =
      absurd
        (failed outcome (handle_failure r h (unknown_error connection_lost)) (ground (arith, e)) s)

  after_admission-succeeds :
      (x : Admission)
      → after_admission b h request x ≡ some (outcome, r')
      → IsSuccess outcome
      → (r : RegistryState) × (x ≡ admitted r) × ((b.reply request r).0 ≡ some outcome)
  after_admission-succeeds blocked e s = absurd (ground (arith))
  after_admission-succeeds (refused f r) e s = absurd (failed outcome f (ground (arith, e)) s)
  after_admission-succeeds (admitted r) e s =
      (r, refl, answered-succeeds (b.reply request r) (ground (arith, e)) s)

dispatch-succeeds :
    (b : Beside) (stopping : Token) (now : ℕ) (op : Operation) (cancellation : Token) (h : String)
    (r r' : RegistryState) (outcome : Outcome)
    → dispatch b stopping now op cancellation h r ≡ some (outcome, r')
    → IsSuccess outcome
    → (entry : WorkerEntry) × (lookup h r.handles ≡ some entry)
      × ((r₁ : RegistryState) × (admit
              (operation op (request_context entry.config cancellation stopping now))
              b.receiving
              h
              (b.between r)
            ≡ admitted r₁)
          × ((b.reply (operation op (request_context entry.config cancellation stopping now)) r₁).0
              ≡ some outcome))
unfolding dispatch
dispatch-succeeds b stopping now op cancellation h r r' outcome e s =
    elim (Option-cases (lookup h r.handles)) [
      | inl missing ↦ absurd (
          failed outcome (process_failure (known_error handle_unknown))
            (ground (arith, rw (missing, dispatch) at e)) s)
      | inr (entry, there) ↦
          let c = request_context entry.config cancellation stopping now in
          let request = operation op c in
          let (r₁, taken, replied) =
            after_admission-succeeds b h request outcome r'
              (admit request b.receiving h (b.between r)) (rw (there, dispatch) at e) s in
          (entry, there, (r₁, taken, replied))
    ]

committed_answer :
    (res : BackendResult) → Answers commit res → (o : BackendObservation) × (res ≡ committed o)
committed_answer (committed o) h = (o, refl)
committed_answer res h = absurd h

module _ (a : Adapter) (to_vec : Writer) (h : String) (config : Config)
    (others : RegistryState → RegistryState) (instant : ℕ) (s : NativeState a) where
  -- The reply to a request that the worker of the handle serves in one turn, at an instant, on the
  -- connection that it then has, after what the other tasks wrote.
  abbrev pub served : Request → RegistryState → Option Outcome × RegistryState
  served (operation op c) r =
      let t : Turn (native_backend a to_vec) =
        serve_operation (native_backend a to_vec) to_vec (others r) h config op c instant s in
      (some t.reply, t.registry)
  served (shutdown c) r = (none, r)

  -- Where the tool `commit` answers with a result and not with an error: the handle was registered
  -- and a request for it, with the deadline that its configuration gives, was admitted to the
  -- registry as it then stood, and in the turn that served it the connection was in a transaction, the server
  -- answered COMMIT with the tag COMMIT, and the connection was idle afterwards.
  pub commit_tool-IsDone :
      (between : RegistryState → RegistryState) (receiving : Bool) (stopping : Token) (now : ℕ)
      (cancellation : Token) (r r' : RegistryState) (outcome : Outcome) (v : Value)
      → core_commit
          (record { between = between; receiving = receiving; reply = served })
          stopping
          now
          cancellation
          h
          r
        ≡ some (outcome, r')
      → tool_result outcome ≡ structured v
      → (entry : WorkerEntry) × (lookup h r.handles ≡ some entry)
        × ((r₁ : RegistryState) × (admit
                (operation commit (request_context entry.config cancellation stopping now))
                receiving
                h
                (between r)
              ≡ admitted r₁))
        × ((o : BackendObservation) × IsDone a
              (request_context entry.config cancellation stopping now)
              s
              o)
  unfolding call
  commit_tool-IsDone between receiving stopping now cancellation r r' outcome v e
        structured_result =
      let b : Beside = record { between = between; receiving = receiving; reply = served } in
      let success = tool_result-structured outcome v structured_result in
      let (entry, there, (r₁, taken, replied)) =
        dispatch-succeeds b stopping now commit cancellation h r r' outcome e success in
      let c = request_context entry.config cancellation stopping now in
      let t : Turn (native_backend a to_vec) =
        serve_operation (native_backend a to_vec) to_vec (others r₁) h config commit c instant s in
      let same : outcome ≡ t.reply = ground (arith, replied) in
      let (res, answer) =
        serve_operation-succeeds (native_backend a to_vec) to_vec (others r₁) h config commit c
          instant s (subst IsSuccess same success) in
      let (o, done) = committed_answer res (call-Answers a to_vec commit config c s res answer) in
      (entry, there, (r₁, taken), (o, (commit_iff a c s o).0 (ground (arith, answer, done))))
