-- ===== src/Worker/Turn.antt =====
-- One turn of the worker loop on one handle.
pub mod Schema
pub mod Refusal
pub mod Reply
pub mod Closing
pub mod Valid
use pg_mcp.Prelude.{
  ℕ, String, Bool, none, some, ◌≡◌, refl, arith, ◌∙◌, ◌⊎◌, ok, err, Option-cases, inl, inr,
}
use pg_mcp.Protocol.Json.Canonical.{Writer}
use pg_mcp.Protocol.Errors.{CoreError}
use pg_mcp.Config.{Config}
use pg_mcp.Worker.Backend.{Backend, RequestContext}
use pg_mcp.Worker.Registry.{PublishedHandle, RegistryState, Operation, published_of}
use pg_mcp.Worker.Execute.{
  call, error_before_call, error_envelope_for, execute_operation, run_backend, Outcome,
}
use pg_mcp.Worker.Loop.{
  serve_operation, unknown_failure, succeeded, refresh, refresh_envelope_state,
}
use pg_mcp.Worker.Handle.{
  after_answer, after_turn, published-publish_result, published-publish_observation,
  published-release_admission,
}

module _ (b : Backend) (to_vec : Writer) (r : RegistryState) (h : String) (config : Config)
    (op : Operation) (c : RequestContext) (now : ℕ) (s : b.State) where
  -- The handle after `execute_operation`, before the loop publishes.
  abbrev pub after_execute : PublishedHandle → PublishedHandle
  after_execute p = elim (error_before_call r h config op c now) [
    | some e ↦ p
    | none ↦ after_answer to_vec config (call b op config c s).0 p
  ]

  abbrev pub outcome_of : Outcome
  outcome_of = (execute_operation b to_vec r h config op c now s).0

  abbrev pub backend_after : b.State
  backend_after = (execute_operation b to_vec r h config op c now s).2

  pub execute_refused :
      (x : CoreError)
      → error_before_call r h config op c now ≡ some x
      → execute_operation b to_vec r h config op c now s ≡ (ok (error_envelope_for r h x), r, s)
  unfolding execute_operation
  execute_refused x e = rw (e, execute_operation)

  pub execute_called :
      error_before_call r h config op c now ≡ none
      → execute_operation b to_vec r h config op c now s ≡ run_backend b to_vec r h config op c s
  unfolding execute_operation
  execute_called e = rw (e, execute_operation)

  published-execute_operation :
      (p : PublishedHandle)
      → published_of h r ≡ some p
      → published_of h (execute_operation b to_vec r h config op c now s).1 ≡ some (after_execute p)
  unfolding run_backend
  published-execute_operation p here = elim (Option-cases (error_before_call r h config op c now)) [
    | inl e ↦
        rw (execute_called e, e, after_execute)
          (published-publish_result h r p here to_vec config (call b op config c s).0)
    | inr (x, e) ↦ rw (execute_refused x e, e, after_execute) here
  ]

  -- On a registered handle, a turn of the loop, with all of its writes to the registry,
  -- implements a pure step on the published handle: the answer of the backend where it was
  -- called, and then the publication of the native observation.
  pub published-serve_operation :
      (p : PublishedHandle)
      → published_of h r ≡ some p
      → published_of h (serve_operation b to_vec r h config op c now s).registry
        ≡ some (after_turn op outcome_of (b.observe backend_after) (after_execute p))
  unfolding serve_operation
  published-serve_operation p here =
      published-release_admission h h _
      ∙ published-publish_observation h _ _ (published-execute_operation p here) op outcome_of
          (b.observe backend_after)

  -- The execution leaves the handle alone, or applies the backend's answer to it.
  pub after_execute_cases :
      (p : PublishedHandle)
      → (after_execute p ≡ p)
        ⊎ ((error_before_call r h config op c now ≡ none)
            × (after_execute p ≡ after_answer to_vec config (call b op config c s).0 p))
  after_execute_cases p = elim (Option-cases (error_before_call r h config op c now)) [
    | inl e ↦ inr (e, rw (e, after_execute))
    | inr (x, e) ↦ inl (rw (e, after_execute))
  ]

unknown_failure-refresh :
    (r : RegistryState) (h : String) (verified : Bool) (x : Outcome)
    → unknown_failure (refresh r h verified x) ≡ unknown_failure x
unfolding unknown_failure refresh_envelope_state
unknown_failure-refresh r h verified (ok e) = ground arith
unknown_failure-refresh r h verified (err f) = refl

succeeded-refresh :
    (r : RegistryState) (h : String) (verified : Bool) (x : Outcome)
    → succeeded (refresh r h verified x) ≡ succeeded x
unfolding succeeded refresh_envelope_state
succeeded-refresh r h verified (ok e) = ground arith
succeeded-refresh r h verified (err f) = refl

module _ (b : Backend) (to_vec : Writer) (r : RegistryState) (h : String) (config : Config)
    (op : Operation) (c : RequestContext) (now : ℕ) (s : b.State) where
  -- The refresh of the reply keeps what it says of the outcome.
  pub unknown_failure-reply :
      unknown_failure (serve_operation b to_vec r h config op c now s).reply
      ≡ unknown_failure (outcome_of b to_vec r h config op c now s)
  unfolding serve_operation
  unknown_failure-reply = unknown_failure-refresh _ h _ (outcome_of b to_vec r h config op c now s)

  pub succeeded-reply :
      succeeded (serve_operation b to_vec r h config op c now s).reply
      ≡ succeeded (outcome_of b to_vec r h config op c now s)
  unfolding serve_operation
  succeeded-reply = succeeded-refresh _ h _ (outcome_of b to_vec r h config op c now s)
