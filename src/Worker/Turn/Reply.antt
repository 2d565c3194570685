-- ===== src/Worker/Turn/Reply.antt =====
-- What a turn of the worker loop tells its caller, and what it leaves of the other handles.
use pg_mcp.Prelude.{
  Option-cases, inl, inr, ℕ, String, true, false, none, some, ok, err, Result, ◌≡◌, refl, ◌∙◌,
  arith, str_eq,
}
use pg_mcp.Protocol.Json.Canonical.{Writer}
use pg_mcp.Protocol.Json.{Value}
use pg_mcp.Protocol.Envelope.{Envelope, moves_of}
use pg_mcp.Config.{Config}
use pg_mcp.Worker.Backend.{
  Backend, opened, schema, committed, rolled_back, closed, BackendResult, BackendFailure,
  BackendObservation, RequestContext,
}
use pg_mcp.Worker.Registry.{
  PublishedHandle, RegistryState, Operation, published_of, update_handle, observed, dirtied,
  made_unknown, current_state, update_observation, update_schema_dirty, publish_unknown,
  publish_closed,
}
use pg_mcp.Worker.Execute.{
  Outcome, publish_result, error_before_call, call, execute_operation, run_backend,
}
use pg_mcp.Worker.Loop.{
  serve_operation, refresh_envelope_state, refresh, Turn, publish_observation, release_admission,
}
use pg_mcp.Worker.Handle.{published-update, published-release_admission}

-- An envelope with the state of the registry.
abbrev pub IsFresh : RegistryState → String → Envelope Value → Type 0
IsFresh r h e = (e.handle_state ≡ current_state h r) × (e.next_moves ≡ moves_of (current_state h r))

module _ (h k : String) (other : str_eq h k ≡ false) where
  update_other :
      (f : PublishedHandle → PublishedHandle) (r : RegistryState)
      → published_of k (update_handle h f r) ≡ published_of k r
  update_other f r = rw (published-update h k f r, other) refl

  publish_observation_other :
      (op : Operation) (outcome : Outcome) (o : BackendObservation) (r : RegistryState)
      → published_of k (publish_observation h op outcome o r) ≡ published_of k r
  unfolding publish_observation update_observation publish_unknown
  publish_observation_other op outcome o r =
      let seen = update_other (observed o none) r in
      ground (
        arith,
        seen,
        update_other made_unknown _ ∙ seen,
        update_other (observed o (some false)) _ ∙ seen,
      )

  publish_result_other :
      (to_vec : Writer) (config : Config) (answer : Result BackendResult BackendFailure)
      (r : RegistryState)
      → published_of k (publish_result to_vec config h answer r).1 ≡ published_of k r
  unfolding publish_result update_observation update_schema_dirty publish_closed
  publish_result_other to_vec config (ok (opened mode o)) r = update_other _ r
  publish_result_other to_vec config (ok (schema x o)) r =
      ground (arith, update_other (dirtied false) _ ∙ update_other (observed o (some true)) r)
  publish_result_other to_vec config (ok (BackendResult.query q o true)) r =
      ground (arith, update_other (observed o none) _ ∙ update_other (dirtied true) r)
  publish_result_other to_vec config (ok (BackendResult.query q o false)) r =
      ground (arith, update_other (observed o none) r)
  publish_result_other to_vec config (ok (committed o)) r = update_other _ _ ∙ update_other _ r
  publish_result_other to_vec config (ok (rolled_back changed o)) r =
      update_other _ _ ∙ update_other _ r
  publish_result_other to_vec config (ok (closed o true)) r = update_other _ _ ∙ update_other _ r
  publish_result_other to_vec config (ok (closed o false)) r = update_other _ r
  publish_result_other to_vec config (err f) r = update_other _ r

module _ (b : Backend) (to_vec : Writer) (r : RegistryState) (h : String) (config : Config)
    (op : Operation) (c : RequestContext) (now : ℕ) (s : b.State) where
  execute_other :
      (k : String)
      → str_eq h k ≡ false
      → published_of k (execute_operation b to_vec r h config op c now s).1 ≡ published_of k r
  unfolding execute_operation run_backend
  execute_other k other = elim (Option-cases (error_before_call r h config op c now)) [
    | inl e ↦
        rw (e, execute_operation)
          (publish_result_other h k other to_vec config (call b op config c s).0 r)
    | inr (x, e) ↦ rw (e, execute_operation) refl
  ]

  -- A turn on one handle leaves what is published of every other handle as it was.
  pub serve_others :
      (k : String)
      → str_eq h k ≡ false
      → published_of k (serve_operation b to_vec r h config op c now s).registry ≡ published_of k r
  unfolding serve_operation
  serve_others k other =
      published-release_admission h k _
      ∙ publish_observation_other h k other op _ _ _
      ∙ execute_other k other

  current_state-release_admission :
      (r' : RegistryState) → current_state h (release_admission h r') ≡ current_state h r'
  unfolding current_state
  current_state-release_admission r' = rw (published-release_admission h h r', current_state) refl

  refresh-IsFresh :
      (r' : RegistryState) (o : Outcome) (e : Envelope Value)
      → refresh r' h false o ≡ ok e
      → IsFresh (release_admission h r') h e
  unfolding refresh_envelope_state
  refresh-IsFresh r' (ok e') e same =
      rw (current_state-release_admission r') (ground (arith, same), ground (arith, same))
  refresh-IsFresh r' (err f) e same = absurd (ground (arith, same))

  -- As long as the worker goes on, the handle state and the moves of a reply that is an envelope are
  -- those of the registry that the turn leaves.
  pub serve-IsFresh :
      (e : Envelope Value)
      → (let t : Turn b = serve_operation b to_vec r h config op c now s in
          t.ends ≡ false → t.reply ≡ ok e → IsFresh t.registry h e)
  unfolding serve_operation
  serve-IsFresh e goes_on replied = refresh-IsFresh _ _ e (rw goes_on at replied)
