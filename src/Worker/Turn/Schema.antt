-- ===== src/Worker/Turn/Schema.antt =====
-- How the schema observation of a handle comes and goes.
use pg_mcp.Prelude.{
  ℕ, String, true, false, ◌&&◌, not, none, some, ok, err, Result, ◌≡◌, ◌⊎◌, [], ◌∷◌, inl, inr, refl,
  sym, ◌∙◌, ap, arith, Result-cases, if◌then◌else◌,
}
use pg_mcp.Protocol.Json.Canonical.{Writer}
use pg_mcp.Protocol.Catalog.{SchemaResult, validate_schema}
use pg_mcp.Protocol.Envelope.{success_envelope}
use pg_mcp.Config.{Config}
use pg_mcp.Worker.Backend.{
  Backend, BackendObservation, BackendResult, BackendFailure, RequestContext, opened, schema,
  committed, rolled_back, closed,
}
use pg_mcp.Worker.Registry.{
  PublishedHandle, RegistryState, state, observed, made_unknown, Operation, get_schema, open_read,
  open_write, query, commit, rollback, close, published_of,
}
use pg_mcp.Worker.Execute.{call, error_before_call, publish_result, run_backend, Outcome}
use pg_mcp.Worker.Loop.{serve_operation, unknown_failure, is_commit}
use pg_mcp.Worker.Handle.{after_answer, after_turn}
use pg_mcp.Worker.Lawful.{Lawful, Answers}
use pg_mcp.Protocol.Status.{validate_state}
use pg_mcp.Protocol.Moves.{next_moves}
use pg_mcp.Protocol.Moves.Table.{tools}
use pg_mcp.Worker.Turn.{
  unknown_failure-reply, after_execute, outcome_of, backend_after, published-serve_operation,
  execute_called, after_execute_cases,
}

-- An answer that carries a schema within its limits.
abbrev pub IsSchema : Writer → Config → Result BackendResult BackendFailure → Type 0
IsSchema to_vec config answer =
    (s : SchemaResult) × (o : BackendObservation) × (answer ≡ ok (schema s o))
    × (validate_schema to_vec config s ≡ ok tt)

after_answer_observed :
    (to_vec : Writer) (config : Config) (answer : Result BackendResult BackendFailure)
    (p : PublishedHandle)
    → (after_answer to_vec config answer p).schema_observed ≡ true
    → (p.schema_observed ≡ true) ⊎ IsSchema to_vec config answer
after_answer_observed to_vec config (ok (opened mode o)) p h = inl h
after_answer_observed to_vec config (ok (schema s o)) p h =
    elim (Result-cases (validate_schema to_vec config s)) [
      | inl (tt, e) ↦ inr (s, o, refl, e)
      | inr (x, e) ↦ inl (rw e at h)
    ]
after_answer_observed to_vec config (ok (BackendResult.query q o ddl)) p h = inl (ground arith)
after_answer_observed to_vec config (ok (committed o)) p h = inl (ground arith)
after_answer_observed to_vec config (ok (rolled_back changed o)) p h = inl h
after_answer_observed to_vec config (ok (closed o true)) p h = cc
after_answer_observed to_vec config (ok (closed o false)) p h = cc
after_answer_observed to_vec config (err f) p h = inl h

after_turn_observed :
    (op : Operation) (outcome : Outcome) (o : BackendObservation) (p : PublishedHandle)
    → (after_turn op outcome o p).schema_observed ≡ true
    → p.schema_observed ≡ true
after_turn_observed op outcome o p h = ground arith

after_answer_open :
    (config : Config) (to_vec : Writer) (answer : Result BackendResult BackendFailure)
    (p : PublishedHandle)
    → ((o : BackendObservation) → ¬ (answer ≡ ok (closed o true)))
    → p.closed ≡ false
    → (after_answer to_vec config answer p).closed ≡ false
after_answer_open config to_vec (ok (opened mode o)) p n e = e
after_answer_open config to_vec (ok (schema s o)) p n e = ground arith
after_answer_open config to_vec (ok (BackendResult.query q o ddl)) p n e = ground arith
after_answer_open config to_vec (ok (committed o)) p n e = e
after_answer_open config to_vec (ok (rolled_back changed o)) p n e = e
after_answer_open config to_vec (ok (closed o true)) p n e = absurd (n o refl)
after_answer_open config to_vec (ok (closed o false)) p n e = e
after_answer_open config to_vec (err f) p n e = e

Answers-schema :
    (op : Operation) (s : SchemaResult) (o : BackendObservation)
    → Answers op (schema s o)
    → op ≡ get_schema
Answers-schema get_schema s o a = refl
Answers-schema open_read s o a = absurd a
Answers-schema open_write s o a = absurd a
Answers-schema (query r) s o a = absurd a
Answers-schema commit s o a = absurd a
Answers-schema rollback s o a = absurd a
Answers-schema close s o a = absurd a

module _ (b : Backend) (L : Lawful b) (to_vec : Writer) (r : RegistryState) (h : String)
    (config : Config) (op : Operation) (c : RequestContext) (now : ℕ) (s : b.State)
    (p q : PublishedHandle) (before : published_of h r ≡ some p)
    (after : published_of h (serve_operation b to_vec r h config op c now s).registry
      ≡ some q) where
  abbrev outcome : Outcome
  outcome = outcome_of b to_vec r h config op c now s

  abbrev seen : BackendObservation
  seen = b.observe (backend_after b to_vec r h config op c now s)

  abbrev executed : PublishedHandle
  executed = after_execute b to_vec r h config op c now s p

  after_is : q ≡ after_turn op outcome seen executed
  after_is = cc (published-serve_operation b to_vec r h config op c now s p before)

  -- Over a backend that keeps the contract Lawful: a handle whose schema counts as observed after
  -- a turn had it so before, or the turn was a `get_schema` for which the backend gave a response
  -- within the limits.
  pub serve-schema_observed :
      q.schema_observed ≡ true
      → (p.schema_observed ≡ true)
        ⊎ ((op ≡ get_schema) × IsSchema to_vec config (call b op config c s).0)
  serve-schema_observed obs =
      let kept = after_turn_observed op outcome seen executed (rw after_is at obs) in
      elim (after_execute_cases b to_vec r h config op c now s p) [
        | inl e ↦ inl (rw e at kept)
        | inr (e, e') ↦
            elim (after_answer_observed to_vec config (call b op config c s).0 p (rw e' at kept)) [
              | inl old ↦ inl old
              | inr (result, o, a, fits) ↦
                  inr
                    (Answers-schema op result o (L.answers op config c s _ a), (result, o, a, fits))
            ]
      ]

  unknown_is :
      unknown_failure (serve_operation b to_vec r h config op c now s).reply ≡ true
      → q ≡ (if is_commit op then made_unknown executed else observed seen (some false) executed)
  unknown_is u = rw (after_is, sym (unknown_failure-reply b to_vec r h config op c now s), u) refl

  -- Over a backend that keeps the contract Lawful: where the reply says that the outcome is
  -- unknown, the schema of the handle no longer counts as observed.
  pub serve_unknown :
      unknown_failure (serve_operation b to_vec r h config op c now s).reply ≡ true
      → q.schema_observed ≡ false
  serve_unknown u = rw (unknown_is u) (ground arith)

  executed_open_at_commit : op ≡ commit → p.closed ≡ false → executed.closed ≡ false
  executed_open_at_commit is_commit_op still_open =
      elim (after_execute_cases b to_vec r h config op c now s p) [
        | inl e ↦ rw e still_open
        | inr (e, e') ↦ rw e' (
            after_answer_open config to_vec _ p
              (λ o a. rw is_commit_op at (L.answers op config c s _ a)) still_open)
      ]

  -- Over a backend that keeps the contract Lawful: where the reply to a commit on an open handle
  -- says that the outcome is unknown, the handle is published as broken, so that only a local
  -- close is suggested.
  pub serve_unknown_commit :
      op ≡ commit
      → p.closed ≡ false
      → unknown_failure (serve_operation b to_vec r h config op c now s).reply ≡ true
      → tools (next_moves (state q)) ≡ "close_database" ∷ []
  unfolding state next_moves validate_state
  serve_unknown_commit is_commit_op still_open u =
      let quiet = executed_open_at_commit is_commit_op still_open in
      rw (unknown_is u, is_commit_op) (ground (arith, quiet))

  outcome_called :
      error_before_call r h config op c now ≡ none
      → outcome ≡ (publish_result to_vec config h (call b op config c s).0 r).0
  unfolding run_backend
  outcome_called go = ap (λ x. x.0) (execute_called b to_vec r h config op c now s go)

  committed_known :
      (o : BackendObservation)
      → error_before_call r h config op c now ≡ none
      → (call b op config c s).0 ≡ ok (committed o)
      → unknown_failure outcome ≡ false
  unfolding unknown_failure publish_result success_envelope
  committed_known o go answer =
      ap unknown_failure
        (outcome_called go ∙ ap (λ a. (publish_result to_vec config h a r).0) answer)
      ∙ refl

  -- Over a backend that keeps the contract Lawful: a commit that is not refused before its call,
  -- and that the backend reports as done, keeps the schema observation of a handle if no schema
  -- change was recorded for it, drops it otherwise, and clears the record.
  pub serve_committed :
      (o : BackendObservation)
      → error_before_call r h config op c now ≡ none
      → (call b op config c s).0 ≡ ok (committed o)
      → (q.schema_observed ≡ (p.schema_observed && not p.schema_dirty)) × (q.schema_dirty ≡ false)
  serve_committed o go answer =
      rw (after_is, committed_known o go answer, after_execute, go, answer) (ground arith, refl)
