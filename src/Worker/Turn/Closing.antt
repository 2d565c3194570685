-- ===== src/Worker/Turn/Closing.antt =====
-- The turn that closes a handle.
use pg_mcp.Prelude.{
  ℕ, String, Bool, true, false, ◌&&◌, some, ok, err, Result, ◌≡◌, inl, inr, refl, sym, ◌∙◌, ap,
  arith, Option-cases, Bool-cases,
}
use pg_mcp.Protocol.Json.Canonical.{Writer}
use pg_mcp.Protocol.Envelope.{success_envelope, error_envelope, error_envelope_with_sqlstate}
use pg_mcp.Protocol.Status.{IsConsistent, new_state-IsConsistent}
use pg_mcp.Config.{Config}
use pg_mcp.Worker.Backend.{
  Backend, BackendObservation, BackendResult, BackendFailure, RequestContext, opened, schema,
  committed, rolled_back, closed,
}
use pg_mcp.Worker.Registry.{PublishedHandle, RegistryState, state, Operation, published_of}
use pg_mcp.Worker.Execute.{
  call, error_before_call, publish_result, run_backend, Outcome, error_envelope_for,
}
use pg_mcp.Worker.Loop.{serve_operation, is_close, succeeded}
use pg_mcp.Worker.Handle.{after_answer, after_turn}
use pg_mcp.Worker.Lawful.{Lawful, Answers}
use pg_mcp.Worker.Turn.{
  after_execute, outcome_of, backend_after, published-serve_operation, execute_refused,
  execute_called, after_execute_cases,
}

after_turn_closed :
    (op : Operation) (outcome : Outcome) (o : BackendObservation) (p : PublishedHandle)
    → (after_turn op outcome o p).closed ≡ p.closed
after_turn_closed op outcome o p = ground arith

after_turn_quiet :
    (op : Operation) (outcome : Outcome) (o : BackendObservation) (p : PublishedHandle)
    → o.busy ≡ false
    → (after_turn op outcome o p).observation.busy ≡ false
after_turn_quiet op outcome o p quiet = ground arith

false_of_and : (x : Bool) → false ≡ (x && false)
false_of_and x = ground arith

-- The answer closes the handle exactly if the operation is a close and its reply has a result.
answer_closes :
    (to_vec : Writer) (config : Config) (h : String) (r : RegistryState) (op : Operation)
    (answer : Result BackendResult BackendFailure) (p : PublishedHandle)
    → ((a : BackendResult) → answer ≡ ok a → Answers op a)
    → p.closed ≡ false
    → (after_answer to_vec config answer p).closed
      ≡ (is_close op && succeeded (publish_result to_vec config h answer r).0)
unfolding publish_result succeeded success_envelope error_envelope_with_sqlstate
answer_closes to_vec config h r op (ok (opened mode o)) p kind e =
    let k = kind _ refl in ground arith
answer_closes to_vec config h r op (ok (schema s o)) p kind e = let k = kind _ refl in ground arith
answer_closes to_vec config h r op (ok (BackendResult.query q o ddl)) p kind e =
    let k = kind _ refl in ground arith
answer_closes to_vec config h r op (ok (committed o)) p kind e = let k = kind _ refl in ground arith
answer_closes to_vec config h r op (ok (rolled_back changed o)) p kind e =
    let k = kind _ refl in ground arith
answer_closes to_vec config h r op (ok (closed o true)) p kind e =
    let k = kind _ refl in ground arith
answer_closes to_vec config h r op (ok (closed o false)) p kind e = ground arith
answer_closes to_vec config h r op (err f) p kind e = ground arith

closed_by :
    (to_vec : Writer) (config : Config) (answer : Result BackendResult BackendFailure)
    (p : PublishedHandle)
    → p.closed ≡ false
    → (after_answer to_vec config answer p).closed ≡ true
    → (o : BackendObservation) × (answer ≡ ok (closed o true))
closed_by to_vec config (ok (opened mode o)) p e h = cc
closed_by to_vec config (ok (schema s o)) p e h = absurd (ground arith)
closed_by to_vec config (ok (BackendResult.query q o ddl)) p e h = absurd (ground arith)
closed_by to_vec config (ok (committed o)) p e h = cc
closed_by to_vec config (ok (rolled_back changed o)) p e h = cc
closed_by to_vec config (ok (closed o true)) p e h = (o, refl)
closed_by to_vec config (ok (closed o false)) p e h = cc
closed_by to_vec config (err f) p e h = cc

module _ (b : Backend) (L : Lawful b) (to_vec : Writer) (r : RegistryState) (h : String)
    (config : Config) (op : Operation) (c : RequestContext) (now : ℕ) (s : b.State)
    (p q : PublishedHandle) (before : published_of h r ≡ some p)
    (after : published_of h (serve_operation b to_vec r h config op c now s).registry ≡ some q)
    (still_open : p.closed ≡ false) where
  abbrev outcome : Outcome
  outcome = outcome_of b to_vec r h config op c now s

  abbrev executed : PublishedHandle
  executed = after_execute b to_vec r h config op c now s p

  abbrev seen : BackendObservation
  seen = b.observe (backend_after b to_vec r h config op c now s)

  after_is : q ≡ after_turn op outcome seen executed
  after_is = cc (published-serve_operation b to_vec r h config op c now s p before)

  executed_closed : executed.closed ≡ (is_close op && succeeded outcome)
  unfolding run_backend succeeded error_envelope_for error_envelope
  executed_closed = elim (Option-cases (error_before_call r h config op c now)) [
    | inr (x, e) ↦
        rw (e, after_execute)
          (still_open
            ∙ false_of_and (is_close op)
            ∙ ap (λ t. is_close op && succeeded t.0)
                (sym (execute_refused b to_vec r h config op c now s x e)))
    | inl e ↦
        rw (e, after_execute)
          (answer_closes to_vec config h r op (call b op config c s).0 p (L.answers op config c s)
              still_open
            ∙ ap (λ t. is_close op && succeeded t.0)
                (sym (execute_called b to_vec r h config op c now s e)))
  ]

  -- Over a backend that keeps the contract Lawful: a turn on an open handle closes it exactly if
  -- it ends the worker.
  pub serve_closed : q.closed ≡ (serve_operation b to_vec r h config op c now s).ends
  unfolding serve_operation
  serve_closed = rw after_is (after_turn_closed op outcome seen executed ∙ executed_closed)

  quiet_backend : executed.closed ≡ true → seen.busy ≡ false
  unfolding run_backend
  quiet_backend closes = elim (after_execute_cases b to_vec r h config op c now s p) [
    | inl e ↦ absurd (cc (still_open, closes, e))
    | inr (go, e) ↦
        let (o, a) =
          closed_by to_vec config (call b op config c s).0 p still_open
            (ap (λ x. x.closed) (sym e) ∙ closes) in
        ap (λ t. (b.observe t.2).busy) (execute_called b to_vec r h config op c now s go)
        ∙ L.closed_quiet op config c s o a
  ]

  closed_quiet : q.closed ≡ true → q.observation.busy ≡ false
  closed_quiet now_closed =
      let closes =
        sym (after_turn_closed op outcome seen executed)
        ∙ ap (λ x. x.closed) (sym after_is)
        ∙ now_closed in
      rw after_is (after_turn_quiet op outcome seen executed (quiet_backend closes))

  -- Over a backend that keeps the contract Lawful: the state published after a turn on an open
  -- handle passes `HandleState::validate`, also where the turn closed the handle.
  pub serve-IsConsistent : IsConsistent (state q)
  unfolding state
  serve-IsConsistent = new_state-IsConsistent _ _ _ _ _ _ (λ is_closed. elim (Bool-cases q.closed) [
    | inl e ↦ ground (arith, e, closed_quiet e)
    | inr e ↦ absurd (ground (arith, e))
  ])
