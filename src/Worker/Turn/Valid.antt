-- ===== src/Worker/Turn/Valid.antt =====
-- The replies of a turn can be serialized.
use pg_mcp.Prelude.{
  ℕ, String, Bool, true, false, none, some, Option, ok, err, Result, ◌≡◌, ◌⊎◌, inl, inr, refl, sym,
  ◌∙◌, arith, Option-cases, Result-cases,
}
use mathlib.Core.Path.{subst}
use pg_mcp.Protocol.Json.{Value}
use pg_mcp.Protocol.Json.Canonical.{Writer}
use pg_mcp.Protocol.Status.{HandleState, IsConsistent}
use pg_mcp.Protocol.Errors.{CoreError}
use pg_mcp.Protocol.Catalog.{validate_schema}
use pg_mcp.Protocol.Rows.{validate_result}
use pg_mcp.Protocol.Envelope.{
  Envelope, validate_envelope, success_envelope, error_envelope, error_envelope_with_sqlstate,
  success_envelope_valid, error_envelope_valid,
}
use pg_mcp.Config.{Config}
use pg_mcp.Worker.Backend.{
  Backend, BackendResult, BackendFailure, RequestContext, opened, schema, committed, rolled_back,
  closed,
}
use pg_mcp.Worker.Registry.{
  PublishedHandle, RegistryState, state, Operation, published_of, current_state,
}
use pg_mcp.Worker.Execute.{
  call, error_before_call, publish_result, run_backend, Outcome, error_envelope_for,
}
use pg_mcp.Worker.Loop.{serve_operation, refresh, refresh_envelope_state}
use pg_mcp.Worker.Handle.{current-state, published-release_admission}
use pg_mcp.Worker.Lawful.{Lawful}
use pg_mcp.Worker.Turn.{outcome_of, execute_refused, execute_called}
use pg_mcp.Worker.Turn.Closing.{serve-IsConsistent}

-- What the worker makes its envelopes from.
abbrev IsBuilt : Outcome → Type 0
IsBuilt (err f) = Unit
IsBuilt (ok e) =
    ((was : Option HandleState) × (v : Value) × (e ≡ success_envelope was v))
    ⊎ ((was : Option HandleState) × (x : CoreError) × (u : Bool) × (q : Option String) × (e
          ≡ error_envelope_with_sqlstate was x u q))

publish_result-IsBuilt :
    (to_vec : Writer) (config : Config) (h : String) (r : RegistryState)
    (answer : Result BackendResult BackendFailure)
    → IsBuilt (publish_result to_vec config h answer r).0
unfolding publish_result
publish_result-IsBuilt to_vec config h r (ok (opened mode o)) = inl (_, _, refl)
publish_result-IsBuilt to_vec config h r (ok (schema s o)) =
    elim (Result-cases (validate_schema to_vec config s)) [
      | inl (x, e) ↦ rw (e, publish_result) (inl (_, _, refl))
      | inr (x, e) ↦ rw (e, publish_result) tt
    ]
publish_result-IsBuilt to_vec config h r (ok (BackendResult.query q o ddl)) =
    elim (Result-cases (validate_result to_vec config q)) [
      | inl (x, e) ↦ rw (e, publish_result) (inl (_, _, refl))
      | inr (x, e) ↦ rw (e, publish_result) tt
    ]
publish_result-IsBuilt to_vec config h r (ok (committed o)) = inl (_, _, refl)
publish_result-IsBuilt to_vec config h r (ok (rolled_back changed o)) = inl (_, _, refl)
publish_result-IsBuilt to_vec config h r (ok (closed o true)) = inl (_, _, refl)
publish_result-IsBuilt to_vec config h r (ok (closed o false)) = tt
publish_result-IsBuilt to_vec config h r (err f) =
    inr (_, f.error, f.outcome_unknown, f.sqlstate, refl)

-- An envelope that the worker built is valid with any consistent state put in.
refresh_valid :
    (h : String) (r : RegistryState) (p : PublishedHandle) (outcome : Outcome) (e : Envelope Value)
    → current_state h r ≡ some (state p)
    → IsConsistent (state p)
    → IsBuilt outcome
    → refresh r h false outcome ≡ ok e
    → validate_envelope e ≡ ok tt
unfolding refresh_envelope_state success_envelope error_envelope_with_sqlstate
refresh_valid h r p (err f) e now consistent built is = cc
refresh_valid h r p (ok x) e now consistent (inl (was, v, b)) is =
    let same : success_envelope (some (state p)) v ≡ e = ground (arith, now, b) in
    rw (sym same) (success_envelope_valid (some (state p)) v consistent)
refresh_valid h r p (ok x) e now consistent (inr (was, y, u, q, b)) is =
    let same : error_envelope_with_sqlstate (some (state p)) y u q ≡ e = ground (arith, now, b) in
    rw (sym same) (error_envelope_valid Value (some (state p)) y u q consistent)

module _ (b : Backend) (L : Lawful b) (to_vec : Writer) (r : RegistryState) (h : String)
    (config : Config) (op : Operation) (c : RequestContext) (now : ℕ) (s : b.State)
    (p q : PublishedHandle) (before : published_of h r ≡ some p)
    (after : published_of h (serve_operation b to_vec r h config op c now s).registry ≡ some q)
    (still_open : p.closed ≡ false) where
  outcome_of-IsBuilt : IsBuilt (outcome_of b to_vec r h config op c now s)
  unfolding run_backend error_envelope_for error_envelope
  outcome_of-IsBuilt = elim (Option-cases (error_before_call r h config op c now)) [
    | inl e ↦
        subst (λ x. IsBuilt x.0) (sym (execute_called b to_vec r h config op c now s e))
          (publish_result-IsBuilt to_vec config h r (call b op config c s).0)
    | inr (x, e) ↦
        subst (λ y. IsBuilt y.0) (sym (execute_refused b to_vec r h config op c now s x e))
          (inr (_, x, x.outcome_unknown, none, refl))
  ]

  -- Over a backend that keeps the contract Lawful: an envelope that a turn on an open handle
  -- replies with, where it does not end the worker, passes `Envelope::validate`, so that it can
  -- be serialized, whether the operation succeeded, failed or was refused.
  pub serve_reply_valid :
      (e : Envelope Value)
      → (serve_operation b to_vec r h config op c now s).ends ≡ false
      → (serve_operation b to_vec r h config op c now s).reply ≡ ok e
      → validate_envelope e ≡ ok tt
  unfolding serve_operation
  serve_reply_valid e goes_on is =
      refresh_valid h _ q (outcome_of b to_vec r h config op c now s) e
        (current-state h _ q (sym (published-release_admission h h _) ∙ after))
        (serve-IsConsistent b L to_vec r h config op c now s p q before after still_open)
        outcome_of-IsBuilt (rw goes_on at is)
