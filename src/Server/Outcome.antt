-- ===== src/Server/Outcome.antt =====
-- crates/postgres-mcp/src/lib.rs: how a session ends, and what that says of the cleanup.
use Prim.Native.String.{◌++◌}
use mathlib.Core.List.{foldl}
use pg_mcp.Prelude.{
  ℕ, String, Bool, true, false, Option, none, some, List, [], ◌∷◌, all, All, unwrap_or,
  if◌then◌else◌, Result, ok, err, ◌≡◌, ◌↔◌, refl, arith, lookup, keys, Option-cases, inl, inr, ap,
  sym, ◌∙◌,
}
use pg_mcp.Protocol.Errors.{CoreError, message}
use pg_mcp.Worker.Registry.{RegistryState, WorkerShutdownEntry, ShutdownReport}
use pg_mcp.Worker.Admission.{is_running}
use pg_mcp.Config.Profiles.{ConfigFile}
use pg_mcp.Worker.Open.{CoreSettings}
use pg_mcp.Worker.Open.Database.{new_with_profiles}
use pg_mcp.Worker.Shutdown.{
  Surroundings, Scene, is_verified, report_verified, worker_finished, shutdown,
}
use pg_mcp.Worker.Shutdown.Contract.{Lawful}
use pg_mcp.Worker.Shutdown.Report.{verified_quiet}

pub record ServeFailure : Type 0 where
  pub primary : String
  pub cleanup_errors : List String

-- `Display for ServeFailure`.
abbrev pub display_failure : ServeFailure → String
display_failure f =
    foldl (λ text e. text ++ ("; cleanup failure: " ++ e)) f.primary f.cleanup_errors

-- `cleanup_errors`.
unfoldable pub cleanup_errors_of : List WorkerShutdownEntry → List String
cleanup_errors_of [] = []
cleanup_errors_of (w ∷ ws) =
    let rest = cleanup_errors_of ws in
    if is_verified w
    then rest
    else ("handle " ++ w.handle ++ ": cleanup uncertain at " ++ unwrap_or w.stage "unknown") ∷ rest

-- How the session of rmcp ended before the cleanup: it was stopped by the token, its
-- initialization failed, or it ran to its end, with an error or without.
pub data SessionEnd : Type 0 where
  stopped : SessionEnd
  not_initialized : String → (stopping : Bool) → SessionEnd
  ended : Option String → SessionEnd

-- The `tokio::select!` of `serve_with_cleanup` and `serve_profiles`.
unfoldable pub primary_failure : SessionEnd → Option String
primary_failure stopped = none
primary_failure (not_initialized e true) = none
primary_failure (not_initialized e false) = some ("failed to initialize MCP stdio server: " ++ e)
primary_failure (ended none) = none
primary_failure (ended (some e)) = some ("MCP stdio server failed: " ++ e)

-- The final `match` of both.
unfoldable pub serve_outcome : Option String → List String → Result (Unit {0}) ServeFailure
serve_outcome (some primary) cleanup = err (record { primary = primary; cleanup_errors = cleanup })
serve_outcome none [] = ok tt
serve_outcome none (e ∷ cleanup) =
    err
      (record { primary = "server stopped with cleanup uncertainty"; cleanup_errors = e ∷ cleanup })

-- `static_core_error`.
unfoldable pub static_core_error : CoreError → String
static_core_error e = "startup failed: " ++ message e.code

no_cleanup_errors :
    (ws : List WorkerShutdownEntry) → (cleanup_errors_of ws ≡ []) ↔ (all is_verified ws ≡ true)
unfolding cleanup_errors_of
no_cleanup_errors [] = (λ _. refl, λ _. refl)
no_cleanup_errors (w ∷ ws) =
    (λ e. ground (arith, e, no_cleanup_errors ws), λ e. ground (arith, e, no_cleanup_errors ws))

module _ (b : Surroundings) where
  -- `serve_with_cleanup`, once the core was made or failed to be made.
  unfoldable pub serve_with_cleanup :
      ℕ
      → Result CoreSettings CoreError
      → SessionEnd
      → Scene b
      → Option (Result (Unit {0}) ServeFailure × Scene b)
  unfolding static_core_error
  serve_with_cleanup fuel (err e) session σ =
      some (err (record { primary = static_core_error e; cleanup_errors = [] }), σ)
  serve_with_cleanup fuel (ok core) session σ = elim (shutdown b fuel core σ) [
    | none ↦ none
    | some (report, τ) ↦
        some (serve_outcome (primary_failure session) (cleanup_errors_of report.workers), τ)
  ]

  -- `serve_profiles`, over a file and the version of libpq.
  unfoldable pub serve_profiles :
      ℕ → ℕ → ConfigFile → SessionEnd → Scene b → Option (Result (Unit {0}) ServeFailure × Scene b)
  unfolding new_with_profiles static_core_error
  serve_profiles fuel version file session σ = elim (new_with_profiles version file) [
    | err e ↦ some (err (record { primary = static_core_error e; cleanup_errors = [] }), σ)
    | ok (core, _) ↦ elim (shutdown b fuel core σ) [
      | none ↦ none
      | some (report, τ) ↦
          some (serve_outcome (primary_failure session) (cleanup_errors_of report.workers), τ)
    ]
  ]

  answered :
      SessionEnd → ShutdownReport → Scene b → Option (Result (Unit {0}) ServeFailure × Scene b)
  answered session report τ =
      some (serve_outcome (primary_failure session) (cleanup_errors_of report.workers), τ)

  serve_answered :
      (fuel : ℕ) (core : CoreSettings) (session : SessionEnd) (σ : Scene b)
      (report : ShutdownReport) (τ' : Scene b)
      → shutdown b fuel core σ ≡ some (report, τ')
      → serve_with_cleanup fuel (ok core) session σ ≡ answered session report τ'
  unfolding serve_with_cleanup answered
  serve_answered fuel core session σ report τ' e = rw (e, serve_with_cleanup) refl

  answered_at :
      (session : SessionEnd) (report : ShutdownReport) (τ' τ : Scene b)
      → answered session report τ' ≡ some (ok tt, τ)
      → τ' ≡ τ
  unfolding answered
  answered_at session report τ' τ h = ground (arith, h)

  answered_ok :
      (session : SessionEnd) (report : ShutdownReport) (τ' τ : Scene b)
      → answered session report τ' ≡ some (ok tt, τ)
      → report_verified report ≡ true
  unfolding answered serve_outcome report_verified
  answered_ok session report τ' τ h = ground (arith, h, no_cleanup_errors report.workers)

  -- Over surroundings that keep the contract Lawful: where a session ends without a failure, and
  -- its shutdown is the first one, no thread of a handle that was in the registry when the cleanup
  -- began is running any more, and no open that was pending then is pending. Nothing is said of a
  -- worker that an open started and did not publish.
  pub serve_quiet :
      Lawful b
      → (fuel : ℕ) (core : CoreSettings) (session : SessionEnd) (r : RegistryState) (s : b.Rest)
        (τ : Scene b)
      → is_running r.lifecycle ≡ true
      → r.frozen_report ≡ none
      → serve_with_cleanup fuel (ok core) session (r, s) ≡ some (ok tt, τ)
      → All (λ h. worker_finished h τ.0 ≡ true) (keys r.handles)
        × All (λ id. lookup id τ.0.pending_opens ≡ none) (keys r.pending_opens)
  unfolding serve_with_cleanup
  serve_quiet law fuel core session r s τ running fresh served =
      elim (Option-cases (shutdown b fuel core (r, s))) [
        | inl e ↦ absurd (ground (arith, served, e))
        | inr ((report, τ'), e) ↦
            let done : shutdown b fuel core (r, s) ≡ some (report, τ) =
              e
              ∙ ap (λ υ. some (report, υ))
                  (answered_at session report τ' τ
                    (sym (serve_answered fuel core session (r, s) report τ' e) ∙ served)) in
            verified_quiet b law fuel core r s report τ running fresh done (
              answered_ok session report τ' τ
                (sym (serve_answered fuel core session (r, s) report τ' e) ∙ served))
      ]
