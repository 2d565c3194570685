-- ===== src/Worker/Shutdown/Frozen.antt =====
-- A later shutdown answers with the report of the first one that came to an end.
use mathlib.Core.Path.{subst}
use pg_mcp.Prelude.{
  keys, ◌+◌, ◌*◌, ℕ, zero, suc, String, some, List, ◌≡◌, ◌∙◌, inl, inr, arith, Option-cases,
  Bool-cases,
}
use pg_mcp.Worker.Registry.{RegistryState, ShutdownReport}
use pg_mcp.Worker.Admission.{is_running}
use pg_mcp.Worker.Open.{CoreSettings}
use pg_mcp.Worker.Shutdown.{
  Surroundings, Scene, settle, stop_workers, wait_opens, clean_up, shutdown, total_seconds, begin,
  await_report,
}
use pg_mcp.Worker.Shutdown.Entries.{Leaves, Leaves-any, Leaves-bind}

module _ (b : Surroundings) where
  -- The report stands in the registry.
  abbrev IsFrozen : ShutdownReport × Scene b → Type 0
  IsFrozen a = a.1.0.frozen_report ≡ some a.0

  settle-IsFrozen :
      (report : ShutdownReport) (r : RegistryState)
      → (settle report r).1.frozen_report ≡ some (settle report r).0
  unfolding settle
  settle-IsFrozen report r = ground arith

  await_report-IsFrozen : (n : ℕ) (σ : Scene b) → Leaves IsFrozen (await_report b n σ)
  unfolding await_report
  await_report-IsFrozen zero σ = _
  await_report-IsFrozen (suc n) σ = elim (Option-cases σ.0.frozen_report) [
    | inl e ↦ rw (e, await_report) (await_report-IsFrozen n (b.others σ))
    | inr (report, e) ↦ rw (e, await_report) e
  ]

  clean_up-IsFrozen :
      (fuel deadline : ℕ) (handles opens : List String) (σ : Scene b)
      → Leaves IsFrozen (clean_up b fuel deadline handles opens σ)
  unfolding clean_up
  clean_up-IsFrozen fuel deadline handles opens σ =
      let σ₀ : Scene b = (σ.0, b.cancel_core σ.1) in
      Leaves-bind (λ _. Unit) IsFrozen (stop_workers b fuel deadline handles σ₀) _
        (Leaves-any (stop_workers b fuel deadline handles σ₀))
        (λ a _.
          Leaves-bind (λ _. Unit) IsFrozen (wait_opens b fuel deadline opens a.1) _
            (Leaves-any (wait_opens b fuel deadline opens a.1)) (λ c _. settle-IsFrozen _ c.1.0))

  shutdown-IsFrozen :
      (fuel : ℕ) (core : CoreSettings) (σ : Scene b) → Leaves IsFrozen (shutdown b fuel core σ)
  unfolding shutdown
  shutdown-IsFrozen fuel core (r, s) = elim (Option-cases r.frozen_report) [
    | inr (report, e) ↦ rw (e, shutdown) e
    | inl e ↦ elim (Bool-cases (is_running r.lifecycle)) [
      | inr n ↦ rw (e, n, shutdown) (await_report-IsFrozen fuel (b.others (r, s)))
      | inl n ↦
          rw (e, n, shutdown)
            (clean_up-IsFrozen fuel (b.now s + b.second * total_seconds core) (keys r.handles)
              (keys r.pending_opens) (begin (b.now s) r, s))
    ]
  ]

  -- Whatever caller a shutdown answers with a report, the owner of the cleanup or one that waited,
  -- any later shutdown answers with the same report and changes nothing, as long as the frozen
  -- report is the one left then.
  pub shutdown_frozen :
      (fuel fuel' : ℕ) (core core' : CoreSettings) (σ τ υ : Scene b) (report : ShutdownReport)
      → shutdown b fuel core σ ≡ some (report, τ)
      → υ.0.frozen_report ≡ τ.0.frozen_report
      → shutdown b fuel' core' υ ≡ some (report, υ)
  unfolding shutdown
  shutdown_frozen fuel fuel' core core' σ τ υ report done kept =
      let e = kept ∙ subst (Leaves IsFrozen) done (shutdown-IsFrozen fuel core σ) in
      ground (arith, e)
