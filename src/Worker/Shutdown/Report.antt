-- ===== src/Worker/Shutdown/Report.antt =====
-- The report of `Core::shutdown`, and what it leaves in the registry.
use mathlib.Core.Path.{subst}
use pg_mcp.Prelude.{
  str_eq, ℕ, String, true, false, if◌then◌else◌, ◌+◌, ◌*◌, ◌≤◌, none, some, List, [], ◌∷◌, ◌++◌,
  lookup, all, ◌≡◌, refl, ap, ◌∙◌, arith, All, map, sum_by, sum_by-append, all-append, Map, keys,
  sort_by, sort_by-IsSorted, IsSorted, sum_by-sort_by, all-sort_by, text_le_total,
}
use pg_mcp.Worker.Registry.{
  RegistryState, RegistryLifecycle, WorkerShutdownEntry, ShutdownReport, PendingOpen,
}
use pg_mcp.Worker.Admission.{is_running}
use pg_mcp.Worker.Open.{CoreSettings}
use pg_mcp.Worker.Shutdown.{
  Surroundings, Scene, worker_finished, is_verified, report_verified, by_handle, begin, settle,
  stop_workers, wait_opens, clean_up, shutdown, total_seconds, cancel_opens,
}
use pg_mcp.Worker.Shutdown.Contract.{Lawful}
use pg_mcp.Worker.Shutdown.Entries.{Leaves, Leaves-bind, stop_workers-AllStopped, finished-Later}
use pg_mcp.Worker.Shutdown.Waits.{wait_opens-Waited}

by_handle_total : (x y : WorkerShutdownEntry) → by_handle x y ≡ false → by_handle y x ≡ true
by_handle_total x y h = text_le_total x.handle y.handle h

-- How often a handle stands in a list.
abbrev times : String → String → ℕ
times h k = if str_eq k h then 1 else 0

abbrev pub count : String → List String → ℕ
count h names = sum_by (times h) names

-- What the owner of the cleanup reports of these handles and pending opens, and where it ends.
record Reported (b : Surroundings) (handles opens : List String) (a : ShutdownReport × Scene b)
    : Type 0 where
  sorted : IsSorted by_handle a.0.workers
  least : (f : String → ℕ) → sum_by f handles ≤ sum_by (λ w. f w.handle) a.0.workers
  most : (f : String → ℕ) → sum_by (λ w. f w.handle) a.0.workers ≤ sum_by f handles + sum_by f opens
  finished : report_verified a.0 ≡ true → All (λ h. worker_finished h a.1.0 ≡ true) handles
  opened : report_verified a.0 ≡ true → All (λ id. lookup id a.1.0.pending_opens ≡ none) opens
  lifecycle : a.1.0.lifecycle ≡ RegistryLifecycle.stopped
  frozen : a.1.0.frozen_report ≡ some a.0

keys-cancel_opens : (now : ℕ) (opens : Map PendingOpen) → keys (cancel_opens now opens) ≡ keys opens
keys-cancel_opens now [] = refl
keys-cancel_opens now ((id, p) ∷ opens) = cc (keys-cancel_opens now opens)

sum_by-map :
    (f : String → ℕ) (ws : List WorkerShutdownEntry)
    → sum_by (λ w. f w.handle) ws ≡ sum_by f (map (λ w. w.handle) ws)
sum_by-map f [] = refl
sum_by-map f (w ∷ ws) = omega (arith, sum_by-map f ws)

module _ (b : Surroundings) (law : Lawful b) where
  -- The facts of the two loops, as those of the entries of both.
  settled-Reported :
      (handles opens : List String) (workers entries : List WorkerShutdownEntry) (τ : Scene b)
      → τ.0.frozen_report ≡ none
      → map (λ w. w.handle) workers ≡ handles
      → ((f : String → ℕ) → sum_by (λ w. f w.handle) entries ≤ sum_by f opens)
      → (all is_verified workers ≡ true → All (λ h. worker_finished h τ.0 ≡ true) handles)
      → (all is_verified entries ≡ true → All (λ id. lookup id τ.0.pending_opens ≡ none) opens)
      → Reported b handles opens (
        (settle (record { workers = sort_by by_handle (workers ++ entries) }) τ.0).0,
        ((settle (record { workers = sort_by by_handle (workers ++ entries) }) τ.0).1, τ.1),
      )
  unfolding settle worker_finished report_verified
  settled-Reported handles opens workers entries τ fresh named waiting finished opened =
      let v = all-sort_by by_handle is_verified (workers ++ entries) in
      let w = all-append is_verified workers entries in
      rw (fresh, settle)
        (record {
          sorted = sort_by-IsSorted by_handle by_handle_total (workers ++ entries);
          least = λ f. omega (
            arith,
            named_sum f,
            sum_by-append (λ w. f w.handle) workers entries,
            sum_by-sort_by by_handle (λ w. f w.handle) (workers ++ entries),
          );
          most = λ f. omega (
            arith,
            named_sum f,
            waiting f,
            sum_by-append (λ w. f w.handle) workers entries,
            sum_by-sort_by by_handle (λ w. f w.handle) (workers ++ entries),
          );
          finished = λ e. finished (ground (arith, v, w, e));
          opened = λ e. opened (ground (arith, v, w, e));
          lifecycle = refl;
          frozen = refl;
        })
    where
      named_sum : (f : String → ℕ) → sum_by (λ w. f w.handle) workers ≡ sum_by f handles
      named_sum f = sum_by-map f workers ∙ ap (sum_by f) named

  clean_up-Reported :
      (fuel deadline : ℕ) (handles opens : List String) (σ : Scene b)
      → is_running σ.0.lifecycle ≡ false
      → σ.0.frozen_report ≡ none
      → Leaves (Reported b handles opens) (clean_up b fuel deadline handles opens σ)
  unfolding clean_up
  clean_up-Reported fuel deadline handles opens σ stopping fresh =
      let σ₀ : Scene b = (σ.0, b.cancel_core σ.1) in
      Leaves-bind _ _ (stop_workers b fuel deadline handles σ₀) _
        (stop_workers-AllStopped b law fuel deadline handles σ₀ stopping)
        (λ a p.
          let s₁ = p.later.registry.lifecycle stopping in
          Leaves-bind _ _ (wait_opens b fuel deadline opens a.1) _
            (wait_opens-Waited b law fuel deadline opens a.1 s₁)
            (λ c q.
              settled-Reported handles opens a.0 c.0 c.1
                (q.later.registry.report ∙ (p.later.registry.report ∙ fresh)) p.named q.named
                (λ v. finished-Later b law a.1 c.1 handles s₁ q.later (p.finished v)) q.opened))

  owned-Reported :
      (fuel : ℕ) (core : CoreSettings) (r : RegistryState) (s : b.Rest)
      → is_running r.lifecycle ≡ true
      → r.frozen_report ≡ none
      → Leaves (Reported b (keys r.handles) (keys r.pending_opens)) (shutdown b fuel core (r, s))
  unfolding shutdown begin
  owned-Reported fuel core r s running fresh =
      rw (fresh, running, shutdown)
        (clean_up-Reported fuel (b.now s + b.second * total_seconds core) (keys r.handles)
          (keys r.pending_opens) (begin (b.now s) r, s) refl fresh)

  module _ (fuel : ℕ) (core : CoreSettings) (r : RegistryState) (s : b.Rest)
      (report : ShutdownReport) (τ : Scene b) (running : is_running r.lifecycle ≡ true)
      (fresh : r.frozen_report ≡ none) (done : shutdown b fuel core (r, s) ≡ some (report, τ)) where
    reported : Reported b (keys r.handles) (keys r.pending_opens) (report, τ)
    reported =
        subst (Leaves (Reported b (keys r.handles) (keys r.pending_opens))) done
          (owned-Reported fuel core r s running fresh)

    -- The first shutdown reports every handle of the registry as often as it is there, that is
    -- once, and else only opens that were pending, in the order of their names.
    pub shutdown_complete :
        IsSorted by_handle report.workers
        × ((h : String)
            → (count h (keys r.handles) ≤ count h (map (λ w. w.handle) report.workers))
              × (count h (map (λ w. w.handle) report.workers)
                  ≤ count h (keys r.handles) + count h (keys r.pending_opens)))
    shutdown_complete = (
      reported.sorted,
      λ h. (
        omega (arith, sum_by-map (times h) report.workers, reported.least (times h)),
        omega (arith, sum_by-map (times h) report.workers, reported.most (times h)),
      ),
    )

    -- When the first shutdown reports that everything is verified, no thread of a handle that was
    -- in the registry is running any more, and no open that was pending is.
    pub verified_quiet :
        report_verified report ≡ true
        → All (λ h. worker_finished h τ.0 ≡ true) (keys r.handles)
          × All (λ id. lookup id τ.0.pending_opens ≡ none) (keys r.pending_opens)
    verified_quiet v = (reported.finished v, reported.opened v)
