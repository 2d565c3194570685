-- ===== src/Worker/Shutdown/Contract.antt =====
-- What `Core::shutdown` relies on in the tasks and threads that run beside it, and that each step
-- of the cleanup keeps it.
use mathlib.Core.Path.{subst}
use pg_mcp.Prelude.{
  ℕ, String, true, false, ◌≤◌, ◌<◌, none, some, [], ◌∷◌, Map, lookup, ◌≡◌, refl, ◌∙◌, ◌⊎◌, sym, inl,
  inr, arith, lookup-adjust, eq_iff,
}
use pg_mcp.Worker.Registry.{RegistryState, Request, WorkerShutdownEntry, PendingOpen}
use pg_mcp.Worker.Admission.{is_running}
use pg_mcp.Worker.Shutdown.{
  Surroundings, Scene, worker_finished, join_worker, take_join, cancel_opens, begin,
}

-- What no step does once the shutdown has begun: the reports and the lifecycle are its owner's, a
-- thread that has finished does not run again, and no open is reserved or published any more.
pub record Follows (r r' : RegistryState) : Type 0 where
  pub report : r'.frozen_report ≡ r.frozen_report
  pub lifecycle : is_running r.lifecycle ≡ false → is_running r'.lifecycle ≡ false
  pub finished :
      (h : String)
      → is_running r.lifecycle ≡ false
      → worker_finished h r ≡ true
      → worker_finished h r' ≡ true
  pub opened :
      (id : String)
      → is_running r.lifecycle ≡ false
      → lookup id r.pending_opens ≡ none
      → lookup id r'.pending_opens ≡ none

pub Follows-refl : (r : RegistryState) → Follows r r
Follows-refl r = record {
  report = refl;
  lifecycle = λ e. e;
  finished = λ h e f. f;
  opened = λ id e f. f;
}

pub Follows-trans : {r s t : RegistryState} → Follows r s → Follows s t → Follows r t
Follows-trans f g = record {
  report = g.report ∙ f.report;
  lifecycle = λ e. g.lifecycle (f.lifecycle e);
  finished = λ h e w. g.finished h (f.lifecycle e) (f.finished h e w);
  opened = λ id e w. g.opened id (f.lifecycle e) (f.opened id e w);
}

-- A later scene: its registry follows, and the clock has not gone back.
pub record Later (b : Surroundings) (σ τ : Scene b) : Type 0 where
  pub registry : Follows σ.0 τ.0
  pub clock : b.now σ.1 ≤ b.now τ.1

-- The surroundings of the owner of the cleanup. The clock advances whenever the task yields, and
-- a worker answers for its own handle.
pub record Lawful (b : Surroundings) : Type 0 where
  pub others_later : (σ : Scene b) → Later b σ (b.others σ)
  pub others_advance : (σ : Scene b) → b.now σ.1 < b.now (b.others σ).1
  pub cancel_core_clock : (s : b.Rest) → b.now s ≤ b.now (b.cancel_core s)
  pub send_later : (n : ℕ) (h : String) (q : Request) (σ : Scene b) → Later b σ (b.send n h q σ).1
  pub answer_later : (n : ℕ) (h : String) (σ : Scene b) → Later b σ (b.answer n h σ).1
  pub answer_handle :
      (n : ℕ) (h : String) (σ : Scene b) (w : WorkerShutdownEntry)
      → (b.answer n h σ).0 ≡ some w
      → w.handle ≡ h

worker_finished-take_join :
    (h k : String) (r : RegistryState)
    → worker_finished k r ≡ true
    → worker_finished k (take_join h r) ≡ true
unfolding worker_finished
worker_finished-take_join h k r f =
    ground (arith, lookup-adjust h k (λ e. record e { join = none }) r.handles)

take_join-Follows : (h : String) (r : RegistryState) → Follows r (take_join h r)
take_join-Follows h r = record {
  report = refl;
  lifecycle = λ e. e;
  finished = λ k e f. worker_finished-take_join h k r f;
  opened = λ id e f. f;
}

join_worker_cases :
    (h : String) (r : RegistryState)
    → ((join_worker h r).1 ≡ r) ⊎ ((join_worker h r).1 ≡ take_join h r)
unfolding join_worker
join_worker_cases h r = ground arith

pub join_worker-Follows : (h : String) (r : RegistryState) → Follows r (join_worker h r).1
join_worker-Follows h r = elim (join_worker_cases h r) [
  | inl e ↦ subst (Follows r) (sym e) (Follows-refl r)
  | inr e ↦ subst (Follows r) (sym e) (take_join-Follows h r)
]

-- A join that succeeds leaves no thread of the handle.
pub join_worker_finished :
    (h : String) (r : RegistryState)
    → (join_worker h r).0 ≡ true
    → worker_finished h (join_worker h r).1 ≡ true
unfolding join_worker worker_finished
join_worker_finished h r j =
    ground (arith, lookup-adjust h h (λ e. record e { join = none }) r.handles, eq_iff h h)

cancel_opens-lookup :
    (now : ℕ) (id : String) (opens : Map PendingOpen)
    → lookup id opens ≡ none
    → lookup id (cancel_opens now opens) ≡ none
unfolding lookup
cancel_opens-lookup now id [] e = refl
cancel_opens-lookup now id ((k, p) ∷ opens) e = ground (arith, cancel_opens-lookup now id opens)

pub begin-Follows : (now : ℕ) (r : RegistryState) → Follows r (begin now r)
unfolding begin worker_finished
begin-Follows now r = record {
  report = refl;
  lifecycle = λ e. refl;
  finished = λ h e f. f;
  opened = λ id e f. cancel_opens-lookup now id r.pending_opens f;
}

module _ (b : Surroundings) where
  pub Later-refl : (σ : Scene b) → Later b σ σ
  Later-refl σ = record { registry = Follows-refl σ.0; clock = omega arith }

  pub Later-trans : {σ τ υ : Scene b} → Later b σ τ → Later b τ υ → Later b σ υ
  Later-trans {σ} {τ} {υ} f g = record {
    registry = Follows-trans f.registry g.registry;
    clock = omega (arith, f.clock, g.clock);
  }

  pub joined-Later : (h : String) (σ : Scene b) → Later b σ ((join_worker h σ.0).1, σ.1)
  joined-Later h σ = record { registry = join_worker-Follows h σ.0; clock = omega arith }
