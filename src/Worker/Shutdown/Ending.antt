-- ===== src/Worker/Shutdown/Ending.antt =====
-- The waits of `Core::shutdown` end.
use pg_mcp.Prelude.{
  ℕ, zero, suc, String, true, false, ◌+◌, ◌-◌, ◌*◌, ◌<◌, Option, none, some, List, [], ◌∷◌, ◌≡◌,
  refl, inl, inr, arith, keys, is_some, Option-cases,
}
use pg_mcp.Worker.Registry.{RegistryState}
use pg_mcp.Worker.Admission.{is_running}
use pg_mcp.Worker.Open.{CoreSettings}
use pg_mcp.Worker.Shutdown.{
  Surroundings, Scene, join_closed_worker, stop_worker, stop_workers, wait_open, wait_opens, begin,
  clean_up, shutdown, total_seconds,
}
use pg_mcp.Worker.Shutdown.Contract.{Lawful}
use pg_mcp.Worker.Shutdown.Entries.{
  Leaves, Leaves-any, stop_worker-Stopped, stop_workers-AllStopped,
}
use pg_mcp.Worker.Shutdown.Waits.{wait_open-Waited}

is_some-bind {ℓ κ ν} :
    {A : Type ℓ} {B : Type ν} (P : A → Type κ) (o : Option A) (k : A → Option B)
    → is_some o ≡ true
    → Leaves P o
    → ((a : A) → P a → is_some (k a) ≡ true)
    → is_some (elim o [ none ↦ none | some a ↦ k a ]) ≡ true
is_some-bind P none k e p f = e
is_some-bind P (some a) k e p f = f a p

module _ (b : Surroundings) (law : Lawful b) where
  join_closed_worker_ends :
      (n deadline : ℕ) (h : String) (σ : Scene b)
      → deadline - b.now σ.1 < n
      → is_some (join_closed_worker b n deadline h σ) ≡ true
  unfolding join_closed_worker
  join_closed_worker_ends zero deadline h σ f = absurd (omega (arith, f))
  join_closed_worker_ends (suc n) deadline h σ f =
      ground (arith, law.others_advance σ, join_closed_worker_ends n deadline h (b.others σ))

  stop_worker_ends :
      (fuel deadline : ℕ) (h : String) (σ : Scene b)
      → deadline - b.now σ.1 < fuel
      → is_some (stop_worker b fuel deadline h σ) ≡ true
  unfolding stop_worker
  stop_worker_ends fuel deadline h σ f = ground (arith, join_closed_worker_ends fuel deadline h σ f)

  stop_workers_ends :
      (fuel deadline : ℕ) (hs : List String) (σ : Scene b)
      → deadline - b.now σ.1 < fuel
      → is_some (stop_workers b fuel deadline hs σ) ≡ true
  unfolding stop_workers
  stop_workers_ends fuel deadline [] σ f = refl
  stop_workers_ends fuel deadline (h ∷ hs) σ f =
      let l = law.others_later σ in
      is_some-bind _ (stop_worker b fuel deadline h (b.others σ)) _
        (stop_worker_ends fuel deadline h (b.others σ) (omega (arith, f, l.clock)))
        (stop_worker-Stopped b law fuel deadline h (b.others σ))
        (λ a p.
          let f₁ : deadline - b.now a.1.1 < fuel = omega (arith, f, l.clock, p.later.clock) in
          is_some-bind _ (stop_workers b fuel deadline hs a.1) _
            (stop_workers_ends fuel deadline hs a.1 f₁)
            (Leaves-any (stop_workers b fuel deadline hs a.1)) (λ c q. refl))

  wait_open_ends :
      (n deadline : ℕ) (id : String) (σ : Scene b)
      → deadline - b.now σ.1 < n
      → is_some (wait_open b n deadline id σ) ≡ true
  unfolding wait_open
  wait_open_ends zero deadline id σ f = absurd (omega (arith, f))
  wait_open_ends (suc n) deadline id σ f =
      ground (arith, law.others_advance σ, wait_open_ends n deadline id (b.others σ))

  wait_opens_ends :
      (fuel deadline : ℕ) (ids : List String) (σ : Scene b)
      → deadline - b.now σ.1 < fuel
      → is_some (wait_opens b fuel deadline ids σ) ≡ true
  unfolding wait_opens
  wait_opens_ends fuel deadline [] σ f = refl
  wait_opens_ends fuel deadline (id ∷ ids) σ f =
      is_some-bind _ (wait_open b fuel deadline id σ) _ (wait_open_ends fuel deadline id σ f)
        (wait_open-Waited b law fuel deadline id σ)
        (λ a p.
          let f₁ : deadline - b.now a.1.1 < fuel = omega (arith, f, p.later.clock) in
          is_some-bind _ (wait_opens b fuel deadline ids a.1) _
            (wait_opens_ends fuel deadline ids a.1 f₁)
            (Leaves-any (wait_opens b fuel deadline ids a.1)) (λ c q. refl))

  clean_up_ends :
      (fuel deadline : ℕ) (handles opens : List String) (σ : Scene b)
      → is_running σ.0.lifecycle ≡ false
      → deadline - b.now σ.1 < fuel
      → is_some (clean_up b fuel deadline handles opens σ) ≡ true
  unfolding clean_up
  clean_up_ends fuel deadline handles opens σ stopping f =
      let σ₀ : Scene b = (σ.0, b.cancel_core σ.1) in
      let c₀ = law.cancel_core_clock σ.1 in
      let f₀ : deadline - b.now σ₀.1 < fuel = omega (arith, f, c₀) in
      is_some-bind _ (stop_workers b fuel deadline handles σ₀) _
        (stop_workers_ends fuel deadline handles σ₀ f₀)
        (stop_workers-AllStopped b law fuel deadline handles σ₀ stopping)
        (λ a p.
          let f₁ : deadline - b.now a.1.1 < fuel = omega (arith, f₀, p.later.clock) in
          is_some-bind _ (wait_opens b fuel deadline opens a.1) _
            (wait_opens_ends fuel deadline opens a.1 f₁)
            (Leaves-any (wait_opens b fuel deadline opens a.1)) (λ c q. refl))

  -- A shutdown of a running process returns a report, whatever the workers do, when each of its
  -- waits is given more rounds than its total time has units of the clock.
  pub shutdown_ends :
      (fuel : ℕ) (core : CoreSettings) (r : RegistryState) (s : b.Rest)
      → is_running r.lifecycle ≡ true
      → b.second * total_seconds core < fuel
      → is_some (shutdown b fuel core (r, s)) ≡ true
  unfolding shutdown begin
  shutdown_ends fuel core r s running f = elim (Option-cases r.frozen_report) [
    | inr (report, e) ↦ rw (e, shutdown) refl
    | inl e ↦
        rw (e, running, shutdown)
          (clean_up_ends fuel (b.now s + b.second * total_seconds core) (keys r.handles)
            (keys r.pending_opens) (begin (b.now s) r, s) refl (omega (arith, f)))
  ]
