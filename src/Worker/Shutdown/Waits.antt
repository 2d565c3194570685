-- ===== src/Worker/Shutdown/Waits.antt =====
-- The waits of `Core::shutdown` for the opens that were pending when it began.
use pg_mcp.Prelude.{
  ℕ, zero, suc, String, true, false, ◌≤◌, leb, none, List, [], ◌∷◌, lookup, all, ◌≡◌, inl, inr,
  arith, Option-cases, Bool-cases, All, sum_by, sum_by-append, all-append,
}
use pg_mcp.Worker.Registry.{WorkerShutdownEntry}
use pg_mcp.Worker.Admission.{is_running}
use pg_mcp.Worker.Shutdown.{Surroundings, Scene, is_verified, wait_open, wait_opens}
use pg_mcp.Worker.Shutdown.Contract.{Later, Lawful, Later-refl, Later-trans}
use pg_mcp.Worker.Shutdown.Entries.{Leaves, Leaves-weaken, Leaves-bind}

module _ (b : Surroundings) (law : Lawful b) where
  -- The waits for the pending opens: an entry names one that is still pending, and no entry is
  -- verified.
  pub record Waited (ids : List String) (σ : Scene b) (a : List WorkerShutdownEntry × Scene b)
      : Type 0 where
    pub later : Later b σ a.1
    pub named : (f : String → ℕ) → sum_by (λ w. f w.handle) a.0 ≤ sum_by f ids
    pub opened : all is_verified a.0 ≡ true → All (λ id. lookup id a.1.0.pending_opens ≡ none) ids

  pub wait_open-Waited :
      (n deadline : ℕ) (id : String) (σ : Scene b)
      → Leaves (Waited (id ∷ []) σ) (wait_open b n deadline id σ)
  unfolding wait_open
  wait_open-Waited zero deadline id σ = _
  wait_open-Waited (suc n) deadline id σ = elim (Option-cases (lookup id σ.0.pending_opens)) [
    | inl e ↦
        rw (e, wait_open)
          (record { later = Later-refl b σ; named = λ f. omega arith; opened = λ _. (e, _) })
    | inr (p, e) ↦ elim (Bool-cases (leb deadline (b.now σ.1))) [
      | inl d ↦
          rw (e, d, wait_open)
            (record {
              later = Later-refl b σ;
              named = λ f. omega arith;
              opened = λ v. absurd (ground (arith, v));
            })
      | inr d ↦
          rw (e, d, wait_open)
            (Leaves-weaken
              (λ a w. record {
                later = Later-trans b (law.others_later σ) w.later;
                named = w.named;
                opened = w.opened;
              })
              (wait_open b n deadline id (b.others σ))
              (wait_open-Waited n deadline id (b.others σ)))
    ]
  ]

  pub wait_opens-Waited :
      (fuel deadline : ℕ) (ids : List String) (σ : Scene b)
      → is_running σ.0.lifecycle ≡ false
      → Leaves (Waited ids σ) (wait_opens b fuel deadline ids σ)
  unfolding wait_opens
  wait_opens-Waited fuel deadline [] σ s = record {
    later = Later-refl b σ;
    named = λ f. omega arith;
    opened = λ _. _;
  }
  wait_opens-Waited fuel deadline (id ∷ ids) σ s =
      Leaves-bind _ _ (wait_open b fuel deadline id σ) _ (wait_open-Waited fuel deadline id σ)
        (λ a p.
          let s₁ = p.later.registry.lifecycle s in
          Leaves-bind _ _ (wait_opens b fuel deadline ids a.1) _
            (wait_opens-Waited fuel deadline ids a.1 s₁)
            (λ c q. record {
              later = Later-trans b p.later q.later;
              named =
                  λ f. omega (arith, p.named f, q.named f, sum_by-append (λ w. f w.handle) a.0 c.0);
              opened = λ v. (
                q.later.registry.opened id s₁
                    (p.opened (ground (arith, all-append is_verified a.0 c.0, v))).0,
                q.opened (ground (arith, all-append is_verified a.0 c.0, v)),
              );
            }))
