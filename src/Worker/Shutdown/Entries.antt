-- ===== src/Worker/Shutdown/Entries.antt =====
-- The entries of the workers in a shutdown report: whose they are, and what a verified one means.
use mathlib.Core.Path.{subst}
use pg_mcp.Prelude.{
  ℕ, zero, suc, String, Bool, true, false, if◌then◌else◌, ◌+◌, ◌-◌, ◌==◌, leb, Option, none, some,
  List, [], ◌∷◌, lookup, all, ◌≡◌, refl, inl, inr, arith, Option-cases, Bool-cases, All, map,
}
use pg_mcp.Config.{Config}
use pg_mcp.Worker.Registry.{Request, WorkerShutdownEntry}
use pg_mcp.Worker.Admission.{is_running}
use pg_mcp.Worker.Shutdown.{
  Surroundings, Scene, worker_finished, join_worker, join_closed_worker, ask, stop_worker,
  is_verified, stop_workers, uncertain, verified, shutdown_context,
}
use pg_mcp.Worker.Shutdown.Contract.{
  Later, Lawful, Later-refl, Later-trans, joined-Later, join_worker_finished,
}

-- What holds of the result, if there is one.
abbrev pub Leaves {ℓ κ} : {A : Type ℓ} → (A → Type κ) → Option A → Type κ
Leaves P none = Unit
Leaves P (some a) = P a

pub Leaves-weaken {ℓ κ μ} :
    {A : Type ℓ} {P : A → Type κ} {Q : A → Type μ}
    → ((a : A) → P a → Q a)
    → (o : Option A) → Leaves P o
    → Leaves Q o
Leaves-weaken f none p = _
Leaves-weaken f (some a) p = f a p

pub Leaves-bind {ℓ κ μ ν} :
    {A : Type ℓ} {B : Type ν} (P : A → Type κ) (Q : B → Type μ) (o : Option A) (k : A → Option B)
    → Leaves P o
    → ((a : A) → P a → Leaves Q (k a))
    → Leaves Q (elim o [ none ↦ none | some a ↦ k a ])
Leaves-bind P Q none k p f = _
Leaves-bind P Q (some a) k p f = f a p

pub Leaves-any {ℓ} : {A : Type ℓ} (o : Option A) → Leaves {ℓ, 0} (λ _. Unit) o
Leaves-any none = _
Leaves-any (some a) = _

module _ (b : Surroundings) (law : Lawful b) where
  -- A wait for a thread that says that it ended.
  record Joined (h : String) (σ : Scene b) (a : Bool × Scene b) : Type 0 where
    later : Later b σ a.1
    finished : a.0 ≡ true → worker_finished h a.1.0 ≡ true

  -- The entry of a handle: it names the handle, and a verified one means that no thread of the
  -- handle is running.
  pub record Stopped (h : String) (σ : Scene b) (a : WorkerShutdownEntry × Scene b) : Type 0 where
    pub later : Later b σ a.1
    pub named : a.0.handle ≡ h
    pub finished : is_verified a.0 ≡ true → worker_finished h a.1.0 ≡ true

  join_closed_worker-Joined :
      (n deadline : ℕ) (h : String) (σ : Scene b)
      → Leaves (Joined h σ) (join_closed_worker b n deadline h σ)
  unfolding join_closed_worker
  join_closed_worker-Joined zero deadline h σ = _
  join_closed_worker-Joined (suc n) deadline h σ = elim (Bool-cases (worker_finished h σ.0)) [
    | inl e ↦
        rw (e, join_closed_worker)
          (record {
            later = Later-trans b (law.others_later σ) (joined-Later b h (b.others σ));
            finished = join_worker_finished h (b.others σ).0;
          })
    | inr e ↦ elim (Bool-cases (leb deadline (b.now σ.1))) [
      | inl d ↦
          rw (e, d, join_closed_worker)
            (record { later = Later-refl b σ; finished = λ f. absurd (ground (arith, f)) })
      | inr d ↦
          rw (e, d, join_closed_worker)
            (Leaves-weaken
              (λ a j. record {
                later = Later-trans b (law.others_later σ) j.later;
                finished = j.finished;
              })
              (join_closed_worker b n deadline h (b.others σ))
              (join_closed_worker-Joined n deadline h (b.others σ)))
    ]
  ]

  uncertain-Stopped :
      (h stage : String) (σ τ : Scene b) → Later b σ τ → Stopped h σ (uncertain h stage, τ)
  uncertain-Stopped h stage σ τ l = record {
    later = l;
    named = refl;
    finished = λ f. absurd (ground (arith, f));
  }

  -- The reply of a worker, once it is there.
  answered-Stopped :
      (h : String) (σ τ : Scene b) (w : WorkerShutdownEntry)
      → Later b σ τ
      → w.handle ≡ h
      → Stopped h σ
          (if (join_worker h τ.0).0 then w else uncertain h "join", ((join_worker h τ.0).1, τ.1))
  answered-Stopped h σ τ w l n = record {
    later = Later-trans b l (joined-Later b h τ);
    named = ground (arith, n);
    finished = λ f. join_worker_finished h τ.0 (ground (arith, f));
  }

  ask-Stopped :
      (deadline : ℕ) (h : String) (config : Config) (σ : Scene b)
      → Stopped h σ (ask b deadline h config σ)
  unfolding ask
  ask-Stopped deadline h config σ =
      let n = deadline - b.now σ.1 in
      let q = Request.shutdown (shutdown_context b config (b.now σ.1 + n)) in
      let σ₁ = (b.send n h q σ).1 in
      let n₁ = deadline - b.now σ₁.1 in
      let l₁ = law.send_later n h q σ in
      let l₂ = Later-trans b l₁ (law.answer_later n₁ h σ₁) in
      elim (Bool-cases (b.send n h q σ).0) [
        | inr e ↦ rw (e, ask) (uncertain-Stopped h "enqueue" σ σ₁ l₁)
        | inl e ↦ elim (Bool-cases (n₁ == 0)) [
          | inl d ↦ rw (e, d, ask) (uncertain-Stopped h "deadline" σ σ₁ l₁)
          | inr d ↦ elim (Option-cases (b.answer n₁ h σ₁).0) [
            | inl f ↦ rw (e, d, f, ask) (uncertain-Stopped h "deadline" σ (b.answer n₁ h σ₁).1 l₂)
            | inr (w, f) ↦
                rw (e, d, f, ask)
                  (answered-Stopped h σ (b.answer n₁ h σ₁).1 w l₂ (law.answer_handle n₁ h σ₁ w f))
          ]
        ]
      ]

  closed-Stopped :
      (h : String) (σ : Scene b) (a : Bool × Scene b)
      → Joined h σ a
      → Stopped h σ (if a.0 then verified h else uncertain h "join", a.1)
  closed-Stopped h σ (true, τ) j = record {
    later = j.later;
    named = refl;
    finished = λ _. j.finished refl;
  }
  closed-Stopped h σ (false, τ) j = uncertain-Stopped h "join" σ τ j.later

  pub stop_worker-Stopped :
      (fuel deadline : ℕ) (h : String) (σ : Scene b)
      → Leaves (Stopped h σ) (stop_worker b fuel deadline h σ)
  unfolding stop_worker worker_finished
  stop_worker-Stopped fuel deadline h σ = elim (Bool-cases (deadline - b.now σ.1 == 0)) [
    | inl d ↦ rw (d, stop_worker) (uncertain-Stopped h "deadline" σ σ (Later-refl b σ))
    | inr d ↦ elim (Option-cases (lookup h σ.0.handles)) [
      | inl e ↦ rw (d, e, stop_worker) (uncertain-Stopped h "missing" σ σ (Later-refl b σ))
      | inr (entry, e) ↦ elim (Bool-cases entry.published.closed) [
        | inr c ↦ rw (d, e, c, stop_worker) (ask-Stopped deadline h entry.config σ)
        | inl c ↦ elim (Option-cases (join_closed_worker b fuel deadline h σ)) [
          | inl f ↦ rw (d, e, c, f, stop_worker) _
          | inr (a, f) ↦
              rw (d, e, c, f, stop_worker)
                (closed-Stopped h σ a
                  (subst (Leaves (Joined h σ)) f (join_closed_worker-Joined fuel deadline h σ)))
        ]
      ]
    ]
  ]

  pub record AllStopped (hs : List String) (σ : Scene b) (a : List WorkerShutdownEntry × Scene b)
      : Type 0 where
    pub later : Later b σ a.1
    pub named : map (λ w. w.handle) a.0 ≡ hs
    pub finished : all is_verified a.0 ≡ true → All (λ h. worker_finished h a.1.0 ≡ true) hs

  pub finished-Later :
      (σ τ : Scene b) (hs : List String)
      → is_running σ.0.lifecycle ≡ false
      → Later b σ τ
      → All (λ h. worker_finished h σ.0 ≡ true) hs
      → All (λ h. worker_finished h τ.0 ≡ true) hs
  finished-Later σ τ [] s l _ = _
  finished-Later σ τ (h ∷ hs) s l (f, fs) =
      (l.registry.finished h s f, finished-Later σ τ hs s l fs)

  pub stop_workers-AllStopped :
      (fuel deadline : ℕ) (hs : List String) (σ : Scene b)
      → is_running σ.0.lifecycle ≡ false
      → Leaves (AllStopped hs σ) (stop_workers b fuel deadline hs σ)
  unfolding stop_workers
  stop_workers-AllStopped fuel deadline [] σ s = record {
    later = law.others_later σ;
    named = refl;
    finished = λ _. _;
  }
  stop_workers-AllStopped fuel deadline (h ∷ hs) σ s =
      let l = law.others_later σ in
      Leaves-bind _ _ (stop_worker b fuel deadline h (b.others σ)) _
        (stop_worker-Stopped fuel deadline h (b.others σ))
        (λ a p.
          let l₁ = Later-trans b l p.later in
          let s₁ = l₁.registry.lifecycle s in
          Leaves-bind _ _ (stop_workers b fuel deadline hs a.1) _
            (stop_workers-AllStopped fuel deadline hs a.1 s₁)
            (λ c q. record {
              later = Later-trans b l₁ q.later;
              named = cc (p.named, q.named);
              finished = λ v. (
                q.later.registry.finished h s₁ (p.finished (ground (arith, v))),
                q.finished (ground (arith, v)),
              );
            }))
