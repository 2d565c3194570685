-- ===== src/Worker/Admission/Outcomes.antt =====
-- The outcomes of an admission.
use pg_mcp.Prelude.{
  String, Bool, true, false, ◌+◌, ◌<◌, some, [], ◌∷◌, ◌++◌, lookup, lookup-adjust, eq_iff, eq_refl,
  ◌≡◌, ◌↔◌, ◌⊎◌, inl, inr, arith, Option-cases,
}
use pg_mcp.Worker.Registry.{RegistryState, running, WorkerEntry, Request}
use pg_mcp.Worker.Execute.{CoreFailure}
use pg_mcp.Worker.Admission.{admit, enqueue, try_send, admitted, refused, blocked}

module _ (request : Request) (receiving : Bool) (h : String) (r : RegistryState) where
  -- A request to a registered handle that is closed, in a running registry.
  abbrev pub IsStale : Type 0
  IsStale =
      (r.lifecycle ≡ running)
      × ((e : WorkerEntry) × (lookup h r.handles ≡ some e) × (e.published.closed ≡ true))

  -- `dispatch` locks the registry a second time under its own lock exactly when the registry is
  -- running and the handle is registered and closed.
  pub admit_blocked_iff : (admit request receiving h r ≡ blocked) ↔ IsStale
  unfolding admit enqueue
  admit_blocked_iff = elim (Option-cases (lookup h r.handles)) [
    | inl e ↦ ((λ b. absurd (ground (arith, e))), (λ (l, (x, q, c)). absurd (ground (arith, e, q))))
    | inr (x, e) ↦ (
      (λ b. (ground (arith, e), (x, e, ground (arith, e)))),
      (λ (l, (y, q, c)). ground (arith, q)),
    )
  ]

  -- What an admission adds: the request at the end of the queue, and one to `admitted`.
  abbrev pub IsAdmitted : RegistryState → Type 0
  IsAdmitted r' =
      (r.lifecycle ≡ running)
      × ((e : WorkerEntry) × (lookup h r.handles ≡ some e)
          × (e.published.closed ≡ false)
          × (e.admitted < e.config.outstanding_requests)
          × (lookup h r'.handles
              ≡ some (record e { queue = e.queue ++ (request ∷ []); admitted = e.admitted + 1 })))

  -- A request is admitted only to an open handle of a running registry that is under its limit;
  -- it is then the last of the queue and counted once.
  pub admit_admitted :
      (r' : RegistryState) → admit request receiving h r ≡ admitted r' → IsAdmitted r'
  unfolding admit enqueue try_send
  admit_admitted r' a = elim (Option-cases (lookup h r.handles)) [
    | inl e ↦ absurd (ground (arith, e))
    | inr (x, e) ↦
        let there =
          lookup-adjust h h (λ (_ : WorkerEntry). (enqueue request receiving x).1) r.handles in
        (
          ground (arith, e),
          (x, e, ground (arith, e), ground (arith, e), ground (arith, e, there, eq_refl h)),
        )
  ]

  -- A refused request changes no entry, and its outcome is unknown only where the worker no longer
  -- receives.
  pub admit-refused :
      (f : CoreFailure) (r' : RegistryState) (k : String)
      → admit request receiving h r ≡ refused f r'
      → (lookup k r'.handles ≡ lookup k r.handles)
        × ((f.outcome_unknown ≡ false) ⊎ (receiving ≡ false))
  unfolding admit enqueue try_send
  admit-refused f r' k a = elim (Option-cases (lookup h r.handles)) [
    | inl e ↦ ground (arith, e)
    | inr (x, e) ↦ ground (
      arith,
      e,
      lookup-adjust h k (λ (_ : WorkerEntry). (enqueue request receiving x).1) r.handles,
      eq_iff h k,
    )
  ]
