-- ===== src/Worker/Shutdown/Others.antt =====
-- The writes to the registry by the tasks and threads beside the owner of the cleanup.
use mathlib.Core.Path.{subst}
use pg_mcp.Prelude.{
  ℕ, String, Bool, true, ◌-◌, none, some, Result, ok, lookup, adjust, ◌≡◌, ◌⊎◌, sym, refl, arith,
  lookup-adjust, lookup-remove, Option-cases, inl, inr,
}
use pg_mcp.Config.{Config, ConfigError}
use pg_mcp.Worker.Backend.{Token, RequestContext, BackendObservation, BackendFailure}
use pg_mcp.Worker.Registry.{
  RegistryState, WorkerEntry, Thread, Request, PublishedHandle, publish, update_handle,
}
use pg_mcp.Worker.Execute.{CoreFailure}
use pg_mcp.Worker.Admission.{is_running, admit, admitted, refused}
use pg_mcp.Worker.Loop.{release_admission}
use pg_mcp.Worker.Open.{
  CoreSettings, reserve_open, allocate_handle, connect_and_publish, finish_open,
}
use pg_mcp.Worker.Shutdown.{worker_finished}
use pg_mcp.Worker.Shutdown.Contract.{Follows, Follows-refl}

abbrev pub end_thread : WorkerEntry → WorkerEntry
end_thread e = record e { join = elim e.join [ none ↦ none | some _ ↦ some Thread.finished ] }

-- A write of a worker to its published handle; the end of its thread; the drop of an admission
-- guard; a request that `dispatch` takes or refuses; and the three writes of an open.
pub data OtherStep : RegistryState → RegistryState → Type 0 where
  publishes :
      (h : String) (f : PublishedHandle → PublishedHandle) (r : RegistryState)
      → OtherStep r (update_handle h f r)
  exits :
      (h : String) (r : RegistryState)
      → OtherStep r (record r { handles = adjust h end_thread r.handles })
  releases : (h : String) (r : RegistryState) → OtherStep r (release_admission h r)
  admits :
      (q : Request) (receiving : Bool) (h : String) (r r' : RegistryState)
      → admit q receiving h r ≡ admitted r'
      → OtherStep r r'
  refuses :
      (q : Request) (receiving : Bool) (h : String) (r r' : RegistryState) (f : CoreFailure)
      → admit q receiving h r ≡ refused f r'
      → OtherStep r r'
  reserves :
      (core : CoreSettings) (profile id : String) (cancellation open_shutdown : Token) (now : ℕ)
      (context : RequestContext) (r r' : RegistryState)
      → reserve_open core profile cancellation open_shutdown now r ≡ ok (id, context, r')
      → OtherStep r r'
  connects :
      (id profile : String) (c : RequestContext) (now : ℕ) (config : Result Config ConfigError)
      (connected : Result (BackendObservation × String) BackendFailure) (spawned : Bool)
      (r : RegistryState)
      → OtherStep r (connect_and_publish id profile c now config connected spawned r).1
  gives_up : (id : String) (r : RegistryState) → OtherStep r (finish_open id r)

-- A write to one entry that does not start a thread.
adjust-Follows :
    (h : String) (f : WorkerEntry → WorkerEntry) (r : RegistryState)
    → ((e : WorkerEntry) → e.join ≡ none → (f e).join ≡ none)
    → ((e : WorkerEntry) → e.join ≡ some Thread.finished → (f e).join ≡ some Thread.finished)
    → Follows r (record r { handles = adjust h f r.handles })
unfolding worker_finished
adjust-Follows h f r joined finished = record {
  report = refl;
  lifecycle = λ e. e;
  finished = λ k stopping w. elim (Option-cases (lookup k r.handles)) [
    | inl e ↦ ground (arith, lookup-adjust h k f r.handles, e)
    | inr (x, e) ↦ ground (arith, lookup-adjust h k f r.handles, joined x, finished x, e, w)
  ];
  opened = λ id e w. w;
}

finish_open-Follows : (id : String) (r : RegistryState) → Follows r (finish_open id r)
unfolding finish_open worker_finished
finish_open-Follows id r = record {
  report = refl;
  lifecycle = λ e. e;
  finished = λ k e w. w;
  opened = λ k e w. ground (arith, lookup-remove id k r.pending_opens, w);
}

running-Follows :
    (r r' : RegistryState)
    → is_running r.lifecycle ≡ true
    → r'.frozen_report ≡ r.frozen_report
    → Follows r r'
running-Follows r r' run same = record {
  report = same;
  lifecycle = λ n. absurd (ground (arith, run, n));
  finished = λ h n w. absurd (ground (arith, run, n));
  opened = λ id n w. absurd (ground (arith, run, n));
}

-- A write that only a running registry takes.
gated-Follows :
    (r r' : RegistryState)
    → ((is_running r.lifecycle ≡ true) × (r'.frozen_report ≡ r.frozen_report)) ⊎ (r' ≡ r)
    → Follows r r'
gated-Follows r r' (inl (run, same)) = running-Follows r r' run same
gated-Follows r r' (inr same) = subst (Follows r) (sym same) (Follows-refl r)

admitted_gated :
    (q : Request) (receiving : Bool) (h : String) (r r' : RegistryState)
    → admit q receiving h r ≡ admitted r'
    → ((is_running r.lifecycle ≡ true) × (r'.frozen_report ≡ r.frozen_report)) ⊎ (r' ≡ r)
unfolding admit
admitted_gated q receiving h r r' e = ground (arith, e)

refused_gated :
    (q : Request) (receiving : Bool) (h : String) (r r' : RegistryState) (f : CoreFailure)
    → admit q receiving h r ≡ refused f r'
    → ((is_running r.lifecycle ≡ true) × (r'.frozen_report ≡ r.frozen_report)) ⊎ (r' ≡ r)
unfolding admit
refused_gated q receiving h r r' f e = ground (arith, e)

reserved_gated :
    (core : CoreSettings) (profile id : String) (cancellation open_shutdown : Token) (now : ℕ)
    (context : RequestContext) (r r' : RegistryState)
    → reserve_open core profile cancellation open_shutdown now r ≡ ok (id, context, r')
    → ((is_running r.lifecycle ≡ true) × (r'.frozen_report ≡ r.frozen_report)) ⊎ (r' ≡ r)
unfolding reserve_open allocate_handle
reserved_gated core profile id cancellation open_shutdown now context r r' e = ground (arith, e)

connected_cases :
    (id profile : String) (c : RequestContext) (now : ℕ) (config : Result Config ConfigError)
    (connected : Result (BackendObservation × String) BackendFailure) (spawned : Bool)
    (r : RegistryState)
    → (let r' = (connect_and_publish id profile c now config connected spawned r).1 in
        (r' ≡ finish_open id r)
        ⊎ ((is_running r.lifecycle ≡ true) × (r'.frozen_report ≡ r.frozen_report)))
unfolding connect_and_publish
connected_cases id profile c now config connected spawned r = ground arith

connected-Follows :
    (id : String) (r r' : RegistryState)
    → (r' ≡ finish_open id r)
      ⊎ ((is_running r.lifecycle ≡ true) × (r'.frozen_report ≡ r.frozen_report))
    → Follows r r'
connected-Follows id r r' (inl e) = subst (Follows r) (sym e) (finish_open-Follows id r)
connected-Follows id r r' (inr (run, same)) = running-Follows r r' run same

pub OtherStep-Follows : (r r' : RegistryState) → OtherStep r r' → Follows r r'
unfolding update_handle release_admission
OtherStep-Follows _ _ (publishes h f r) = adjust-Follows h (publish f) r (λ e j. j) (λ e j. j)
OtherStep-Follows _ _ (exits h r) =
    adjust-Follows h end_thread r (λ e j. ground (arith, j)) (λ e j. ground (arith, j))
OtherStep-Follows _ _ (releases h r) =
    adjust-Follows h (λ e. record e { admitted = e.admitted - 1 }) r (λ e j. j) (λ e j. j)
OtherStep-Follows _ _ (admits q receiving h r r' e) =
    gated-Follows r r' (admitted_gated q receiving h r r' e)
OtherStep-Follows _ _ (refuses q receiving h r r' f e) =
    gated-Follows r r' (refused_gated q receiving h r r' f e)
OtherStep-Follows _ _ (reserves core profile id cancellation open_shutdown now context r r' e) =
    gated-Follows r r'
      (reserved_gated core profile id cancellation open_shutdown now context r r' e)
OtherStep-Follows _ _ (connects id profile c now config connected spawned r) =
    connected-Follows id r _ (connected_cases id profile c now config connected spawned r)
OtherStep-Follows _ _ (gives_up id r) = finish_open-Follows id r
