-- ===== src/Examples/Shutdown.antt =====
-- The shutdown of a process with one handle and one pending open.
use pg_mcp.Prelude.{
  ok, ℕ, suc, String, true, ◌+◌, ◌*◌, ◌<◌, ◌≤◌, none, some, [], ◌∷◌, lookup, adjust, remove, keys,
  All, insert_sorted, sort_by, IsSorted, map, is_some, ◌≡◌, refl, arith,
}
use pg_mcp.Worker.Registry.{
  RegistryState, RegistryLifecycle, PendingOpen, Thread, made_closed, update_handle, ShutdownReport,
}
use pg_mcp.Worker.Open.{CoreSettings, finish_open}
use pg_mcp.Worker.Shutdown.{
  take_join, Surroundings, Scene, worker_finished, join_worker, verified, report_verified,
  by_handle, begin, total_seconds, ask, stop_worker, stop_workers, wait_open, wait_opens, settle,
  clean_up, shutdown,
}
use pg_mcp.Worker.Shutdown.Contract.{Follows-refl, Follows-trans, Lawful}
use pg_mcp.Worker.Shutdown.Others.{publishes, exits, gives_up, end_thread, OtherStep-Follows}
use pg_mcp.Worker.Shutdown.Report.{count, shutdown_complete, verified_quiet}
use pg_mcp.Worker.Shutdown.Frozen.{shutdown_frozen}
use pg_mcp.Worker.Shutdown.Ending.{shutdown_ends}
use pg_mcp.Server.Outcome.{
  SessionEnd, serve_with_cleanup, serve_outcome, primary_failure, cleanup_errors_of, serve_quiet,
}
use pg_mcp.Examples.Data.{settings, registry_with, open_handle}

-- A worker that stops: it publishes its handle as closed, and its thread ends.
abbrev stopped_worker : String → RegistryState → RegistryState
stopped_worker h r =
    let r' = update_handle h made_closed r in record r' { handles = adjust h end_thread r'.handles }

-- Workers that stop when they are asked, and opens that give up after each round.
abbrev calm : Surroundings
calm = record {
  Rest = ℕ;
  now = λ s. s;
  second = 1;
  others = λ σ. (finish_open "h-3" σ.0, suc σ.1);
  cancel_core = λ s. s;
  send = λ n h q σ. (true, (stopped_worker h σ.0, suc σ.1));
  answer = λ n h σ. (some (verified h), σ);
}

calm_lawful : Lawful calm
calm_lawful = record {
  others_later =
      λ σ. record { registry = OtherStep-Follows _ _ (gives_up "h-3" σ.0); clock = omega arith };
  others_advance = λ σ. omega arith;
  cancel_core_clock = λ s. omega arith;
  send_later = λ n h q σ. record {
    registry =
        Follows-trans (OtherStep-Follows _ _ (publishes h made_closed σ.0))
          (OtherStep-Follows _ _ (exits h (update_handle h made_closed σ.0)));
    clock = omega arith;
  };
  answer_later = λ n h σ. record { registry = Follows-refl σ.0; clock = omega arith };
  answer_handle = λ n h σ w e. ground (arith, e);
}

abbrev pending : PendingOpen
pending = record { profile = "app"; shutdown = none }

abbrev registry : RegistryState
registry = record (registry_with open_handle) {
  handles =
      map (λ e. (e.0, record e.1 { join = some Thread.running }))
        (registry_with open_handle).handles;
  pending_opens = ("h-3", pending) ∷ [];
}

abbrev core : CoreSettings
core = record { config = settings; profiles = none }

abbrev report : ShutdownReport
report = record { workers = verified "h-1" ∷ verified "h-2" ∷ [] }

abbrev stopped_and_joined : String → RegistryState → RegistryState
stopped_and_joined h r = take_join h (stopped_worker h r)

abbrev ended : Scene calm
ended = (
  record (stopped_and_joined "h-2"
      (stopped_and_joined "h-1" (finish_open "h-3" (begin 0 registry)))) {
        lifecycle = RegistryLifecycle.stopped;
        frozen_report = some report;
      },
  5,
)

stops : shutdown calm 50 core (registry, 0) ≡ some (report, ended)
unfolding shutdown clean_up stop_workers stop_worker ask join_worker wait_opens wait_open settle
    begin finish_open update_handle lookup remove adjust total_seconds sort_by insert_sorted
stops = refl

shutdown_complete_example :
    IsSorted by_handle report.workers
    × ((h : String)
        → (count h (keys registry.handles) ≤ count h (map (λ w. w.handle) report.workers))
          × (count h (map (λ w. w.handle) report.workers)
              ≤ count h (keys registry.handles) + count h (keys registry.pending_opens)))
shutdown_complete_example =
    shutdown_complete calm calm_lawful 50 core registry 0 report ended refl refl stops

verified_report : report_verified report ≡ true
unfolding report_verified
verified_report = refl

verified_quiet_example :
    All (λ h. worker_finished h ended.0 ≡ true) (keys registry.handles)
    × All (λ id. lookup id ended.0.pending_opens ≡ none) (keys registry.pending_opens)
verified_quiet_example =
    verified_quiet calm calm_lawful 50 core registry 0 report ended refl refl stops verified_report

shutdown_frozen_example : shutdown calm 7 core ended ≡ some (report, ended)
shutdown_frozen_example =
    shutdown_frozen calm 50 7 core core (registry, 0) ended ended report stops refl

enough : 1 * total_seconds core < 50
unfolding total_seconds
enough = omega arith

shutdown_ends_example : is_some (shutdown calm 50 core (registry, 0)) ≡ true
shutdown_ends_example = shutdown_ends calm calm_lawful 50 core registry 0 refl enough

session_served :
    serve_with_cleanup calm 50 (ok core) (SessionEnd.ended none) (registry, 0) ≡ some (ok tt, ended)
unfolding serve_with_cleanup serve_outcome primary_failure cleanup_errors_of
session_served = rw (stops, serve_with_cleanup) refl

serve_quiet_example :
    All (λ h. worker_finished h ended.0 ≡ true) (keys registry.handles)
    × All (λ id. lookup id ended.0.pending_opens ≡ none) (keys registry.pending_opens)
serve_quiet_example =
    serve_quiet calm calm_lawful 50 core (SessionEnd.ended none) registry 0 ended refl refl
      session_served
