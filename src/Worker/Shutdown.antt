-- ===== src/Worker/Shutdown.antt =====
-- worker.rs: `Core::shutdown`, which asks every worker to stop and waits for the answers.
pub mod Contract
pub mod Report
mod Entries
mod Waits
pub mod Frozen
pub mod Ending
pub mod Others
pub mod Joining
use pg_mcp.Prelude.{
  ℕ, zero, suc, String, Bool, true, false, not, ◌+◌, ◌-◌, ◌*◌, ◌==◌, leb, Option, none, some, List,
  [], ◌∷◌, ◌++◌, if◌then◌else◌, Map, lookup, adjust, keys, all, sort_by, text_le,
}
use pg_mcp.Config.{Config}
use pg_mcp.Config.Profiles.{shutdown_total}
use pg_mcp.Worker.Backend.{Token, RequestContext, is_cancelled}
use pg_mcp.Worker.Registry.{
  RegistryState, RegistryLifecycle, WorkerEntry, PendingOpen, Thread, Request, ShutdownOutcome,
  WorkerShutdownEntry, ShutdownReport,
}
use pg_mcp.Worker.Registry
use pg_mcp.Worker.Admission.{is_running}
use pg_mcp.Worker.Open.{CoreSettings}

-- What `shutdown` shares with the other tasks and threads, beside the registry. `others` is what
-- those do while the lock of the registry is free. `send` and `answer` are the two waits for a
-- worker, for at most so many units of the clock: whether `sender.send(request)` returned by then,
-- and the entry that came over the reply channel by then.
pub record Surroundings : Type 1 where
  pub Rest : Type 0
  pub now : Rest → ℕ
  pub second : ℕ
  pub others : RegistryState × Rest → RegistryState × Rest
  pub cancel_core : Rest → Rest
  pub send : ℕ → String → Request → RegistryState × Rest → Bool × (RegistryState × Rest)
  pub answer :
      ℕ → String → RegistryState × Rest → Option WorkerShutdownEntry × (RegistryState × Rest)

-- `WorkerShutdownEntry::uncertain`.
abbrev pub uncertain : String → String → WorkerShutdownEntry
uncertain h stage = record { handle = h; outcome = ShutdownOutcome.uncertain; stage = some stage }

-- `WorkerShutdownEntry::verified`.
abbrev pub verified : String → WorkerShutdownEntry
verified h = record { handle = h; outcome = ShutdownOutcome.verified; stage = none }

abbrev pub is_verified : WorkerShutdownEntry → Bool
is_verified w = elim w.outcome [
  | ShutdownOutcome.verified ↦ true
  | ShutdownOutcome.uncertain ↦ false
]

-- `ShutdownReport::verified`.
unfoldable pub report_verified : ShutdownReport → Bool
report_verified report = all is_verified report.workers

-- The test of `join_closed_worker`: no thread of the handle is running.
unfoldable pub worker_finished : String → RegistryState → Bool
worker_finished h r = elim (lookup h r.handles) [
  | none ↦ true
  | some e ↦ elim e.join [ none ↦ true | some Thread.running ↦ false | some Thread.finished ↦ true ]
]

abbrev pub take_join : String → RegistryState → RegistryState
take_join h r = record r { handles = adjust h (λ e. record e { join = none }) r.handles }

-- `join_worker`. The join of a finished thread returns at once.
unfoldable pub join_worker : String → RegistryState → Bool × RegistryState
join_worker h r = elim (lookup h r.handles) [
  | none ↦ (true, r)
  | some e ↦ elim e.join [
    | none ↦ (true, r)
    | some Thread.running ↦ (false, r)
    | some Thread.finished ↦ (true, take_join h r)
  ]
]

-- `pending.shutdown.cancel()`.
abbrev pub cancel : ℕ → Token → Token
cancel now token = if is_cancelled token now then token else some now

abbrev pub cancel_opens : ℕ → Map PendingOpen → Map PendingOpen
cancel_opens now [] = []
cancel_opens now ((id, p) ∷ opens) =
    (id, record p { shutdown = cancel now p.shutdown }) ∷ cancel_opens now opens

-- The first block of `shutdown`, when the caller becomes the owner of the cleanup.
unfoldable pub begin : ℕ → RegistryState → RegistryState
begin now r = record r {
  lifecycle = RegistryLifecycle.stopping;
  pending_opens = cancel_opens now r.pending_opens;
}

-- `self.profiles.map_or(self.config.shutdown_total(), ...)`, in seconds.
unfoldable pub total_seconds : CoreSettings → ℕ
total_seconds core = elim core.profiles [
  | none ↦ core.config.shutdown_total_seconds
  | some file ↦ shutdown_total file
]

-- The last block of `shutdown`, of the owner.
unfoldable pub settle : ShutdownReport → RegistryState → ShutdownReport × RegistryState
settle report r = elim r.frozen_report [
  | some existing ↦ (existing, record r { lifecycle = RegistryLifecycle.stopped })
  | none ↦ (report, record r { lifecycle = RegistryLifecycle.stopped; frozen_report = some report })
]

abbrev pub by_handle : WorkerShutdownEntry → WorkerShutdownEntry → Bool
by_handle a b = text_le a.handle b.handle

module _ (b : Surroundings) where
  abbrev pub Scene : Type 0
  Scene = RegistryState × b.Rest

  -- `join_closed_worker`, for at most so many rounds.
  unfoldable pub join_closed_worker : ℕ → ℕ → String → Scene → Option (Bool × Scene)
  unfolding join_worker
  join_closed_worker zero deadline h σ = none
  join_closed_worker (suc n) deadline h σ = elim (worker_finished h σ.0) [
    | true ↦ let (r, s) = b.others σ in let (joined, r') = join_worker h r in some (joined, (r', s))
    | false ↦ elim (leb deadline (b.now σ.1)) [
      | true ↦ some (false, σ)
      | false ↦ join_closed_worker n deadline h (b.others σ)
    ]
  ]

  abbrev pub shutdown_context : Config → ℕ → RequestContext
  shutdown_context config deadline = record {
    cancellation = none;
    shutdown = none;
    deadline = deadline;
    cancel_drain_grace = b.second * config.cancel_drain_grace_seconds;
  }

  -- The request to a worker that is not closed, and its answer.
  unfoldable pub ask : ℕ → String → Config → Scene → WorkerShutdownEntry × Scene
  unfolding join_worker
  ask deadline h config σ =
      let remaining = deadline - b.now σ.1 in
      let request = Request.shutdown (shutdown_context config (b.now σ.1 + remaining)) in
      let (sent, σ₁) = b.send remaining h request σ in
      if not sent
      then (uncertain h "enqueue", σ₁)
      else if deadline - b.now σ₁.1 == 0
      then (uncertain h "deadline", σ₁)
      else (let (reply, σ₂) = b.answer (deadline - b.now σ₁.1) h σ₁ in
          elim reply [
            | none ↦ (uncertain h "deadline", σ₂)
            | some worker ↦
                let (joined, r) = join_worker h σ₂.0 in
                (if joined then worker else uncertain h "join", (r, σ₂.1))
          ])

  -- The body of the loop over the handles.
  unfoldable pub stop_worker : ℕ → ℕ → String → Scene → Option (WorkerShutdownEntry × Scene)
  unfolding join_closed_worker ask
  stop_worker fuel deadline h σ =
      if deadline - b.now σ.1 == 0
      then some (uncertain h "deadline", σ)
      else elim (lookup h σ.0.handles) [
        | none ↦ some (uncertain h "missing", σ)
        | some e ↦
            if e.published.closed
            then elim (join_closed_worker fuel deadline h σ) [
              | none ↦ none
              | some (joined, σ') ↦ some (if joined then verified h else uncertain h "join", σ')
            ]
            else some (ask deadline h e.config σ)
      ]

  -- The loop over the handles. Before each, and after the last, the others go on.
  unfoldable pub stop_workers :
      ℕ → ℕ → List String → Scene → Option (List WorkerShutdownEntry × Scene)
  stop_workers fuel deadline [] σ = some ([], b.others σ)
  stop_workers fuel deadline (h ∷ handles) σ = elim (stop_worker fuel deadline h (b.others σ)) [
    | none ↦ none
    | some (worker, σ₁) ↦ elim (stop_workers fuel deadline handles σ₁) [
      | none ↦ none
      | some (workers, σ₂) ↦ some (worker ∷ workers, σ₂)
    ]
  ]

  -- The wait for one pending open, for at most so many rounds: the entries that it adds.
  unfoldable pub wait_open : ℕ → ℕ → String → Scene → Option (List WorkerShutdownEntry × Scene)
  wait_open zero deadline id σ = none
  wait_open (suc n) deadline id σ = elim (lookup id σ.0.pending_opens) [
    | none ↦ some ([], σ)
    | some _ ↦ elim (leb deadline (b.now σ.1)) [
      | true ↦ some (uncertain id "pending-open" ∷ [], σ)
      | false ↦ wait_open n deadline id (b.others σ)
    ]
  ]

  -- The loop over the pending opens.
  unfoldable pub wait_opens :
      ℕ → ℕ → List String → Scene → Option (List WorkerShutdownEntry × Scene)
  wait_opens fuel deadline [] σ = some ([], σ)
  wait_opens fuel deadline (id ∷ ids) σ = elim (wait_open fuel deadline id σ) [
    | none ↦ none
    | some (entries, σ₁) ↦ elim (wait_opens fuel deadline ids σ₁) [
      | none ↦ none
      | some (rest, σ₂) ↦ some (entries ++ rest, σ₂)
    ]
  ]

  -- The loop of a caller that does not own the cleanup, for at most so many rounds.
  unfoldable pub await_report : ℕ → Scene → Option (ShutdownReport × Scene)
  await_report zero σ = none
  await_report (suc n) σ = elim σ.0.frozen_report [
    | some report ↦ some (report, σ)
    | none ↦ await_report n (b.others σ)
  ]

  -- The cleanup of its owner.
  unfoldable pub clean_up :
      ℕ → ℕ → List String → List String → Scene → Option (ShutdownReport × Scene)
  unfolding settle
  clean_up fuel deadline handles opens σ =
      elim (stop_workers fuel deadline handles (σ.0, b.cancel_core σ.1)) [
        | none ↦ none
        | some (workers, σ₁) ↦ elim (wait_opens fuel deadline opens σ₁) [
          | none ↦ none
          | some (entries, (r, s)) ↦
              let (report, r') =
                settle (record { workers = sort_by by_handle (workers ++ entries) }) r in
              some (report, (r', s))
        ]
      ]

  -- `Core::shutdown`, with at most `fuel` rounds of each wait.
  unfoldable pub shutdown : ℕ → CoreSettings → Scene → Option (ShutdownReport × Scene)
  unfolding clean_up
  shutdown fuel core (r, s) = elim r.frozen_report [
    | some report ↦ some (report, (r, s))
    | none ↦
        if not (is_running r.lifecycle)
        then await_report fuel (b.others (r, s))
        else clean_up fuel (b.now s + b.second * total_seconds core) (keys r.handles)
            (keys r.pending_opens) (begin (b.now s) r, s)
  ]
