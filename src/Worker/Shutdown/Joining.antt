-- ===== src/Worker/Shutdown/Joining.antt =====
-- When `Core::shutdown` reports a worker that it asked as verified.
use pg_mcp.Prelude.{
  ℕ, String, Bool, true, ◌+◌, ◌-◌, ◌<◌, Option, some, ◌≡◌, ◌↔◌, arith, inl, inr, Option-cases,
}
use pg_mcp.Config.{Config}
use pg_mcp.Worker.Registry.{Request, WorkerShutdownEntry}
use pg_mcp.Worker.Shutdown.{
  Surroundings, Scene, is_verified, worker_finished, join_worker, ask, shutdown_context,
}

module _ (b : Surroundings) (deadline : ℕ) (h : String) (config : Config) (σ : Scene b) where
  -- The send of the request to the worker, and the wait for its reply.
  abbrev pub sending : Bool × Scene b
  sending =
      let n = deadline - b.now σ.1 in
      b.send n h (Request.shutdown (shutdown_context b config (b.now σ.1 + n))) σ

  abbrev pub answering : Option WorkerShutdownEntry × Scene b
  answering = b.answer (deadline - b.now sending.1.1) h sending.1

  -- A worker that was asked is reported as verified exactly if the request was sent and its reply
  -- came in time, the reply is verified, and the thread of the worker is no longer running when
  -- the reply is taken: a worker whose thread ends after its reply is reported as uncertain.
  pub ask_verified_iff : (is_verified (ask b deadline h config σ).0 ≡ true) ↔ (
      (sending.0 ≡ true)
      × ((b.now sending.1.1 < deadline)
          × (((w : WorkerShutdownEntry) × ((answering.0 ≡ some w) × (is_verified w ≡ true)))
              × (worker_finished h answering.1.0 ≡ true))))
  unfolding ask join_worker worker_finished
  ask_verified_iff = elim (Option-cases answering.0) [
    | inl e ↦ (λ v. ground (arith, v, e), λ v. ground (arith, v, e))
    | inr (w, e) ↦ (
      λ v. (
        ground (arith, v, e),
        (ground (arith, v, e), ((w, (e, ground (arith, v, e))), ground (arith, v, e))),
      ),
      λ v. ground (arith, v, e),
    )
  ]
