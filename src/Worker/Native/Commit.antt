-- ===== src/Worker/Native/Commit.antt =====
-- What the libpq backend says of a COMMIT.
use pg_mcp.Prelude.{
  true, false, Result, ok, err, ◌≡◌, ◌⊎◌, ◌↔◌, inl, inr, arith, Result-cases, eq_iff,
}
use pg_mcp.Protocol.Errors.{known_error, commit_outcome_unknown, tx_failed, no_tx_open}
use pg_mcp.Libpq.{Adapter, ResultSet}
use pg_mcp.Worker.Backend.{
  BackendTransactionStatus, BackendObservation, BackendFailure, RequestContext, committed,
}
use pg_mcp.Worker.Native.{NativeState, observation, execute_command, commit, dispatch_commit}

module _ (a : Adapter) (c : RequestContext) (s : NativeState a) where
  abbrev command : Result ResultSet BackendFailure × NativeState a
  command = execute_command a "COMMIT" c true s

  -- The connection was in a transaction, the server answered COMMIT with the tag COMMIT, and the
  -- connection was observed as idle afterwards.
  abbrev pub IsDone : BackendObservation → Type 0
  IsDone o =
      ((observation a s).transaction_status ≡ BackendTransactionStatus.in_transaction)
      × ((r : ResultSet) × (command.0 ≡ ok r)
          × (r.command_tag ≡ "COMMIT")
          × ((observation a command.1).transaction_status ≡ BackendTransactionStatus.idle)
          × (o ≡ observation a command.1))

  -- Either the adapter was called with COMMIT and the outcome is reported as unknown, also where the
  -- adapter failed before it sent anything, or the adapter was not called.
  abbrev pub IsFailed : BackendFailure → Type 0
  IsFailed f =
      ((f.error ≡ known_error commit_outcome_unknown)
        × (f.outcome_unknown ≡ true)
        × ((commit a c s).1 ≡ command.1))
      ⊎ ((f.outcome_unknown ≡ false)
          × ((commit a c s).1 ≡ s)
          × ((f.error ≡ known_error tx_failed) ⊎ (f.error ≡ known_error no_tx_open)))

  -- A commit is reported as done exactly when the connection was in a transaction, the server
  -- answered COMMIT with the tag COMMIT, and the connection is idle afterwards; the observation
  -- reported is the one after the command.
  pub commit_iff : (o : BackendObservation) → ((commit a c s).0 ≡ ok (committed o)) ↔ IsDone o
  unfolding commit dispatch_commit
  commit_iff o = (
    λ h. elim (Result-cases command.0) [
      | inl (r, e) ↦
          let tag = eq_iff r.command_tag "COMMIT" in
          (ground arith, (r, e, ground (arith, e, tag), ground (arith, e), ground (arith, e)))
      | inr (f, e) ↦ absurd (ground (arith, e))
    ],
    λ (open_before, (r, e, tag, idle_after, seen)).
        ground (arith, e, eq_iff r.command_tag "COMMIT"),
  )

  -- A commit that fails has an unknown outcome where the adapter was called with COMMIT, whatever it
  -- answered and whether or not it had sent the command; otherwise the connection is left alone
  -- and the outcome is known.
  pub commit_failure : (f : BackendFailure) → (commit a c s).0 ≡ err f → IsFailed f
  unfolding commit dispatch_commit
  commit_failure f = ground arith
