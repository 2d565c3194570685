-- ===== src/Worker/Open/Settled.antt =====
-- What an open leaves in the registry.
use pg_mcp.Prelude.{
  ℕ, String, Bool, true, false, Option, none, some, Result, ok, err, lookup, lookup-insert,
  lookup-remove, eq_iff, remove, insert, if◌then◌else◌, not, ◌≡◌, refl, arith, Option-cases,
  Bool-cases, inl, inr,
}
use pg_mcp.Config.{Config, ConfigError}
use pg_mcp.Worker.Backend.{Token, RequestContext, BackendObservation, BackendFailure}
use pg_mcp.Worker.Registry.{RegistryState, WorkerEntry, state}
use pg_mcp.Protocol.Json.{string, singleton}
use pg_mcp.Protocol.Errors.{known_error, internal, server_stopping}
use pg_mcp.Protocol.Envelope.{success_envelope}
use pg_mcp.Worker.Execute.{Outcome, process_failure}
use pg_mcp.Worker.Admission.{is_running}
use pg_mcp.Worker.Open.{
  CoreSettings, reserve_open, connect_and_publish, connected_error, finish_open, fresh_entry,
  fresh_handle,
}
use pg_mcp.Worker.Open.Database.{Connecting, finish_database, open_database}

-- An answer to an open against the registry before and after its blocking task: an envelope shows
-- the state of an entry that is now registered under the reserved name, in a running registry, and
-- a failure leaves the entries as they were.
abbrev pub Shows : String → RegistryState → RegistryState → Outcome → Type 0
Shows id r r' (ok e) =
    (is_running r.lifecycle ≡ true)
    × (entry : WorkerEntry) × (lookup id r'.handles ≡ some entry)
    × (e.handle_state ≡ some (state entry.published))
Shows id r r' (err f) = r'.handles ≡ r.handles

abbrev pub Settles : String → RegistryState → Outcome × RegistryState → Type 0
Settles id r (answer, r') = (lookup id r'.pending_opens ≡ none) × Shows id r r' answer

gone : (id : String) (r : RegistryState) → lookup id (remove id r.pending_opens) ≡ none
gone id r = ground (arith, lookup-remove id id r.pending_opens, eq_iff id id)

-- So settles every open that fails.
dropped :
    (id : String) (r : RegistryState)
    → (lookup id (finish_open id r).pending_opens ≡ none) × ((finish_open id r).handles ≡ r.handles)
unfolding finish_open
dropped id r = (gone id r, refl)

-- The last step of an open that was connected.
published :
    (id profile database : String) (config : Config) (o : BackendObservation) (spawned : Bool)
    (r : RegistryState)
    → Settles id r (
        let p = fresh_handle id database o in
        if not spawned
        then (err (process_failure (known_error internal)), finish_open id r)
        else if not (is_running r.lifecycle)
        then (err (process_failure (known_error server_stopping)), finish_open id r)
        else (
          ok (success_envelope (some (state p)) (singleton "handle" (string id))),
          record r {
            pending_opens = remove id r.pending_opens;
            handles = insert id (fresh_entry p profile config) r.handles;
          },
        ))
unfolding success_envelope
published id profile database config o false r = dropped id r
published id profile database config o true r = elim (Bool-cases (is_running r.lifecycle)) [
  | inr e ↦ rw e (dropped id r)
  | inl e ↦
      let entry = fresh_entry (fresh_handle id database o) profile config in
      rw e (
        gone id r,
        (e, entry, ground (arith, lookup-insert id id entry r.handles, eq_iff id id), refl),
      )
]

connect_and_publish-Settles :
    (id profile : String) (c : RequestContext) (now : ℕ) (resolved : Result Config ConfigError)
    (connected : Result (BackendObservation × String) BackendFailure) (spawned : Bool)
    (r : RegistryState)
    → Settles id r (connect_and_publish id profile c now resolved connected spawned r)
unfolding connect_and_publish
connect_and_publish-Settles id profile c now (err e) connected spawned r = dropped id r
connect_and_publish-Settles id profile c now (ok config) (err f) spawned r = dropped id r
connect_and_publish-Settles id profile c now (ok config) (ok (o, database)) spawned r =
    elim (Option-cases (connected_error c now o)) [
      | inl none_wrong ↦
          rw (none_wrong, connect_and_publish) (published id profile database config o spawned r)
      | inr (e, wrong) ↦ rw (wrong, connect_and_publish) (dropped id r)
    ]

-- Whatever comes of an open that had its reservation, a database, an error or a panic of its
-- blocking task, and whatever the other tasks write meanwhile: the reservation is gone. Where the
-- answer is an envelope, the registry was still running, and the handle is registered under the
-- reserved name with the state that the envelope shows; otherwise no handle was added.
pub open_database-Settles :
    (core : CoreSettings) (profile id : String) (cancellation open_shutdown : Token) (now : ℕ)
    (outside : RequestContext → Option Connecting) (others : RegistryState → RegistryState)
    (r r' : RegistryState) (context : RequestContext)
    → reserve_open core profile cancellation open_shutdown now r ≡ ok (id, context, r')
    → Settles id
        (others r')
        (open_database core profile cancellation open_shutdown now outside others r)
unfolding open_database finish_database
open_database-Settles core profile id cancellation open_shutdown now outside others r r' context
      reserved =
    rw (reserved, open_database)
      (elim (Option-cases (outside context)) [
        | inl panics ↦ rw (panics, finish_database) (dropped id (others r'))
        | inr (o, ends) ↦
            rw (ends, finish_database)
              (connect_and_publish-Settles id profile context o.instant o.resolved o.connected
                o.spawned (others r'))
      ])
