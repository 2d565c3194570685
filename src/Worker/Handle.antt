-- ===== src/Worker/Handle.antt =====
-- A handle on its own: the registry's writes for one operation as a function of the published
-- handle, and the proof that the registry code of worker.rs implements it.
use pg_mcp.Prelude.{
  String, ◌-◌, Bool, true, false, Option, none, some, if◌then◌else◌, str_eq, eq_refl, is_ok,
  map_option, lookup-adjust, Result, ok, err, ◌≡◌, arith,
}
use pg_mcp.Protocol.Json.Canonical.{Writer}
use pg_mcp.Protocol.Rows.{validate_result}
use pg_mcp.Protocol.Catalog.{validate_schema}
use pg_mcp.Config.{Config}
use pg_mcp.Worker.Backend.{BackendObservation, BackendResult, BackendFailure}
use pg_mcp.Worker.Registry.{
  PublishedHandle, RegistryState, Operation, WorkerEntry, publish, published_of, update_handle,
  observed, dirtied, made_unknown, made_closed, update_observation, update_schema_dirty,
  publish_unknown, publish_closed, current_schema_dirty, current_state, state,
}
use pg_mcp.Worker.Execute.{Outcome, publish_result}
use pg_mcp.Worker.Loop.{is_commit, unknown_failure, publish_observation, release_admission}

-- What a backend's answer makes of the handle.
abbrev pub after_answer :
    Writer → Config → Result BackendResult BackendFailure → PublishedHandle → PublishedHandle
after_answer to_vec config (ok (BackendResult.opened mode o)) p = observed o none p
after_answer to_vec config (ok (BackendResult.schema s o)) p =
    if is_ok (validate_schema to_vec config s) then dirtied false (observed o (some true) p) else p
after_answer to_vec config (ok (BackendResult.query q o direct_ddl)) p =
    if is_ok (validate_result to_vec config q)
    then observed o none (if direct_ddl then dirtied true p else p)
    else p
after_answer to_vec config (ok (BackendResult.committed o)) p =
    dirtied false (observed o (if p.schema_dirty then some false else none) p)
after_answer to_vec config (ok (BackendResult.rolled_back changed o)) p =
    dirtied false (observed o none p)
after_answer to_vec config (ok (BackendResult.closed o true)) p =
    made_closed (observed o (some false) p)
after_answer to_vec config (ok (BackendResult.closed o false)) p = observed o (some false) p
after_answer to_vec config (err f) p = observed f.observation none p

-- What the loop's own publication makes of it.
abbrev pub after_turn : Operation → Outcome → BackendObservation → PublishedHandle → PublishedHandle
after_turn op outcome o p =
    if unknown_failure outcome
    then (if is_commit op then made_unknown p else observed o (some false) p)
    else observed o none p

-- A write to one handle, seen at any handle.
pub published-update :
    (h k : String) (f : PublishedHandle → PublishedHandle) (r : RegistryState)
    → published_of k (update_handle h f r)
      ≡ (if str_eq h k then map_option f (published_of k r) else published_of k r)
unfolding published_of update_handle
published-update h k f r = ground (arith, lookup-adjust h k (publish f) r.handles)

module _ (h : String) (f : PublishedHandle → PublishedHandle) (r : RegistryState) where
  pub published-update_self :
      {p : PublishedHandle}
      → published_of h r ≡ some p
      → published_of h (update_handle h f r) ≡ some (f p)
  published-update_self here = rw (published-update h h f r, eq_refl h, here)

pub published-release_admission :
    (h k : String) (r : RegistryState) → published_of k (release_admission h r) ≡ published_of k r
unfolding release_admission published_of
published-release_admission h k r = ground (
  arith,
  lookup-adjust h k (λ (e : WorkerEntry). record e { admitted = e.admitted - 1 }) r.handles,
)

module _ (h : String) (r : RegistryState) (p : PublishedHandle)
    (here : published_of h r ≡ some p) where
  pub published-publish_observation :
      (op : Operation) (outcome : Outcome) (o : BackendObservation)
      → published_of h (publish_observation h op outcome o r) ≡ some (after_turn op outcome o p)
  unfolding publish_observation update_observation publish_unknown
  published-publish_observation op outcome o =
      let seen = published-update_self h (observed o none) r here in
      ground (
        arith,
        seen,
        published-update_self h made_unknown _ seen,
        published-update_self h (observed o (some false)) _ seen,
      )

  current_dirty : current_schema_dirty h r ≡ p.schema_dirty
  unfolding current_schema_dirty
  current_dirty = rw (here, current_schema_dirty)

  pub current-state : current_state h r ≡ some (state p)
  unfolding current_state
  current-state = rw (here, current_state)

  pub published-publish_result :
      (to_vec : Writer) (config : Config) (answer : Result BackendResult BackendFailure)
      → published_of h (publish_result to_vec config h answer r).1
        ≡ some (after_answer to_vec config answer p)
  unfolding publish_result update_observation update_schema_dirty publish_closed
  published-publish_result to_vec config (ok (BackendResult.opened mode o)) =
      published-update_self h (observed o none) r here
  published-publish_result to_vec config (ok (BackendResult.schema s o)) = ground (
    arith,
    here,
    published-update_self h (dirtied false) _
        (published-update_self h (observed o (some true)) r here),
  )
  published-publish_result to_vec config (ok (BackendResult.query q o true)) = ground (
    arith,
    here,
    published-update_self h (observed o none) _ (published-update_self h (dirtied true) r here),
  )
  published-publish_result to_vec config (ok (BackendResult.query q o false)) =
      ground (arith, here, published-update_self h (observed o none) r here)
  published-publish_result to_vec config (ok (BackendResult.committed o)) =
      let flag : Option Bool = if p.schema_dirty then some false else none in
      rw current_dirty (
        published-update_self h (dirtied false) _
          (published-update_self h (observed o flag) r here))
  published-publish_result to_vec config (ok (BackendResult.rolled_back changed o)) =
      published-update_self h (dirtied false) _ (published-update_self h (observed o none) r here)
  published-publish_result to_vec config (ok (BackendResult.closed o true)) =
      published-update_self h made_closed _
        (published-update_self h (observed o (some false)) r here)
  published-publish_result to_vec config (ok (BackendResult.closed o false)) =
      published-update_self h (observed o (some false)) r here
  published-publish_result to_vec config (err f) =
      published-update_self h (observed f.observation none) r here
