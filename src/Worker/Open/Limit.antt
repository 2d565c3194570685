-- ===== src/Worker/Open/Limit.antt =====
-- The limit of handles for a profile.
use pg_mcp.Prelude.{
  ℕ, String, Bool, ◌+◌, ◌^◌, ◌≤◌, ◌<◌, some, [], ◌∷◌, Result, ok, err, if◌then◌else◌, eq_iff, Map,
  lookup, insert, remove, ◌≡◌, ◌⊎◌, arith,
}
use pg_mcp.Config.{Config, ConfigError}
use pg_mcp.Worker.Backend.{Token, RequestContext, BackendObservation, BackendFailure}
use pg_mcp.Worker.Registry.{RegistryState, PendingOpen, running}
use pg_mcp.Worker.Open.{
  CoreSettings, count_where, of_handle, of_pending, open_config, reserve_open, allocate_handle,
  connect_and_publish, finish_open, handle_name, fresh_handle, fresh_entry,
}

count_where-insert {ℓ} :
    {A : Type ℓ} (p : A → Bool) (k : String) (x : A) (m : Map A)
    → count_where p (insert k x m) ≤ (if p x then 1 else 0) + count_where p m
unfolding insert
count_where-insert p k x [] = ground arith
count_where-insert p k x ((j, y) ∷ m) = ground (arith, count_where-insert p k x m)

count_where-remove {ℓ} :
    {A : Type ℓ} (p : A → Bool) (k : String) (m : Map A)
    → count_where p (remove k m) ≤ count_where p m
unfolding remove
count_where-remove p k [] = ground arith
count_where-remove p k ((j, y) ∷ m) = ground (arith, count_where-remove p k m)

count_where-remove_found {ℓ} :
    {A : Type ℓ} (p : A → Bool) (k : String) (x : A) (m : Map A)
    → lookup k m ≡ some x
    → (if p x then 1 else 0) + count_where p (remove k m) ≤ count_where p m
unfolding remove lookup
count_where-remove_found p k x [] h = cc
count_where-remove_found p k x ((j, y) ∷ m) h =
    ground (arith, count_where-remove_found p k x m, count_where-remove p k m)

-- The handles of a profile, open or being opened.
abbrev pub occupied : String → RegistryState → ℕ
occupied profile r =
    count_where (of_handle profile) r.handles + count_where (of_pending profile) r.pending_opens

-- A reservation is granted only in a running registry, and keeps the handles of the profile, open
-- or being opened, within the limit of its configuration, which is a `usize`; for other profiles
-- their number does not grow.
pub reserve_open_bounded :
    (core : CoreSettings) (profile other id : String) (cancellation open_shutdown : Token) (now : ℕ)
    (r r' : RegistryState) (context : RequestContext) (c : Config)
    → open_config core profile ≡ ok c
    → c.max_handles < 2 ^ 64
    → reserve_open core profile cancellation open_shutdown now r ≡ ok (id, context, r')
    → (r.lifecycle ≡ running)
      × (occupied profile r' ≤ c.max_handles)
      × ((other ≡ profile) ⊎ (occupied other r' ≤ occupied other r))
unfolding reserve_open allocate_handle
reserve_open_bounded core profile other id cancellation open_shutdown now r r' context c cfg small
      h =
    let pending : PendingOpen = record { profile = profile; shutdown = open_shutdown } in
    let key = handle_name r.next_handle in
    ground (
      arith,
      eq_iff profile other,
      count_where-insert (of_pending profile) key pending r.pending_opens,
      count_where-insert (of_pending other) key pending r.pending_opens,
    )

-- The end of an opening that has its reservation, successful or not, adds to the handles of no
-- profile, open or being opened: the new handle takes the place of its reservation.
pub connect_and_publish_bounded :
    (id profile other : String) (c : RequestContext) (now : ℕ)
    (resolved : Result Config ConfigError)
    (connected : Result (BackendObservation × String) BackendFailure) (spawned : Bool)
    (r : RegistryState) (pending : PendingOpen)
    → lookup id r.pending_opens ≡ some pending
    → pending.profile ≡ profile
    → occupied other (connect_and_publish id profile c now resolved connected spawned r).1
      ≤ occupied other r
unfolding connect_and_publish finish_open
connect_and_publish_bounded id profile other c now (err e) connected spawned r pending found same =
    ground (arith, count_where-remove (of_pending other) id r.pending_opens)
connect_and_publish_bounded id profile other c now (ok config) (err f) spawned r pending found
      same =
    ground (arith, count_where-remove (of_pending other) id r.pending_opens)
connect_and_publish_bounded id profile other c now (ok config) (ok (o, database)) spawned r pending
      found same =
    ground (
      arith,
      count_where-remove (of_pending other) id r.pending_opens,
      count_where-remove_found (of_pending other) id pending r.pending_opens found,
      count_where-insert (of_handle other) id
          (fresh_entry (fresh_handle id database o) profile config) r.handles,
    )
