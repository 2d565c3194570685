-- ===== src/Worker/Open/Names/Inherited.antt =====
-- The names in the registry, and the writes of the tasks and threads that give no name.
use mathlib.Core.Path.{subst}
use pg_mcp.Prelude.{
  ℕ, String, Bool, true, ◌<◌, none, is_some, Result, ok, err, Map, lookup, adjust, insert, remove,
  lookup-adjust, lookup-insert, lookup-remove, eq_iff, str_eq, ◌≡◌, ◌⊎◌, refl, sym, arith,
  Option-cases, Bool-cases, inl, inr,
}
use pg_mcp.Config.{Config, ConfigError}
use pg_mcp.Worker.Backend.{RequestContext, BackendObservation, BackendFailure}
use pg_mcp.Worker.Registry.{RegistryState, WorkerEntry, Request}
use pg_mcp.Worker.Execute.{CoreFailure}
use pg_mcp.Worker.Admission.{admit, admitted, refused, enqueue, is_running}
use pg_mcp.Worker.Open.{connect_and_publish, finish_open, handle_name, fresh_entry, fresh_handle}

abbrev pub IsKey {ℓ} : {A : Type ℓ} → String → Map A → Type 0
IsKey k m = is_some (lookup k m) ≡ true

-- A name that was given to a number below the next one.
abbrev pub Given : ℕ → String → Type 0
Given next k = (n : ℕ) × (n < next) × (handle_name n ≡ k)

pub record IsNamed (r : RegistryState) : Type 0 where
  pub open_given : (k : String) → IsKey k r.handles → Given r.next_handle k
  pub pending_given : (k : String) → IsKey k r.pending_opens → Given r.next_handle k
  pub apart : (k : String) → IsKey k r.handles → lookup k r.pending_opens ≡ none

-- A write that gives no name: each entry and reservation was there before, or the entry takes the
-- place of its reservation.
pub record Inherits (r r' : RegistryState) : Type 0 where
  pub next_same : r'.next_handle ≡ r.next_handle
  pub opened :
      (k : String)
      → IsKey k r'.handles
      → IsKey k r.handles ⊎ (IsKey k r.pending_opens × (lookup k r'.pending_opens ≡ none))
  pub waiting : (k : String) → IsKey k r'.pending_opens → IsKey k r.pending_opens

carried_over : (k : String) (n m : ℕ) → m ≡ n → Given n k → Given m k
carried_over k n m e = subst (λ j. Given j k) (sym e)

pub Inherits-IsNamed : (r r' : RegistryState) → Inherits r r' → IsNamed r → IsNamed r'
Inherits-IsNamed r r' w v = record {
  open_given = λ k h. elim (w.opened k h) [
    | inl before ↦ carried_over k r.next_handle r'.next_handle w.next_same (v.open_given k before)
    | inr (reserved, _) ↦
        carried_over k r.next_handle r'.next_handle w.next_same (v.pending_given k reserved)
  ];
  pending_given = λ k h.
      carried_over k r.next_handle r'.next_handle w.next_same (v.pending_given k (w.waiting k h));
  apart = λ k h. elim (w.opened k h) [
    | inl before ↦ elim (Option-cases (lookup k r'.pending_opens)) [
      | inl none_there ↦ none_there
      | inr (p, there) ↦
          absurd (ground (arith, w.waiting k (ground (arith, there)), v.apart k before))
    ]
    | inr (_, gone) ↦ gone
  ];
}

pub adjust-Inherits :
    (h : String) (f : WorkerEntry → WorkerEntry) (r : RegistryState)
    → Inherits r (record r { handles = adjust h f r.handles })
adjust-Inherits h f r = record {
  next_same = refl;
  opened = λ k e. inl (ground (arith, lookup-adjust h k f r.handles, e));
  waiting = λ k e. e;
}

pub finish_open-Inherits : (id : String) (r : RegistryState) → Inherits r (finish_open id r)
unfolding finish_open
finish_open-Inherits id r = record {
  next_same = refl;
  opened = λ k e. inl e;
  waiting = λ k e. ground (arith, lookup-remove id k r.pending_opens, e);
}

-- An open that is published takes the place of its reservation.
moved-Inherits :
    (id : String) (entry : WorkerEntry) (r : RegistryState)
    → IsKey id r.pending_opens
    → Inherits r (record r {
      pending_opens = remove id r.pending_opens;
      handles = insert id entry r.handles;
    })
moved-Inherits id entry r held = record {
  next_same = refl;
  opened = λ k e. elim (Bool-cases (str_eq id k)) [
    | inl same ↦ inr (
      subst (λ j. IsKey j r.pending_opens) ((eq_iff id k).0 same) held,
      ground (arith, lookup-remove id k r.pending_opens, same),
    )
    | inr other ↦ inl (ground (arith, lookup-insert id k entry r.handles, other, e))
  ];
  waiting = λ k e. ground (arith, lookup-remove id k r.pending_opens, e);
}

-- An entry that takes the place of the reservation of its name.
abbrev moved : String → WorkerEntry → RegistryState → RegistryState
moved id entry r = record r {
  pending_opens = remove id r.pending_opens;
  handles = insert id entry r.handles;
}

connected_cases :
    (id profile database : String) (c : RequestContext) (now : ℕ) (config : Config)
    (o : BackendObservation) (spawned : Bool) (r : RegistryState)
    → (let r' = (connect_and_publish id profile c now (ok config) (ok (o, database)) spawned r).1 in
        (r' ≡ finish_open id r)
        ⊎ (r' ≡ moved id (fresh_entry (fresh_handle id database o) profile config) r))
unfolding connect_and_publish
connected_cases id profile database c now config o spawned r = ground arith

pub connect_and_publish-Inherits :
    (id profile : String) (c : RequestContext) (now : ℕ) (resolved : Result Config ConfigError)
    (connected : Result (BackendObservation × String) BackendFailure) (spawned : Bool)
    (r : RegistryState)
    → IsKey id r.pending_opens
    → Inherits r (connect_and_publish id profile c now resolved connected spawned r).1
unfolding connect_and_publish
connect_and_publish-Inherits id profile c now (err e) connected spawned r held =
    finish_open-Inherits id r
connect_and_publish-Inherits id profile c now (ok config) (err f) spawned r held =
    finish_open-Inherits id r
connect_and_publish-Inherits id profile c now (ok config) (ok (o, database)) spawned r held =
    elim (connected_cases id profile database c now config o spawned r) [
      | inl e ↦ subst (Inherits r) (sym e) (finish_open-Inherits id r)
      | inr e ↦
          subst (Inherits r) (sym e)
            (moved-Inherits id (fresh_entry (fresh_handle id database o) profile config) r held)
    ]

-- What `admit` writes: nothing, or an entry in the place of that of its handle.
abbrev pub Rewrites : String → RegistryState → RegistryState → Type 0
Rewrites h r r' =
    (r' ≡ r)
    ⊎ ((f : WorkerEntry → WorkerEntry) × (r' ≡ record r { handles = adjust h f r.handles }))

pub Rewrites-Inherits : (h : String) (r r' : RegistryState) → Rewrites h r r' → Inherits r r'
Rewrites-Inherits h r r' (inl e) =
    subst (Inherits r) (sym e)
      (record { next_same = refl; opened = λ k there. inl there; waiting = λ k there. there })
Rewrites-Inherits h r r' (inr (f, e)) = subst (Inherits r) (sym e) (adjust-Inherits h f r)

module _ (q : Request) (receiving : Bool) (h : String) (r r' : RegistryState) where
  abbrev entered : WorkerEntry → WorkerEntry → WorkerEntry
  entered e _ = (enqueue q receiving e).1

  pub admitted-Rewrites : admit q receiving h r ≡ admitted r' → Rewrites h r r'
  unfolding admit
  admitted-Rewrites e = elim (Option-cases (lookup h r.handles)) [
    | inl missing ↦ absurd (ground (arith, missing, e))
    | inr (entry, there) ↦ inr (entered entry, ground (arith, there, e))
  ]

  pub refused-Rewrites :
      (failure : CoreFailure) → admit q receiving h r ≡ refused failure r' → Rewrites h r r'
  unfolding admit
  refused-Rewrites failure e = elim (Option-cases (lookup h r.handles)) [
    | inl missing ↦ inl (ground (arith, missing, e))
    | inr (entry, there) ↦ elim (Bool-cases (is_running r.lifecycle)) [
      | inl run ↦ inr (entered entry, ground (arith, there, run, e))
      | inr stopped ↦ inl (ground (arith, stopped, e))
    ]
  ]
