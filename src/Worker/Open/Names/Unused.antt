-- ===== src/Worker/Open/Names/Unused.antt =====
-- No name of a handle is given twice, among the writes of the tasks and threads to the registry.
use mathlib.Core.Path.{subst}
use pg_mcp.Prelude.{
  ℕ, String, ◌+◌, ◌-◌, ◌^◌, ◌<◌, none, ok, Map, lookup, insert, lookup-insert, eq_iff, str_eq, ◌≡◌,
  refl, sym, ap, arith, Option-cases, Bool-cases, inl, inr,
}
use pg_mcp.Worker.Backend.{Token, RequestContext}
use pg_mcp.Worker.Registry.{RegistryState, PendingOpen, publish, update_handle, new_registry}
use pg_mcp.Worker.Loop.{release_admission}
use pg_mcp.Worker.Open.{CoreSettings, reserve_open, allocate_handle, handle_name, saturating_add}
use pg_mcp.Worker.Open.Names.{handle_name_injective}
use pg_mcp.Worker.Open.Names.Inherited.{
  IsKey, Given, IsNamed, Inherits, Inherits-IsNamed, adjust-Inherits, finish_open-Inherits,
  connect_and_publish-Inherits, Rewrites-Inherits, admitted-Rewrites, refused-Rewrites,
}
use pg_mcp.Worker.Shutdown.Others.{
  OtherStep, publishes, exits, releases, admits, refuses, reserves, connects, gives_up, end_thread,
}

-- The opens that may publish: those that hold their reservation.
abbrev IsHeld : {r r' : RegistryState} → OtherStep r r' → Type 0
IsHeld (connects id profile c now config connected spawned r) = IsKey id r.pending_opens
IsHeld _ = Unit

-- The registries that come of the new one by these writes.
pub data Reachable : RegistryState → Type 0 where
  made : (r : RegistryState) → r ≡ new_registry → Reachable r
  written :
      (r r' : RegistryState) (step : OtherStep r r') → Reachable r → IsHeld step → Reachable r'

reserved_write :
    (core : CoreSettings) (profile id : String) (cancellation open_shutdown : Token) (now : ℕ)
    (context : RequestContext) (r r' : RegistryState)
    → reserve_open core profile cancellation open_shutdown now r ≡ ok (id, context, r')
    → (id ≡ handle_name r.next_handle)
      × (p : PendingOpen) × (r' ≡ record r {
        next_handle = saturating_add 64 r.next_handle 1;
        pending_opens = insert (handle_name r.next_handle) p r.pending_opens;
      })
unfolding reserve_open allocate_handle
reserved_write core profile id cancellation open_shutdown now context r r' e =
    (ground (arith, e), record { profile = profile; shutdown = open_shutdown }, ground (arith, e))

not_named_yet : (n : ℕ) → n < 2 ^ 64 → Given n (handle_name n) → ⊥
not_named_yet n small (m, lower, same) =
    absurd (omega (arith, handle_name_injective m n (omega arith) small same))

absent : {A : Type 0} (k : String) (m : Map A) → (IsKey k m → ⊥) → lookup k m ≡ none
absent k m h = elim (Option-cases (lookup k m)) [
  | inl e ↦ e
  | inr (x, e) ↦ absurd (h (ground (arith, e)))
]

still_below : (k : String) (n : ℕ) → Given n k → Given (n + 1) k
still_below k n (m, lower, same) = (m, omega arith, same)

-- A number whose name stands in the registry was given before.
next_unused :
    (r : RegistryState)
    → IsNamed r
    → r.next_handle < 2 ^ 64
    → (lookup (handle_name r.next_handle) r.handles ≡ none)
      × (lookup (handle_name r.next_handle) r.pending_opens ≡ none)
next_unused r v small =
    let name = handle_name r.next_handle in
    (
      absent name r.handles (λ h. not_named_yet r.next_handle small (v.open_given name h)),
      absent name r.pending_opens (λ h. not_named_yet r.next_handle small (v.pending_given name h)),
    )

reserved-IsNamed :
    (r : RegistryState) (p : PendingOpen)
    → r.next_handle < 2 ^ 64 - 1
    → IsNamed r
    → IsNamed (record r {
      next_handle = saturating_add 64 r.next_handle 1;
      pending_opens = insert (handle_name r.next_handle) p r.pending_opens;
    })
reserved-IsNamed r p small v =
    let name = handle_name r.next_handle in
    let following : saturating_add 64 r.next_handle 1 ≡ r.next_handle + 1 = ground arith in
    let unused = next_unused r v (omega arith) in
    record {
      open_given = λ k h. rw following (still_below k r.next_handle (v.open_given k h));
      pending_given = λ k h. rw following (elim (Bool-cases (str_eq name k)) [
        | inl same ↦ (r.next_handle, omega arith, (eq_iff name k).0 same)
        | inr other ↦
            still_below k r.next_handle
              (v.pending_given k (ground (arith, lookup-insert name k p r.pending_opens, other, h)))
      ]);
      apart = λ k h. elim (Bool-cases (str_eq name k)) [
        | inl same ↦ absurd (ground (arith, unused, eq_iff name k, same, h))
        | inr other ↦ ground (arith, lookup-insert name k p r.pending_opens, other, v.apart k h)
      ];
    }

-- While fewer than 2 ^ 64 - 2 names were given.
abbrev Named : RegistryState → Type 0
Named r = r.next_handle < 2 ^ 64 - 1 → IsNamed r

unsaturated : (n : ℕ) → saturating_add 64 n 1 < 2 ^ 64 - 1 → n < 2 ^ 64 - 1
unsaturated n h = ground arith

inherited : (r r' : RegistryState) → Inherits r r' → Named r → Named r'
inherited r r' w v small = Inherits-IsNamed r r' w (v (omega (arith, w.next_same)))

OtherStep-Named : (r r' : RegistryState) (step : OtherStep r r') → IsHeld step → Named r → Named r'
unfolding update_handle release_admission
OtherStep-Named _ _ (publishes h f r) held = inherited r _ (adjust-Inherits h (publish f) r)
OtherStep-Named _ _ (exits h r) held = inherited r _ (adjust-Inherits h end_thread r)
OtherStep-Named _ _ (releases h r) held =
    inherited r _ (adjust-Inherits h (λ e. record e { admitted = e.admitted - 1 }) r)
OtherStep-Named _ _ (admits q receiving h r r' e) held =
    inherited r r' (Rewrites-Inherits h r r' (admitted-Rewrites q receiving h r r' e))
OtherStep-Named _ _ (refuses q receiving h r r' f e) held =
    inherited r r' (Rewrites-Inherits h r r' (refused-Rewrites q receiving h r r' f e))
OtherStep-Named _ _ (reserves core profile id cancellation open_shutdown now context r r' e) held =
    λ v small.
      let (_, p, same) =
        reserved_write core profile id cancellation open_shutdown now context r r' e in
      let few : r.next_handle < 2 ^ 64 - 1 =
        unsaturated r.next_handle
          (subst (λ n. n < 2 ^ 64 - 1) (ap (λ (x : RegistryState). x.next_handle) same) small) in
      subst IsNamed (sym same) (reserved-IsNamed r p few (v few))
OtherStep-Named _ _ (connects id profile c now config connected spawned r) held =
    inherited r _ (connect_and_publish-Inherits id profile c now config connected spawned r held)
OtherStep-Named _ _ (gives_up id r) held = inherited r _ (finish_open-Inherits id r)

Reachable-Named : (r : RegistryState) → Reachable r → Named r
unfolding new_registry lookup
Reachable-Named r (made _ e) = subst Named (sym e) (λ small. record {
  open_given = λ k h. absurd (ground (arith, h));
  pending_given = λ k h. absurd (ground (arith, h));
  apart = λ k h. refl;
})
Reachable-Named r (written r₀ _ step before held) =
    OtherStep-Named r₀ r step held (Reachable-Named r₀ before)

-- In a registry that comes of the new one by the writes of the tasks and threads, each publishing
-- open with its reservation, and in which fewer than 2 ^ 64 - 2 names were given: the name of a
-- reservation is that of no registered handle, closed ones included, and of no other reservation.
pub reserve_open-unused :
    (core : CoreSettings) (profile id : String) (cancellation open_shutdown : Token) (now : ℕ)
    (context : RequestContext) (r r' : RegistryState)
    → Reachable r
    → r.next_handle < 2 ^ 64 - 1
    → reserve_open core profile cancellation open_shutdown now r ≡ ok (id, context, r')
    → (lookup id r.handles ≡ none) × (lookup id r.pending_opens ≡ none)
reserve_open-unused core profile id cancellation open_shutdown now context r r' before few e =
    let (same, _, _) =
      reserved_write core profile id cancellation open_shutdown now context r r' e in
    rw same (next_unused r (Reachable-Named r before few) (omega arith))
