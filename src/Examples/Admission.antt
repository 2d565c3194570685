-- ===== src/Examples/Admission.antt =====
-- Admissions to a queue, and the opening of handles.
use mathlib.Core.Path.{subst}
use pg_mcp.Prelude.{
  String, Bool, true, false, none, some, [], ◌∷◌, ok, lookup, adjust, insert, ◌≡◌, ◌⊎◌, refl, arith,
  ◌≤◌,
}
use pg_mcp.Protocol.Errors.{known_error}
use pg_mcp.Worker.Backend.{RequestContext, from_secs}
use pg_mcp.Worker.Registry.{
  RegistryState, WorkerEntry, PendingOpen, Request, operation, shutdown, commit, made_closed,
  RegistryLifecycle, stopping,
}
use pg_mcp.Worker.Execute.{process_failure}
use pg_mcp.Worker.Admission.{admit, enqueue, try_send, sent, admitted, refused, blocked}
use pg_mcp.Worker.Admission.Queue.{
  Line, arrives, asks, takes, Reachable, opened, next, IsCounted, Reachable-IsCounted,
}
use pg_mcp.Worker.Open.{
  CoreSettings, reserve_open, allocate_handle, open_config, fresh_entry, handle_name,
}
use pg_mcp.Worker.Open.Limit.{occupied, reserve_open_bounded}
use pg_mcp.Protocol.Errors.{server_stopping}
use pg_mcp.Examples.Data.{context, settings, registry_with, open_handle}

abbrev request : Request
request = operation commit context

abbrev empty_entry : WorkerEntry
empty_entry = fresh_entry open_handle "app" settings

abbrev line_of : WorkerEntry → (serving : Bool) → Line
line_of e serving = record { entry = e; receiving = true; serving = serving }

abbrev waiting_entry : WorkerEntry
waiting_entry = record empty_entry { queue = request ∷ []; admitted = 1 }

abbrev served_entry : WorkerEntry
served_entry = record empty_entry { queue = []; admitted = 1 }

abbrev asked_entry : WorkerEntry
asked_entry = record empty_entry { queue = shutdown context ∷ []; admitted = 1 }

arrived : Reachable (line_of (enqueue request true empty_entry).1 false)
arrived = next _ _ (opened empty_entry refl refl) (arrives request true false empty_entry refl)

arrived_entry : (enqueue request true empty_entry).1 ≡ waiting_entry
unfolding enqueue try_send
arrived_entry = refl

asked : try_send (shutdown context) true served_entry ≡ sent asked_entry
unfolding try_send
asked = refl

-- An operation is served, and a shutdown is queued behind it.
one_served : Reachable (line_of asked_entry true)
one_served =
    let waiting = subst (λ e. Reachable (line_of e false)) arrived_entry arrived in
    let taken = next _ _ waiting (takes commit context [] waiting_entry refl) in
    next (line_of served_entry true) (line_of asked_entry true) taken
      (asks context true true served_entry asked_entry asked)

Reachable-IsCounted_example : IsCounted (line_of asked_entry true)
Reachable-IsCounted_example = Reachable-IsCounted (line_of asked_entry true) one_served

-- A handle that was closed stays registered.
abbrev closed_registry : RegistryState
closed_registry = registry_with (made_closed open_handle)

closed_blocks : admit request true "h-1" closed_registry ≡ blocked
unfolding admit lookup
closed_blocks = refl

abbrev open_registry : RegistryState
open_registry = registry_with open_handle

abbrev registry_after : RegistryState
registry_after = record open_registry {
  handles =
      adjust "h-1" (λ (e : WorkerEntry). record e { queue = request ∷ []; admitted = 2 })
        open_registry.handles;
}

taken : admit request true "h-1" open_registry ≡ admitted registry_after
unfolding admit lookup adjust enqueue try_send
taken = refl

abbrev stopping_registry : RegistryState
stopping_registry = record open_registry { lifecycle = stopping }

not_taken :
    admit request true "h-1" stopping_registry
    ≡ refused (process_failure (known_error server_stopping)) stopping_registry
unfolding admit
not_taken = refl

abbrev core : CoreSettings
core = record { config = settings; profiles = none }

abbrev pending : PendingOpen
pending = record { profile = "app"; shutdown = none }

abbrev open_context : RequestContext
open_context = record {
  cancellation = none;
  shutdown = none;
  deadline = from_secs 10;
  cancel_drain_grace = from_secs 5;
}

-- The third handle of the profile.
abbrev reserved : RegistryState
reserved = record open_registry {
  pending_opens = ("h-0000000000000003", pending) ∷ [];
  next_handle = 4;
}

core_config : open_config core "app" ≡ ok settings
unfolding open_config
core_config = refl

is_reserved :
    reserve_open core "app" none none 0 open_registry
    ≡ ok ("h-0000000000000003", open_context, reserved)
unfolding reserve_open allocate_handle handle_name open_config insert
is_reserved = refl

reserve_open_bounded_example :
    (open_registry.lifecycle ≡ RegistryLifecycle.running)
    × (occupied "app" reserved ≤ 16)
    × (◌≡◌ {A = String} "other" "app"
        ⊎ (occupied "other" reserved ≤ occupied "other" open_registry))
reserve_open_bounded_example =
    reserve_open_bounded core "app" "other" "h-0000000000000003" none none 0 open_registry reserved
      open_context settings core_config (omega arith) is_reserved

is_pending : lookup "h-0000000000000003" reserved.pending_opens ≡ some pending
unfolding lookup
is_pending = refl
