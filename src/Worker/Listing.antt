-- ===== src/Worker/Listing.antt =====
-- worker.rs: `Core::list_handles`.
use pg_mcp.Prelude.{none, map}
use pg_mcp.Protocol.Json.{Value, array, items, singleton}
use pg_mcp.Protocol.Envelope.{Envelope, success_envelope}
use pg_mcp.Protocol.Envelope.Wire.{state_value}
use pg_mcp.Worker.Registry.{RegistryState, state}

-- The states of all entries, closed ones too, in the order of their handles.
unfoldable pub listed_states : RegistryState → Value
unfolding state state_value
listed_states r = array (items (map (λ e. state_value (state e.1.published)) r.handles))

-- `Core::list_handles`.
unfoldable pub list_handles : RegistryState → Envelope Value
unfolding success_envelope listed_states
list_handles r = success_envelope none (singleton "handles" (listed_states r))
