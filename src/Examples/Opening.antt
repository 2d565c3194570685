-- ===== src/Examples/Opening.antt =====
-- The opening of the first database of a process.
use pg_mcp.Prelude.{
  String, true, false, none, some, Option, [], ◌∷◌, ok, List, lookup, insert, ◌≡◌, refl, arith, ◌+◌,
}
use pg_mcp.Libpq.Collector
use pg_mcp.Libpq.Collector.{
  NativeResult, finish, ensure_candidate_fits, retain, consume_command, consume_affected,
  consume_rows, take_columns, push_columns, push_rows,
}
use pg_mcp.Libpq.Dsn.{parse, scan, same_ignoring_case, nested_connection_string}
use pg_mcp.Libpq.Session.{check_control, flush_output, validate_parameters, status}
use pg_mcp.Libpq.Session.Collect.{
  consume_result, get_results, receive, collect_loop, collect_results,
}
use pg_mcp.Libpq.Session.Send.{dispatched, send_and_collect}
use pg_mcp.Libpq.Session.Connect.{connect, connect_loop, established, setup_utf8, verified}
use pg_mcp.Protocol.Request.{contains_nul}
use pg_mcp.Protocol.Rows.{
  validate_result, is_decimal_or_none, check_row, check_cell, check_optional, check_bytes,
}
use pg_mcp.Worker.Backend.{RequestContext, from_secs}
use pg_mcp.Worker.Registry.{RegistryState, RegistryLifecycle, Request, shutdown, new_registry}
use pg_mcp.Worker.Open.{CoreSettings, reserve_open, allocate_handle, open_config, handle_name}
use pg_mcp.Worker.Open.Database.{Connecting, open_database}
use pg_mcp.Worker.Open.Settled.{Settles, open_database-Settles}
use pg_mcp.Worker.Open.Detached.{stop_context}
use pg_mcp.Worker.Open.Names.Unused.{Reachable, reserve_open-unused}
use pg_mcp.Libpq.Session.{Foreign, Session}
use pg_mcp.Worker.Native.Factory.{factory_connect, factory_connect-IsOpened, IsOpened}
use pg_mcp.Examples.Data.{settings, seen_at_rest, writer}
use pg_mcp.Examples.Session.{conninfo}
use pg_mcp.Examples.Server.{server, one_row}

abbrev core : CoreSettings
core = record { config = settings; profiles = none }

abbrev open_context : RequestContext
open_context = record {
  cancellation = none;
  shutdown = none;
  deadline = from_secs 10;
  cancel_drain_grace = from_secs 5;
}

abbrev first : String
first = "h-0000000000000001"

abbrev reserved : RegistryState
reserved = record new_registry {
  pending_opens = (first, record { profile = "app"; shutdown = none }) ∷ [];
  next_handle = 2;
}

is_reserved : reserve_open core "app" none none 0 new_registry ≡ ok (first, open_context, reserved)
unfolding reserve_open allocate_handle handle_name open_config insert new_registry
is_reserved = refl

reserve_open-unused_example :
    (lookup first new_registry.handles ≡ none) × (lookup first new_registry.pending_opens ≡ none)
unfolding new_registry
reserve_open-unused_example =
    reserve_open-unused core "app" first none none 0 open_context new_registry reserved
      (Reachable.made new_registry refl) (omega arith) is_reserved

-- The connection is made, the thread starts, and nothing is written by others meanwhile.
abbrev outside : RequestContext → Option Connecting
outside c = some (record {
  instant = 1;
  resolved = ok settings;
  connected = ok (seen_at_rest, "app");
  spawned = true;
})

open_database-Settles_example :
    Settles first reserved (open_database core "app" none none 0 outside (λ r. r) new_registry)
open_database-Settles_example =
    open_database-Settles core "app" first none none 0 outside (λ r. r) new_registry reserved
      open_context is_reserved

-- A shutdown begins before the open publishes its handle.
abbrev halted : RegistryState
halted = record reserved { lifecycle = RegistryLifecycle.stopping }

abbrev left_behind : List Request
left_behind = shutdown (stop_context settings none 2) ∷ []

-- The answer to SET, and a server that answers with it.
abbrev set_answer : NativeResult
set_answer = record one_row {
  status = Collector.command_ok;
  nfields = some 0;
  ntuples = some 0;
  cmd_status = some "SET";
  cmd_tuples = some "";
}

abbrev greeting : Foreign
greeting = record server { send_query_params = λ sql ps w. (true, (w.0 + 1, set_answer ∷ [])) }

abbrev connected : Session greeting
connected = record { world = (1, []); owned = true; busy = false }

opens :
    factory_connect writer conninfo greeting 9 "dbname=app" open_context (0, [])
    ≡ some (ok (connected, "app"), (1, []))
unfolding factory_connect parse scan same_ignoring_case nested_connection_string contains_nul
    connect established connect_loop setup_utf8 send_and_collect dispatched collect_results
    flush_output collect_loop receive get_results check_control validate_parameters verified status
    consume_result consume_rows consume_command consume_affected take_columns push_columns push_rows
    retain ensure_candidate_fits validate_result is_decimal_or_none check_row check_cell
    check_optional check_bytes finish
opens = refl

factory_connect-IsOpened_example : IsOpened writer conninfo greeting "dbname=app" connected "app"
factory_connect-IsOpened_example =
    factory_connect-IsOpened writer conninfo greeting 9 "dbname=app" "app" open_context (0, [])
      (1, []) connected opens
