-- ===== src/Examples/Session.antt =====
-- Runs of a connection to a small server.
use pg_mcp.Prelude.{
  ℕ, String, Bool, true, false, Option, none, some, List, [], ◌∷◌, ◌++◌, Result, ok, err, ◌≡◌, refl,
  leb,
}
use pg_mcp.Libpq
use pg_mcp.Libpq.{
  PollControl, ResultSet, QueryLimits, CancelReason, TransactionStatus, AdapterError, adapter_error,
  reason_error,
}
use pg_mcp.Libpq.Collector.{
  new_collector, finish, ensure_candidate_fits, retain, consume_command, consume_affected,
  consume_rows, take_columns, push_columns, push_rows, read_row, read_cell,
}
use pg_mcp.Libpq.Collector.Copied.{consume_rows_lem, table}
use pg_mcp.Libpq.Session.{Session, check_control, poll_loop, flush_output, validate_parameters}
use pg_mcp.Libpq.Session.Cancel.{with_unknown, cancel_loop, dispatch_cancel, cancel_and_drain}
use pg_mcp.Libpq.Session.Collect.{
  consume_result, get_results, receive, collect_loop, collect_results,
}
use pg_mcp.Libpq.Session.Send.{dispatched, send_query}
use pg_mcp.Libpq.Dsn.{
  Dsn, ConninfoOption, null_value, text_value, parse, scan, same_ignoring_case,
  nested_connection_string,
}
use pg_mcp.Libpq.Dsn.Accepted.{parse_iff, IsAuthoritative}
use pg_mcp.Libpq.Session.Outcomes.{interrupted-IsUnknown, IsUnknown}
use pg_mcp.Protocol.Request.{contains_nul}
use pg_mcp.Protocol.Rows.{
  validate_result, is_decimal_or_none, check_cell, check_optional, check_row, check_bytes,
}
use pg_mcp.Worker.Lawful.{Lawful}
use pg_mcp.Worker.Native.{NativeState}
use pg_mcp.Worker.Native.Over.{libpq_adapter}
use pg_mcp.Worker.Translate.{limits}
use pg_mcp.Examples.Server.{server, server_live, one_row}
use pg_mcp.Examples.Data.{writer, settings}

abbrev session : Session server
session = record { world = (0, []); owned = true; busy = false }

-- A control that stays quiet, and one that asks for a shutdown from an instant on.
abbrev quiet : PollControl
quiet = record {
  shutdown_requested = λ now. false;
  cancelled = λ now. false;
  cancel_drain_grace = 5;
}

abbrev stopping_from : ℕ → PollControl
stopping_from t = record {
  shutdown_requested = λ now. leb t now;
  cancelled = λ now. false;
  cancel_drain_grace = 5;
}

check_before : check_control (stopping_from 1) 100 0 ≡ ok tt
unfolding check_control
check_before = refl

check_after : check_control (stopping_from 1) 100 1 ≡ err (adapter_error Libpq.server_stopping)
unfolding check_control
check_after = refl

abbrev sql : String
sql = "SELECT 7 AS n"

abbrev answer : ResultSet
answer = record {
  columns = record { name = "n"; type_oid = 23 } ∷ [];
  rows = (some "7" ∷ []) ∷ [];
  command_tag = "SELECT 1";
  affected_rows = some "1";
}

answered :
    send_query writer server 9 sql [] (limits settings) 100 quiet session
    ≡ some (ok answer, record { world = (1, []); owned = true; busy = false })
unfolding send_query dispatched validate_parameters contains_nul check_control collect_results
    flush_output collect_loop receive get_results consume_result consume_rows take_columns
    push_columns push_rows read_row read_cell consume_command consume_affected retain
    ensure_candidate_fits validate_result is_decimal_or_none check_cell check_optional check_row
    check_bytes finish
answered = refl

-- The wait for a cancel request times out.
abbrev after_giving_up : Session server
after_giving_up = record { world = (3, []); owned = false; busy = false }

not_cancelled :
    cancel_and_drain server 9 CancelReason.cancelled 3 session
    ≡ some (err (with_unknown (reason_error CancelReason.cancelled)), after_giving_up)
unfolding cancel_and_drain dispatch_cancel cancel_loop poll_loop
not_cancelled = refl

abbrev uncertain : Result Bool AdapterError
uncertain = err (with_unknown (reason_error CancelReason.cancelled))

abbrev stopped : Result ResultSet AdapterError
stopped = err (with_unknown (reason_error CancelReason.shutdown))

collection_stopped :
    collect_loop writer server
      (stopping_from 0)
      100
      9
      (new_collector (limits settings))
      none
      100
      session
    ≡ some (stopped, record { world = (5, []); owned = false; busy = false })
unfolding collect_loop dispatch_cancel cancel_loop poll_loop
collection_stopped = refl

interrupted-IsUnknown_example : IsUnknown writer server stopped
interrupted-IsUnknown_example =
    interrupted-IsUnknown writer server (stopping_from 0) 100 9 (new_collector (limits settings))
      session (record { world = (5, []); owned = false; busy = false }) stopped
      CancelReason.shutdown refl collection_stopped

abbrev connected : NativeState (libpq_adapter writer server server_live)
connected = record { connection = some session; clock = 0 }

-- The collector takes the row of the result.
consumed : (consume_rows writer one_row (new_collector (limits settings))).0 ≡ ok tt
unfolding consume_rows take_columns push_columns push_rows read_row read_cell retain
    ensure_candidate_fits validate_result is_decimal_or_none check_cell check_optional check_row
    check_bytes
consumed = refl

consume_rows_lem_example :
    (consume_rows writer one_row (new_collector (limits settings))).1.rows
    ≡ [] ++ table one_row 1 0 1
consume_rows_lem_example =
    consume_rows_lem writer one_row (new_collector (limits settings)) 1 1 refl refl consumed

-- libpq's reading of one text.
abbrev pub conninfo : String → Option (List ConninfoOption)
conninfo _ = some (
    record { keyword = some "host"; val = null_value }
    ∷ record { keyword = some "DBNAME"; val = text_value "app" }
    ∷ [])

abbrev app_dsn : Dsn
app_dsn = record { raw = "dbname=app"; database = "app" }

parsed : parse conninfo "dbname=app" ≡ ok app_dsn
unfolding parse scan same_ignoring_case nested_connection_string contains_nul
parsed = refl

parse_iff_example : IsAuthoritative conninfo "dbname=app" app_dsn
parse_iff_example = (parse_iff conninfo "dbname=app" app_dsn).0 parsed
