-- ===== src/Examples/Server.antt =====
-- A small server: it answers each command with one result, and a wait and a round of a cancellation take a nanosecond each.
use pg_mcp.Prelude.{
  ℕ, String, true, false, ◌+◌, Option, none, some, is_some, List, [], ◌∷◌, length, ◌≡◌, arith, len,
  ◌<◌, ◌≤◌,
}
use pg_mcp.Libpq.{TransactionStatus}
use pg_mcp.Libpq.Collector
use pg_mcp.Libpq.Collector.{
  NativeResult, Collector, new_collector, finish, ensure_candidate_fits, retain, consume_command,
  consume_affected, consume_rows, take_columns, push_columns, push_rows, read_row, read_cell,
}
use pg_mcp.Libpq.Session.{Foreign, timed_out, all_sent, finished}
use pg_mcp.Libpq.Session.Progress.{Live}

abbrev pub text_cell : String → Collector.NativeCell
text_cell s = Collector.bytes (len s) s

-- One column and one row, as a query in one result returns them.
abbrev pub one_row : NativeResult
one_row = record {
  status = Collector.tuples_ok;
  nfields = some 1;
  ntuples = some 1;
  fname = λ _. some "n";
  ftype = λ _. 23;
  cell = λ _ _. text_cell "7";
  cmd_status = some "SELECT 1";
  cmd_tuples = some "1";
  sqlstate = none;
}

-- The clock, and the results that the server has still to deliver.
abbrev pub World : Type 0
World = ℕ × List NativeResult

abbrev pub next_result : World → Option NativeResult × World
next_result (t, []) = (none, (t, []))
next_result (t, r ∷ rs) = (some r, (t, rs))

abbrev pub server : Foreign
server = record {
  World = World;
  clock = λ w. w.0;
  poll = λ fd read write millis w. (timed_out, (w.0 + 1, w.1));
  socket = λ fd w. true;
  connect_start = λ dsn w. (true, w);
  connect_poll = λ w. (finished, w);
  set_nonblocking = λ w. (true, w);
  send_query_params = λ sql ps w. (true, (w.0 + 1, one_row ∷ []));
  set_single_row_mode = λ w. (true, w);
  flush = λ w. (all_sent, w);
  consume_input = λ w. (true, w);
  is_busy = λ w. (false, w);
  get_result = next_result;
  cancel_create = λ w. (true, w);
  cancel_start = λ w. (true, w);
  cancel_poll = λ w. (finished, (w.0 + 1, w.1));
  cancel_finish = λ w. w;
  finish = λ w. w;
  status = λ w. true;
  transaction_status = λ w. TransactionStatus.idle;
  parameter_status = λ name w. some "UTF8";
  db = λ w. some "app";
  server_version = λ w. 170000;
}

pub result_less :
    (w : World) → is_some (next_result w).0 ≡ true → length (next_result w).1.1 < length w.1
result_less (t, []) h = absurd (ground (arith))
result_less (t, r ∷ rs) h = omega arith

pub result_no_more : (w : World) → length (next_result w).1.1 ≤ length w.1
result_no_more (t, []) = omega arith
result_no_more (t, r ∷ rs) = omega arith

pub result_clock : (w : World) → w.0 ≤ (next_result w).1.0
result_clock (t, []) = omega arith
result_clock (t, r ∷ rs) = omega arith

abbrev pub server_live : Live server
server_live = record {
  left = λ w. length w.1;
  poll_time = λ fd read write millis w. omega arith;
  poll_left = λ fd read write millis w. omega arith;
  flush_time = λ w. omega arith;
  flush_left = λ w. omega arith;
  consume_time = λ w. omega arith;
  consume_left = λ w. omega arith;
  busy_time = λ w. omega arith;
  busy_left = λ w. omega arith;
  result_time = result_clock;
  result_left = result_no_more;
  result_event = result_less;
  create_time = λ w. omega arith;
  create_left = λ w. omega arith;
  start_time = λ w. omega arith;
  start_left = λ w. omega arith;
  cancel_time = λ w. omega arith;
  cancel_left = λ w. omega arith;
  end_time = λ w. omega arith;
  end_left = λ w. omega arith;
}
