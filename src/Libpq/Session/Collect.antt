-- ===== src/Libpq/Session/Collect.antt =====
-- libpq.rs: the results of a command that has been sent.
use pg_mcp.Prelude.{
  ℕ, zero, suc, ◌+◌, Bool, true, false, not, leb, if◌then◌else◌, Option, none, some, unwrap_or, or,
  Result, ok, err,
}
use pg_mcp.Protocol.Json.Canonical.{Writer}
use pg_mcp.Libpq
use pg_mcp.Libpq.{
  PollControl, QueryLimits, CancelReason, AdapterError, ErrorClass, ResultSet, adapter_error,
  unknown_adapter_error, with_sqlstate, reason_error, database, invalid_input, copy_unsupported,
}
use pg_mcp.Libpq.Collector
use pg_mcp.Libpq.Collector.{
  NativeResult, Collector, Step, ◌then_do◌, new_collector, consume_rows, consume_command,
  result_sqlstate, finish,
}
use pg_mcp.Libpq.Session.{
  Foreign, of_connection, Run, caught, passed, Session, now, disposed, lost, poll_fd, flush_output,
}
use pg_mcp.Libpq.Session.Cancel.{with_unknown, dispatch_cancel}

-- `consume_result`.
unfoldable pub consume_result : Writer → NativeResult → Collector → Step
consume_result to_vec r c = elim r.status [
  | Collector.single_tuple ↦ consume_rows to_vec r c
  | Collector.tuples_chunk ↦ consume_rows to_vec r c
  | Collector.tuples_ok ↦ consume_rows to_vec r c then_do consume_command to_vec r
  | Collector.command_ok ↦ consume_command to_vec r c
  | Collector.copy_in ↦ (err (adapter_error copy_unsupported), c)
  | Collector.copy_out ↦ (err (adapter_error copy_unsupported), c)
  | Collector.copy_both ↦ (err (adapter_error copy_unsupported), c)
  | Collector.fatal_error ↦ (err (with_sqlstate (adapter_error database) (result_sqlstate r)), c)
  | Collector.bad_response ↦ (err (with_sqlstate (adapter_error database) (result_sqlstate r)), c)
  | Collector.nonfatal_error ↦ (err (with_sqlstate (adapter_error database) (result_sqlstate r)), c)
  | Collector.empty_query ↦ (err (adapter_error invalid_input), c)
  | Collector.other_status ↦ (err (adapter_error database), c)
]

abbrev pub is_copy : AdapterError → Bool
is_copy e = elim e.class_of [ Libpq.ErrorClass.copy_unsupported ↦ true | _ ↦ false ]

-- Why a collection with no error so far has to be cancelled.
abbrev pub interruption : PollControl → ℕ → ℕ → Option CancelReason
interruption control deadline now =
    if control.shutdown_requested now
    then some CancelReason.shutdown
    else if control.cancelled now
    then some CancelReason.cancelled
    else if leb deadline now
    then some CancelReason.deadline
    else none

module _ (to_vec : Writer) (f : Foreign) where
  -- The end of `collect_results`: PQgetResult has returned NULL.
  abbrev pub completed : Option AdapterError → Collector → Result ResultSet AdapterError
  completed (some e) c = err e
  completed none c = ok (finish c)

  -- The inner loop of `collect_results`.
  unfoldable pub get_results : ℕ → Collector → Option AdapterError → Run (Session f) ResultSet
  get_results zero c first s = none
  get_results (suc n) c first s =
      let (result, w) = f.get_result s.world in
      let s' = record s { world = w } in
      elim result [
        | none ↦ some (completed first c, record s' { busy = false })
        | some r ↦
            let (answer, c') = consume_result to_vec r c in
            elim answer [
              | ok _ ↦ get_results n c' first s'
              | err e ↦
                  let rest = get_results n c' (or first (some e)) s' in
                  if is_copy e
                  then some (err (unknown_adapter_error copy_unsupported), disposed f s')
                  else rest
            ]
      ]

  module _ (control : PollControl) (deadline : ℕ) where
    -- A wait that failed: the connection is disposed of, and the first error wins.
    abbrev pub after_wait :
        Option AdapterError
        → Run (Session f) ResultSet
        → Result Bool AdapterError
        → Run (Session f) ResultSet
    after_wait first again (ok _) s = again s
    after_wait first again (err _) s = some (err (unwrap_or first lost), disposed f s)

    -- The body of the outer loop, below the test for cancellation.
    unfoldable pub receive :
        Run (Session f) ResultSet
        → ℕ
        → Collector
        → Option AdapterError
        → ℕ
        → Run (Session f) ResultSet
    receive again n c first drain_deadline s =
        let (consumed, w) = f.consume_input s.world in
        let (busy, w') = f.is_busy w in
        let s' = record s { world = w' } in
        if not s.owned
        then some (err lost, s)
        else if not consumed
        then some (err lost, record s { world = w; busy = false })
        else if not busy
        then get_results n c first s'
        else if not (f.socket of_connection w')
        then some (err (unwrap_or first lost), disposed f s')
        else caught (poll_fd f n of_connection true false drain_deadline s')
            (after_wait first again)

    -- The outer loop of `collect_results`. The flag `cancellation_dispatched` is set only where the
    -- first error is, so it is off wherever it is tested.
    unfoldable pub collect_loop :
        ℕ → Collector → Option AdapterError → ℕ → Run (Session f) ResultSet
    collect_loop zero c first drain_deadline s = none
    collect_loop (suc n) c (some e) drain_deadline s =
        receive (collect_loop n c (some e) drain_deadline) n c (some e) drain_deadline s
    collect_loop (suc n) c none drain_deadline s = elim (interruption control deadline (now f s)) [
      | none ↦ receive (collect_loop n c none drain_deadline) n c none drain_deadline s
      | some reason ↦
          let e = with_unknown (reason_error reason) in
          let grace = now f s + control.cancel_drain_grace in
          caught (dispatch_cancel f n reason grace s)
            (passed (λ _. receive (collect_loop n c (some e) grace) n c (some e) grace))
    ]

    -- `collect_results`.
    unfoldable pub collect_results : ℕ → QueryLimits → Run (Session f) ResultSet
    collect_results n limits s =
        caught (flush_output f n deadline control s)
          (passed (λ _. collect_loop n (new_collector limits) none deadline))
