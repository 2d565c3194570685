-- ===== src/Libpq/Session/Send.antt =====
-- libpq.rs: `send_query` and `send_and_collect`.
use pg_mcp.Prelude.{
  ℕ, String, len, Bool, true, false, ◌||◌, not, ◌-◌, ◌^◌, leb, ltb, ◌==◌, if◌then◌else◌, Option,
  some, List, length, Result, ok, err,
}
use pg_mcp.Protocol.Json.Canonical.{Writer}
use pg_mcp.Protocol.Request.{contains_nul}
use pg_mcp.Libpq.{
  PollControl, QueryLimits, QueryParameter, CancelReason, AdapterError, ResultSet, adapter_error,
  unknown_adapter_error, invalid_input, database, connection_lost, internal,
}
use pg_mcp.Libpq.Session.{Foreign, Run, caught, Session, now, check_control, validate_parameters}
use pg_mcp.Libpq.Session.Cancel.{cancel_and_drain}
use pg_mcp.Libpq.Session.Collect.{collect_results}

-- The limits of `send_and_collect`: `usize::MAX` but for the command.
abbrev pub no_limits : ℕ → QueryLimits
no_limits sql_bytes = record {
  sql_bytes = sql_bytes;
  parameters = 2 ^ 64 - 1;
  parameter_bytes = 2 ^ 64 - 1;
  result_rows = 2 ^ 64 - 1;
  columns = 2 ^ 64 - 1;
  cell_bytes = 2 ^ 64 - 1;
  result_json_bytes = 2 ^ 64 - 1;
}

module _ (to_vec : Writer) (f : Foreign) (n : ℕ) where
  abbrev pub at_rest :
      Option (Result ResultSet AdapterError × Session f)
      → Option (Result ResultSet AdapterError × Session f)
  at_rest o = caught o (λ r s. some (r, record s { busy = false }))

  -- What the two do with a command that is fit to be sent: PQsendQueryParams, single-row mode
  -- where it is wanted, and the collection of the results.
  unfoldable pub dispatched :
      String
      → List QueryParameter
      → Bool
      → QueryLimits
      → ℕ
      → PollControl
      → Run (Session f) ResultSet
  dispatched sql ps single_row limits deadline control s =
      let (sent, w) = f.send_query_params sql ps s.world in
      let (single, w') = f.set_single_row_mode w in
      let busy = record s { world = w; busy = true } in
      let busy' = record s { world = w'; busy = true } in
      elim (check_control control deadline (now f s)) [
        | err e ↦ some (err e, s)
        | ok _ ↦
            if not s.owned
            then some (err (adapter_error connection_lost), s)
            else if not sent
            then some (err (adapter_error database), record s { world = w })
            else if not single_row
            then at_rest (collect_results to_vec f control deadline n limits busy)
            else if not single
            then caught (cancel_and_drain f n CancelReason.cancelled deadline busy')
                (λ _ s'. some (err (unknown_adapter_error internal), s'))
            else at_rest (collect_results to_vec f control deadline n limits busy')
      ]

  -- The checks of `send_query`. The number of parameters is a C `int`.
  abbrev pub sendable : String → List QueryParameter → QueryLimits → Result (Unit {0}) AdapterError
  sendable sql ps limits =
      if len sql == 0 || ltb limits.sql_bytes (len sql) || contains_nul sql
      then err (adapter_error invalid_input)
      else elim (validate_parameters ps limits) [
        | err e ↦ err e
        | ok _ ↦ if leb (2 ^ 31) (length ps) then err (adapter_error invalid_input) else ok tt
      ]

  -- `send_query`, which `query` is.
  unfoldable pub send_query :
      String → List QueryParameter → QueryLimits → ℕ → PollControl → Run (Session f) ResultSet
  send_query sql ps limits deadline control s = elim (sendable sql ps limits) [
    | err e ↦ some (err e, s)
    | ok _ ↦ dispatched sql ps true limits deadline control s
  ]

  abbrev pub collectable : String → List QueryParameter → Result (Unit {0}) AdapterError
  collectable sql ps =
      if contains_nul sql
      then err (adapter_error invalid_input)
      else elim (validate_parameters ps (no_limits (len sql))) [
        | err e ↦ err e
        | ok _ ↦ if leb (2 ^ 31) (length ps) then err (adapter_error invalid_input) else ok tt
      ]

  -- `send_and_collect`.
  unfoldable pub send_and_collect :
      String → List QueryParameter → Bool → ℕ → PollControl → Run (Session f) ResultSet
  send_and_collect sql ps single_row deadline control s = elim (collectable sql ps) [
    | err e ↦ some (err e, s)
    | ok _ ↦ dispatched sql ps single_row (no_limits (len sql)) deadline control s
  ]

  -- `execute`.
  abbrev pub execute : String → ℕ → PollControl → Run (Session f) ResultSet
  execute sql deadline control = send_and_collect sql List.[] false deadline control
