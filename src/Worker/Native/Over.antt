-- ===== src/Worker/Native/Over.antt =====
-- The backend over the connection of libpq.rs: the connection implements the interface that the
-- backend uses.
use mathlib.Core.Bool.{false≢true}
use pg_mcp.Prelude.{
  ℕ, String, Bool, true, false, ◌+◌, max, Option, none, some, is_some, List, [], Result, ◌≡◌, arith,
}
use pg_mcp.Protocol.Json.Canonical.{Writer}
use pg_mcp.Protocol.Rows.{QueryResult}
use pg_mcp.Config.{Config}
use pg_mcp.Libpq.{
  Adapter, PollControl, QueryParameter, AdapterError, TransactionStatus, QueryLimits, CancelReason,
}
use pg_mcp.Libpq.Session.{Foreign, Session, now, status}
use pg_mcp.Libpq.Session.Cancel.{cancel_and_drain}
use pg_mcp.Libpq.Session.Send.{send_query, send_and_collect}
use pg_mcp.Libpq.Session.Progress.{Live, budget}
use pg_mcp.Libpq.Session.Progress.Cancelling.{cancel_and_drain_ends}
use pg_mcp.Libpq.Session.Progress.Collecting.{
  allowance, after_send, after_mode, send_query_ends, send_and_collect_ends,
}
use pg_mcp.Worker.Lawful.{Lawful}
use pg_mcp.Worker.Native.{query}
use pg_mcp.Worker.Translate.{limits}

abbrev answer_of : {A : Type 0} (o : Option A) → is_some o ≡ true → A
answer_of none h = absurd (false≢true h)
answer_of (some a) h = a

module _ (to_vec : Writer) (f : Foreign) (live : Live f) where
  -- Fuel that is enough for a command.
  abbrev fuel : String → List QueryParameter → ℕ → PollControl → Session f → ℕ
  fuel sql ps deadline control s =
      max (allowance to_vec f live control deadline (after_send to_vec f live sql ps s))
        (allowance to_vec f live control deadline (after_mode to_vec f live sql ps s))

  -- What a call leaves, with the instant at which it returns. The clock is that of the outside.
  abbrev returned :
      {A : Type 0} → Result A AdapterError × Session f → Result A AdapterError × Session f × ℕ
  returned (r, s) = (r, s, now f s)

  -- `Connection`, behind the interface of the backend.
  abbrev pub libpq_adapter : Adapter
  libpq_adapter = record {
    Connection = Session f;
    status = status f;
    execute = λ sql deadline control s _. returned (
        answer_of
          (send_and_collect to_vec f (fuel sql [] deadline control s) sql [] false deadline control
            s)
          (send_and_collect_ends to_vec f live (fuel sql [] deadline control s) sql [] false
            deadline control s (omega arith) (omega arith)));
    query = λ sql ps limits deadline control s _. returned (
        answer_of
          (send_query to_vec f (fuel sql ps deadline control s) sql ps limits deadline control s)
          (send_query_ends to_vec f live (fuel sql ps deadline control s) sql ps limits deadline
            control s (omega arith) (omega arith)));
    cancel_and_drain = λ reason deadline s _. returned (
        answer_of (cancel_and_drain f (budget f live deadline s + 2) reason deadline s) (
          cancel_and_drain_ends f live (budget f live deadline s + 2) reason deadline s
            (omega arith)));
  }

  -- The result of a command with no row, no tag and no count.
  abbrev pub nothing_returned : QueryResult
  nothing_returned = record { columns = []; rows = []; command_tag = ""; affected_rows = none }

  -- libpq's documentation of PQtransactionStatus: the status of a bad connection is unknown.
  abbrev pub IsDocumentedBelow : Type 0
  IsDocumentedBelow =
      (w : f.World) → f.status w ≡ false → f.transaction_status w ≡ TransactionStatus.unknown

  -- Each call of the adapter is a run of the connection that comes to an end.
  abbrev pub IsRun : Type 0
  IsRun =
      ((sql : String) (ps : List QueryParameter) (limits : QueryLimits) (deadline : ℕ)
          (control : PollControl) (s : Session f) (t : ℕ)
        → let (r, s', _) = libpq_adapter.query sql ps limits deadline control s t in
          (n : ℕ) × (send_query to_vec f n sql ps limits deadline control s ≡ some (r, s')))
      × ((sql : String) (deadline : ℕ) (control : PollControl) (s : Session f) (t : ℕ)
          → let (r, s', _) = libpq_adapter.execute sql deadline control s t in
            (n : ℕ) × (send_and_collect to_vec f n sql [] false deadline control s ≡ some (r, s')))
      × ((reason : CancelReason) (deadline : ℕ) (s : Session f) (t : ℕ)
          → let (r, s', _) = libpq_adapter.cancel_and_drain reason deadline s t in
            (n : ℕ) × (cancel_and_drain f n reason deadline s ≡ some (r, s')))
