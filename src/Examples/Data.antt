-- ===== src/Examples/Data.antt =====
-- The test data.
use pg_mcp.Prelude.{
  ℕ, String, Bool, true, false, none, some, List, [], ◌∷◌, if◌then◌else◌, str_eq, lookup, Result,
  ok, err, ◌≡◌, refl,
}
use pg_mcp.Protocol.Json.Canonical.{Writer}
use pg_mcp.Config.{Config, default_unchecked}
use pg_mcp.Libpq
use pg_mcp.Libpq.{
  Adapter, AdapterError, ResultSet, StatusSnapshot, PollControl, QueryParameter, QueryLimits,
  take_word,
}
use pg_mcp.Worker.Backend.{
  BackendObservation, BackendConnectionStatus, BackendTransactionStatus, Backend, RequestContext,
}
use pg_mcp.Worker.Registry.{PublishedHandle, RegistryState, WorkerEntry, running, published_of}
use pg_mcp.Worker.Native.{NativeState, native_backend}
use pg_mcp.Worker.Native.Contract.{IsDocumented}

-- A connection that is at rest, in a transaction, or down.
pub data Line : Type 0 where
  at_rest inside down : Line

abbrev line_status : Line → StatusSnapshot
line_status at_rest = record {
  connection_status = Libpq.ConnectionStatus.good;
  transaction_status = Libpq.TransactionStatus.idle;
  busy = false;
}
line_status inside = record {
  connection_status = Libpq.ConnectionStatus.good;
  transaction_status = Libpq.TransactionStatus.in_transaction;
  busy = false;
}
line_status down = record {
  connection_status = Libpq.ConnectionStatus.bad;
  transaction_status = Libpq.TransactionStatus.unknown;
  busy = false;
}

abbrev tagged : String → ResultSet
tagged tag = record { columns = []; rows = []; command_tag = tag; affected_rows = none }

abbrev lost : AdapterError
lost = record {
  class_of = Libpq.ErrorClass.connection_lost;
  sqlstate = none;
  outcome_unknown = true;
}

abbrev line_after : String → Line
line_after sql = if str_eq (take_word sql) "BEGIN" then inside else at_rest

abbrev execute :
    Bool → String → ℕ → PollControl → Line → ℕ → Result ResultSet AdapterError × Line × ℕ
execute true sql deadline control line now = (ok (tagged (take_word sql)), line_after sql, now)
execute false sql deadline control line now = (err lost, down, now)

abbrev run_query :
    Bool
    → String
    → List QueryParameter
    → QueryLimits
    → ℕ
    → PollControl
    → Line
    → ℕ
    → Result ResultSet AdapterError × Line × ℕ
run_query true sql ps limits deadline control line now = (ok (tagged "SELECT 0"), line, now)
run_query false sql ps limits deadline control line now = (err lost, down, now)

-- The adapter over a network that works, or one that fails at every command.
abbrev pub adapter : Bool → Adapter
adapter works = record {
  Connection = Line;
  status = line_status;
  execute = execute works;
  query = run_query works;
  cancel_and_drain = λ reason deadline line now. (ok true, line, now);
}

pub adapter-IsDocumented : (works : Bool) → IsDocumented (adapter works)
adapter-IsDocumented works at_rest bad = absurd (bad refl)
adapter-IsDocumented works inside bad = absurd (bad refl)
adapter-IsDocumented works down bad = refl

abbrev pub connected : (works : Bool) → Line → NativeState (adapter works)
connected works line = record { connection = some line; clock = 0 }

abbrev pub context : RequestContext
context = record { cancellation = none; shutdown = none; deadline = 100; cancel_drain_grace = 5 }

abbrev pub writer : Writer
writer v = some []

abbrev pub settings : Config
settings = default_unchecked

abbrev pub seen_at_rest : BackendObservation
seen_at_rest = record {
  connection_status = BackendConnectionStatus.good;
  transaction_status = BackendTransactionStatus.idle;
  busy = false;
}

abbrev pub seen_inside : BackendObservation
seen_inside = record {
  connection_status = BackendConnectionStatus.good;
  transaction_status = BackendTransactionStatus.in_transaction;
  busy = false;
}

abbrev pub handle_at : BackendObservation → Bool → Bool → PublishedHandle
handle_at o known dirty = record {
  id = "h-1";
  database = "app";
  observation = o;
  schema_observed = known;
  schema_dirty = dirty;
  closed = false;
}

abbrev pub entry_of : PublishedHandle → WorkerEntry
entry_of p = record {
  published = p;
  profile = "app";
  config = settings;
  queue = [];
  join = none;
  admitted = 1;
}

-- The handle "h-1" as given, and another handle at rest.
abbrev pub registry_with : PublishedHandle → RegistryState
registry_with p = record {
  lifecycle = running;
  handles = ("h-1", entry_of p) ∷ ("h-2", entry_of (handle_at seen_at_rest false false)) ∷ [];
  pending_opens = [];
  next_handle = 3;
  frozen_report = none;
}

-- The backends over the two networks, and a handle in a transaction with a recorded DDL.
abbrev pub toy : Bool → Backend
toy works = native_backend (adapter works) writer

abbrev pub open_handle : PublishedHandle
open_handle = handle_at seen_inside true true

pub here : (p : PublishedHandle) → published_of "h-1" (registry_with p) ≡ some p
unfolding published_of lookup
here p = refl
