-- ===== src/Worker/Backend.antt =====
-- worker.rs: native statuses, the request context, and the backend that a worker owns.
use pg_mcp.Prelude.{ℕ, String, Bool, false, Option, none, some, leb, Result, ◌*◌}
use pg_mcp.Protocol.Status.{ConnectionStatus, TransactionStatus}
use pg_mcp.Protocol.Errors.{CoreError}
use pg_mcp.Protocol.Request.{QueryRequest}
use pg_mcp.Protocol.Rows.{QueryResult}
use pg_mcp.Protocol.Catalog.{SchemaResult}
use pg_mcp.Config.{Config}

pub data BackendTransactionStatus : Type 0 where
  idle active in_transaction in_error unknown : BackendTransactionStatus

-- `BackendTransactionStatus::protocol`.
abbrev pub transaction_protocol : BackendTransactionStatus → TransactionStatus
transaction_protocol idle = TransactionStatus.idle
transaction_protocol active = TransactionStatus.active
transaction_protocol in_transaction = TransactionStatus.in_transaction
transaction_protocol in_error = TransactionStatus.in_error
transaction_protocol unknown = TransactionStatus.unknown

pub data BackendConnectionStatus : Type 0 where
  good bad unknown : BackendConnectionStatus

-- `BackendConnectionStatus::protocol`.
abbrev pub connection_protocol : BackendConnectionStatus → ConnectionStatus
connection_protocol good = ConnectionStatus.good
connection_protocol bad = ConnectionStatus.bad
connection_protocol BackendConnectionStatus.unknown = ConnectionStatus.bad

pub record BackendObservation : Type 0 where
  pub connection_status : BackendConnectionStatus
  pub transaction_status : BackendTransactionStatus
  pub busy : Bool

-- What is observed where no connection is left.
abbrev pub nothing_observed : BackendObservation
nothing_observed = record {
  connection_status = BackendConnectionStatus.unknown;
  transaction_status = BackendTransactionStatus.unknown;
  busy = false;
}

-- `Duration::from_secs`; instants and durations are numbers of nanoseconds.
abbrev pub from_secs : ℕ → ℕ
from_secs n = 1000000000 * n

-- A cancellation token by the instant from which it is cancelled, if it ever is.
abbrev pub Token : Type 0
Token = Option ℕ

abbrev pub is_cancelled : Token → ℕ → Bool
is_cancelled none now = false
is_cancelled (some t) now = leb t now

pub record RequestContext : Type 0 where
  pub cancellation : Token
  pub shutdown : Token
  pub deadline : ℕ
  pub cancel_drain_grace : ℕ

-- `RequestContext::{cancelled, stopping, expired}`, read at an instant.
abbrev pub cancelled : RequestContext → ℕ → Bool
cancelled c now = is_cancelled c.cancellation now

abbrev pub stopping : RequestContext → ℕ → Bool
stopping c now = is_cancelled c.shutdown now

abbrev pub expired : RequestContext → ℕ → Bool
expired c now = leb c.deadline now

pub data BackendResult : Type 0 where
  opened : String → BackendObservation → BackendResult
  schema : SchemaResult → BackendObservation → BackendResult
  query : QueryResult → BackendObservation → Bool → BackendResult
  committed : BackendObservation → BackendResult
  rolled_back : Bool → BackendObservation → BackendResult
  closed : BackendObservation → Bool → BackendResult

pub record BackendFailure : Type 0 where
  pub error : CoreError
  pub observation : BackendObservation
  pub sqlstate : Option String
  pub outcome_unknown : Bool

-- Where shutdown could not be verified, the stage that it was in.
pub data ShutdownWorkerResult : Type 0 where
  verified : ShutdownWorkerResult
  uncertain : String → ShutdownWorkerResult

-- The trait `Backend`: the calls that a worker makes on the connection it owns. `State` is what
-- the calls change, the connection and the instant at which the thread stands.
pub record Backend : Type 1 where
  pub State : Type 0
  pub open_read : RequestContext → State → Result BackendResult BackendFailure × State
  pub open_write : RequestContext → State → Result BackendResult BackendFailure × State
  pub get_schema : Config → RequestContext → State → Result BackendResult BackendFailure × State
  pub query :
      QueryRequest → Config → RequestContext → State → Result BackendResult BackendFailure × State
  pub commit : RequestContext → State → Result BackendResult BackendFailure × State
  pub rollback : RequestContext → State → Result BackendResult BackendFailure × State
  pub close : RequestContext → State → Result BackendResult BackendFailure × State
  pub observe : State → BackendObservation
  pub shutdown : RequestContext → State → ShutdownWorkerResult × State
