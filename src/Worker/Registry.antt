-- ===== src/Worker/Registry.antt =====
-- worker.rs: the published handle, the registry, and the writes that a worker makes to it.
use pg_mcp.Prelude.{
  ℕ, String, Bool, true, false, Option, none, some, List, [], if◌then◌else◌, Map, lookup, adjust,
  unwrap_or,
}
use pg_mcp.Protocol.Status.{ConnectionStatus, TransactionStatus, HandleState, new_state}
use pg_mcp.Config.{Config}
use pg_mcp.Protocol.Request.{QueryRequest}
use pg_mcp.Worker.Backend.{
  BackendObservation, bad, transaction_protocol, connection_protocol, nothing_observed, Token,
  RequestContext,
}
use pg_mcp.Worker.Backend

pub record PublishedHandle : Type 0 where
  pub id : String
  pub database : String
  pub observation : BackendObservation
  pub schema_observed : Bool
  pub schema_dirty : Bool
  pub closed : Bool

-- `PublishedHandle::state`.
unfoldable pub state : PublishedHandle → HandleState
unfolding new_state
state p =
    new_state p.id p.database
      (if p.closed
        then ConnectionStatus.closed
        else connection_protocol p.observation.connection_status)
      (if p.closed
        then TransactionStatus.unknown
        else transaction_protocol p.observation.transaction_status)
      p.observation.busy (if p.closed then false else p.schema_observed)

pub data Operation : Type 0 where
  get_schema open_read open_write commit rollback close : Operation
  query : QueryRequest → Operation

-- A request in a worker's queue. The reply channels are the results of the functions below.
pub data Request : Type 0 where
  operation : Operation → RequestContext → Request
  shutdown : RequestContext → Request

-- A join handle that is still held: whether its thread has finished.
pub data Thread : Type 0 where
  running finished : Thread

-- `queue` is what stands in the bounded channel between `sender` and the worker.
pub record WorkerEntry : Type 0 where
  pub published : PublishedHandle
  pub profile : String
  pub config : Config
  pub queue : List Request
  pub join : Option Thread
  pub admitted : ℕ

pub record PendingOpen : Type 0 where
  pub profile : String
  pub shutdown : Token

pub data RegistryLifecycle : Type 0 where
  running stopping stopped : RegistryLifecycle

pub data ShutdownOutcome : Type 0 where
  verified uncertain : ShutdownOutcome

pub record WorkerShutdownEntry : Type 0 where
  pub handle : String
  pub outcome : ShutdownOutcome
  pub stage : Option String

pub record ShutdownReport : Type 0 where
  pub workers : List WorkerShutdownEntry

pub record RegistryState : Type 0 where
  pub lifecycle : RegistryLifecycle
  pub handles : Map WorkerEntry
  pub pending_opens : Map PendingOpen
  pub next_handle : ℕ
  pub frozen_report : Option ShutdownReport

-- `RegistryState::new`.
unfoldable pub new_registry : RegistryState
new_registry = record {
  lifecycle = RegistryLifecycle.running;
  handles = [];
  pending_opens = [];
  next_handle = 1;
  frozen_report = none;
}

-- The published handle of an entry, and a write to it under the registry's lock.
unfoldable pub published_of : String → RegistryState → Option PublishedHandle
published_of h r = elim (lookup h r.handles) [ none ↦ none | some e ↦ some e.published ]

abbrev pub publish : (PublishedHandle → PublishedHandle) → WorkerEntry → WorkerEntry
publish f e = record e { published = f e.published }

unfoldable pub update_handle :
    String → (PublishedHandle → PublishedHandle) → RegistryState → RegistryState
update_handle h f r = record r { handles = adjust h (publish f) r.handles }

-- The bodies of `update_observation`, `update_schema_dirty`, `publish_unknown`, `publish_closed`.
abbrev pub observed : BackendObservation → Option Bool → PublishedHandle → PublishedHandle
observed o flag p = record p { observation = o; schema_observed = unwrap_or flag p.schema_observed }

abbrev pub dirtied : Bool → PublishedHandle → PublishedHandle
dirtied dirty p = record p { schema_dirty = dirty }

abbrev pub made_unknown : PublishedHandle → PublishedHandle
made_unknown p = record p {
  observation = record {
    connection_status = bad;
    transaction_status = Backend.BackendTransactionStatus.unknown;
    busy = false;
  };
  schema_observed = false;
  schema_dirty = false;
}

abbrev pub made_closed : PublishedHandle → PublishedHandle
made_closed p = record p {
  closed = true;
  schema_observed = false;
  schema_dirty = false;
  observation = nothing_observed;
}

-- `update_observation`.
unfoldable pub update_observation :
    String → BackendObservation → Option Bool → RegistryState → RegistryState
update_observation h o flag r = update_handle h (observed o flag) r

-- `update_schema_dirty`.
unfoldable pub update_schema_dirty : String → Bool → RegistryState → RegistryState
update_schema_dirty h dirty r = update_handle h (dirtied dirty) r

-- `publish_unknown`.
unfoldable pub publish_unknown : String → RegistryState → RegistryState
publish_unknown h r = update_handle h made_unknown r

-- `publish_closed`.
unfoldable pub publish_closed : String → RegistryState → RegistryState
publish_closed h r = update_handle h made_closed r

-- `current_schema_dirty`.
unfoldable pub current_schema_dirty : String → RegistryState → Bool
current_schema_dirty h r = elim (published_of h r) [ none ↦ false | some p ↦ p.schema_dirty ]

-- `current_database`.
unfoldable pub current_database : String → RegistryState → String
current_database h r = elim (published_of h r) [ none ↦ "" | some p ↦ p.database ]

-- `current_state`.
unfoldable pub current_state : String → RegistryState → Option HandleState
unfolding state
current_state h r = elim (published_of h r) [ none ↦ none | some p ↦ some (state p) ]
