-- ===== src/Worker/Guidance.antt =====
-- The moves suggested for a published handle against what the worker accepts from it.
use pg_mcp.Prelude.{String, true, false, none, some, any, str_eq, ◌≡◌, ◌≢◌, ◌⊎◌, arith}
use pg_mcp.Protocol.Status.{validate_state}
use pg_mcp.Protocol.Errors.{schema_required, tx_already_open}
use pg_mcp.Protocol.Moves.{next_moves}
use pg_mcp.Protocol.Moves.Table.{tools}
use pg_mcp.Worker.Backend.{
  BackendTransactionStatus, idle, active, in_transaction, good, BackendObservation,
}
use pg_mcp.Worker.Registry.{
  PublishedHandle, state, Operation, get_schema, open_read, open_write, commit, rollback, close,
  query,
}
use pg_mcp.Protocol.Request.{QueryRequest}
use pg_mcp.Worker.Execute.{published_refusal}

-- The name of the tool that makes an operation (crates/postgres-mcp/src/tools.rs).
abbrev pub tool_of : Operation → String
tool_of get_schema = "get_schema"
tool_of open_read = "open_read"
tool_of open_write = "open_write"
tool_of (query r) = "query"
tool_of commit = "commit"
tool_of rollback = "rollback"
tool_of close = "close_database"

abbrev pub Suggests : PublishedHandle → Operation → Type 0
Suggests p op = any (str_eq (tool_of op)) (tools (next_moves (state p))) ≡ true

abbrev pub Accepts : PublishedHandle → Operation → Type 0
Accepts p op = published_refusal op p ≡ none

-- libpq's documentation of PQtransactionStatus: a connection that is bad has an unknown status.
abbrev pub IsNative : BackendObservation → Type 0
IsNative o = o.connection_status ≢ good → o.transaction_status ≡ BackendTransactionStatus.unknown

-- On a native observation a suggested tool is accepted by the worker's precondition on the same
-- published handle, provided that a handle inside a transaction has its schema observed.
pub Suggests-Accepts :
    (p : PublishedHandle) (op : Operation)
    → IsNative p.observation
    → (p.observation.transaction_status ≡ in_transaction → p.schema_observed ≡ true)
    → Suggests p op
    → Accepts p op
unfolding state next_moves validate_state published_refusal
Suggests-Accepts p get_schema n inv h = ground arith
Suggests-Accepts p open_read n inv h = ground arith
Suggests-Accepts p open_write n inv h = ground arith
Suggests-Accepts p (query r) n inv h = ground arith
Suggests-Accepts p commit n inv h = ground arith
Suggests-Accepts p rollback n inv h = ground arith
Suggests-Accepts p close n inv h = ground arith

-- On an open handle with a healthy connection that is not busy and whose transaction status is
-- known and not active, every operation that the worker accepts is suggested, but for the no-op
-- rollback of an idle handle.
pub Accepts-Suggests :
    (p : PublishedHandle) (op : Operation)
    → p.closed ≡ false
    → p.observation.connection_status ≡ good
    → p.observation.busy ≡ false
    → p.observation.transaction_status ≢ active
    → p.observation.transaction_status ≢ BackendTransactionStatus.unknown
    → Accepts p op
    → Suggests p op ⊎ ((op ≡ rollback) × (p.observation.transaction_status ≡ idle))
unfolding state next_moves validate_state published_refusal
Accepts-Suggests p get_schema c g b a u h = ground arith
Accepts-Suggests p open_read c g b a u h = ground arith
Accepts-Suggests p open_write c g b a u h = ground arith
Accepts-Suggests p (query r) c g b a u h = ground arith
Accepts-Suggests p commit c g b a u h = ground arith
Accepts-Suggests p rollback c g b a u h = ground arith
Accepts-Suggests p close c g b a u h = ground arith

-- On an open, healthy handle that is not busy, in a transaction without a schema observation,
-- `query` is suggested and refused with SCHEMA_REQUIRED, and `get_schema` is refused as well.
pub unobserved_transaction :
    (p : PublishedHandle) (r : QueryRequest)
    → p.closed ≡ false
    → p.observation.connection_status ≡ good
    → p.observation.busy ≡ false
    → p.observation.transaction_status ≡ in_transaction
    → p.schema_observed ≡ false
    → Suggests p (query r)
      × (published_refusal (query r) p ≡ some schema_required)
      × (published_refusal get_schema p ≡ some tx_already_open)
unfolding state next_moves validate_state published_refusal
unobserved_transaction p r c g b t o = ground arith
