-- ===== src/Protocol/Status.antt =====
-- protocol.rs: connection and transaction statuses, and the handle state that every handle-bound
-- envelope carries.
use pg_mcp.Prelude.{
  String, Bool, true, false, ◌&&◌, ◌||◌, not, Option, none, some, ◌≡◌, ◌↔◌, arith, Result, ok, err,
  ◌>>◌, fail_if, is_some,
}

pub data ConnectionStatus : Type 0 where
  good bad closed : ConnectionStatus

pub data TransactionStatus : Type 0 where
  idle active in_transaction in_error unknown : TransactionStatus

-- The errors of protocol validation.
pub data ValidationError : Type 0 where
  invalid_envelope inconsistent_state invalid_move static_error_message : ValidationError
  invalid_sql_state embedded_nul invalid_query parameter_count_limit : ValidationError
  parameter_byte_limit invalid_affected_rows invalid_result_shape result_limit : ValidationError
  schema_limit serialization : ValidationError

-- A check that returns `Result<(), ValidationError>`.
abbrev pub Check : Type 0
Check = Result (Unit {0}) ValidationError

abbrev pub transaction_open : TransactionStatus → Option Bool
transaction_open idle = some false
transaction_open in_transaction = some true
transaction_open in_error = some true
transaction_open active = none
transaction_open unknown = none

abbrev pub is_idle : TransactionStatus → Bool
is_idle idle = true
is_idle _ = false

abbrev pub is_transaction_open : TransactionStatus → Bool
is_transaction_open in_transaction = true
is_transaction_open in_error = true
is_transaction_open _ = false

abbrev pub is_unknown : TransactionStatus → Bool
is_unknown unknown = true
is_unknown _ = false

abbrev pub is_active : TransactionStatus → Bool
is_active active = true
is_active _ = false

abbrev pub is_closed : ConnectionStatus → Bool
is_closed closed = true
is_closed _ = false

abbrev pub is_bad : ConnectionStatus → Bool
is_bad bad = true
is_bad _ = false

-- The derived `==` on `Option<bool>`.
abbrev pub eq_open : Option Bool → Option Bool → Bool
eq_open none none = true
eq_open (some true) (some true) = true
eq_open (some false) (some false) = true
eq_open _ _ = false

pub record HandleState : Type 0 where
  pub handle : String
  pub database : String
  pub connection_status : ConnectionStatus
  pub transaction_status : TransactionStatus
  pub transaction_open : Option Bool
  pub busy : Bool
  pub schema_observed : Bool

-- `HandleState::new`.
unfoldable pub new_state :
    String → String → ConnectionStatus → TransactionStatus → Bool → Bool → HandleState
new_state handle database connection transaction busy observed = record {
  handle = handle;
  database = database;
  connection_status = connection;
  transaction_status = transaction;
  transaction_open = transaction_open transaction;
  busy = busy;
  schema_observed = observed;
}

-- `HandleState::idle`.
unfoldable pub idle_state : String → String → Bool → HandleState
unfolding new_state
idle_state handle database observed = new_state handle database good idle false observed

-- `HandleState::closed`.
unfoldable pub closed_state : String → String → HandleState
closed_state handle database = record {
  handle = handle;
  database = database;
  connection_status = closed;
  transaction_status = unknown;
  transaction_open = none;
  busy = false;
  schema_observed = false;
}

-- `HandleState::validate`.
unfoldable pub validate_state : HandleState → Check
validate_state s = do
  fail_if (not (eq_open s.transaction_open (transaction_open s.transaction_status)))
      inconsistent_state
  fail_if
      (is_closed s.connection_status
        && (not (is_unknown s.transaction_status)
            || is_some s.transaction_open
            || s.busy
            || s.schema_observed))
      inconsistent_state

-- What a consistent snapshot is, stated without the code's tests.
pub record IsConsistent (s : HandleState) : Type 0 where
  pub projected : s.transaction_open ≡ transaction_open s.transaction_status
  pub closed_unknown : s.connection_status ≡ closed → s.transaction_status ≡ unknown
  pub closed_quiet : s.connection_status ≡ closed → s.busy ≡ false
  pub closed_unobserved : s.connection_status ≡ closed → s.schema_observed ≡ false

-- The check accepts exactly the consistent snapshots.
pub validate_state_sound : (s : HandleState) → validate_state s ≡ ok tt → IsConsistent s
unfolding validate_state
validate_state_sound s h = ground arith

pub validate_state_complete : (s : HandleState) → IsConsistent s → validate_state s ≡ ok tt
unfolding validate_state
validate_state_complete s v = ground arith

pub validate_state_error :
    (s : HandleState) {e : ValidationError} → validate_state s ≡ err e → e ≡ inconsistent_state
unfolding validate_state
validate_state_error s h = ground arith

-- `HandleState::validate` accepts a snapshot exactly when its projection agrees with its
-- transaction status and a closed connection is unknown, not busy and unobserved.
pub validate_state_iff : (s : HandleState) → (validate_state s ≡ ok tt) ↔ IsConsistent s
validate_state_iff s = (validate_state_sound s, validate_state_complete s)

-- `HandleState::new` is consistent whenever a closed connection is given as unknown and quiet.
pub new_state-IsConsistent :
    (handle database : String) (c : ConnectionStatus) (t : TransactionStatus) (busy observed : Bool)
    → (c ≡ closed → (t ≡ unknown) × (busy ≡ false) × (observed ≡ false))
    → IsConsistent (new_state handle database c t busy observed)
unfolding new_state
new_state-IsConsistent handle database c t busy observed h = ground arith
