-- ===== src/Config/Ranges.antt =====
-- The ranges of config.rs and what `Config::validate` accepts.
use pg_mcp.Prelude.{String, ℕ, ◌≤◌, ok, ◌≡◌, ◌↔◌, arith}
use pg_mcp.Config.{Config, default_unchecked, validate, validate_range}

-- Every field within the range that its constant states.
pub record InRange (c : Config) : Type 0 where
  pub max_handles_low : 1 ≤ c.max_handles
  pub max_handles_high : c.max_handles ≤ 128
  pub outstanding_requests_low : 1 ≤ c.outstanding_requests
  pub outstanding_requests_high : c.outstanding_requests ≤ 1024
  pub sql_bytes_low : 1 ≤ c.sql_bytes
  pub sql_bytes_high : c.sql_bytes ≤ 1048576
  pub parameters_high : c.parameters ≤ 65535
  pub parameter_bytes_high : c.parameter_bytes ≤ 16777216
  pub result_rows_low : 1 ≤ c.result_rows
  pub result_rows_high : c.result_rows ≤ 100000
  pub columns_low : 1 ≤ c.columns
  pub columns_high : c.columns ≤ 1600
  pub cell_bytes_low : 1 ≤ c.cell_bytes
  pub cell_bytes_high : c.cell_bytes ≤ 16777216
  pub result_json_bytes_low : 1024 ≤ c.result_json_bytes
  pub result_json_bytes_high : c.result_json_bytes ≤ 67108864
  pub request_timeout_seconds_low : 1 ≤ c.request_timeout_seconds
  pub request_timeout_seconds_high : c.request_timeout_seconds ≤ 300
  pub connection_timeout_seconds_low : 1 ≤ c.connection_timeout_seconds
  pub connection_timeout_seconds_high : c.connection_timeout_seconds ≤ 300
  pub cancel_drain_grace_seconds_low : 1 ≤ c.cancel_drain_grace_seconds
  pub cancel_drain_grace_seconds_high : c.cancel_drain_grace_seconds ≤ 300
  pub shutdown_total_seconds_low : 1 ≤ c.shutdown_total_seconds
  pub shutdown_total_seconds_high : c.shutdown_total_seconds ≤ 300

-- One range check.
validate_range_iff :
    (name : String) (value low high : ℕ)
    → (validate_range name value low high ≡ ok tt) ↔ ((low ≤ value) × (value ≤ high))
unfolding validate_range
validate_range_iff name value low high = ground arith

-- `Config::validate` accepts exactly the configurations with every field in its range.
pub validate_iff : (c : Config) → (validate c ≡ ok tt) ↔ InRange c
unfolding validate
validate_iff c = (sound, complete)
  where
    sound : validate c ≡ ok tt → InRange c
    sound h = grind (arith, validate_range_iff)

    complete : InRange c → validate c ≡ ok tt
    complete h = grind (arith, validate_range_iff)

-- The built-in defaults are in range.
pub default-InRange : InRange default_unchecked
default-InRange = omega arith
