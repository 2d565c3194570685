-- ===== src/Config.antt =====
-- crates/postgres-mcp-core/src/config.rs: the process policy, its overrides, and their ranges.
pub mod Resolve
pub mod Profiles
pub mod Overrides
pub mod Ranges
use pg_mcp.Prelude.{
  ℕ, String, Bool, true, false, ◌&&◌, Option, none, some, leb, if◌then◌else◌, Result, ok, err,
  ◌>>=◌, ◌>>◌, or, unwrap_or,
}

pub record Config : Type 0 where
  pub max_handles : ℕ
  pub outstanding_requests : ℕ
  pub sql_bytes : ℕ
  pub parameters : ℕ
  pub parameter_bytes : ℕ
  pub result_rows : ℕ
  pub columns : ℕ
  pub cell_bytes : ℕ
  pub result_json_bytes : ℕ
  pub request_timeout_seconds : ℕ
  pub connection_timeout_seconds : ℕ
  pub cancel_drain_grace_seconds : ℕ
  pub shutdown_total_seconds : ℕ

pub record ConfigOverrides : Type 0 where
  pub max_handles : Option ℕ
  pub outstanding_requests : Option ℕ
  pub sql_bytes : Option ℕ
  pub parameters : Option ℕ
  pub parameter_bytes : Option ℕ
  pub result_rows : Option ℕ
  pub columns : Option ℕ
  pub cell_bytes : Option ℕ
  pub result_json_bytes : Option ℕ
  pub request_timeout_seconds : Option ℕ
  pub connection_timeout_seconds : Option ℕ
  pub cancel_drain_grace_seconds : Option ℕ
  pub shutdown_total_seconds : Option ℕ

-- The errors of this file. The failures of the operating system and of the TOML reader are not
-- told apart.
pub data ConfigError : Type 0 where
  io parse unknown_profile dsn_command empty_dsn invalid_dsn_output dsn_timeout : ConfigError
  invalid : String → ℕ → ℕ → ℕ → ConfigError

abbrev pub ConfigCheck : Type 0
ConfigCheck = Result (Unit {0}) ConfigError

-- `Config::default_unchecked`.
abbrev pub default_unchecked : Config
default_unchecked = record {
  max_handles = 16;
  outstanding_requests = 32;
  sql_bytes = 65536;
  parameters = 256;
  parameter_bytes = 1048576;
  result_rows = 1000;
  columns = 256;
  cell_bytes = 1048576;
  result_json_bytes = 8388608;
  request_timeout_seconds = 30;
  connection_timeout_seconds = 10;
  cancel_drain_grace_seconds = 5;
  shutdown_total_seconds = 10;
}

-- `ConfigOverrides::default`.
abbrev pub no_overrides : ConfigOverrides
no_overrides = record {
  max_handles = none;
  outstanding_requests = none;
  sql_bytes = none;
  parameters = none;
  parameter_bytes = none;
  result_rows = none;
  columns = none;
  cell_bytes = none;
  result_json_bytes = none;
  request_timeout_seconds = none;
  connection_timeout_seconds = none;
  cancel_drain_grace_seconds = none;
  shutdown_total_seconds = none;
}

-- `ConfigOverrides::merge`: `higher` wins.
unfoldable pub merge : ConfigOverrides → ConfigOverrides → ConfigOverrides
merge lower higher = record {
  max_handles = or higher.max_handles lower.max_handles;
  outstanding_requests = or higher.outstanding_requests lower.outstanding_requests;
  sql_bytes = or higher.sql_bytes lower.sql_bytes;
  parameters = or higher.parameters lower.parameters;
  parameter_bytes = or higher.parameter_bytes lower.parameter_bytes;
  result_rows = or higher.result_rows lower.result_rows;
  columns = or higher.columns lower.columns;
  cell_bytes = or higher.cell_bytes lower.cell_bytes;
  result_json_bytes = or higher.result_json_bytes lower.result_json_bytes;
  request_timeout_seconds = or higher.request_timeout_seconds lower.request_timeout_seconds;
  connection_timeout_seconds =
      or higher.connection_timeout_seconds lower.connection_timeout_seconds;
  cancel_drain_grace_seconds =
      or higher.cancel_drain_grace_seconds lower.cancel_drain_grace_seconds;
  shutdown_total_seconds = or higher.shutdown_total_seconds lower.shutdown_total_seconds;
}

-- `Config::apply`.
unfoldable pub apply : Config → ConfigOverrides → Config
apply c o = record {
  max_handles = unwrap_or o.max_handles c.max_handles;
  outstanding_requests = unwrap_or o.outstanding_requests c.outstanding_requests;
  sql_bytes = unwrap_or o.sql_bytes c.sql_bytes;
  parameters = unwrap_or o.parameters c.parameters;
  parameter_bytes = unwrap_or o.parameter_bytes c.parameter_bytes;
  result_rows = unwrap_or o.result_rows c.result_rows;
  columns = unwrap_or o.columns c.columns;
  cell_bytes = unwrap_or o.cell_bytes c.cell_bytes;
  result_json_bytes = unwrap_or o.result_json_bytes c.result_json_bytes;
  request_timeout_seconds = unwrap_or o.request_timeout_seconds c.request_timeout_seconds;
  connection_timeout_seconds = unwrap_or o.connection_timeout_seconds c.connection_timeout_seconds;
  cancel_drain_grace_seconds = unwrap_or o.cancel_drain_grace_seconds c.cancel_drain_grace_seconds;
  shutdown_total_seconds = unwrap_or o.shutdown_total_seconds c.shutdown_total_seconds;
}

-- `ConfigOverrides::into_config`.
unfoldable pub into_config : ConfigOverrides → Config
unfolding apply
into_config o = apply default_unchecked o

-- `Config::default`.
unfoldable pub default : Config
unfolding into_config
default = into_config no_overrides

-- `ConfigOverrides::from_config`.
unfoldable pub from_config : Config → ConfigOverrides
from_config c = record {
  max_handles = some c.max_handles;
  outstanding_requests = some c.outstanding_requests;
  sql_bytes = some c.sql_bytes;
  parameters = some c.parameters;
  parameter_bytes = some c.parameter_bytes;
  result_rows = some c.result_rows;
  columns = some c.columns;
  cell_bytes = some c.cell_bytes;
  result_json_bytes = some c.result_json_bytes;
  request_timeout_seconds = some c.request_timeout_seconds;
  connection_timeout_seconds = some c.connection_timeout_seconds;
  cancel_drain_grace_seconds = some c.cancel_drain_grace_seconds;
  shutdown_total_seconds = some c.shutdown_total_seconds;
}

-- `validate_usize` and `validate_u64`: the range is inclusive.
unfoldable pub validate_range : String → ℕ → ℕ → ℕ → ConfigCheck
validate_range name value low high =
    if leb low value && leb value high then ok tt else err (invalid name low high value)

-- `Config::validate`.
unfoldable pub validate : Config → ConfigCheck
validate c = do
  validate_range "max_handles" c.max_handles 1 128
  validate_range "outstanding_requests" c.outstanding_requests 1 1024
  validate_range "sql_bytes" c.sql_bytes 1 1048576
  validate_range "parameters" c.parameters 0 65535
  validate_range "parameter_bytes" c.parameter_bytes 0 16777216
  validate_range "result_rows" c.result_rows 1 100000
  validate_range "columns" c.columns 1 1600
  validate_range "cell_bytes" c.cell_bytes 1 16777216
  validate_range "result_json_bytes" c.result_json_bytes 1024 67108864
  validate_range "request_timeout_seconds" c.request_timeout_seconds 1 300
  validate_range "connection_timeout_seconds" c.connection_timeout_seconds 1 300
  validate_range "cancel_drain_grace_seconds" c.cancel_drain_grace_seconds 1 300
  validate_range "shutdown_total_seconds" c.shutdown_total_seconds 1 300
