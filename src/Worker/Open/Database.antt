-- ===== src/Worker/Open/Database.antt =====
-- worker.rs: `Core::new`, `Core::new_with_profiles` and `Core::open_database`.
use pg_mcp.Prelude.{ℕ, String, Bool, ltb, Option, none, some, Result, ok, err, if◌then◌else◌}
use pg_mcp.Protocol.Errors.{CoreError, known_error, config_error, internal}
use pg_mcp.Config.{Config, ConfigError, validate}
use pg_mcp.Config.Profiles.{ConfigFile, validate_file, base_config}
use pg_mcp.Libpq.{AdapterError, adapter_error, config}
use pg_mcp.Worker.Backend.{Token, RequestContext, BackendObservation, BackendFailure}
use pg_mcp.Worker.Registry.{RegistryState, new_registry}
use pg_mcp.Worker.Execute.{Outcome, process_failure}
use pg_mcp.Worker.Open.{CoreSettings, reserve_open, connect_and_publish, finish_open}

-- `runtime_libpq_version` and `LibpqFactory::new`, from the number that PQlibVersion gives.
unfoldable pub runtime_libpq_version : ℕ → Result ℕ AdapterError
runtime_libpq_version version =
    if ltb version 170000 then err (adapter_error config) else ok version

-- `Core::new`, with the version of libpq.
unfoldable pub new_core : ℕ → Config → Result (CoreSettings × RegistryState) CoreError
unfolding runtime_libpq_version validate
new_core version c = elim (validate c) [
  | err _ ↦ err (known_error config_error)
  | ok _ ↦ elim (runtime_libpq_version version) [
    | err _ ↦ err (known_error config_error)
    | ok _ ↦ ok (record { config = c; profiles = none }, new_registry)
  ]
]

-- `Core::new_with_profiles`.
unfoldable pub new_with_profiles : ℕ → ConfigFile → Result (CoreSettings × RegistryState) CoreError
unfolding runtime_libpq_version validate_file
new_with_profiles version file = elim (validate_file file) [
  | err _ ↦ err (known_error config_error)
  | ok _ ↦ elim (runtime_libpq_version version) [
    | err _ ↦ err (known_error config_error)
    | ok _ ↦ ok (record { config = base_config file; profiles = some file }, new_registry)
  ]
]

-- What the blocking task of an open finds outside: the resolution of the DSN, the connection, the
-- start of the thread, and the instant of its checks.
pub record Connecting : Type 0 where
  pub instant : ℕ
  pub resolved : Result Config ConfigError
  pub connected : Result (BackendObservation × String) BackendFailure
  pub spawned : Bool

-- The rest of an open once it has its reservation. `none` is a blocking task that panics before it
-- publishes.
unfoldable pub finish_database :
    String → String → RequestContext → Option Connecting → RegistryState → Outcome × RegistryState
unfolding finish_open
finish_database id profile c none r =
    (err (process_failure (known_error internal)), finish_open id r)
finish_database id profile c (some o) r =
    connect_and_publish id profile c o.instant o.resolved o.connected o.spawned r

-- `Core::open_database`, where the other tasks write `others` to the registry before the blocking
-- task comes to its end.
unfoldable pub open_database :
    CoreSettings
    → String
    → Token
    → Token
    → ℕ
    → (RequestContext → Option Connecting)
    → (RegistryState → RegistryState)
    → RegistryState
    → Outcome × RegistryState
unfolding finish_database reserve_open
open_database core profile cancellation open_shutdown now outside others r =
    elim (reserve_open core profile cancellation open_shutdown now r) [
      | err e ↦ (err (process_failure e), r)
      | ok (id, c, r') ↦ finish_database id profile c (outside c) (others r')
    ]
