-- ===== src/Worker/Open.antt =====
-- worker.rs: the opening of a handle, from its reservation to its publication.
pub mod Limit
pub mod Database
pub mod Settled
pub mod Names
pub mod Detached
use Prim.Native.Nat.{◌/◌, ◌%◌}
use Prim.Native.String.{◌++◌}
use pg_mcp.Prelude.{
  ℕ, zero, suc, String, Bool, true, false, not, ◌+◌, ◌-◌, ◌*◌, ◌^◌, ltb, leb, ◌==◌, ◌&&◌, ◌||◌,
  Option, none, some, List, [], ◌∷◌, Result, ok, err, if◌then◌else◌, str_eq, Map, insert, remove,
}
use pg_mcp.Protocol.Json.{Value, string, singleton}
use pg_mcp.Protocol.Errors.{
  ErrorCode, CoreError, known_error, unknown_error, server_stopping, database_unknown, config_error,
  handle_limit, cancelled, deadline_exceeded, connection_lost, internal,
}
use pg_mcp.Protocol.Envelope.{Envelope, success_envelope}
use pg_mcp.Protocol.Request.{usize_mod}
use pg_mcp.Config.{Config, ConfigError, unknown_profile, dsn_timeout}
use pg_mcp.Config.Profiles.{ConfigFile, profile_config}
use pg_mcp.Worker.Backend.{
  Token, RequestContext, BackendObservation, BackendConnectionStatus, BackendTransactionStatus,
  BackendFailure, stopping, expired, from_secs, cancelled as context_cancelled,
}
use pg_mcp.Worker.Registry.{
  PublishedHandle, RegistryState, WorkerEntry, PendingOpen, Thread, Request, shutdown, state,
}
use pg_mcp.Worker.Execute.{CoreFailure, process_failure}
use pg_mcp.Worker.Admission.{is_running}

-- `config` and `profiles` of `Core`.
pub record CoreSettings : Type 0 where
  pub config : Config
  pub profiles : Option ConfigFile

-- The digit of a number below 16, before a text.
abbrev prepend_digit : ℕ → String → String → String
prepend_digit n String.[] rest = rest
prepend_digit n (String.◌∷◌ c digits) rest =
    let later = prepend_digit (n - 1) digits rest in if n == 0 then String.◌∷◌ c rest else later

abbrev hex : ℕ → ℕ → String
hex zero n = ""
hex (suc k) n = prepend_digit ((n / 16 ^ k) % 16) "0123456789abcdef" (hex k n)

-- `format!("h-{:016x}", n)`, for a `u64`.
unfoldable pub handle_name : ℕ → String
handle_name n = "h-" ++ hex 16 n

-- `saturating_add` on a w-bit integer.
abbrev pub saturating_add : ℕ → ℕ → ℕ → ℕ
saturating_add w a b = if ltb (a + b) (2 ^ w) then a + b else 2 ^ w - 1

-- `allocate_handle`.
unfoldable pub allocate_handle : RegistryState → String × RegistryState
allocate_handle r =
    (handle_name r.next_handle, record r { next_handle = saturating_add 64 r.next_handle 1 })

-- The two `filter(...).count()` of `reserve_open`.
abbrev pub count_where {ℓ} : {A : Type ℓ} → (A → Bool) → Map A → ℕ
count_where p [] = 0
count_where p ((k, x) ∷ m) = let rest = count_where p m in if p x then suc rest else rest

abbrev pub of_handle : String → WorkerEntry → Bool
of_handle profile e = str_eq e.profile profile

abbrev pub of_pending : String → PendingOpen → Bool
of_pending profile e = str_eq e.profile profile

-- The configuration that decides the limit, and its errors.
unfoldable pub open_config : CoreSettings → String → Result Config CoreError
open_config core profile = elim core.profiles [
  | none ↦ ok core.config
  | some file ↦ elim (profile_config file profile) [
    | ok c ↦ ok c
    | err unknown_profile ↦ err (known_error database_unknown)
    | err _ ↦ err (known_error config_error)
  ]
]

-- `reserve_open`, at the instant `now` and with a fresh token for its shutdown.
unfoldable pub reserve_open :
    CoreSettings
    → String
    → Token
    → Token
    → ℕ
    → RegistryState
    → Result (String × RequestContext × RegistryState) CoreError
unfolding allocate_handle
reserve_open core profile cancellation open_shutdown now r =
    if not (is_running r.lifecycle)
    then err (known_error server_stopping)
    else if str_eq profile ""
    then err (known_error database_unknown)
    else elim (open_config core profile) [
      | err e ↦ err e
      | ok c ↦
          if leb c.max_handles (
            saturating_add 64 (count_where (of_handle profile) r.handles)
              (count_where (of_pending profile) r.pending_opens))
          then err (known_error handle_limit)
          else (let (id, r') = allocate_handle r in
              let pending : PendingOpen = record { profile = profile; shutdown = open_shutdown } in
              let context : RequestContext = record {
                cancellation = cancellation;
                shutdown = open_shutdown;
                deadline = now + from_secs c.connection_timeout_seconds;
                cancel_drain_grace = from_secs c.cancel_drain_grace_seconds;
              } in
              ok (id, context, record r' { pending_opens = insert id pending r'.pending_opens }))
    ]

-- `finish_open`.
unfoldable pub finish_open : String → RegistryState → RegistryState
finish_open id r = record r { pending_opens = remove id r.pending_opens }

-- Why the DSN of the profile was not resolved, at the instant `now`.
unfoldable pub resolve_error : RequestContext → ℕ → ConfigError → CoreError
resolve_error c now unknown_profile = known_error database_unknown
resolve_error c now dsn_timeout =
    if stopping c now
    then known_error server_stopping
    else if context_cancelled c now
    then known_error cancelled
    else unknown_error deadline_exceeded
resolve_error c now _ = known_error config_error

abbrev pub is_usable : BackendObservation → Bool
is_usable o = elim o.connection_status [
  | BackendConnectionStatus.good ↦ elim o.transaction_status [
    | BackendTransactionStatus.idle ↦ true
    | _ ↦ false
  ]
  | _ ↦ false
]

-- Why a connection that was made is closed again, at the instant `now`.
unfoldable pub connected_error : RequestContext → ℕ → BackendObservation → Option CoreError
connected_error c now o =
    if stopping c now
    then some (known_error server_stopping)
    else if expired c now
    then some (unknown_error deadline_exceeded)
    else if context_cancelled c now
    then some (unknown_error cancelled)
    else if is_usable o
    then none
    else some (unknown_error connection_lost)

-- The entry of a handle that was just connected.
abbrev pub fresh_handle : String → String → BackendObservation → PublishedHandle
fresh_handle id database o = record {
  id = id;
  database = database;
  observation = o;
  schema_observed = false;
  schema_dirty = false;
  closed = false;
}

abbrev pub fresh_entry : PublishedHandle → String → Config → WorkerEntry
fresh_entry p profile config = record {
  published = p;
  profile = profile;
  config = config;
  queue = [];
  join = some Thread.running;
  admitted = 0;
}

-- `connect_and_publish`, from the results of what it calls: the resolution of the DSN, the
-- connection with what is observed of it and its database, and the start of the thread. `now` is
-- the instant of its checks. Where the thread is started and the registry no longer runs, a worker
-- is left beside the registry: `detached_worker` of Open/Detached.
unfoldable pub connect_and_publish :
    String
    → String
    → RequestContext
    → ℕ
    → Result Config ConfigError
    → Result (BackendObservation × String) BackendFailure
    → Bool
    → RegistryState
    → Result (Envelope Value) CoreFailure × RegistryState
unfolding finish_open
connect_and_publish id profile c now (err e) connected spawned r =
    (err (process_failure (resolve_error c now e)), finish_open id r)
connect_and_publish id profile c now (ok config) (err f) spawned r = (
  err (record {
    error = f.error;
    handle_state = none;
    sqlstate = f.sqlstate;
    outcome_unknown = f.outcome_unknown;
  }),
  finish_open id r,
)
connect_and_publish id profile c now (ok config) (ok (o, database)) spawned r =
    elim (connected_error c now o) [
      | some e ↦ (err (process_failure e), finish_open id r)
      | none ↦
          let p = fresh_handle id database o in
          if not spawned
          then (err (process_failure (known_error internal)), finish_open id r)
          else if not (is_running r.lifecycle)
          then (err (process_failure (known_error server_stopping)), finish_open id r)
          else (
            ok (success_envelope (some (state p)) (singleton "handle" (string id))),
            record r {
              pending_opens = remove id r.pending_opens;
              handles = insert id (fresh_entry p profile config) r.handles;
            },
          )
    ]
