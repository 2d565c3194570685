-- ===== src/Server/Arguments.antt =====
-- crates/postgres-mcp/src/main.rs: the arguments, the configuration and the exit code.
use text.Mathlib.Text.{starts_with}
use pg_mcp.Prelude.{
  String, ℕ, Bool, true, false, ◌||◌, not, Option, none, some, is_some, List, [], ◌∷◌, str_eq,
  if◌then◌else◌, Result, ok, err, ◌>>=◌, ◌>>◌,
}
use pg_mcp.Protocol.Json.{Value, object, get}
use pg_mcp.Protocol.Errors.{message, config_error}
use pg_mcp.Config.{
  Config, ConfigOverrides, ConfigError, default, apply, validate, dsn_command, parse, io,
}
use pg_mcp.Config.Profiles.{ConfigFile, validate_file}
use pg_mcp.Server.Outcome.{ServeFailure}

pub data Command : Type 0 where
  serve : Option String → Command
  help version : Command

-- `parse_args`, from what `--config` gave so far. The errors leave out the argument that they
-- quote; a path is absolute if it starts with a slash.
unfoldable pub parse_from : Option String → List String → Result Command String
parse_from config [] = ok (serve config)
parse_from config (arg ∷ []) =
    if str_eq arg "-h" || str_eq arg "--help"
    then ok help
    else if str_eq arg "-V" || str_eq arg "--version"
    then ok version
    else if str_eq arg "--config"
    then err "--config requires an absolute path"
    else if starts_with arg "-"
    then err "unknown option"
    else err "unexpected argument"
parse_from config (arg ∷ value ∷ rest) =
    let later = parse_from (some value) rest in
    if str_eq arg "-h" || str_eq arg "--help"
    then ok help
    else if str_eq arg "-V" || str_eq arg "--version"
    then ok version
    else if str_eq arg "--config"
    then (if starts_with value "/" then later else err "--config requires an absolute path")
    else if starts_with arg "-"
    then err "unknown option"
    else err "unexpected argument"

unfoldable pub parse_args : List String → Result Command String
unfolding parse_from
parse_args args = parse_from none args

pub data LoadedConfig : Type 0 where
  legacy : Config → LoadedConfig
  profiles : ConfigFile → LoadedConfig

-- `ConfigFile::is_profile_document` of config.rs, of a document that was read.
unfoldable pub is_profile_document : Value → Result Bool ConfigError
is_profile_document (object fs) = ok (is_some (get "profiles" fs) || is_some (get "defaults" fs))
is_profile_document _ = err dsn_command

abbrev or_error {ℓ} : {A : Type ℓ} → Option A → Result A ConfigError
or_error none = err parse
or_error (some a) = ok a

-- The readers of the toml crate: of a document, of the overrides, and of a file with profiles.
module _ (read_document : String → Option Value) (read_overrides : String → Option ConfigOverrides)
    (read_file : String → Option ConfigFile) where
  -- `Config::from_toml` and `ConfigFile::from_toml` of config.rs.
  unfoldable pub config_from_toml : String → Result Config ConfigError
  unfolding apply validate default
  config_from_toml source = do
    o ← or_error (read_overrides source)
    validate (apply default o)
    ok (apply default o)

  unfoldable pub file_from_toml : String → Result ConfigFile ConfigError
  unfolding validate_file
  file_from_toml source = do f ← or_error (read_file source); validate_file f; ok f

  -- `Config::from_path` and `ConfigFile::from_path`, over the contents of the files.
  unfoldable pub config_from_path : (String → Option String) → String → Result Config ConfigError
  unfolding config_from_toml
  config_from_path contents path = elim (contents path) [
    | none ↦ err io
    | some source ↦ config_from_toml source
  ]

  unfoldable pub file_from_path : (String → Option String) → String → Result ConfigFile ConfigError
  unfolding file_from_toml
  file_from_path contents path = elim (contents path) [
    | none ↦ err io
    | some source ↦ file_from_toml source
  ]

  -- The branches of `load_config` for a text that was read.
  unfoldable pub load_source : String → Result LoadedConfig ConfigError
  unfolding config_from_toml file_from_toml is_profile_document
  load_source source = do
    document ← or_error (read_document source)
    with_profiles ← is_profile_document document
    if with_profiles
        then (do
          f ← file_from_toml source
          elim f.profiles [ [] ↦ err parse | _ ↦ ok (profiles f) ])
        else (do c ← config_from_toml source; ok (legacy c))

  -- `load_config`, for what is read from the path; every error has the one static text.
  unfoldable pub load_config : Option String → (String → Option String) → Result LoadedConfig String
  unfolding message load_source
  load_config none contents = ok (legacy default)
  load_config (some path) contents = elim (contents path) [
    | none ↦ err (message config_error)
    | some source ↦ elim (load_source source) [ ok c ↦ ok c | err _ ↦ err (message config_error) ]
  ]

  -- What `run` finds outside: the contents of files, the variable of the DSN, whether the handler
  -- of SIGINT was installed, and how the session ended, or none where its time ran out.
  pub record Surrounding : Type 0 where
    pub contents : String → Option String
    pub dsn : Option String
    pub installed : Bool
    pub served : LoadedConfig → Option (Result (Unit {0}) ServeFailure)

  abbrev exit_of : Option (Result (Unit {0}) ServeFailure) → ℕ
  exit_of (some (ok _)) = 0
  exit_of (some (err _)) = 1
  exit_of none = 1

  abbrev has_dsn : LoadedConfig → Option String → Bool
  has_dsn (profiles f) dsn = true
  has_dsn (legacy c) none = false
  has_dsn (legacy c) (some dsn) = not (str_eq dsn "")

  -- `run`: the exit code.
  unfoldable pub run : List String → Surrounding → ℕ
  unfolding parse_args load_config
  run args s = elim (parse_args args) [
    | err _ ↦ 2
    | ok help ↦ 0
    | ok version ↦ 0
    | ok (serve path) ↦ elim (load_config path s.contents) [
      | err _ ↦ 2
      | ok c ↦
          if not (has_dsn c s.dsn) then 2 else if not s.installed then 1 else exit_of (s.served c)
    ]
  ]
