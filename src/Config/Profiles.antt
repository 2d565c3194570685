-- ===== src/Config/Profiles.antt =====
-- config.rs: the configuration file with its named profiles. The profiles are a map by name.
pub mod Gaps
use pg_mcp.Prelude.{
  ℕ, String, Bool, Option, none, some, List, [], ◌∷◌, max, Map, lookup, Result, ok, err, ◌>>=◌,
  ◌>>◌,
}
use pg_mcp.Config.{
  Config, ConfigOverrides, ConfigError, ConfigCheck, unknown_profile, merge, into_config,
  from_config, validate,
}

pub record Profile : Type 0 where
  pub dsn : String
  pub overrides : ConfigOverrides

pub record ConfigFile : Type 0 where
  pub defaults : ConfigOverrides
  pub profiles : Map Profile
  pub legacy : ConfigOverrides

-- `ConfigFile::base_config`.
unfoldable pub base_config : ConfigFile → Config
base_config f = into_config (merge f.defaults f.legacy)

-- The loop of `ConfigFile::validate` over the profiles: `p.overrides.merge(&base)`.
unfoldable pub validate_profiles : ConfigOverrides → List (String × Profile) → ConfigCheck
validate_profiles base [] = ok tt
validate_profiles base ((name, p) ∷ ps) = do
  validate (into_config (merge p.overrides base))
  validate_profiles base ps

-- `ConfigFile::validate`.
unfoldable pub validate_file : ConfigFile → ConfigCheck
validate_file f = do
  validate (base_config f)
  validate_profiles (from_config (base_config f)) f.profiles

-- `ConfigFile::profile_config_for_profile`.
unfoldable pub profile_config_for_profile : ConfigFile → Profile → Result Config ConfigError
profile_config_for_profile f p =
    let c = into_config (merge (merge f.defaults f.legacy) p.overrides) in validate c >>= λ _. ok c

-- `ConfigFile::profile_config`.
unfoldable pub profile_config : ConfigFile → String → Result Config ConfigError
profile_config f name = elim (lookup name f.profiles) [
  | none ↦ err unknown_profile
  | some p ↦ profile_config_for_profile f p
]

-- The `filter_map(...).map(...).max()` of `shutdown_total`, in seconds.
unfoldable pub max_shutdown : ConfigFile → List (String × Profile) → Option ℕ
max_shutdown f [] = none
max_shutdown f ((name, p) ∷ ps) =
    let rest = max_shutdown f ps in
    elim (profile_config_for_profile f p) [
      | err _ ↦ rest
      | ok c ↦ elim rest [
        | none ↦ some c.shutdown_total_seconds
        | some s ↦ some (max c.shutdown_total_seconds s)
      ]
    ]

-- `ConfigFile::shutdown_total`.
unfoldable pub shutdown_total : ConfigFile → ℕ
shutdown_total f = elim (max_shutdown f f.profiles) [
  | none ↦ (base_config f).shutdown_total_seconds
  | some s ↦ s
]
