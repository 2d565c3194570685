-- ===== src/Examples/Config.antt =====
-- Concrete configurations.
use pg_mcp.Prelude.{some, [], ◌∷◌, ok, ◌≡◌, refl, lookup}
use pg_mcp.Config.{
  Config, ConfigOverrides, default_unchecked, no_overrides, merge, apply, into_config, from_config,
  validate, validate_range,
}
use pg_mcp.Config.Ranges.{validate_iff, default-InRange}
use pg_mcp.Config.Profiles.{
  ConfigFile, base_config, validate_profiles, validate_file, profile_config,
  profile_config_for_profile,
}
use pg_mcp.Config.Profiles.Gaps.{validate_file-ignores-overrides}

abbrev many_handles : ConfigOverrides
many_handles = record no_overrides { max_handles = some 200 }

abbrev slow : ConfigOverrides
slow = record no_overrides { shutdown_total_seconds = some 60 }

-- Two profiles, of which the second has an override out of range.
abbrev file : ConfigFile
file = record {
  defaults = no_overrides;
  profiles =
      ("app", record { dsn = "dbname=app"; overrides = slow })
      ∷ ("bad", record { dsn = "dbname=bad"; overrides = many_handles })
      ∷ [];
  legacy = no_overrides;
}

default_valid : validate default_unchecked ≡ ok tt
default_valid = (validate_iff default_unchecked).1 default-InRange

validate_file-ignores-overrides_example : validate_file file ≡ validate (base_config file)
validate_file-ignores-overrides_example = validate_file-ignores-overrides file

-- The file passes although the profile "bad" can never be opened.
file_valid : validate_file file ≡ ok tt
unfolding validate_file validate_profiles base_config validate validate_range into_config merge
    apply from_config
file_valid = refl

abbrev app : Config
app = record default_unchecked { shutdown_total_seconds = 60 }

app_opens : profile_config file "app" ≡ ok app
unfolding profile_config profile_config_for_profile lookup validate validate_range into_config merge
    apply
app_opens = refl
