-- ===== src/Config/Profiles/Gaps.antt =====
-- What a validated configuration file guarantees, and what its validation leaves out.
use pg_mcp.Prelude.{
  ℕ, String, some, List, [], ◌∷◌, max, ◌≤◌, ok, ◌≡◌, refl, sym, ◌∙◌, arith, Result-cases,
  Option-cases, Bool-cases, str_eq, lookup, inl, inr,
}
use mathlib.Core.Path.{subst}
use pg_mcp.Config.{Config, merge, into_config, from_config, validate}
use pg_mcp.Config.Ranges.{InRange, validate_iff}
use pg_mcp.Config.Overrides.{merge-from_config, into_config-from_config}
use pg_mcp.Config.Profiles.{
  Profile, ConfigFile, base_config, validate_profiles, validate_file, profile_config_for_profile,
  profile_config, max_shutdown, shutdown_total,
}

-- The merge of the validation loop puts the base above the profile, so each round checks the base.
validate_profiles_lem :
    (c : Config) (ps : List (String × Profile))
    → validate c ≡ ok tt
    → validate_profiles (from_config c) ps ≡ ok tt
unfolding validate_profiles
validate_profiles_lem c [] h = refl
validate_profiles_lem c ((name, p) ∷ ps) h =
    rw (merge-from_config p.overrides c, into_config-from_config c, h)
      (validate_profiles_lem c ps h)

-- `ConfigFile::validate` looks at the defaults alone: whatever overrides the profiles have, also
-- ones out of range, its answer is that for the base configuration.
pub validate_file-ignores-overrides : (f : ConfigFile) → validate_file f ≡ validate (base_config f)
unfolding validate_file
validate_file-ignores-overrides f = elim (Result-cases (validate (base_config f))) [
  | inl (tt, e) ↦ rw e (validate_profiles_lem (base_config f) f.profiles e)
  | inr (e, q) ↦ rw q
]

for_profile_lem :
    (f : ConfigFile) (p : Profile) (c : Config)
    → profile_config_for_profile f p ≡ ok c
    → InRange c × (c ≡ into_config (merge (merge f.defaults f.legacy) p.overrides))
unfolding profile_config_for_profile
for_profile_lem f p c h =
    let layered : Config = into_config (merge (merge f.defaults f.legacy) p.overrides) in
    elim (Result-cases (validate layered)) [
      | inl (tt, e) ↦
          let same : layered ≡ c = ground arith in
          (subst InRange same ((validate_iff layered).0 e), sym same)
      | inr (e, q) ↦ cc
    ]

-- A configuration that `profile_config` returns is in range, and it is the one of the layers of
-- the profile, defaults below the legacy keys below the overrides.
pub profile_config-InRange :
    (f : ConfigFile) (name : String) (c : Config)
    → profile_config f name ≡ ok c
    → InRange c
      × ((p : Profile) × (lookup name f.profiles ≡ some p)
          × (c ≡ into_config (merge (merge f.defaults f.legacy) p.overrides)))
unfolding profile_config
profile_config-InRange f name c h = elim (Option-cases (lookup name f.profiles)) [
  | inl missing ↦ cc
  | inr (p, found) ↦
      let (range, layers) = for_profile_lem f p c (ground arith) in (range, (p, found, layers))
]

max_shutdown-ge :
    (f : ConfigFile) (name : String) (p : Profile) (c : Config) (ps : List (String × Profile))
    → lookup name ps ≡ some p
    → profile_config_for_profile f p ≡ ok c
    → (m : ℕ) × (max_shutdown f ps ≡ some m) × (c.shutdown_total_seconds ≤ m)
unfolding max_shutdown lookup
max_shutdown-ge f name p c [] found h = cc
max_shutdown-ge f name p c ((k, q) ∷ ps) found h = elim (Bool-cases (str_eq k name)) [
  | inl same ↦
      let e : q ≡ p = ground arith in
      rw (e, h, max_shutdown)
        (elim (Option-cases (max_shutdown f ps)) [
          | inl e ↦ rw e (c.shutdown_total_seconds, refl, omega arith)
          | inr (m, e) ↦ rw e (max c.shutdown_total_seconds m, refl, omega arith)
        ])
  | inr other ↦
      let (m, e, le) = max_shutdown-ge f name p c ps (ground arith) h in
      elim (Result-cases (profile_config_for_profile f q)) [
        | inl (d, r) ↦ rw (r, e, max_shutdown) (max d.shutdown_total_seconds m, refl, omega arith)
        | inr (x, r) ↦ rw (r, e, max_shutdown) (m, refl, le)
      ]
]

max_shutdown-range :
    (f : ConfigFile) (ps : List (String × Profile)) (m : ℕ)
    → max_shutdown f ps ≡ some m
    → (1 ≤ m) × (m ≤ 300)
unfolding max_shutdown
max_shutdown-range f [] m h = cc
max_shutdown-range f ((k, q) ∷ ps) m h = elim (Result-cases (profile_config_for_profile f q)) [
  | inr (x, r) ↦ max_shutdown-range f ps m (ground arith)
  | inl (d, r) ↦
      let range = (for_profile_lem f q d r).0 in
      elim (Option-cases (max_shutdown f ps)) [
        | inl e ↦ let same : d.shutdown_total_seconds ≡ m = ground arith in omega arith
        | inr (s, e) ↦
            let ih = max_shutdown-range f ps s e in
            let same : max d.shutdown_total_seconds s ≡ m = ground arith in omega arith
      ]
]

found_profile :
    (f : ConfigFile) (name : String) (c : Config)
    → profile_config f name ≡ ok c
    → (p : Profile) × (lookup name f.profiles ≡ some p) × (profile_config_for_profile f p ≡ ok c)
unfolding profile_config
found_profile f name c h = elim (Option-cases (lookup name f.profiles)) [
  | inl missing ↦ cc
  | inr (p, found) ↦ (p, found, ground arith)
]

-- The shutdown deadline of a valid file lies between 1 and 300 seconds.
pub shutdown_total_range :
    (f : ConfigFile) → validate_file f ≡ ok tt → (1 ≤ shutdown_total f) × (shutdown_total f ≤ 300)
unfolding shutdown_total
shutdown_total_range f v = elim (Option-cases (max_shutdown f f.profiles)) [
  | inl none_left ↦
      let range = (validate_iff (base_config f)).0 (sym (validate_file-ignores-overrides f) ∙ v) in
      rw (none_left, shutdown_total) (omega arith, omega arith)
  | inr (s, e) ↦ rw (e, shutdown_total) (max_shutdown-range f f.profiles s e)
]

-- The shutdown deadline is at least that of every profile that can be opened.
pub shutdown_total-ge :
    (f : ConfigFile) (name : String) (c : Config)
    → profile_config f name ≡ ok c
    → c.shutdown_total_seconds ≤ shutdown_total f
unfolding shutdown_total
shutdown_total-ge f name c h =
    let (p, found, e) = found_profile f name c h in
    let (m, e', le) = max_shutdown-ge f name p c f.profiles found e in rw (e', shutdown_total) le
