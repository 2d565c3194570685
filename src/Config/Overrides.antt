-- ===== src/Config/Overrides.antt =====
-- How overrides combine.
use pg_mcp.Prelude.{Option, none, some, or, unwrap_or, ◌≡◌, refl}
use pg_mcp.Config.{Config, ConfigOverrides, merge, apply, into_config, from_config}

or_assoc {ℓ} : {A : Type ℓ} (a b c : Option A) → or (or a b) c ≡ or a (or b c)
or_assoc none b c = refl
or_assoc (some a) b c = refl

unwrap_or-or {ℓ} :
    {A : Type ℓ} (higher lower : Option A) (base : A)
    → unwrap_or (or higher lower) base ≡ unwrap_or higher (unwrap_or lower base)
unwrap_or-or none lower base = refl
unwrap_or-or (some a) lower base = refl

-- Merging is associative: of several layers the highest that gives a field decides it.
merge_assoc : (a b c : ConfigOverrides) → merge (merge a b) c ≡ merge a (merge b c)
unfolding merge
merge_assoc a b c = simp or_assoc

-- Applying merged overrides is applying the lower and then the higher ones.
apply-merge :
    (base : Config) (lower higher : ConfigOverrides)
    → apply base (merge lower higher) ≡ apply (apply base lower) higher
unfolding apply merge
apply-merge base lower higher = simp unwrap_or-or

-- Overrides that give every field leave nothing of the lower ones.
pub merge-from_config :
    (lower : ConfigOverrides) (c : Config) → merge lower (from_config c) ≡ from_config c
unfolding merge from_config
merge-from_config lower c = refl

pub into_config-from_config : (c : Config) → into_config (from_config c) ≡ c
unfolding into_config from_config
into_config-from_config c = refl
