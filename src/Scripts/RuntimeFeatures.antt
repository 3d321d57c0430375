-- ===== src/Scripts/RuntimeFeatures.antt =====
-- scripts/runtime_features.py: which optional work is on, from the saved file and the environment.
pub mod FailSafe
mod Tests
use okxquant.Prelude.{
  String, Bool, true, false, ◌&&◌, ◌||◌, not, Option, none, some, List, [], ◌∷◌, str_eq,
  if◌then◌else◌, any_of,
}

-- FEATURES, which is LIGHT_DISABLED too.
abbrev pub features : List String
features =
    "factor_snapshots" ∷ "market_observations" ∷ "entry_research" ∷ "scalp_research"
    ∷ "automatic_review" ∷ []

-- name in FEATURES
unfoldable pub is_feature : String → Bool
is_feature name = any_of (λ f. str_eq f name) features

-- profile in PROFILES
unfoldable pub is_profile : String → Bool
is_profile p = str_eq p "standard" || str_eq p "light"

-- The value of 'features' in the JSON object: absent, no object, or an object, whose values are
-- `none` where they are no booleans.
pub data Overrides : Type 0 where
  absent : Overrides
  no_dict : Overrides
  dict : List (String × Option Bool) → Overrides

-- What reading the file gives: no file; unreadable, or no JSON, or no object, or another version;
-- or an object with an optional profile.
pub data ReadOutcome : Type 0 where
  missing : ReadOutcome
  unreadable : ReadOutcome
  document : Option String → Overrides → ReadOutcome

pub data Source : Type 0 where
  config_error : Source
  config : Source
  environment : Source
  by_default : Source

pub record Config : Type 0 where
  pub profile : String
  pub overrides : List (String × Bool)

unfoldable pub checked_override :
    String → Option Bool → Option (List (String × Bool)) → Option (List (String × Bool))
checked_override name value none = none
checked_override name none (some rest) = none
checked_override name (some b) (some rest) =
    if is_feature name then some ((name, b) ∷ rest) else none

-- any(name not in FEATURES or type(value) is not bool …) refuses the whole object.
unfoldable pub checked_overrides : List (String × Option Bool) → Option (List (String × Bool))
unfolding checked_override is_feature
checked_overrides [] = some []
checked_overrides ((name, value) ∷ rest) = checked_override name value (checked_overrides rest)

unfoldable pub with_overrides : String → Option (List (String × Bool)) → Option Config × Source
with_overrides profile none = (none, config_error)
with_overrides profile (some overrides) =
    (some (record { profile = profile; overrides = overrides }), config)

-- payload.get("profile", "standard")
unfoldable pub profile_of : Option String → String
profile_of none = "standard"
profile_of (some p) = p

unfoldable pub read_document : String → Overrides → Option Config × Source
unfolding with_overrides checked_overrides is_profile
read_document profile absent =
    if is_profile profile then with_overrides profile (some []) else (none, config_error)
read_document profile no_dict = (none, config_error)
read_document profile (dict values) =
    if is_profile profile
    then with_overrides profile (checked_overrides values)
    else (none, config_error)

-- _read_config
unfoldable pub read_config : ReadOutcome → Option Config × Source
unfolding read_document profile_of
read_config missing = (none, by_default)
read_config unreadable = (none, config_error)
read_config (document profile overrides) = read_document (profile_of profile) overrides

-- _profile_from_environment, of the stripped and lower-cased variable.
unfoldable pub profile_from_environment : Option String → Option String
unfolding is_profile
profile_from_environment none = none
profile_from_environment (some p) = if is_profile p then some p else none

pub record Status : Type 0 where
  pub profile : String
  pub enabled : String → Bool
  pub source : Source

unfoldable pub overridden : List (String × Bool) → String → Bool → Bool
overridden [] name d = d
overridden ((key, value) ∷ rest) name d =
    overridden rest name (if str_eq key name then value else d)

unfoldable pub enabled_by : String → List (String × Bool) → String → Bool
unfolding overridden is_feature
enabled_by profile overrides name =
    overridden overrides name (not (str_eq profile "light" && is_feature name))

-- Where no choice was saved.
unfoldable pub bootstrap_status : Option String → Status
unfolding enabled_by
bootstrap_status none = record {
  profile = "standard";
  enabled = enabled_by "standard" [];
  source = by_default;
}
bootstrap_status (some p) = record { profile = p; enabled = enabled_by p []; source = environment }

unfoldable pub status_of : Option String → Option Config × Source → Status
unfolding enabled_by profile_from_environment bootstrap_status
status_of env (some c, source) = record {
  profile = c.profile;
  enabled = enabled_by c.profile c.overrides;
  source = source;
}
status_of env (none, config_error) = record {
  profile = "light";
  enabled = λ name. false;
  source = config_error;
}
status_of env (none, other) = bootstrap_status (profile_from_environment env)

-- status(); `env` is the environment variable, if it is set.
unfoldable pub status : Option String → ReadOutcome → Status
unfolding status_of read_config
status env outcome = status_of env (read_config outcome)
