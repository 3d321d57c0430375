-- ===== src/Scripts/RuntimeFeatures/FailSafe.antt =====
-- Proofs on scripts/runtime_features.py: damaged settings, and the choice of a profile.
use okxquant.Prelude.{
  String, Bool, true, false, ◌≡◌, refl, Option, none, some, List, [], ◌∷◌, str_eq, arith, arith,
  ◌⊎◌, not, ◌||◌, any_of,
}
use okxquant.Scripts.RuntimeFeatures.{
  ReadOutcome, missing, unreadable, document, Overrides, absent, no_dict, dict, Source, Config,
  config_error, config, is_feature, is_profile, profile_of, enabled_by, overridden, by_default,
}

-- An entry that the file may not have: a value that is no boolean, or an unknown name.
abbrev is_bad : String × Option Bool → Bool
is_bad (name, none) = true
is_bad (name, some b) = not (is_feature name)

abbrev are_bad : Overrides → Bool
are_bad absent = false
are_bad no_dict = true
are_bad (dict values) = any_of is_bad values

-- A file that is there but holds no valid settings, told from its content alone.
abbrev pub is_damaged : ReadOutcome → Bool
is_damaged missing = false
is_damaged unreadable = true
is_damaged (document p o) = not (is_profile (profile_of p)) || are_bad o

-- What was read: an error of damaged settings, or the settings of a file or of none.
abbrev IsTold : ReadOutcome → Option Config × Source → Type 0
IsTold outcome r =
    ((is_damaged outcome ≡ true) × (r ≡ (none, config_error)))
    ⊎ ((is_damaged outcome ≡ false)
        × ((r ≡ (none, by_default)) ⊎ ((c : Config) × (r ≡ (some c, config)))))

-- No entry of the object is about this feature.
abbrev Unmentioned : String → List (String × Bool) → Type 0
Unmentioned name [] = Unit
Unmentioned name ((key, value) ∷ rest) = (str_eq key name ≡ false) × Unmentioned name rest

overridden-Unmentioned :
    (rest : List (String × Bool)) (name : String) (d : Bool)
    → Unmentioned name rest
    → overridden rest name d ≡ d
unfolding overridden
overridden-Unmentioned [] name d h = refl
overridden-Unmentioned ((key, value) ∷ rest) name d h =
    rw h.0 (overridden-Unmentioned rest name d h.1)

-- The light profile turns off each feature that the saved overrides do not mention; the standard
-- one leaves it on.
pub profile-enabled_by :
    (overrides : List (String × Bool)) (name : String)
    → is_feature name ≡ true
    → Unmentioned name overrides
    → (enabled_by "light" overrides name ≡ false) × (enabled_by "standard" overrides name ≡ true)
unfolding enabled_by
profile-enabled_by overrides name known h = (
  rw (overridden-Unmentioned overrides name _ h) (rw known),
  overridden-Unmentioned overrides name _ h,
)
