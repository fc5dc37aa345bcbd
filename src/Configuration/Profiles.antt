-- ===== src/Configuration/Profiles.antt =====
-- src/core/configuration/profile_processor.cpp
pub mod Merge
pub mod Process
use cppup.Base.{
  Bool, true, false, not, ◌||◌, List, [], ◌∷◌, ◌++◌, map, Option, none, some, Bytes, codes, eqb,
  is_empty, if◌then◌else◌, contains, insert,
}
use cppup.Configuration.Build.{BuildConfiguration, Profile, Flag, Definition, eq_package}

-- `std::ranges::find_if` over the items so far finds one of the same key
unfoldable pub matches {ℓ} : {T : Type ℓ} → (T → T → Bool) → T → List T → Bool
matches same item [] = false
matches same item (existing ∷ result) = same existing item || matches same item result

unfoldable pub push_unique {ℓ} : {T : Type ℓ} → (T → T → Bool) → List T → T → List T
push_unique same result item = if matches same item result then result else result ++ (item ∷ [])

-- the first `merge_unique`, by the equality of the keys
unfoldable pub merge_unique {ℓ} : {T : Type ℓ} → (T → T → Bool) → List T → List T → List T
merge_unique same result [] = result
merge_unique same result (item ∷ additional) =
    merge_unique same (push_unique same result item) additional

-- `on_collide` on the first item of the key, or else `push_back`
unfoldable pub push_or_collide {ℓ} :
    {T : Type ℓ} → (T → T → Bool) → (T → T → T) → List T → T → List T
push_or_collide same on_collide [] item = item ∷ []
push_or_collide same on_collide (existing ∷ result) item =
    let later = push_or_collide same on_collide result item in
    if same existing item then on_collide existing item ∷ result else existing ∷ later

-- the second `merge_unique`
unfoldable pub merge_overriding {ℓ} :
    {T : Type ℓ} → (T → T → Bool) → (T → T → T) → List T → List T → List T
merge_overriding same on_collide result [] = result
merge_overriding same on_collide result (item ∷ additional) =
    merge_overriding same on_collide (push_or_collide same on_collide result item) additional

abbrev pub same_flag : Flag → Flag → Bool
same_flag a b = eqb a.flag b.flag

abbrev pub same_name : Definition → Definition → Bool
same_name a b = eqb a.name b.name

abbrev pub set_value : Definition → Definition → Definition
set_value existing new_def = record { name = existing.name; value = new_def.value }

-- "debug"
abbrev pub get_default_profile_name : Bytes
get_default_profile_name = codes "debug"

unfoldable pub get_effective_profile_name : Bytes → Bytes
get_effective_profile_name profile_name =
    if not (is_empty profile_name) then profile_name else get_default_profile_name

unfoldable pub find_profile : List Profile → Bytes → Option Profile
find_profile [] profile_name = none
find_profile (p ∷ profiles) profile_name =
    if eqb p.name profile_name then some p else find_profile profiles profile_name

unfoldable pub merge_profile : BuildConfiguration → Profile → BuildConfiguration
merge_profile base_config profile = record base_config {
  packages = merge_unique eq_package base_config.packages profile.packages;
  compile_flags = merge_unique same_flag base_config.compile_flags profile.compile_flags;
  link_flags = merge_unique same_flag base_config.link_flags profile.link_flags;
  include_paths = merge_unique eqb base_config.include_paths profile.include_paths;
  definitions = merge_overriding same_name set_value base_config.definitions profile.definitions;
}

unfoldable pub has_profile : BuildConfiguration → Bytes → Bool
has_profile config profile_name = elim (find_profile config.profiles profile_name) [
  | none ↦ false
  | some p ↦ true
]

unfoldable pub get_available_profiles : BuildConfiguration → List Bytes
get_available_profiles config = map (λ p. p.name) config.profiles

-- the loop, with the names it has met; the empty text says that there is no error
unfoldable pub validate_names : List Bytes → List Profile → Bytes
validate_names profile_names [] = []
validate_names profile_names (p ∷ profiles) =
    if is_empty p.name
    then codes "Profile with empty name found"
    else if contains p.name profile_names
    then codes "Duplicate profile name: " ++ p.name
    else validate_names (insert p.name profile_names) profiles

unfoldable pub validate_profiles : BuildConfiguration → Bytes
validate_profiles config = validate_names [] config.profiles

pub record ProfileProcessingResult : Type 0 where
  pub success : Bool
  pub processed_config : BuildConfiguration
  pub active_profile : Bytes
  pub error_message : Bytes

unfoldable pub process_missing : BuildConfiguration → Bytes → ProfileProcessingResult
process_missing config effective_profile =
    if eqb effective_profile get_default_profile_name
    then record {
      success = true;
      processed_config = config;
      active_profile = effective_profile;
      error_message = [];
    }
    else record {
      success = false;
      processed_config = config;
      active_profile = effective_profile;
      error_message = codes "Profile '" ++ (effective_profile ++ codes "' not found");
    }

unfoldable pub process_found : BuildConfiguration → Bytes → Option Profile → ProfileProcessingResult
process_found config effective_profile none = process_missing config effective_profile
process_found config effective_profile (some p) = record {
  success = true;
  processed_config = merge_profile config p;
  active_profile = effective_profile;
  error_message = [];
}

unfoldable pub process_profiles : BuildConfiguration → Bytes → ProfileProcessingResult
process_profiles config profile_name =
    let validation_error = validate_profiles config in
    let effective_profile = get_effective_profile_name profile_name in
    if not (is_empty validation_error)
    then record {
      success = false;
      processed_config = config;
      active_profile = [];
      error_message = validation_error;
    }
    else if is_empty config.profiles
    then record {
      success = true;
      processed_config = config;
      active_profile = effective_profile;
      error_message = [];
    }
    else process_found config effective_profile (find_profile config.profiles effective_profile)
