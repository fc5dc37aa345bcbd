-- ===== src/Tests/Configuration.antt =====
-- The theorems about configurations, at one with a debug profile.
use cppup.Base.{
  ◌≡◌, ◌↔◌, ◌⊎◌, refl, eqb, insert, false, [], ◌∷◌, none, some, codes, ok, true, is_empty, contains,
}
use cppup.Configuration.Build.{BuildConfiguration, empty_configuration, Profile, toolchain_named}
use cppup.Configuration.Profiles.{
  merge_profile, process_profiles, validate_profiles, validate_names, find_profile, process_found,
  process_missing, get_available_profiles, get_effective_profile_name,
}
use cppup.Configuration.Profiles.Merge.{IsMerged, merge_profile-IsMerged}
use cppup.Configuration.Profiles.Process.{
  Named, IsKnown, Keeps, process_profiles_succeeds, process_profiles-Keeps,
}
use cppup.Configuration.Selection.{
  BuildOptions, ResolvedSelection, apply_selection, apply_profile, take_processed, apply_toolchain,
  rename_toolchain,
}
use cppup.Configuration.Selection.Apply.{
  wants_profile, IsApplied, apply_selection-IsApplied, apply_selection_succeeds,
}
use cppup.Configuration.Validation.{validate}
use cppup.Configuration.Validation.Valid.{IsSound, validate-IsSound}

abbrev debug : Profile
debug = record {
  name = codes "debug";
  packages = [];
  compile_flags = record { flag = codes "-g" } ∷ [];
  link_flags = [];
  include_paths = [];
  definitions = record { name = codes "DEBUG"; value = codes "1" } ∷ [];
}

abbrev config : BuildConfiguration
config = record empty_configuration {
  profiles = debug ∷ [];
  definitions = record { name = codes "DEBUG"; value = codes "0" } ∷ [];
}

IsMerged_example : IsMerged config debug (merge_profile config debug)
IsMerged_example = merge_profile-IsMerged config debug

processing_example :
    ((process_profiles config []).success ≡ true)
    ↔ (Named [] (get_available_profiles config) × IsKnown config (get_effective_profile_name []))
processing_example = process_profiles_succeeds config []

Keeps_example :
    Keeps config
      (get_effective_profile_name (codes "release"))
      (process_profiles config (codes "release"))
Keeps_example = process_profiles-Keeps config (codes "release")

abbrev selection : ResolvedSelection
selection = record { toolchain = some (codes "clang++"); profile = [] }

selected_example : ((c : BuildConfiguration) × (apply_selection config selection ≡ ok c)) ↔ (
    (wants_profile config [] ≡ false)
    ⊎ (Named [] (get_available_profiles config) × IsKnown config (get_effective_profile_name [])))
selected_example = apply_selection_succeeds config selection

-- what the selection makes of the configuration
abbrev selected : BuildConfiguration
selected = record (merge_profile config debug) {
  features = codes "profile:debug" ∷ [];
  toolchain = some (toolchain_named (codes "clang++"));
}

selection_applied : apply_selection config selection ≡ ok selected
unfolding apply_selection apply_profile process_profiles validate_profiles validate_names
    find_profile process_found take_processed apply_toolchain rename_toolchain contains insert eqb
    get_effective_profile_name merge_profile
selection_applied = refl

IsApplied_example : IsApplied config selection selected
IsApplied_example = apply_selection-IsApplied config selection selected selection_applied

abbrev release_only : BuildConfiguration
release_only = record empty_configuration {
  profiles = record debug { name = codes "release" } ∷ [];
}

-- A release profile is declared and no debug profile: debug is taken without an error.
undeclared_debug : process_profiles release_only (codes "debug") ≡ record {
  success = true;
  processed_config = release_only;
  active_profile = codes "debug";
  error_message = [];
}
unfolding process_profiles validate_profiles validate_names find_profile process_found
    process_missing contains insert eqb get_effective_profile_name
undeclared_debug = refl

abbrev options : BuildOptions
options = record { toolchain = none; profile = none }

IsSound_example :
    (((validate config true none).is_valid ≡ true) ↔ IsSound config true none)
    × ((validate config true none).is_valid ≡ is_empty (validate config true none).errors)
IsSound_example = validate-IsSound config true none
