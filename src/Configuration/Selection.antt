-- ===== src/Configuration/Selection.antt =====
-- src/core/cli/commands/selection_resolver.cpp: the toolchain and the profile of one command. The
-- environment's compiler, the first of $CXX and $CC that is set and not empty, is a parameter's
-- value `env`; the files that the functions read and write are not modelled.
pub mod Precedence
pub mod Apply
use cppup.Base.{
  Bool, true, false, not, ◌||◌, List, [], ◌∷◌, ◌++◌, Option, none, some, Bytes, codes, is_empty,
  if◌then◌else◌, insert, Outcome, ok, err, ◌>>=◌, ◌==◌,
}
use cppup.Configuration.Build.{BuildConfiguration, Toolchain, toolchain_named}
use cppup.Configuration.Profiles.{ProfileProcessingResult, process_profiles}
use cppup.Lockfile.Document.{Selection}

-- build_options.hpp: of `BuildOptions`, the overrides
pub record BuildOptions : Type 0 where
  pub toolchain : Option Bytes
  pub profile : Option Bytes

pub record ResolvedSelection : Type 0 where
  pub toolchain : Option Bytes
  pub profile : Bytes

pub record EarlySelection : Type 0 where
  pub toolchain : Bytes
  pub profile : Bytes

-- one of the variables, as std::getenv gives it
unfoldable pub set_variable : Option Bytes → Option Bytes → Option Bytes
set_variable none later = later
set_variable (some value) later = if not (is_empty value) then some value else later

-- `cxx` and `cc` are the values of the two variables
unfoldable pub env_toolchain_name : Option Bytes → Option Bytes → Option Bytes
env_toolchain_name cxx cc_var = set_variable cxx (set_variable cc_var none)

-- the lines of the legacy file: '\n', '\r' and ' ' are removed from the end of the first
unfoldable pub trim_end : Bytes → Bytes
trim_end [] = []
trim_end (c ∷ line) =
    let rest = trim_end line in
    if is_empty rest
    then (if c == b'\n' || c == b'\r' || c == b' ' then [] else c ∷ [])
    else c ∷ rest

unfoldable pub legacy_toolchain : Option Bytes → Option Bytes
legacy_toolchain none = none
legacy_toolchain (some line) =
    let trimmed = trim_end line in if is_empty trimmed then none else some trimmed

unfoldable pub resolve_profile : Option Bytes → Option Bytes → Bytes
resolve_profile (some p) persisted = p
resolve_profile none (some p) = p
resolve_profile none none = []

unfoldable pub or_environment : Option Bytes → Bytes
or_environment (some name) = name
or_environment none = codes "g++"

unfoldable pub early_toolchain : Option Bytes → Option Bytes → Option Bytes → Bytes
early_toolchain (some t) persisted env = t
early_toolchain none (some t) env = t
early_toolchain none none env = or_environment env

unfoldable pub resolve_early_selection : BuildOptions → Selection → Option Bytes → EarlySelection
resolve_early_selection options persisted env = record {
  toolchain = early_toolchain options.toolchain persisted.toolchain env;
  profile = resolve_profile options.profile persisted.profile;
}

unfoldable pub late_toolchain :
    Option Bytes → Option Bytes → Option Toolchain → Option Bytes → Bytes
late_toolchain (some t) persisted config env = t
late_toolchain none (some t) config env = t
late_toolchain none none (some t) env = t.name
late_toolchain none none none env = or_environment env

unfoldable pub resolve_selection :
    BuildOptions → Selection → BuildConfiguration → Option Bytes → ResolvedSelection
resolve_selection options persisted config env = record {
  toolchain = some (late_toolchain options.toolchain persisted.toolchain config.toolchain env);
  profile = resolve_profile options.profile persisted.profile;
}

-- the first block of `apply_selection`, after the call of `process_profiles`
unfoldable pub take_processed : ProfileProcessingResult → Outcome Bytes BuildConfiguration
take_processed processed =
    if not processed.success
    then err processed.error_message
    else ok (record processed.processed_config {
      features =
          insert (codes "profile:" ++ processed.active_profile) processed.processed_config.features;
    })

unfoldable pub apply_profile : BuildConfiguration → Bytes → Outcome Bytes BuildConfiguration
apply_profile config profile =
    if not (is_empty profile) || not (is_empty config.profiles)
    then take_processed (process_profiles config profile)
    else ok config

unfoldable pub rename_toolchain : Option Toolchain → Bytes → Toolchain
rename_toolchain (some t) n = record t { name = n }
rename_toolchain none n = toolchain_named n

unfoldable pub apply_toolchain : Option Bytes → BuildConfiguration → BuildConfiguration
apply_toolchain none config = config
apply_toolchain (some n) config = record config {
  toolchain = some (rename_toolchain config.toolchain n);
}

-- the new configuration, or the error that leaves the old one
unfoldable pub apply_selection :
    BuildConfiguration → ResolvedSelection → Outcome Bytes BuildConfiguration
apply_selection config selection =
    apply_profile config selection.profile >>= λ c. ok (apply_toolchain selection.toolchain c)
