-- ===== src/Plugin/StaticRegistry.antt =====
-- src/core/plugin/static_registry.cpp and .hpp: the plugins of a process, static and dynamic ones.
-- A registry is the list of its registrations.
pub mod Register
pub mod Lookup
use cppup.Base.{
  ℕ, Bool, true, false, not, ◌&&◌, ◌||◌, List, [], ◌∷◌, ◌++◌, map, Option, none, some, ◌==◌,
  if◌then◌else◌, Bytes, codes, eqb, length, Outcome, ok, err,
}
use cppup.Plugin.Descriptors.{
  Manifest, Descriptor, VtableSupport, DescriptorError, validate_descriptors,
}
use cppup.Plugin.Manifest.{
  ManifestError, parse_failure, schema_version_mismatch, missing_field, wrong_field_type,
  invalid_name, duplicate_entry_id, invalid_semver, invalid_semver_range, invalid_build_hash,
  invalid_build_date, unknown_entry_kind, empty_entries, unknown_top_level_key, ParseDiagnostic,
  parse_manifest,
}
use cppup.Plugin.Manifest.Tables.{Toml}

pub record StaticPluginRegistration : Type 0 where
  pub name : Bytes
  pub manifest_toml : Bytes
  pub descriptors : List (Option Descriptor)

pub record DynamicPluginRegistration : Type 0 where
  pub name : Bytes
  pub descriptors : List (Option Descriptor)

-- The codes with what their details print; of the parser's diagnostic its printed form.
pub data StaticRegistrationError : Type 0 where
  manifest_parse_failure : Bytes → StaticRegistrationError
  embedded_name_mismatch : Bytes → Bytes → StaticRegistrationError
  descriptor_validation_failure : DescriptorError → StaticRegistrationError
  duplicate_name : Bytes → StaticRegistrationError

unfoldable pub has_plugin : List StaticPluginRegistration → Bytes → Bool
has_plugin [] name = false
has_plugin (entry ∷ entries) name = eqb entry.name name || has_plugin entries name

-- The new registry, and what the call returns.
abbrev pub Registered : Type 0
Registered = List StaticPluginRegistration × Outcome StaticRegistrationError (Unit {0})

unfoldable pub add_unless_known :
    List StaticPluginRegistration → StaticPluginRegistration → Registered
add_unless_known entries reg =
    if has_plugin entries reg.name
    then (entries, err (duplicate_name reg.name))
    else (entries ++ (reg ∷ []), ok tt)

unfoldable pub add_checked :
    List StaticPluginRegistration
    → StaticPluginRegistration
    → Outcome DescriptorError (Unit {0})
    → Registered
add_checked entries reg (err e) = (entries, err (descriptor_validation_failure e))
add_checked entries reg (ok _) = add_unless_known entries reg

unfoldable pub add_parsed :
    VtableSupport
    → List StaticPluginRegistration
    → StaticPluginRegistration
    → Outcome Bytes Manifest
    → Registered
add_parsed support entries reg (err detail) = (entries, err (manifest_parse_failure detail))
add_parsed support entries reg (ok manifest) =
    if not (eqb manifest.name reg.name)
    then (entries, err (embedded_name_mismatch reg.name manifest.name))
    else add_checked entries reg (validate_descriptors reg.descriptors manifest support)

-- to_string(ManifestError)
unfoldable pub print_error : ManifestError → Bytes
print_error parse_failure = codes "ParseFailure"
print_error schema_version_mismatch = codes "SchemaVersionMismatch"
print_error missing_field = codes "MissingField"
print_error wrong_field_type = codes "WrongFieldType"
print_error invalid_name = codes "InvalidName"
print_error duplicate_entry_id = codes "DuplicateEntryId"
print_error invalid_semver = codes "InvalidSemver"
print_error invalid_semver_range = codes "InvalidSemverRange"
print_error invalid_build_hash = codes "InvalidBuildHash"
print_error invalid_build_date = codes "InvalidBuildDate"
print_error unknown_entry_kind = codes "UnknownEntryKind"
print_error empty_entries = codes "EmptyEntries"
print_error unknown_top_level_key = codes "UnknownTopLevelKey"

unfoldable pub print_diagnostic : Outcome ParseDiagnostic Manifest → Outcome Bytes Manifest
print_diagnostic (ok m) = ok m
print_diagnostic (err d) = err (print_error d.code ++ (codes ": " ++ d.detail))

-- the parser of `register_plugin`
unfoldable pub read_manifest : Toml → Bytes → Outcome Bytes Manifest
read_manifest toml text = print_diagnostic (parse_manifest toml text)

-- StaticPluginRegistry, over `read_manifest`
module _ (parse : Bytes → Outcome Bytes Manifest) where
  unfoldable pub register_plugin :
      List StaticPluginRegistration → StaticPluginRegistration → VtableSupport → Registered
  register_plugin entries reg support = add_parsed support entries reg (parse reg.manifest_toml)

abbrev pub size : List StaticPluginRegistration → ℕ
size = length

abbrev pub clear : List StaticPluginRegistration → List StaticPluginRegistration
clear entries = []

pub record PluginRegistry : Type 0 where
  pub static_plugins : List StaticPluginRegistration
  pub dynamic_plugins : List DynamicPluginRegistration

unfoldable pub register_dynamic_plugin : PluginRegistry → DynamicPluginRegistration → PluginRegistry
register_dynamic_plugin registry reg = record registry {
  dynamic_plugins = registry.dynamic_plugins ++ (reg ∷ []);
}

-- id == descriptor->id, for an id that is not null
unfoldable pub has_id : Option Bytes → Bytes → Bool
has_id none id = false
has_id (some own) id = eqb id own

-- CPPUP_KIND_BUILD_SYSTEM is 1
unfoldable pub find_build_system_in : List (Option Descriptor) → Bytes → Option Descriptor
find_build_system_in [] id = none
find_build_system_in (none ∷ descriptors) id = find_build_system_in descriptors id
find_build_system_in (some d ∷ descriptors) id =
    if not (d.kind == 1)
    then find_build_system_in descriptors id
    else if has_id d.id id
    then some d
    else find_build_system_in descriptors id

-- a hit, or what is looked up behind it
abbrev pub or_else : Option Descriptor → Option Descriptor → Option Descriptor
or_else (some hit) later = some hit
or_else none later = later

unfoldable pub find_in_dynamic : List DynamicPluginRegistration → Bytes → Option Descriptor
find_in_dynamic [] id = none
find_in_dynamic (reg ∷ plugins) id =
    or_else (find_build_system_in reg.descriptors id) (find_in_dynamic plugins id)

unfoldable pub find_in_static :
    List StaticPluginRegistration → Bytes → Option Descriptor → Option Descriptor
find_in_static [] id later = later
find_in_static (reg ∷ plugins) id later =
    or_else (find_build_system_in reg.descriptors id) (find_in_static plugins id later)

unfoldable pub find_build_system_descriptor : PluginRegistry → Bytes → Option Descriptor
find_build_system_descriptor registry id =
    find_in_static registry.static_plugins id (find_in_dynamic registry.dynamic_plugins id)

-- the lambda `append`, in front of what the later calls append; CPPUP_KIND_CLI_COMMAND is 6
unfoldable pub append_cli_commands : List (Option Descriptor) → List Descriptor → List Descriptor
append_cli_commands [] out = out
append_cli_commands (none ∷ descriptors) out = append_cli_commands descriptors out
append_cli_commands (some d ∷ descriptors) out =
    let rest = append_cli_commands descriptors out in if d.kind == 6 then d ∷ rest else rest

unfoldable pub collect_dynamic : List DynamicPluginRegistration → List Descriptor
collect_dynamic [] = []
collect_dynamic (reg ∷ plugins) = append_cli_commands reg.descriptors (collect_dynamic plugins)

unfoldable pub collect_static : List StaticPluginRegistration → List Descriptor → List Descriptor
collect_static [] out = out
collect_static (reg ∷ plugins) out =
    append_cli_commands reg.descriptors (collect_static plugins out)

unfoldable pub collect_cli_command_descriptors : PluginRegistry → List Descriptor
collect_cli_command_descriptors registry =
    collect_static registry.static_plugins (collect_dynamic registry.dynamic_plugins)
