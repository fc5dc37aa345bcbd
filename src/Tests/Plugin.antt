-- ===== src/Tests/Plugin.antt =====
-- The theorems about plugins, at a plugin with one build system.
use cppup.Base.{
  ◌≡◌, refl, [], ◌∷◌, none, some, Bytes, codes, ok, Outcome, true, ◌==◌, ◌&&◌, eqb, contains,
}
use cppup.Plugin.Descriptors.{
  Manifest, new_manifest, Descriptor, build_system, default_vtable_support, validate_descriptors,
  check_all, check_descriptor, check_known, check_entry, check_supported, find_entry, from_c_kind,
  eq_kind, is_supported, has_version,
}
use cppup.Plugin.Descriptors.Complete.{IsAccepted, validate_descriptors-IsAccepted}
use cppup.Plugin.StaticRegistry.{
  StaticPluginRegistration, PluginRegistry, register_plugin, find_build_system_descriptor,
  collect_cli_command_descriptors, has_id,
}
use cppup.Plugin.StaticRegistry.Register.{
  IsRegistry, Registers, register_plugin-IsRegistry, register_plugin-Registers,
}
use cppup.Plugin.StaticRegistry.Lookup.{all_descriptors, first, select, registry_lookups}

abbrev cmake : Descriptor
cmake = record { kind = 1; id = some (codes "cmake"); vtable_version = 1; has_vtable = true }

abbrev cmake_manifest : Manifest
cmake_manifest = record new_manifest {
  name = codes "cmake";
  entries =
      record { id = codes "cmake"; kind = build_system; vtable_version = 1; description = none }
      ∷ [];
}

cmake_valid : validate_descriptors (some cmake ∷ []) cmake_manifest default_vtable_support ≡ ok tt
unfolding validate_descriptors check_all check_descriptor check_known check_entry check_supported
    find_entry from_c_kind eq_kind is_supported has_version eqb contains
cmake_valid = refl

IsAccepted_example : IsAccepted default_vtable_support cmake_manifest (some cmake ∷ [])
IsAccepted_example =
    validate_descriptors-IsAccepted (some cmake ∷ []) cmake_manifest default_vtable_support
      cmake_valid

-- reads every text as the same manifest
abbrev read_cmake : Bytes → Outcome Bytes Manifest
read_cmake text = ok cmake_manifest

abbrev cmake_registration : StaticPluginRegistration
cmake_registration = record {
  name = codes "cmake";
  manifest_toml = [];
  descriptors = some cmake ∷ [];
}

IsRegistry_example :
    IsRegistry read_cmake default_vtable_support
      (register_plugin read_cmake [] cmake_registration default_vtable_support).0
IsRegistry_example =
    register_plugin-IsRegistry read_cmake default_vtable_support [] cmake_registration
      (record { plugins = tt; distinct = tt })

Registers_example :
    Registers read_cmake default_vtable_support [] cmake_registration
      (register_plugin read_cmake [] cmake_registration default_vtable_support)
Registers_example =
    register_plugin-Registers read_cmake default_vtable_support [] cmake_registration

abbrev plugins : PluginRegistry
plugins = record { static_plugins = cmake_registration ∷ []; dynamic_plugins = [] }

lookups_example :
    (find_build_system_descriptor plugins (codes "cmake")
      ≡ first (select (λ d. d.kind == 1 && has_id d.id (codes "cmake")) (all_descriptors plugins)))
    × (collect_cli_command_descriptors plugins
        ≡ select (λ d. d.kind == 6) (all_descriptors plugins))
lookups_example = registry_lookups plugins (codes "cmake")
