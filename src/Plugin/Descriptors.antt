-- ===== src/Plugin/Descriptors.antt =====
-- src/core/plugin/descriptor_validation.cpp and vtable_support.cpp, with the descriptor of
-- include/cppup/plugin/abi.h. A null pointer is `none`; of a vtable only its presence is modelled.
pub mod Sound
pub mod Complete
use cppup.Base.{
  ℕ, suc, ◌+◌, Bool, true, false, not, ◌||◌, List, [], ◌∷◌, Option, some, none, ◌==◌, if◌then◌else◌,
  Bytes, eqb, contains, length, Outcome, ok, err,
}

-- manifest.hpp: `EntryKind`
pub data EntryKind : Type 0 where
  build_system package_source logger template test_system cli_command : EntryKind

unfoldable pub eq_kind : EntryKind → EntryKind → Bool
eq_kind build_system build_system = true
eq_kind package_source package_source = true
eq_kind logger logger = true
eq_kind template template = true
eq_kind test_system test_system = true
eq_kind cli_command cli_command = true
eq_kind _ _ = false

-- manifest.hpp: `ManifestEntry`
pub record ManifestEntry : Type 0 where
  pub id : Bytes
  pub kind : EntryKind
  pub vtable_version : ℕ
  pub description : Option Bytes

pub record ManifestDependencies : Type 0 where
  pub system : List Bytes
  pub plugins : List Bytes

pub record Manifest : Type 0 where
  pub name : Bytes
  pub version : Bytes
  pub cppup_compat : Bytes
  pub build_hash : Bytes
  pub commit_hash : Bytes
  pub build_date : Bytes
  pub license : Bytes
  pub homepage : Option Bytes
  pub entries : List ManifestEntry
  pub dependencies : ManifestDependencies

-- Manifest{}
abbrev pub new_manifest : Manifest
new_manifest = record {
  name = [];
  version = [];
  cppup_compat = [];
  build_hash = [];
  commit_hash = [];
  build_date = [];
  license = [];
  homepage = none;
  entries = [];
  dependencies = record { system = []; plugins = [] };
}

-- `cppup_plugin_descriptor`; a kind is the number of its C enumerator
pub record Descriptor : Type 0 where
  pub kind : ℕ
  pub id : Option Bytes
  pub vtable_version : ℕ
  pub has_vtable : Bool

pub record VtableSupport : Type 0 where
  pub build_system_versions : List ℕ
  pub package_source_versions : List ℕ
  pub logger_versions : List ℕ
  pub cli_command_versions : List ℕ

unfoldable pub has_version : List ℕ → ℕ → Bool
has_version [] version = false
has_version (v ∷ versions) version = v == version || has_version versions version

-- `none` is the panic
unfoldable pub is_supported : VtableSupport → EntryKind → ℕ → Option Bool
is_supported support build_system v = some (has_version support.build_system_versions v)
is_supported support package_source v = some (has_version support.package_source_versions v)
is_supported support logger v = some (has_version support.logger_versions v)
is_supported support cli_command v = some (has_version support.cli_command_versions v)
is_supported support _ v = none

abbrev pub default_vtable_support : VtableSupport
default_vtable_support = record {
  build_system_versions = 1 ∷ [];
  package_source_versions = 1 ∷ [];
  logger_versions = 1 ∷ [];
  cli_command_versions = 1 ∷ [];
}

-- `none` is the panic
unfoldable pub from_c_kind : ℕ → Option EntryKind
from_c_kind kind =
    if kind == 1
    then some build_system
    else if kind == 2
    then some package_source
    else if kind == 3
    then some logger
    else if kind == 4
    then some template
    else if kind == 5
    then some test_system
    else if kind == 6
    then some cli_command
    else none

-- The codes, with what their details print. `panicked` is the end of the process.
pub data DescriptorError : Type 0 where
  entry_count_mismatch : ℕ → ℕ → DescriptorError
  null_descriptor_pointer : ℕ → DescriptorError
  null_vtable : Option Bytes → DescriptorError
  duplicate_descriptor_id entry_id_unknown entry_kind_mismatch : Bytes → DescriptorError
  vtable_version_mismatch : Bytes → ℕ → ℕ → DescriptorError
  vtable_version_unsupported : Bytes → ℕ → DescriptorError
  panicked : DescriptorError

-- `by_id.find(id)`; of entries with one id `emplace` keeps the first
unfoldable pub find_entry : Bytes → List ManifestEntry → Option ManifestEntry
find_entry id [] = none
find_entry id (e ∷ entries) = if eqb e.id id then some e else find_entry id entries

-- desc->id != nullptr ? desc->id : ""
abbrev pub id_of : Descriptor → Bytes
id_of d = elim d.id [ none ↦ [] | some id ↦ id ]

unfoldable pub check_supported : Bytes → ℕ → Option Bool → Outcome DescriptorError (Unit {0})
check_supported id v none = err panicked
check_supported id v (some false) = err (vtable_version_unsupported id v)
check_supported id v (some true) = ok tt

-- the tests against the manifest's entry
unfoldable pub check_entry :
    VtableSupport
    → Descriptor
    → ManifestEntry
    → Option EntryKind
    → Outcome DescriptorError (Unit {0})
check_entry support d e none = err panicked
check_entry support d e (some kind) =
    if not (eq_kind kind e.kind)
    then err (entry_kind_mismatch (id_of d))
    else if not (d.vtable_version == e.vtable_version)
    then err (vtable_version_mismatch (id_of d) d.vtable_version e.vtable_version)
    else check_supported (id_of d) d.vtable_version (is_supported support e.kind d.vtable_version)

unfoldable pub check_known :
    VtableSupport → Descriptor → Option ManifestEntry → Outcome DescriptorError (Unit {0})
check_known support d none = err (entry_id_unknown (id_of d))
check_known support d (some e) = check_entry support d e (from_c_kind d.kind)

-- the body of the loop, for a pointer that is not null
unfoldable pub check_descriptor :
    VtableSupport
    → List ManifestEntry
    → List Bytes
    → Descriptor
    → Outcome DescriptorError (Unit {0})
check_descriptor support entries seen d =
    if not d.has_vtable
    then err (null_vtable d.id)
    else if contains (id_of d) seen
    then err (duplicate_descriptor_id (id_of d))
    else check_known support d (find_entry (id_of d) entries)

abbrev pub and_then :
    Outcome DescriptorError (Unit {0})
    → Outcome DescriptorError (Unit {0})
    → Outcome DescriptorError (Unit {0})
and_then (ok _) later = later
and_then (err e) later = err e

unfoldable pub check_all :
    VtableSupport
    → List ManifestEntry
    → List Bytes
    → ℕ
    → List (Option Descriptor)
    → Outcome DescriptorError (Unit {0})
check_all support entries seen i [] = ok tt
check_all support entries seen i (none ∷ descriptors) = err (null_descriptor_pointer i)
check_all support entries seen i (some d ∷ descriptors) =
    and_then (check_descriptor support entries seen d)
      (check_all support entries (id_of d ∷ seen) (i + 1) descriptors)

unfoldable pub validate_descriptors :
    List (Option Descriptor) → Manifest → VtableSupport → Outcome DescriptorError (Unit {0})
validate_descriptors descriptors manifest support =
    if not (length descriptors == length manifest.entries)
    then err (entry_count_mismatch (length descriptors) (length manifest.entries))
    else check_all support manifest.entries [] 0 descriptors
