-- ===== src/Tests/Loader.antt =====
-- The theorems about manifests and the loader of plugins, at one plugin.
use cppup.Base.{
  ℕ, ◌≡◌, refl, arith, true, List, [], ◌∷◌, Option, some, none, Bytes, codes, ok, err, eqb,
  contains, insert, if◌then◌else◌, ◌≢◌, ℤ, pos, put_digits, to_string, eq_int,
}
use cppup.Base.Regex.{regex_match, accepts_empty, derivative}
use cppup.Plugin.Descriptors.{
  Manifest, Descriptor, build_system, new_manifest, default_vtable_support, validate_descriptors,
  panicked,
}
use cppup.Plugin.Manifest.{
  parse_manifest, parsed_table, parse_root, reject_unknown_keys, reject_unknown, check_schema,
  parse_plugin_scalars, required_string, optional_string, validate_plugin_fields,
  parse_plugin_entries, parse_entries, parse_entry, parse_entry_kind, to_version,
  parse_plugin_dependencies, parse_dependencies, parse_string_array, parse_strings,
}
use cppup.Plugin.Manifest.Tables.{Toml}
use cppup.Plugin.Manifest.Formats.{
  is_semver, is_semver_range, is_rfc3339, is_valid_name, is_valid_build_hash,
}
use cppup.Plugin.Manifest.Entries.{IsManifest}
use cppup.Plugin.Manifest.Accepted.{parse_manifest-IsManifest}
use cppup.Plugin.Loader.{DynamicLoader, load_plugin}
use cppup.Plugin.Loader.Loads.{Loads, load_plugin-Loads}
use cppup.Plugin.Loader.NoPanic.{validate_descriptors-total}

-- the nodes of a TOML document
mutual
  data Value : Type 0 where
    text : Bytes → Value
    number : ℤ → Value
    table : Fields → Value
    array : Items → Value

  data Fields : Type 0 where
    end : Fields
    field : Bytes → Value → Fields → Fields

  data Items : Type 0 where
    stop : Items
    item : Value → Items → Items

abbrev field_keys : Fields → List Bytes
field_keys end = []
field_keys (field k v r) = k ∷ field_keys r

abbrev find_field : Fields → Bytes → Option Value
find_field end key = none
find_field (field k v r) key = let rest = find_field r key in if eqb k key then some v else rest

abbrev values_of : Items → List Value
values_of stop = []
values_of (item v r) = v ∷ values_of r

abbrev string_of : Value → Option Bytes
string_of (text s) = some s
string_of _ = none

abbrev integer_of : Value → Option ℤ
integer_of (number z) = some z
integer_of _ = none

abbrev array_of : Value → Option (List Value)
array_of (array l) = some (values_of l)
array_of _ = none

abbrev table_of : Value → Option Fields
table_of (table t) = some t
table_of _ = none

abbrev entry_table : Fields
entry_table = field (codes "id") (text (codes "cmake")) (
    field (codes "kind") (text (codes "build_system"))
      (field (codes "vtable_version") (number (pos 1)) end))

abbrev hash : Bytes
hash = codes "sha256:0123456789abcdef0123456789abcdef0123456789abcdef0123456789abcdef"

abbrev plugin_table : Fields
plugin_table = field (codes "name") (text (codes "cmake")) (
    field (codes "version") (text (codes "1.20.0")) (
      field (codes "cppup_compat") (text (codes ">=0.1.0")) (
        field (codes "build_hash") (text hash) (
          field (codes "commit_hash") (text (codes "abc")) (
            field (codes "build_date") (text (codes "2025-01-02T03:04:05Z")) (
              field (codes "license") (text (codes "MIT"))
                (field (codes "entries") (array (item (table entry_table) stop)) end)))))))

abbrev document : Fields
document = field (codes "schema") (number (pos 1)) (field (codes "plugin") (table plugin_table) end)

-- reads every text as the same document
abbrev toml_example : Toml
toml_example = record {
  Node = Value;
  Table = Fields;
  keys = field_keys;
  get = find_field;
  as_string = string_of;
  as_integer = integer_of;
  as_array = array_of;
  as_table = table_of;
  parse = λ s. ok document;
}

abbrev manifest_example : Manifest
manifest_example = record new_manifest {
  name = codes "cmake";
  version = codes "1.20.0";
  cppup_compat = codes ">=0.1.0";
  build_hash = hash;
  commit_hash = codes "abc";
  build_date = codes "2025-01-02T03:04:05Z";
  license = codes "MIT";
  entries =
      record { id = codes "cmake"; kind = build_system; vtable_version = 1; description = none }
      ∷ [];
}

parse_example : parse_manifest toml_example [] ≡ ok manifest_example
unfolding parse_manifest parsed_table parse_root reject_unknown_keys reject_unknown check_schema
    parse_plugin_scalars required_string optional_string validate_plugin_fields parse_plugin_entries
    parse_entries parse_entry parse_entry_kind to_version parse_plugin_dependencies
    parse_dependencies parse_string_array parse_strings is_semver is_semver_range is_rfc3339
    is_valid_name is_valid_build_hash regex_match accepts_empty derivative eqb contains insert
    put_digits to_string eq_int
parse_example = refl

IsManifest_example : IsManifest manifest_example
IsManifest_example = parse_manifest-IsManifest toml_example [] manifest_example parse_example

-- Numbers with a zero in front, an empty identifier, and no date of the calendar have the right form.
odd_texts :
    (is_semver (codes "01.0.0") ≡ true)
    × (is_semver (codes "1.0.0-a..b") ≡ true)
    × (is_rfc3339 (codes "9999-99-99T99:99:99Z") ≡ true)
unfolding is_semver is_rfc3339 regex_match accepts_empty derivative
odd_texts = (refl, refl, refl)

abbrev descriptor_example : Descriptor
descriptor_example = record {
  kind = 1;
  id = some (codes "cmake");
  vtable_version = 1;
  has_vtable = true;
}

-- one shared object, with one descriptor
abbrev loader_example : DynamicLoader
loader_example = record {
  Handle = ℕ;
  read_file = λ path. ok [];
  open_library = λ path. ok 7;
  entries_sym = λ h. some (some descriptor_example ∷ []);
  manifest_sym = λ h. some (some []);
}

Loads_example :
    Loads toml_example loader_example default_vtable_support
      (codes "cmake.so")
      (load_plugin toml_example loader_example (codes "cmake.so") default_vtable_support)
Loads_example =
    load_plugin-Loads toml_example loader_example default_vtable_support (codes "cmake.so")

no_panic_example :
    validate_descriptors
      (some descriptor_example ∷ none ∷ [])
      manifest_example
      default_vtable_support
    ≢ err panicked
no_panic_example =
    validate_descriptors-total toml_example [] manifest_example default_vtable_support
      (some descriptor_example ∷ none ∷ []) parse_example ((omega arith, omega arith), tt)
