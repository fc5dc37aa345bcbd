-- ===== src/Plugin/Manifest.antt =====
-- src/core/plugin/manifest.cpp, over the calls of toml++.
pub mod Tables
pub mod Formats
pub mod Grammar
pub mod Versions
pub mod Dates
pub mod Entries
pub mod Accepted
use cppup.Base.{
  ℕ, suc, ◌+◌, ◌^◌, Bool, true, false, not, ◌&&◌, ◌||◌, ltb, leb, ℤ, pos, negsuc, eq_int, List, [],
  ◌∷◌, ◌++◌, Option, none, some, Bytes, codes, eqb, to_string, is_empty, if◌then◌else◌, contains,
  insert, Outcome, ok, err, ◌>>=◌, length,
}
use cppup.Plugin.Descriptors.{
  EntryKind, build_system, package_source, logger, cli_command, ManifestEntry, ManifestDependencies,
  Manifest, new_manifest,
}
use cppup.Plugin.Manifest.Tables.{Toml}
use cppup.Plugin.Manifest.Formats.{
  is_semver, is_semver_range, is_rfc3339, is_valid_name, is_valid_build_hash,
}

pub data ManifestError : Type 0 where
  parse_failure schema_version_mismatch missing_field wrong_field_type invalid_name : ManifestError
  duplicate_entry_id invalid_semver invalid_semver_range invalid_build_hash : ManifestError
  invalid_build_date unknown_entry_kind empty_entries unknown_top_level_key : ManifestError

pub record ParseDiagnostic : Type 0 where
  pub code : ManifestError
  pub detail : Bytes

-- the helper `err`
abbrev pub fail : {A : Type 0} → ManifestError → Bytes → Outcome ParseDiagnostic A
fail code detail = err (record { code = code; detail = detail })

-- an early return, or nothing
abbrev pub check : Bool → ManifestError → Bytes → Outcome ParseDiagnostic (Unit {0})
check good code detail = if good then ok tt else fail code detail

-- the node of a key that has to be there, and a value that has to be of the type
abbrev pub required : {A : Type 0} → ManifestError → Bytes → Option A → Outcome ParseDiagnostic A
required code detail none = fail code detail
required code detail (some a) = ok a

unfoldable pub reject_unknown : List Bytes → List Bytes → Bytes → Outcome ParseDiagnostic (Unit {0})
reject_unknown [] known context = ok tt
reject_unknown (key ∷ keys) known context =
    let rest = reject_unknown keys known context in
    if not (contains key known)
    then fail unknown_top_level_key (codes "unknown key '" ++ (key ++ (codes "' in " ++ context)))
    else rest

unfoldable pub parse_entry_kind : Bytes → Outcome ParseDiagnostic EntryKind
parse_entry_kind raw =
    if eqb raw (codes "build_system")
    then ok build_system
    else if eqb raw (codes "package_source")
    then ok package_source
    else if eqb raw (codes "logger")
    then ok logger
    else if eqb raw (codes "cli_command")
    then ok cli_command
    else fail unknown_entry_kind (codes "unknown entry kind '" ++ (raw ++ codes "'"))

-- an int64_t that is to be a uint32_t, and not zero
unfoldable pub to_version : Bytes → ℤ → Outcome ParseDiagnostic ℕ
to_version detail (negsuc n) = fail wrong_field_type detail
to_version detail (pos n) = if ltb n 1 || leb (2 ^ 32) n then fail wrong_field_type detail else ok n

abbrev pub print_int : ℤ → Bytes
print_int (pos n) = to_string n
print_int (negsuc n) = b'-' ∷ to_string (suc n)

abbrev pub field_name : Bytes → Bytes → Bytes
field_name context key = context ++ (codes "." ++ key)

unfoldable pub validate_plugin_fields : Manifest → Outcome ParseDiagnostic (Unit {0})
validate_plugin_fields m =
    check (is_valid_name m.name) invalid_name (codes "plugin.name: '" ++ (m.name ++ codes "'"))
    >>= λ _.
        check (is_semver m.version) invalid_semver
          (codes "plugin.version: '" ++ (m.version ++ codes "'"))
        >>= λ _.
            check (is_semver_range m.cppup_compat) invalid_semver_range
              (codes "plugin.cppup_compat: '" ++ (m.cppup_compat ++ codes "'"))
            >>= λ _.
                check (is_valid_build_hash m.build_hash) invalid_build_hash
                  (codes "plugin.build_hash: '" ++ (m.build_hash ++ codes "'"))
                >>= λ _.
                    check (is_rfc3339 m.build_date) invalid_build_date
                      (codes "plugin.build_date: '" ++ (m.build_date ++ codes "'"))

abbrev pub entry_keys : List Bytes
entry_keys = codes "id" ∷ codes "kind" ∷ codes "vtable_version" ∷ codes "description" ∷ []

abbrev pub plugin_keys : List Bytes
plugin_keys =
    codes "name"
    ∷ codes "version"
    ∷ codes "cppup_compat"
    ∷ codes "build_hash"
    ∷ codes "commit_hash"
    ∷ codes "build_date"
    ∷ codes "license"
    ∷ codes "homepage"
    ∷ codes "entries"
    ∷ codes "dependencies"
    ∷ []

module _ (toml : Toml) where
  open toml use {Node, Table, keys, get, as_string, as_integer, as_array, as_table}

  unfoldable pub reject_unknown_keys :
      Table → List Bytes → Bytes → Outcome ParseDiagnostic (Unit {0})
  reject_unknown_keys table known context = reject_unknown (keys table) known context

  unfoldable pub required_string : Table → Bytes → Bytes → Outcome ParseDiagnostic Bytes
  required_string table key context =
      required missing_field (field_name context key ++ codes " is required") (get table key)
      >>= λ node.
          required wrong_field_type (field_name context key ++ codes " must be a string")
            (as_string node)

  -- a string that may be absent
  unfoldable pub optional_string : Bytes → Option Node → Outcome ParseDiagnostic (Option Bytes)
  optional_string detail none = ok none
  optional_string detail (some node) =
      required wrong_field_type detail (as_string node) >>= λ s. ok (some s)

  unfoldable pub parse_entry : Table → ℕ → Outcome ParseDiagnostic ManifestEntry
  parse_entry entry_t index =
      let ctx = codes "plugin.entries[" ++ (to_string index ++ codes "]") in
      reject_unknown_keys entry_t entry_keys ctx >>= λ _.
      required_string entry_t (codes "id") ctx >>= λ id.
      check (is_valid_name id) invalid_name (ctx ++ (codes ".id: '" ++ (id ++ codes "'"))) >>= λ _.
      required_string entry_t (codes "kind") ctx >>= λ kind_str.
      parse_entry_kind kind_str >>= λ kind.
      required missing_field (ctx ++ codes ".vtable_version is required")
        (get entry_t (codes "vtable_version"))
      >>= λ node.
          required wrong_field_type (ctx ++ codes ".vtable_version must be an integer")
            (as_integer node)
          >>= λ value. to_version (ctx ++ codes ".vtable_version out of range") value >>= λ version.
              optional_string (ctx ++ codes ".description must be a string")
                (get entry_t (codes "description"))
              >>= λ description. ok (record {
                id = id;
                kind = kind;
                vtable_version = version;
                description = description;
              })

  unfoldable pub parse_strings : Bytes → List Node → Outcome ParseDiagnostic (List Bytes)
  parse_strings detail [] = ok []
  parse_strings detail (node ∷ nodes) = required wrong_field_type detail (as_string node) >>= λ s.
      parse_strings detail nodes >>= λ rest. ok (s ∷ rest)

  unfoldable pub parse_string_array : Table → Bytes → Bytes → Outcome ParseDiagnostic (List Bytes)
  parse_string_array table key context = elim (get table key) [
    | none ↦ ok []
    | some node ↦
        required wrong_field_type (field_name context key ++ codes " must be an array")
          (as_array node)
        >>= λ nodes.
            parse_strings (field_name context key ++ codes " must be an array of strings") nodes
  ]

  unfoldable pub check_schema : Table → Outcome ParseDiagnostic (Unit {0})
  check_schema root =
      required schema_version_mismatch (codes "schema field is missing") (get root (codes "schema"))
      >>= λ node.
          required wrong_field_type (codes "schema must be an integer") (as_integer node)
          >>= λ schema.
              check (eq_int schema (pos 1)) schema_version_mismatch
                (codes "schema must be 1, got " ++ print_int schema)

  unfoldable pub parse_plugin_scalars : Table → Manifest → Outcome ParseDiagnostic Manifest
  parse_plugin_scalars plugin out =
      required_string plugin (codes "name") (codes "plugin") >>= λ name.
      required_string plugin (codes "version") (codes "plugin") >>= λ version.
      required_string plugin (codes "cppup_compat") (codes "plugin") >>= λ cppup_compat.
      required_string plugin (codes "build_hash") (codes "plugin") >>= λ build_hash.
      required_string plugin (codes "commit_hash") (codes "plugin") >>= λ commit_hash.
      required_string plugin (codes "build_date") (codes "plugin") >>= λ build_date.
      required_string plugin (codes "license") (codes "plugin") >>= λ license.
      optional_string (codes "plugin.homepage must be a string") (get plugin (codes "homepage"))
      >>= λ homepage. ok (record out {
        name = name;
        version = version;
        cppup_compat = cppup_compat;
        build_hash = build_hash;
        commit_hash = commit_hash;
        build_date = build_date;
        license = license;
        homepage = homepage;
      })

  -- the loop, from the index `i` on, with the ids it has met
  unfoldable pub parse_entries :
      ℕ → List Bytes → List Node → Outcome ParseDiagnostic (List ManifestEntry)
  parse_entries i seen_ids [] = ok []
  parse_entries i seen_ids (node ∷ nodes) =
      required wrong_field_type
        (codes "plugin.entries[" ++ (to_string i ++ codes "] must be a table")) (as_table node)
      >>= λ entry_t. parse_entry entry_t i >>= λ entry.
          check (not (contains entry.id seen_ids)) duplicate_entry_id
            (codes "duplicate entry id: '" ++ (entry.id ++ codes "'"))
          >>= λ _. parse_entries (i + 1) (insert entry.id seen_ids) nodes >>= λ entries.
              ok (entry ∷ entries)

  unfoldable pub parse_plugin_entries : Table → Outcome ParseDiagnostic (List ManifestEntry)
  parse_plugin_entries plugin =
      required empty_entries (codes "plugin.entries is required") (get plugin (codes "entries"))
      >>= λ node.
          required wrong_field_type (codes "plugin.entries must be an array of tables")
            (as_array node)
          >>= λ nodes.
              check (not (is_empty nodes)) empty_entries (codes "plugin.entries is empty") >>= λ _.
              parse_entries 0 [] nodes

  unfoldable pub parse_dependencies : Node → Outcome ParseDiagnostic ManifestDependencies
  parse_dependencies node =
      required wrong_field_type (codes "plugin.dependencies must be a table") (as_table node)
      >>= λ deps_t.
          reject_unknown_keys deps_t (codes "system" ∷ codes "plugins" ∷ [])
            (codes "plugin.dependencies")
          >>= λ _.
              parse_string_array deps_t (codes "system") (codes "plugin.dependencies") >>= λ system.
              parse_string_array deps_t (codes "plugins") (codes "plugin.dependencies")
              >>= λ plugins. ok (record { system = system; plugins = plugins })

  unfoldable pub parse_plugin_dependencies : Table → Outcome ParseDiagnostic ManifestDependencies
  parse_plugin_dependencies plugin = elim (get plugin (codes "dependencies")) [
    | none ↦ ok (record { system = []; plugins = [] })
    | some node ↦ parse_dependencies node
  ]

  unfoldable pub parse_root : Table → Outcome ParseDiagnostic Manifest
  parse_root root =
      reject_unknown_keys root (codes "schema" ∷ codes "plugin" ∷ []) (codes "root") >>= λ _.
      check_schema root >>= λ _.
      required missing_field (codes "[plugin] table is required") (get root (codes "plugin"))
      >>= λ node.
          required wrong_field_type (codes "plugin must be a table") (as_table node) >>= λ plugin.
          reject_unknown_keys plugin plugin_keys (codes "plugin") >>= λ _.
          parse_plugin_scalars plugin new_manifest >>= λ manifest.
          validate_plugin_fields manifest >>= λ _. parse_plugin_entries plugin >>= λ entries.
          parse_plugin_dependencies plugin >>= λ dependencies.
          ok (record manifest { entries = entries; dependencies = dependencies })

  -- the exception, or the table
  unfoldable pub parsed_table : Outcome Bytes Table → Outcome ParseDiagnostic Manifest
  parsed_table (err what) = fail parse_failure what
  parsed_table (ok root) = parse_root root

  unfoldable pub parse_manifest : Bytes → Outcome ParseDiagnostic Manifest
  parse_manifest toml_text = parsed_table (toml.parse toml_text)
