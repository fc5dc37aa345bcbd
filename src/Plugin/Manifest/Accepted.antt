-- ===== src/Plugin/Manifest/Accepted.antt =====
-- What a manifest that parses holds.
use cppup.Base.{
  ℕ, ◌+◌, true, false, not, arith, ◌≡◌, refl, List, [], ◌∷◌, ◌++◌, map, All, Bytes, codes,
  to_string, is_empty, contains, insert, Outcome, ok, err, length, NoDup,
}
use cppup.Base.Ensured.{Ensured, value, error, Ensured-of_ok, weaken, after, knowing, checked}
use cppup.Plugin.Descriptors.{ManifestEntry, Manifest, new_manifest}
use cppup.Plugin.Manifest.{
  missing_field, wrong_field_type, empty_entries, required, parse_entry_kind, to_version,
  validate_plugin_fields, parse_entry, parse_entries, parse_plugin_entries, parse_root,
  parsed_table, parse_manifest, reject_unknown_keys, required_string, optional_string, entry_keys,
  plugin_keys, check_schema, parse_plugin_scalars, parse_plugin_dependencies,
}
use cppup.Plugin.Manifest.Tables.{Toml}
use cppup.Plugin.Manifest.Formats.{is_valid_name}
use cppup.Plugin.Manifest.Versions.{is_semver-IsVersion, is_semver_range-IsRange}
use cppup.Plugin.Manifest.Dates.{is_rfc3339-IsDate}
use cppup.Plugin.Manifest.Entries.{
  is_valid_name-IsName, is_valid_build_hash-IsHash, IsEntry, IsManifest,
  parse_entry_kind-IsHostKind, to_version-Fits, IsListed, IsListed-cons, some_entries,
  validate_plugin_fields-IsPlugin,
}

module _ (toml : Toml) where
  parse_entry-IsEntry :
      (entry_t : toml.Table) (index : ℕ) → Ensured IsEntry (parse_entry toml entry_t index)
  unfolding parse_entry
  parse_entry-IsEntry entry_t index =
      let ctx = codes "plugin.entries[" ++ (to_string index ++ codes "]") in
      after (reject_unknown_keys toml entry_t entry_keys ctx) (λ _.
        after (required_string toml entry_t (codes "id") ctx) (λ id.
          checked (is_valid_name id) _ _ (λ named.
            after (required_string toml entry_t (codes "kind") ctx) (λ raw.
              knowing {m = parse_entry_kind raw} (parse_entry_kind-IsHostKind raw) (λ kind host.
                after (required missing_field _ (toml.get entry_t (codes "vtable_version")))
                  (λ node.
                    after
                      (required wrong_field_type (ctx ++ codes ".vtable_version must be an integer")
                        (toml.as_integer node))
                      (λ z.
                        knowing {m = to_version (ctx ++ codes ".vtable_version out of range") z}
                          (to_version-Fits _ z)
                          (λ version fits.
                            after
                              (optional_string toml (ctx ++ codes ".description must be a string")
                                (toml.get entry_t (codes "description")))
                              (λ description. value (record {
                                id = is_valid_name-IsName id named;
                                kind = host;
                                positive = fits.0;
                                fits = fits.1;
                              }))))))))))

  parse_entries-IsListed :
      (i : ℕ) (seen : List Bytes) (nodes : List toml.Node)
      → Ensured (IsListed seen (length nodes)) (parse_entries toml i seen nodes)
  unfolding parse_entries
  parse_entries-IsListed i seen [] =
      value (record { counted = refl; all = tt; fresh = tt; distinct = tt })
  parse_entries-IsListed i seen (node ∷ nodes) =
      after
        (required wrong_field_type
          (codes "plugin.entries[" ++ (to_string i ++ codes "] must be a table"))
          (toml.as_table node))
        (λ entry_t.
          knowing {m = parse_entry toml entry_t i} (parse_entry-IsEntry entry_t i) (λ entry valid.
            checked (not (contains entry.id seen)) _ _ (λ new.
              knowing {m = parse_entries toml (i + 1) (insert entry.id seen) nodes}
                (parse_entries-IsListed (i + 1) (insert entry.id seen) nodes)
                (λ entries l.
                  value (IsListed-cons seen (length nodes) entry entries valid new l)))))

  abbrev IsPacked : List ManifestEntry → Type 0
  IsPacked entries =
      (is_empty entries ≡ false) × All IsEntry entries × NoDup (map (λ e. e.id) entries)

  parse_array-IsPacked :
      (nodes : List toml.Node)
      → not (is_empty nodes) ≡ true
      → Ensured IsPacked (parse_entries toml 0 [] nodes)
  parse_array-IsPacked [] h = absurd (ground arith)
  parse_array-IsPacked (node ∷ nodes) h =
      weaken (parse_entries-IsListed 0 [] (node ∷ nodes))
        (λ entries l. (some_entries entries (length nodes) l.counted, l.all, l.distinct))

  parse_plugin_entries-IsPacked :
      (plugin : toml.Table) → Ensured IsPacked (parse_plugin_entries toml plugin)
  unfolding parse_plugin_entries
  parse_plugin_entries-IsPacked plugin =
      after
        (required empty_entries (codes "plugin.entries is required")
          (toml.get plugin (codes "entries")))
        (λ node.
          after
            (required wrong_field_type (codes "plugin.entries must be an array of tables")
              (toml.as_array node))
            (λ nodes. checked (not (is_empty nodes)) _ _ (parse_array-IsPacked nodes)))

  parse_root-IsManifest : (root : toml.Table) → Ensured IsManifest (parse_root toml root)
  unfolding parse_root
  parse_root-IsManifest root =
      after (reject_unknown_keys toml root (codes "schema" ∷ codes "plugin" ∷ []) (codes "root"))
        (λ _. after (check_schema toml root) (λ _.
          after
            (required missing_field (codes "[plugin] table is required")
              (toml.get root (codes "plugin")))
            (λ node.
              after
                (required wrong_field_type (codes "plugin must be a table") (toml.as_table node))
                (λ plugin.
                  after (reject_unknown_keys toml plugin plugin_keys (codes "plugin")) (λ _.
                    after (parse_plugin_scalars toml plugin new_manifest) (λ m.
                      knowing {m = validate_plugin_fields m} (validate_plugin_fields-IsPlugin m)
                        (λ _ p.
                          knowing {m = parse_plugin_entries toml plugin}
                            (parse_plugin_entries-IsPacked plugin)
                            (λ entries q.
                              after (parse_plugin_dependencies toml plugin) (λ dependencies.
                                value (record {
                                  name = is_valid_name-IsName m.name p.0;
                                  version = is_semver-IsVersion m.version p.1;
                                  cppup_compat = is_semver_range-IsRange m.cppup_compat p.2;
                                  build_hash = is_valid_build_hash-IsHash m.build_hash p.3;
                                  build_date = is_rfc3339-IsDate m.build_date p.4;
                                  some_entry = q.0;
                                  entries = q.1;
                                  distinct = q.2;
                                }))))))))))

  parsed_table-IsManifest :
      (r : Outcome Bytes toml.Table) → Ensured IsManifest (parsed_table toml r)
  unfolding parsed_table
  parsed_table-IsManifest (err what) = error
  parsed_table-IsManifest (ok root) = parse_root-IsManifest root

  -- In a manifest that parses, the name is a lower-case letter and lower-case letters, digits, `_`
  -- and `-`; the version is three numbers with dots and tags behind `-` and `+`, the compatible
  -- versions are such versions behind operators and with commas between them, the hash is `sha256:`
  -- and 64 hexadecimal digits, and the date has the form of RFC 3339, but it need not be one of the
  -- calendar, and a number can begin with a zero. There are entries, of different ids, each with a
  -- kind that the host knows and a version from 1 that fits 32 bits.
  pub parse_manifest-IsManifest :
      (toml_text : Bytes) (m : Manifest) → parse_manifest toml toml_text ≡ ok m → IsManifest m
  unfolding parse_manifest
  parse_manifest-IsManifest toml_text m h =
      Ensured-of_ok (parsed_table-IsManifest (toml.parse toml_text)) h
