-- ===== src/Plugin/Loader/Loads.antt =====
-- What `load_plugin` returns, and what it leaves open.
use cppup.Base.{
  true, false, List, [], ◌∷◌, ◌++◌, ◌≡◌, refl, sym, arith, All, ◌⊎◌, inl, inr, Option, none, some,
  Bytes, codes, eqb_iff, Outcome, ok, err,
}
use cppup.Base.Ensured.{Ensured, value, error, taking, checked}
use cppup.Plugin.Descriptors.{
  ManifestEntry, Manifest, Descriptor, VtableSupport, validate_descriptors,
}
use cppup.Plugin.Descriptors.Complete.{IsAccepted, validate_descriptors-IsAccepted}
use cppup.Plugin.Descriptors.Sound.{eq_kind-eq}
use cppup.Plugin.Manifest.{ParseDiagnostic, parse_manifest}
use cppup.Plugin.Manifest.Tables.{Toml}
use cppup.Plugin.Manifest.Entries.{IsManifest}
use cppup.Plugin.Manifest.Accepted.{parse_manifest-IsManifest}
use cppup.Plugin.Loader.{
  LoadDiagnostic, LoadError, DynamicLoader, opened, closed, LoadedPlugin, eq_sig, has_sig,
  sigs_within, same_signature, or_failed, found, LoadResult, parse_as, read_sidecar, load_opened,
  with_handle, open_plugin, load_described, load_plugin,
}

-- The entry is in the list, by its id, kind and version.
abbrev pub Declares : List ManifestEntry → ManifestEntry → Type 0
Declares [] e = false ≡ true
Declares (x ∷ entries) e =
    ((e.id ≡ x.id) × (e.kind ≡ x.kind) × (e.vtable_version ≡ x.vtable_version)) ⊎ Declares entries e

-- Both lists have the same entries, in any order.
abbrev pub SameEntries : List ManifestEntry → List ManifestEntry → Type 0
SameEntries k l = All (Declares l) k × All (Declares k) l

has_sig-Declares : (e : ManifestEntry) (l : List ManifestEntry) → has_sig e l ≡ true → Declares l e
unfolding has_sig eq_sig
has_sig-Declares e [] h = h
has_sig-Declares e (x ∷ l) h =
    ground (arith, has_sig-Declares e l, eqb_iff e.id x.id, eq_kind-eq e.kind x.kind)

sigs_within-Declares : (k l : List ManifestEntry) → sigs_within k l ≡ true → All (Declares l) k
unfolding sigs_within
sigs_within-Declares [] l h = tt
sigs_within-Declares (e ∷ k) l h =
    (has_sig-Declares e l (ground arith), sigs_within-Declares k l (ground arith))

-- The manifest in the shared object parses, and has the entries of the one beside it.
abbrev pub Embeds : (toml : Toml) (loader : DynamicLoader) → loader.Handle → Manifest → Type 0
Embeds toml loader handle sidecar =
    (text : Bytes) × (embedded : Manifest) × (loader.manifest_sym handle ≡ some (some text))
    × (parse_manifest toml text ≡ ok embedded)
    × SameEntries sidecar.entries embedded.entries

found-some :
    {A : Type 0} (code : LoadError) (detail : Bytes) (o : Option A) (a : A)
    → found code detail o ≡ ok a
    → o ≡ some a
found-some code detail none a h = absurd (cc)
found-some code detail (some b) a h = ground arith

or_failed-ok :
    {A B : Type 0} (report : A → LoadDiagnostic) (m : Outcome A B) (b : B)
    → or_failed report m ≡ ok b
    → m ≡ ok b
or_failed-ok report (ok c) b h = ground arith
or_failed-ok report (err a) b h = absurd (cc)

module _ (toml : Toml) (loader : DynamicLoader) (support : VtableSupport) (so_path : Bytes) where
  -- A loaded plugin: its manifest is the one beside the shared object and is one that a plugin can
  -- have, and the object has the entries and the descriptors that it declares.
  pub record IsLoaded (p : LoadedPlugin loader.Handle) : Type 0 where
    pub sidecar :
        (text : Bytes) × (loader.read_file (so_path ++ codes ".toml") ≡ ok text)
        × (parse_manifest toml text ≡ ok p.manifest)
    pub manifest : IsManifest p.manifest
    pub opened : loader.open_library so_path ≡ ok p.handle
    pub descriptors : loader.entries_sym p.handle ≡ some p.descriptors
    pub embeds : Embeds toml loader p.handle p.manifest
    pub accepted : IsAccepted support p.manifest p.descriptors

  abbrev IsOpened : Manifest → loader.Handle → List (Option Descriptor) → Type 0
  IsOpened sidecar handle ds =
      (loader.entries_sym handle ≡ some ds)
      × Embeds toml loader handle sidecar
      × IsAccepted support sidecar ds

  load_opened-IsOpened :
      (sidecar : Manifest) (handle : loader.Handle)
      → Ensured (IsOpened sidecar handle) (load_opened toml loader so_path support sidecar handle)
  unfolding load_opened parse_as same_signature
  load_opened-IsOpened sidecar handle =
      taking
        (found LoadError.entries_symbol_missing
          (codes "cppup_plugin_entries not exported by " ++ so_path) (loader.entries_sym handle))
        (λ ds e1.
          taking
            (found LoadError.manifest_symbol_missing
              (codes "cppup_plugin_manifest not exported by " ++ so_path)
              (loader.manifest_sym handle))
            (λ text e2.
              taking
                (found LoadError.embedded_manifest_null
                  (codes "cppup_plugin_manifest() returned NULL") text)
                (λ embedded_text e3.
                  taking
                    (or_failed
                      (λ d. LoadDiagnostic.failed LoadError.embedded_parse_failure d.detail)
                      (parse_manifest toml embedded_text))
                    (λ embedded e4. checked (same_signature sidecar embedded) _ _ (λ same.
                      taking
                        (or_failed LoadDiagnostic.descriptor_validation_failure
                          (validate_descriptors ds sidecar support))
                        (λ _ e6. value (
                          found-some _ _ (loader.entries_sym handle) ds e1,
                          (
                            embedded_text,
                            embedded,
                            rw (sym (found-some _ _ text embedded_text e3))
                                (found-some _ _ (loader.manifest_sym handle) text e2),
                            or_failed-ok _ (parse_manifest toml embedded_text) embedded e4,
                            (
                              sigs_within-Declares sidecar.entries embedded.entries (ground arith),
                              sigs_within-Declares embedded.entries sidecar.entries (ground arith),
                            ),
                          ),
                          validate_descriptors-IsAccepted ds sidecar support
                              (or_failed-ok _ (validate_descriptors ds sidecar support) _ e6),
                        )))))))

  -- Either a loaded plugin, which owns the one handle that was opened, or an error, with no handle
  -- left open.
  abbrev pub Loads : LoadResult toml loader → Type 0
  Loads (events, err e) =
      (events ≡ []) ⊎ ((handle : loader.Handle) × (events ≡ opened handle ∷ closed handle ∷ []))
  Loads (events, ok p) = (events ≡ opened p.handle ∷ []) × IsLoaded p

  with_handle-Loads :
      (text : Bytes) (sidecar : Manifest) (handle : loader.Handle)
      (r : Outcome LoadDiagnostic (List (Option Descriptor)))
      → loader.read_file (so_path ++ codes ".toml") ≡ ok text
      → parse_manifest toml text ≡ ok sidecar
      → loader.open_library so_path ≡ ok handle
      → Ensured (IsOpened sidecar handle) r
      → Loads (with_handle toml loader sidecar handle r)
  unfolding with_handle
  with_handle-Loads text sidecar handle (err e) read parse o h = inr (handle, refl)
  with_handle-Loads text sidecar handle (ok ds) read parse o (value h) = (
    refl,
    record {
      sidecar = (text, read, parse);
      manifest = parse_manifest-IsManifest toml text sidecar parse;
      opened = o;
      descriptors = h.0;
      embeds = h.1;
      accepted = h.2;
    },
  )

  open_plugin-Loads :
      (text : Bytes) (sidecar : Manifest) (o : Outcome Bytes loader.Handle)
      → loader.read_file (so_path ++ codes ".toml") ≡ ok text
      → parse_manifest toml text ≡ ok sidecar
      → loader.open_library so_path ≡ o
      → Loads (open_plugin toml loader so_path support sidecar o)
  unfolding open_plugin
  open_plugin-Loads text sidecar (err message) read parse e = inl refl
  open_plugin-Loads text sidecar (ok handle) read parse e =
      with_handle-Loads text sidecar handle (load_opened toml loader so_path support sidecar handle)
        read parse e (load_opened-IsOpened sidecar handle)

  abbrev IsBeside : Manifest → Type 0
  IsBeside m =
      (text : Bytes) × (loader.read_file (so_path ++ codes ".toml") ≡ ok text)
      × (parse_manifest toml text ≡ ok m)

  read_sidecar-IsBeside : Ensured IsBeside (read_sidecar toml loader so_path)
  unfolding read_sidecar parse_as
  read_sidecar-IsBeside =
      taking
        (or_failed (LoadDiagnostic.failed LoadError.sidecar_read_failure)
          (loader.read_file (so_path ++ codes ".toml")))
        (λ text read.
          parsed text (or_failed-ok _ (loader.read_file (so_path ++ codes ".toml")) text read)
            (parse_manifest toml text) refl)
    where
      parsed :
          (text : Bytes)
          → loader.read_file (so_path ++ codes ".toml") ≡ ok text
          → (r : Outcome ParseDiagnostic Manifest) → parse_manifest toml text ≡ r
          → Ensured IsBeside
              (or_failed (λ d. LoadDiagnostic.failed LoadError.sidecar_parse_failure d.detail) r)
      parsed text read (ok m) e = value (text, read, e)
      parsed text read (err d) e = error

  load_described-Loads :
      (r : Outcome LoadDiagnostic Manifest)
      → Ensured IsBeside r
      → Loads (load_described toml loader so_path support r)
  unfolding load_described
  load_described-Loads (err e) h = inl refl
  load_described-Loads (ok m) (value (text, read, parse)) =
      open_plugin-Loads text m (loader.open_library so_path) read parse refl

  -- A plugin that loads owns the one handle that was opened; the manifest beside the shared object
  -- parses and is one that a plugin can have, the embedded one parses and has the same entries, and
  -- the descriptors are accepted against it. A load that fails leaves no handle open.
  pub load_plugin-Loads : Loads (load_plugin toml loader so_path support)
  unfolding load_plugin
  load_plugin-Loads = load_described-Loads (read_sidecar toml loader so_path) read_sidecar-IsBeside
