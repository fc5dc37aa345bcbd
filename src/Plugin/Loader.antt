-- ===== src/Plugin/Loader.antt =====
-- src/core/plugin/loader.cpp and loader.hpp: a plugin is read from its shared object and the
-- manifest beside it.
pub mod Loads
pub mod NoPanic
use cppup.Base.{
  Bool, true, false, not, ◌&&◌, ◌||◌, List, [], ◌∷◌, ◌++◌, ◌==◌, Option, none, some, Bytes, codes,
  eqb, if◌then◌else◌, Outcome, ok, err, ◌>>=◌,
}
use cppup.Plugin.Descriptors.{
  eq_kind, ManifestEntry, Manifest, Descriptor, VtableSupport, DescriptorError,
  validate_descriptors,
}
use cppup.Plugin.Manifest.{ParseDiagnostic, parse_manifest, required}
use cppup.Plugin.Manifest.Tables.{Toml}

pub data LoadError : Type 0 where
  sidecar_read_failure sidecar_parse_failure dlopen_failure entries_symbol_missing : LoadError
  manifest_symbol_missing embedded_manifest_null embedded_parse_failure : LoadError
  embedded_sidecar_mismatch : LoadError

-- The last code keeps the diagnostic whose detail it prints.
pub data LoadDiagnostic : Type 0 where
  failed : LoadError → Bytes → LoadDiagnostic
  descriptor_validation_failure : DescriptorError → LoadDiagnostic

-- The files and the loader of shared objects. A symbol that is there is the function behind it,
-- as what a call of it returns.
pub record DynamicLoader : Type 1 where
  pub Handle : Type 0
  pub read_file : Bytes → Outcome Bytes Bytes
  pub open_library : Bytes → Outcome Bytes Handle
  pub entries_sym : Handle → Option (List (Option Descriptor))
  pub manifest_sym : Handle → Option (Option Bytes)

-- What a call does to the handles, in order.
pub data HandleEvent (H : Type 0) : Type 0 where
  opened closed : H → HandleEvent H

pub record LoadedPlugin (H : Type 0) : Type 0 where
  pub manifest : Manifest
  pub descriptors : List (Option Descriptor)
  pub handle : H

-- two elements of `EntrySig`
unfoldable pub eq_sig : ManifestEntry → ManifestEntry → Bool
eq_sig a b = eqb a.id b.id && (eq_kind a.kind b.kind && (a.vtable_version == b.vtable_version))

unfoldable pub has_sig : ManifestEntry → List ManifestEntry → Bool
has_sig e [] = false
has_sig e (x ∷ entries) = eq_sig e x || has_sig e entries

unfoldable pub sigs_within : List ManifestEntry → List ManifestEntry → Bool
sigs_within [] entries = true
sigs_within (e ∷ rest) entries = has_sig e entries && sigs_within rest entries

-- entries_signature(a) == entries_signature(b)
unfoldable pub same_signature : Manifest → Manifest → Bool
same_signature a b = sigs_within a.entries b.entries && sigs_within b.entries a.entries

-- an error, as this function reports it
abbrev pub or_failed :
    {A B : Type 0} → (A → LoadDiagnostic) → Outcome A B → Outcome LoadDiagnostic B
or_failed report (ok b) = ok b
or_failed report (err a) = err (report a)

-- an early return, or nothing
abbrev pub verify : Bool → LoadError → Bytes → Outcome LoadDiagnostic (Unit {0})
verify good code detail = if good then ok tt else err (failed code detail)

abbrev pub found : {A : Type 0} → LoadError → Bytes → Option A → Outcome LoadDiagnostic A
found code detail none = err (failed code detail)
found code detail (some a) = ok a

module _ (toml : Toml) (loader : DynamicLoader) where
  open loader use {Handle, read_file, open_library, entries_sym, manifest_sym}

  abbrev pub LoadResult : Type 0
  LoadResult = List (HandleEvent Handle) × Outcome LoadDiagnostic (LoadedPlugin Handle)

  unfoldable pub parse_as : LoadError → Bytes → Outcome LoadDiagnostic Manifest
  parse_as code text = or_failed (λ d. failed code d.detail) (parse_manifest toml text)

  -- step 1
  unfoldable pub read_sidecar : Bytes → Outcome LoadDiagnostic Manifest
  read_sidecar so_path =
      or_failed (failed sidecar_read_failure) (read_file (so_path ++ codes ".toml")) >>= λ text.
      parse_as sidecar_parse_failure text

  -- steps 3 to 5, with the handle
  unfoldable pub load_opened :
      Bytes → VtableSupport → Manifest → Handle → Outcome LoadDiagnostic (List (Option Descriptor))
  load_opened so_path support sidecar handle =
      found entries_symbol_missing (codes "cppup_plugin_entries not exported by " ++ so_path)
        (entries_sym handle)
      >>= λ descriptors.
          found manifest_symbol_missing (codes "cppup_plugin_manifest not exported by " ++ so_path)
            (manifest_sym handle)
          >>= λ text.
              found embedded_manifest_null (codes "cppup_plugin_manifest() returned NULL") text
              >>= λ embedded_text. parse_as embedded_parse_failure embedded_text >>= λ embedded.
                  verify (same_signature sidecar embedded) embedded_sidecar_mismatch
                    (codes "embedded manifest entries set disagrees with sidecar")
                  >>= λ _.
                      or_failed descriptor_validation_failure
                        (validate_descriptors descriptors sidecar support)
                      >>= λ _. ok descriptors

  -- the destructor of `handle`, or its move into the result
  unfoldable pub with_handle :
      Manifest → Handle → Outcome LoadDiagnostic (List (Option Descriptor)) → LoadResult
  with_handle sidecar handle (err e) = (opened handle ∷ closed handle ∷ [], err e)
  with_handle sidecar handle (ok descriptors) = (
    opened handle ∷ [],
    ok (record { manifest = sidecar; descriptors = descriptors; handle = handle }),
  )

  unfoldable pub open_plugin : Bytes → VtableSupport → Manifest → Outcome Bytes Handle → LoadResult
  open_plugin so_path support sidecar (err message) = ([], err (failed dlopen_failure message))
  open_plugin so_path support sidecar (ok handle) =
      with_handle sidecar handle (load_opened so_path support sidecar handle)

  unfoldable pub load_described :
      Bytes → VtableSupport → Outcome LoadDiagnostic Manifest → LoadResult
  load_described so_path support (err e) = ([], err e)
  load_described so_path support (ok sidecar) =
      open_plugin so_path support sidecar (open_library so_path)

  unfoldable pub load_plugin : Bytes → VtableSupport → LoadResult
  load_plugin so_path support = load_described so_path support (read_sidecar so_path)
