-- ===== src/Plugin/Loader/NoPanic.antt =====
-- The panics of `validate_descriptors`, for a manifest that was parsed.
use cppup.Base.{
  ℕ, ◌+◌, ◌≤◌, Bool, List, [], ◌∷◌, ◌≡◌, ◌≢◌, refl, sym, arith, All, Option, none, some, Bytes,
  Bool-cases, inl, inr, ok, err, eqb,
}
use cppup.Plugin.Descriptors.{
  EntryKind, ManifestEntry, Manifest, Descriptor, VtableSupport, panicked, is_supported,
  from_c_kind, find_entry, id_of, check_supported, check_entry, check_known, check_descriptor,
  check_all, validate_descriptors,
}
use cppup.Plugin.Descriptors.Sound.{present}
use cppup.Plugin.Manifest.{parse_manifest}
use cppup.Plugin.Manifest.Tables.{Toml}
use cppup.Plugin.Manifest.Entries.{IsHostKind, IsEntry}
use cppup.Plugin.Manifest.Accepted.{parse_manifest-IsManifest}

-- A kind of the C enumeration.
abbrev pub IsCKind : Descriptor → Type 0
IsCKind d = (1 ≤ d.kind) × (d.kind ≤ 6)

from_c_kind-total : (n : ℕ) → 1 ≤ n → n ≤ 6 → from_c_kind n ≢ none
unfolding from_c_kind
from_c_kind-total n h k = ground arith

supported-total :
    (support : VtableSupport) (k : EntryKind) (v : ℕ)
    → IsHostKind k
    → is_supported support k v ≢ none
unfolding is_supported
supported-total support k v h = ground arith

check_supported-total :
    (id : Bytes) (v : ℕ) (o : Option Bool) → o ≢ none → check_supported id v o ≢ err panicked
unfolding check_supported
check_supported-total id v o h = ground arith

check_entry-total :
    (support : VtableSupport) (d : Descriptor) (e : ManifestEntry) (o : Option EntryKind)
    → o ≢ none
    → IsHostKind e.kind
    → check_entry support d e o ≢ err panicked
unfolding check_entry
check_entry-total support d e none h k = absurd (h refl)
check_entry-total support d e (some kind) h k = ground (
  arith,
  check_supported-total (id_of d) d.vtable_version (is_supported support e.kind d.vtable_version)
      (supported-total support e.kind d.vtable_version k),
)

find_entry-IsHostKind :
    (id : Bytes) (entries : List ManifestEntry) (e : ManifestEntry)
    → All IsEntry entries
    → find_entry id entries ≡ some e
    → IsHostKind e.kind
unfolding find_entry
find_entry-IsHostKind id [] e all h = absurd (cc)
find_entry-IsHostKind id (x ∷ entries) e (valid, all) h = elim (Bool-cases (eqb x.id id)) [
  | inl q ↦ let same : x ≡ e = ground arith in rw (sym same) valid.kind
  | inr q ↦ find_entry-IsHostKind id entries e all (ground arith)
]

check_known-total :
    (support : VtableSupport) (d : Descriptor) (o : Option ManifestEntry)
    → IsCKind d
    → ((e : ManifestEntry) → o ≡ some e → IsHostKind e.kind)
    → check_known support d o ≢ err panicked
unfolding check_known
check_known-total support d none c h = ground arith
check_known-total support d (some e) c h =
    check_entry-total support d e (from_c_kind d.kind) (from_c_kind-total d.kind c.0 c.1) (h e refl)

check_descriptor-total :
    (support : VtableSupport) (entries : List ManifestEntry) (seen : List Bytes) (d : Descriptor)
    → All IsEntry entries
    → IsCKind d
    → check_descriptor support entries seen d ≢ err panicked
unfolding check_descriptor
check_descriptor-total support entries seen d all c = ground (
  arith,
  check_known-total support d (find_entry (id_of d) entries) c
      (λ e. find_entry-IsHostKind (id_of d) entries e all),
)

check_all-total :
    (support : VtableSupport) (entries : List ManifestEntry) (seen : List Bytes) (i : ℕ)
    (ds : List (Option Descriptor))
    → All IsEntry entries
    → All IsCKind (present ds)
    → check_all support entries seen i ds ≢ err panicked
unfolding check_all
check_all-total support entries seen i [] all c = ground arith
check_all-total support entries seen i (none ∷ ds) all c = ground arith
check_all-total support entries seen i (some d ∷ ds) all (c, cs) = ground (
  arith,
  check_descriptor-total support entries seen d all c,
  check_all-total support entries (id_of d ∷ seen) (i + 1) ds all cs,
)

-- Against a manifest that was parsed, descriptors with a kind of the C enumeration are checked
-- without a panic, whatever else is wrong with them.
pub validate_descriptors-total :
    (toml : Toml) (text : Bytes) (m : Manifest) (support : VtableSupport)
    (ds : List (Option Descriptor))
    → parse_manifest toml text ≡ ok m
    → All IsCKind (present ds)
    → validate_descriptors ds m support ≢ err panicked
unfolding validate_descriptors
validate_descriptors-total toml text m support ds h c = ground (
  arith,
  check_all-total support m.entries [] 0 ds (parse_manifest-IsManifest toml text m h).entries c,
)
