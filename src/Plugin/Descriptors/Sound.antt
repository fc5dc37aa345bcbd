-- ===== src/Plugin/Descriptors/Sound.antt =====
-- What `validate_descriptors` accepts.
use cppup.Base.{
  ℕ, ◌+◌, Bool, true, false, List, [], ◌∷◌, ◌≡◌, refl, sym, ap, arith, Option, some, none, Bytes,
  eqb_iff, contains, Outcome, ok, err, map, inl, inr, Option-cases,
}
use cppup.Plugin.Descriptors.{
  EntryKind, eq_kind, ManifestEntry, Descriptor, VtableSupport, is_supported, from_c_kind,
  DescriptorError, find_entry, id_of, check_supported, check_entry, check_known, check_descriptor,
  and_then, check_all,
}

-- the descriptors behind the pointers that are not null
abbrev pub present : List (Option Descriptor) → List Descriptor
present [] = []
present (none ∷ descriptors) = present descriptors
present (some d ∷ descriptors) = d ∷ present descriptors

-- The descriptor serves the entry: with a vtable, of its kind and version, which the host supports.
pub record Serves (support : VtableSupport) (d : Descriptor) (e : ManifestEntry) : Type 0 where
  pub vtable : d.has_vtable ≡ true
  pub id : id_of d ≡ e.id
  pub kind : from_c_kind d.kind ≡ some e.kind
  pub version : d.vtable_version ≡ e.vtable_version
  pub supported : is_supported support e.kind d.vtable_version ≡ some true

pub eq_kind-eq : (a b : EntryKind) → eq_kind a b ≡ true → a ≡ b
unfolding eq_kind
eq_kind-eq a b h = ground arith

find_entry-id :
    (id : Bytes) (entries : List ManifestEntry) (e : ManifestEntry)
    → find_entry id entries ≡ some e
    → e.id ≡ id
unfolding find_entry
find_entry-id id [] e h = ground arith
find_entry-id id (x ∷ entries) e h = ground (arith, eqb_iff x.id id, find_entry-id id entries e)

check_supported-ok :
    (id : Bytes) (v : ℕ) (o : Option Bool) → check_supported id v o ≡ ok tt → o ≡ some true
unfolding check_supported
check_supported-ok id v o h = ground arith

check_entry-ok :
    (support : VtableSupport) (d : Descriptor) (e : ManifestEntry) (o : Option EntryKind)
    → check_entry support d e o ≡ ok tt
    → (o ≡ some e.kind)
      × (d.vtable_version ≡ e.vtable_version)
      × (is_supported support e.kind d.vtable_version ≡ some true)
unfolding check_entry
check_entry-ok support d e none h = ground arith
check_entry-ok support d e (some k) h = ground (
  arith,
  eq_kind-eq k e.kind,
  check_supported-ok (id_of d) d.vtable_version (is_supported support e.kind d.vtable_version),
)

check_known-ok :
    (support : VtableSupport) (d : Descriptor) (entries : List ManifestEntry)
    → d.has_vtable ≡ true
    → check_known support d (find_entry (id_of d) entries) ≡ ok tt
    → (e : ManifestEntry) × (find_entry (id_of d) entries ≡ some e) × Serves support d e
unfolding check_known
check_known-ok support d entries v h = elim (Option-cases (find_entry (id_of d) entries)) [
  | inl q ↦ absurd (
      let bad : err (DescriptorError.entry_id_unknown (id_of d)) ≡ ok tt =
        rw (q, check_known) at h in
      cc)
  | inr (e, q) ↦
      let good : check_entry support d e (from_c_kind d.kind) ≡ ok tt = rw (q, check_known) at h in
      let (k, w, s) = check_entry-ok support d e (from_c_kind d.kind) good in
      (
        e,
        q,
        record {
          vtable = v;
          id = sym (find_entry-id (id_of d) entries e q);
          kind = k;
          version = w;
          supported = s;
        },
      )
]

-- Each descriptor serves the first entry of its id, and has a new id.
abbrev pub Checked : VtableSupport → List ManifestEntry → List Bytes → List Descriptor → Type 0
Checked support entries seen [] = Unit
Checked support entries seen (d ∷ ds) =
    (contains (id_of d) seen ≡ false)
    × ((e : ManifestEntry) × (find_entry (id_of d) entries ≡ some e) × Serves support d e)
    × Checked support entries (id_of d ∷ seen) ds

and_then-ok :
    (a b : Outcome DescriptorError (Unit {0})) → and_then a b ≡ ok tt → (a ≡ ok tt) × (b ≡ ok tt)
and_then-ok (ok _) b h = (refl, h)
and_then-ok (err e) b h = absurd (cc)

check_descriptor-ok :
    (support : VtableSupport) (entries : List ManifestEntry) (seen : List Bytes) (d : Descriptor)
    → check_descriptor support entries seen d ≡ ok tt
    → (contains (id_of d) seen ≡ false)
      × (d.has_vtable ≡ true)
      × (check_known support d (find_entry (id_of d) entries) ≡ ok tt)
unfolding check_descriptor
check_descriptor-ok support entries seen d h = ground arith

-- No pointer is null, and every descriptor passed its checks.
pub check_all-ok :
    (support : VtableSupport) (entries : List ManifestEntry) (seen : List Bytes) (i : ℕ)
    (ds : List (Option Descriptor))
    → check_all support entries seen i ds ≡ ok tt
    → (ds ≡ map some (present ds)) × Checked support entries seen (present ds)
unfolding check_all
check_all-ok support entries seen i [] h = (refl, tt)
check_all-ok support entries seen i (none ∷ ds) h = absurd (cc)
check_all-ok support entries seen i (some d ∷ ds) h =
    let (first, later) =
      and_then-ok (check_descriptor support entries seen d)
        (check_all support entries (id_of d ∷ seen) (i + 1) ds) h in
    let (new, v, known) = check_descriptor-ok support entries seen d first in
    let (all, checked) = check_all-ok support entries (id_of d ∷ seen) (i + 1) ds later in
    (ap (◌∷◌ (some d)) all, (new, check_known-ok support d entries v known, checked))
