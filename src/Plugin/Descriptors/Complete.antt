-- ===== src/Plugin/Descriptors/Complete.antt =====
-- The descriptors of an accepted plugin are those that its manifest declares.
use cppup.Base.{
  suc, true, false, List, [], ◌∷◌, ◌≡◌, refl, sym, ap, ◌∙◌, arith, Option, some, Bytes, eqb,
  eqb_iff, eqb_refl, contains, contains-cons, length, ok, map, NoDup, Within, Within-of_length,
  Bool-cases, inl, inr,
}
use cppup.Plugin.Descriptors.{
  ManifestEntry, Manifest, Descriptor, VtableSupport, find_entry, id_of, check_all,
  validate_descriptors,
}
use cppup.Plugin.Descriptors.Sound.{present, Checked, check_all-ok}

abbrev pub ids : List Descriptor → List Bytes
ids = map (λ d. id_of d)

abbrev pub entry_ids : List ManifestEntry → List Bytes
entry_ids = map (λ e. e.id)

-- An accepted list of descriptors, against the manifest.
pub record IsAccepted (support : VtableSupport) (manifest : Manifest)
    (ds : List (Option Descriptor)) : Type 0 where
  pub no_null : ds ≡ map some (present ds)
  pub distinct : NoDup (ids (present ds))
  pub served : Checked support manifest.entries [] (present ds)
  pub declared : Within (ids (present ds)) (entry_ids manifest.entries)
  pub provided : Within (entry_ids manifest.entries) (ids (present ds))

not_later :
    (support : VtableSupport) (entries : List ManifestEntry) (n : Bytes) (seen : List Bytes)
    (ds : List Descriptor)
    → contains n seen ≡ true
    → Checked support entries seen ds
    → contains n (ids ds) ≡ false
unfolding contains
not_later support entries n seen [] h c = refl
not_later support entries n seen (d ∷ ds) h (new, _, c) =
    ground (arith, not_later support entries n (id_of d ∷ seen) ds, eqb_iff n (id_of d))

Checked-NoDup :
    (support : VtableSupport) (entries : List ManifestEntry) (seen : List Bytes)
    (ds : List Descriptor)
    → Checked support entries seen ds
    → NoDup (ids ds)
Checked-NoDup support entries seen [] c = tt
Checked-NoDup support entries seen (d ∷ ds) (new, _, c) = (
  not_later support entries (id_of d) (id_of d ∷ seen) ds
      (ground (arith, contains-cons (id_of d) (id_of d) seen, eqb_refl (id_of d))) c,
  Checked-NoDup support entries (id_of d ∷ seen) ds c,
)

find_entry-declared :
    (id : Bytes) (entries : List ManifestEntry) (e : ManifestEntry)
    → find_entry id entries ≡ some e
    → contains id (entry_ids entries) ≡ true
unfolding find_entry contains
find_entry-declared id [] e h = ground arith
find_entry-declared id (x ∷ entries) e h =
    ground (arith, find_entry-declared id entries e, eqb_iff x.id id, eqb_iff id x.id)

Checked-declared :
    (support : VtableSupport) (entries : List ManifestEntry) (seen : List Bytes)
    (ds : List Descriptor)
    → Checked support entries seen ds
    → Within (ids ds) (entry_ids entries)
unfolding contains
Checked-declared support entries seen [] c n h = ground arith
Checked-declared support entries seen (d ∷ ds) (_, (e, q, _), c) n h =
    elim (Bool-cases (eqb n (id_of d))) [
      | inl same ↦ rw ((eqb_iff n (id_of d)).0 same) (find_entry-declared (id_of d) entries e q)
      | inr other ↦ Checked-declared support entries (id_of d ∷ seen) ds c n (ground arith)
    ]

length-map {ℓ κ} :
    {A : Type ℓ} {B : Type κ} (f : A → B) (xs : List A) → length (map f xs) ≡ length xs
length-map f [] = refl
length-map f (x ∷ xs) = ap suc (length-map f xs)

length-present :
    (ds : List (Option Descriptor)) → ds ≡ map some (present ds) → length ds ≡ length (present ds)
length-present ds h = ap length h ∙ length-map some (present ds)

-- A plugin is accepted only if no descriptor is null, their ids differ, each serves the entry of
-- its id, and the ids are exactly those that the manifest declares: none is missing.
pub validate_descriptors-IsAccepted :
    (ds : List (Option Descriptor)) (manifest : Manifest) (support : VtableSupport)
    → validate_descriptors ds manifest support ≡ ok tt
    → IsAccepted support manifest ds
unfolding validate_descriptors
validate_descriptors-IsAccepted ds manifest support h =
    let (count, checked) : (length ds ≡ length manifest.entries)
        × (check_all support manifest.entries [] 0 ds ≡ ok tt) =
      ground arith in
    let (all, checks) = check_all-ok support manifest.entries [] 0 ds checked in
    let same : length (ids (present ds)) ≡ length (entry_ids manifest.entries) =
      length-map (λ d. id_of d) (present ds)
      ∙ sym (length-present ds all)
      ∙ count
      ∙ sym (length-map (λ e. e.id) manifest.entries) in
    let distinct = Checked-NoDup support manifest.entries [] (present ds) checks in
    let declared = Checked-declared support manifest.entries [] (present ds) checks in
    record {
      no_null = all;
      distinct = distinct;
      served = checks;
      declared = declared;
      provided =
          Within-of_length (ids (present ds)) (entry_ids manifest.entries) distinct declared same;
    }
