-- ===== src/Plugin/Manifest/Entries.antt =====
-- What a manifest holds: its names, its hash, and its entries.
use cppup.Base.{
  ℕ, suc, ◌^◌, ◌≤◌, ◌<◌, true, false, not, ◌&&◌, ◌||◌, ltb, leb, ℤ, pos, negsuc, arith, ◌≡◌, refl,
  sym, ap, ◌∙◌, List, [], ◌∷◌, ◌++◌, map, All, Bytes, codes, is_empty, contains, contains-insert,
  eqb_comm, insert, length, NoDup,
}
use cppup.Base.Ensured.{Ensured, value, error, if_Ensured, checked}
use cppup.Base.Regex.{
  regex_match, one, star, times, match-one_seq, match-star_one, match-times, match-literal,
  accepts_empty,
}
use cppup.Plugin.Descriptors.{EntryKind, template, test_system, ManifestEntry, Manifest}
use cppup.Plugin.Manifest.{parse_entry_kind, to_version, validate_plugin_fields}
use cppup.Plugin.Manifest.Grammar.{IsVersion, IsRange, IsDate}
use cppup.Plugin.Manifest.Formats.{
  is_lower, is_name_byte, is_hex, is_semver, is_semver_range, is_rfc3339, is_valid_name,
  is_valid_build_hash,
}

-- A lower-case letter, then letters, digits, `_` and `-`.
abbrev pub IsName : Bytes → Type 0
IsName [] = false ≡ true
IsName (c ∷ s) = (is_lower c ≡ true) × All (λ d. is_name_byte d ≡ true) s

pub is_valid_name-IsName : (n : Bytes) → is_valid_name n ≡ true → IsName n
unfolding is_valid_name regex_match accepts_empty
is_valid_name-IsName [] h = h
is_valid_name-IsName (c ∷ s) h =
    let both : (is_lower c && regex_match s (star (one is_name_byte))) ≡ true =
      sym (match-one_seq is_lower c s (star (one is_name_byte))) ∙ h in
    (ground arith, match-star_one is_name_byte s (ground arith))

-- `sha256:` and 64 hexadecimal digits
abbrev pub IsHash : Bytes → Type 0
IsHash hash =
    (digits : Bytes) × (hash ≡ codes "sha256:" ++ digits)
    × (length digits ≡ 64)
    × All (λ c. is_hex c ≡ true) digits

pub is_valid_build_hash-IsHash : (h : Bytes) → is_valid_build_hash h ≡ true → IsHash h
unfolding is_valid_build_hash
is_valid_build_hash-IsHash h valid =
    let (digits, e, m) = match-literal (codes "sha256:") h (times 64 (one is_hex)) valid in
    let (l, a) = match-times 64 is_hex digits m in (digits, e, l, a)

-- A kind that a manifest can name.
abbrev pub IsHostKind : EntryKind → Type 0
IsHostKind template = false ≡ true
IsHostKind test_system = false ≡ true
IsHostKind _ = Unit

pub record IsEntry (e : ManifestEntry) : Type 0 where
  pub id : IsName e.id
  pub kind : IsHostKind e.kind
  pub positive : 1 ≤ e.vtable_version
  pub fits : e.vtable_version < 2 ^ 32

-- A manifest that a plugin can have.
pub record IsManifest (m : Manifest) : Type 0 where
  pub name : IsName m.name
  pub version : IsVersion m.version
  pub cppup_compat : IsRange m.cppup_compat
  pub build_hash : IsHash m.build_hash
  pub build_date : IsDate m.build_date
  pub some_entry : is_empty m.entries ≡ false
  pub entries : All IsEntry m.entries
  pub distinct : NoDup (map (λ e. e.id) m.entries)

pub parse_entry_kind-IsHostKind : (raw : Bytes) → Ensured IsHostKind (parse_entry_kind raw)
unfolding parse_entry_kind
parse_entry_kind-IsHostKind raw = search (if_Ensured, Ensured.value, Ensured.error) depth 20

abbrev Fits : ℕ → Type 0
Fits n = (1 ≤ n) × (n < 2 ^ 32)

small-Fits : (n : ℕ) → (ltb n 1 || leb (2 ^ 32) n) ≡ false → Fits n
small-Fits n h = (ground arith, ground arith)

pub to_version-Fits : (detail : Bytes) (z : ℤ) → Ensured Fits (to_version detail z)
unfolding to_version
to_version-Fits detail (negsuc n) = error
to_version-Fits detail (pos n) = search (if_Ensured, Ensured.value, Ensured.error, small-Fits)

-- the element is in no set of ids that the loop has met
spread :
    (n : Bytes) (seen ids : List Bytes)
    → All (λ m. contains m (insert n seen) ≡ false) ids
    → (contains n ids ≡ false) × All (λ m. contains m seen ≡ false) ids
unfolding contains
spread n seen [] h = (refl, tt)
spread n seen (m ∷ ids) (h, hs) =
    let (rest, all) = spread n seen ids hs in
    (
      ground (arith, contains-insert m n seen, eqb_comm m n),
      (ground (arith, contains-insert m n seen), all),
    )

-- What the loop returns for so many nodes, when it has met some ids.
pub record IsListed (seen : List Bytes) (count : ℕ) (entries : List ManifestEntry) : Type 0 where
  pub counted : length entries ≡ count
  pub all : All IsEntry entries
  pub fresh : All (λ m. contains m seen ≡ false) (map (λ e. e.id) entries)
  pub distinct : NoDup (map (λ e. e.id) entries)

pub IsListed-cons :
    (seen : List Bytes) (count : ℕ) (entry : ManifestEntry) (entries : List ManifestEntry)
    → IsEntry entry
    → not (contains entry.id seen) ≡ true
    → IsListed (insert entry.id seen) count entries
    → IsListed seen (suc count) (entry ∷ entries)
IsListed-cons seen count entry entries valid new l =
    let (other, fresh) = spread entry.id seen (map (λ e. e.id) entries) l.fresh in
    record {
      counted = ap suc l.counted;
      all = (valid, l.all);
      fresh = (ground arith, fresh);
      distinct = (other, l.distinct);
    }

pub some_entries :
    (entries : List ManifestEntry) (n : ℕ) → length entries ≡ suc n → is_empty entries ≡ false
some_entries [] n e = absurd (ground arith)
some_entries (x ∷ entries) n e = refl

abbrev IsPlugin : Manifest → Type 0
IsPlugin m =
    (is_valid_name m.name ≡ true)
    × (is_semver m.version ≡ true)
    × (is_semver_range m.cppup_compat ≡ true)
    × (is_valid_build_hash m.build_hash ≡ true)
    × (is_rfc3339 m.build_date ≡ true)

pub validate_plugin_fields-IsPlugin :
    (m : Manifest) → Ensured (λ _. IsPlugin m) (validate_plugin_fields m)
unfolding validate_plugin_fields
validate_plugin_fields-IsPlugin m = checked (is_valid_name m.name) _ _ (λ a.
    checked (is_semver m.version) _ _ (λ b. checked (is_semver_range m.cppup_compat) _ _ (λ c.
      checked (is_valid_build_hash m.build_hash) _ _
        (λ d. if_Ensured (is_rfc3339 m.build_date) (λ e. value (a, b, c, d, e)) (λ e. error)))))
