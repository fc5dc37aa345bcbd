-- ===== src/RefParser.antt =====
-- src/core/cli/commands/ref_parser.hpp and ref_parser.cpp: the built-in ref parsers. `Registry` has
-- the registry that tries them. Paths are those of POSIX systems.
pub mod Registry
pub mod Revisions
pub mod Shorthand
use cppup.Base.{
  ℕ, Bool, true, false, not, ◌&&◌, ◌||◌, List, [], ◌∷◌, ◌++◌, Option, some, none, ◌==◌,
  if◌then◌else◌, Bytes, codes, is_empty, eqb, starts_with,
}

pub record ParsedRef : Type 0 where
  pub name : Bytes
  pub source_kind : Bytes
  pub git_url : Option Bytes
  pub git_branch : Option Bytes
  pub directory_path : Option Bytes
  pub http_url : Option Bytes

abbrev pub new_ref : ParsedRef
new_ref = record {
  name = [];
  source_kind = [];
  git_url = none;
  git_branch = none;
  directory_path = none;
  http_url = none;
}

-- text.ends_with(suffix)
unfoldable pub ends_with : Bytes → Bytes → Bool
ends_with [] suffix = is_empty suffix
ends_with (c ∷ text) suffix = eqb (c ∷ text) suffix || ends_with text suffix

abbrev pub cons_left : ℕ → Option (Bytes × Bytes) → Option (Bytes × Bytes)
cons_left c none = none
cons_left c (some (a, b)) = some (c ∷ a, b)

-- what stands before and behind `ref.find(b)`
unfoldable pub split_first : ℕ → Bytes → Option (Bytes × Bytes)
split_first b [] = none
split_first b (c ∷ ref) =
    let later = cons_left c (split_first b ref) in if c == b then some ([], ref) else later

abbrev pub last_split : ℕ → ℕ → Bytes → Option (Bytes × Bytes) → Option (Bytes × Bytes)
last_split b c ref none = if c == b then some ([], ref) else none
last_split b c ref (some (x, y)) = some (c ∷ x, y)

-- what stands before and behind `ref.rfind(b)`
unfoldable pub split_last : ℕ → Bytes → Option (Bytes × Bytes)
split_last b [] = none
split_last b (c ∷ ref) = last_split b c ref (split_last b ref)

abbrev pub whole_or : Bytes → Option (Bytes × Bytes) → Bytes × Bytes
whole_or ref none = (ref, [])
whole_or ref (some p) = p

unfoldable pub split_revision : Bytes → Bytes × Bytes
split_revision ref = whole_or ref (split_last b'@' ref)

-- `host` stands before the colon; the revision begins at an `@` behind it.
unfoldable pub split_scp : Bytes → Option (Bytes × Bytes) → Bytes × Bytes
split_scp ref none = (ref, [])
split_scp ref (some (host, path)) = elim (split_first b'@' path) [
  | none ↦ (ref, [])
  | some (base, rev) ↦ (host ++ (b':' ∷ base), rev)
]

unfoldable pub split_git_revision : Bytes → Bytes × Bytes
split_git_revision ref =
    if starts_with ref (codes "git@")
    then split_scp ref (split_first b':' ref)
    else split_revision ref

-- without the slashes at the end
unfoldable pub strip_slashes : Bytes → Bytes
strip_slashes [] = []
strip_slashes (c ∷ text) =
    let rest = strip_slashes text in if is_empty rest && c == b'/' then [] else c ∷ rest

abbrev pub behind : Bytes → Option (Bytes × Bytes) → Bytes
behind text none = text
behind text (some (a, b)) = b

-- the segment behind the last slash
unfoldable pub last_segment : Bytes → Bytes
last_segment text = behind text (split_last b'/' text)

-- without a suffix that is there
unfoldable pub remove_suffix : Bytes → Bytes → Bytes
remove_suffix [] suffix = []
remove_suffix (c ∷ text) suffix =
    let rest = c ∷ remove_suffix text suffix in if eqb (c ∷ text) suffix then [] else rest

unfoldable pub derive_name_from_path_like : Bytes → Bytes
derive_name_from_path_like text = remove_suffix (last_segment (strip_slashes text)) (codes ".git")

unfoldable pub looks_like_path : Bytes → Bool
looks_like_path ref =
    starts_with ref (codes "./")
    || starts_with ref (codes "../")
    || starts_with ref (codes "/")
    || starts_with ref (codes "~/")
    || eqb ref (codes ".")
    || eqb ref (codes "..")

-- `path.filename()`, of the parent path where it is empty
unfoldable pub directory_name : Bytes → Bytes
directory_name ref =
    let name = last_segment ref in if is_empty name then last_segment (strip_slashes ref) else name

unfoldable pub or_package : Bytes → Bytes
or_package name = if is_empty name then codes "package" else name

unfoldable pub parse_directory : Bytes → Option ParsedRef
parse_directory ref =
    if is_empty ref || not (looks_like_path ref)
    then none
    else some (record new_ref {
      name = or_package (directory_name ref);
      source_kind = codes "directory";
      directory_path = some ref;
    })

-- a branch that is there only if the revision is not empty
abbrev pub branch_of : Bytes → Option Bytes
branch_of [] = none
branch_of (c ∷ rev) = some (c ∷ rev)

-- `parse_github_shorthand` and `parse_gitlab_shorthand`, behind their prefixes
unfoldable pub hosted : Bytes → Bytes × Bytes → Option ParsedRef
hosted url (base, rev) = elim (split_first b'/' base) [
  | none ↦ none
  | some p ↦ some (record new_ref {
    name = derive_name_from_path_like base;
    source_kind = codes "git";
    git_url = some (url ++ (base ++ codes ".git"));
    git_branch = branch_of rev;
  })
]

-- ref.substr(prefix.size()), behind a prefix that is there
abbrev pub drop_prefix : Bytes → Bytes → Bytes
drop_prefix [] ref = ref
drop_prefix (p ∷ prefix) [] = []
drop_prefix (p ∷ prefix) (c ∷ ref) = drop_prefix prefix ref

unfoldable pub parse_github_shorthand : Bytes → Option ParsedRef
parse_github_shorthand ref =
    if not (starts_with ref (codes "github:"))
    then none
    else hosted (codes "https://github.com/") (split_revision (drop_prefix (codes "github:") ref))

unfoldable pub parse_gitlab_shorthand : Bytes → Option ParsedRef
parse_gitlab_shorthand ref =
    if not (starts_with ref (codes "gitlab:"))
    then none
    else hosted (codes "https://gitlab.com/") (split_revision (drop_prefix (codes "gitlab:") ref))

unfoldable pub is_git_scheme : Bytes → Bool
is_git_scheme base =
    starts_with base (codes "https://")
    || starts_with base (codes "http://")
    || starts_with base (codes "ssh://")
    || starts_with base (codes "git://")

abbrev pub is_there {ℓ} : {A : Type ℓ} → Option A → Bool
is_there none = false
is_there (some a) = true

unfoldable pub is_scp_style : Bytes → Bool
is_scp_style base = starts_with base (codes "git@") && is_there (split_first b':' base)

unfoldable pub path_for_name : Bytes → Bytes
path_for_name base = if is_scp_style base then behind base (split_first b':' base) else base

unfoldable pub git_ref : Bytes × Bytes → Option ParsedRef
git_ref (base, rev) =
    if not (is_git_scheme base || is_scp_style base) || not (ends_with base (codes ".git"))
    then none
    else some (record new_ref {
      name = derive_name_from_path_like (path_for_name base);
      source_kind = codes "git";
      git_url = some base;
      git_branch = branch_of rev;
    })

unfoldable pub parse_git_url : Bytes → Option ParsedRef
parse_git_url ref = git_ref (split_git_revision ref)

-- the first suffix of the list that is there, taken off
unfoldable pub strip_archive : List Bytes → Bytes → Bytes
strip_archive [] name = name
strip_archive (suffix ∷ suffixes) name =
    if ends_with name suffix then remove_suffix name suffix else strip_archive suffixes name

abbrev pub archive_suffixes : List Bytes
archive_suffixes =
    codes ".tar.gz"
    ∷ codes ".tgz"
    ∷ codes ".tar.bz2"
    ∷ codes ".tar.xz"
    ∷ codes ".tar"
    ∷ codes ".zip"
    ∷ []

unfoldable pub parse_http_url : Bytes → Option ParsedRef
parse_http_url ref =
    if not (starts_with ref (codes "http://") || starts_with ref (codes "https://"))
    then none
    else some (record new_ref {
      name = strip_archive archive_suffixes (derive_name_from_path_like ref);
      source_kind = codes "url";
      http_url = some ref;
    })

-- a space, a tab, a slash or a backslash
abbrev pub is_bad : ℕ → Bool
is_bad c = c == b' ' || c == b'\t' || c == b'/' || c == b'\\'

unfoldable pub any_bad : Bytes → Bool
any_bad [] = false
any_bad (c ∷ ref) = is_bad c || any_bad ref

unfoldable pub parse_registry_name : Bytes → Option ParsedRef
parse_registry_name ref =
    if is_empty ref || any_bad ref
    then none
    else some (record new_ref { name = ref; source_kind = codes "registry" })
