-- ===== src/Lockfile/Document.antt =====
-- lockfile.hpp: the records of a lockfile. lockfile.cpp: `serialize`.
pub mod Parse
pub mod Select
pub mod Lines
pub mod Sort
pub mod RoundTrip
pub mod Update
use cppup.Base.{
  ℕ, Bool, true, false, List, [], ◌∷◌, ◌++◌, Option, none, some, if◌then◌else◌, Bytes, codes,
  lt_bytes,
}
use cppup.Lockfile.Text.{quote, serialize_string_array}

abbrev pub newline : ℕ
newline = b'\n'

pub record Selection : Type 0 where
  pub toolchain : Option Bytes
  pub profile : Option Bytes
  pub registry : Option Bytes

-- Selection{}
abbrev pub no_selection : Selection
no_selection = record { toolchain = none; profile = none; registry = none }

pub record Entry : Type 0 where
  pub name : Bytes
  pub version : Bytes
  pub source : Bytes
  pub url : Bytes
  pub git_branch : Bytes
  pub git_commit : Bytes
  pub subdirectory : Bytes
  pub build_system : Bytes
  pub checksum : Bytes
  pub dependencies : List Bytes

-- Entry{}
abbrev pub new_entry : Entry
new_entry = record {
  name = [];
  version = [];
  source = codes "registry";
  url = [];
  git_branch = [];
  git_commit = [];
  subdirectory = [];
  build_system = [];
  checksum = [];
  dependencies = [];
}

-- `std::ranges::sort` by `lhs.name < rhs.name`. The sort of the library may put entries of one
-- name in any order; this one keeps theirs.
unfoldable pub insert_by_name : Entry → List Entry → List Entry
insert_by_name e [] = e ∷ []
insert_by_name e (x ∷ xs) =
    let later = x ∷ insert_by_name e xs in if lt_bytes x.name e.name then later else e ∷ x ∷ xs

unfoldable pub sort_by_name : List Entry → List Entry
sort_by_name [] = []
sort_by_name (e ∷ es) = insert_by_name e (sort_by_name es)

-- Each `put` writes in front of `rest`, what the calls behind it write to the stream.
unfoldable pub put_line : Bytes → Bytes → Bytes
put_line text rest = text ++ (newline ∷ rest)

unfoldable pub put_field : Bytes → Bytes → Bytes → Bytes
put_field key value rest = put_line (key ++ (codes " = " ++ value)) rest

unfoldable pub write_entry : Entry → Bytes → Bytes
write_entry e rest = put_line (codes "[[package]]") (
    put_field (codes "name") (quote e.name) (
      put_field (codes "version") (quote e.version) (
        put_field (codes "source") (quote e.source) (
          put_field (codes "url") (quote e.url) (
            put_field (codes "git_branch") (quote e.git_branch) (
              put_field (codes "git_commit") (quote e.git_commit) (
                put_field (codes "subdirectory") (quote e.subdirectory) (
                  put_field (codes "build_system") (quote e.build_system) (
                    put_field (codes "checksum") (quote e.checksum) (
                      put_field (codes "dependencies") (serialize_string_array e.dependencies)
                        rest))))))))))

unfoldable pub write_entries : List Entry → Bytes
write_entries [] = []
write_entries (e ∷ es) = newline ∷ write_entry e (write_entries es)

unfoldable pub put_selected : Bytes → Option Bytes → Bytes → Bytes
put_selected key none rest = rest
put_selected key (some value) rest = put_field key (quote value) rest

unfoldable pub write_selected : Selection → Bytes → Bytes
write_selected selection rest = put_selected (codes "selected_toolchain") selection.toolchain (
    put_selected (codes "selected_profile") selection.profile
      (put_selected (codes "selected_registry") selection.registry rest))

-- k_format_version is 1
abbrev pub k_format_version : ℕ
k_format_version = 1

abbrev pub k_header_line1 : Bytes
k_header_line1 = codes "# cppup.lock - DO NOT EDIT"

abbrev pub k_header_line2 : Bytes
k_header_line2 = codes "# Generated by `cppup package lock`. Run `cppup package sync` to reproduce."

unfoldable pub serialize : List Entry → Selection → Bytes
serialize entries selection = put_line k_header_line1 (
    put_line k_header_line2 (
      put_field (codes "version") (codes "1")
        (write_selected selection (write_entries (sort_by_name entries)))))
