-- ===== src/Tests/Data.antt =====
-- The data of the tests.
use cppup.Base.{
  ℕ, Bool, false, ◌≡◌, refl, arith, [], ◌∷◌, none, some, Bytes, codes, Lacks, ◌==◌, ◌||◌,
}
use cppup.Configuration.Package.{PackageInfo, Dependencies, package_info, leaf, dep, registry}
use cppup.Lockfile.Document.{Selection, no_selection, Entry, new_entry, newline}
use cppup.Lockfile.Document.RoundTrip.Packages.{IsLineFree, IsSelectionLineFree}

-- the byte is in the text
abbrev pub occurs : ℕ → Bytes → Bool
occurs b [] = false
occurs b (c ∷ s) = c == b || occurs b s

pub Lacks_of : (b : ℕ) (s : Bytes) → occurs b s ≡ false → Lacks b s
Lacks_of b [] h = tt
Lacks_of b (c ∷ s) h = (ground arith, Lacks_of b s (ground arith))

abbrev pub plain : Bytes → Dependencies → PackageInfo
plain n deps =
    package_info
      (record {
        name = n;
        version = none;
        source_directory = none;
        url = none;
        source_type = registry;
        git_branch = none;
        git_commit = none;
        build_args = [];
        subdirectory = none;
      })
      deps

abbrev pub fmt : PackageInfo
fmt = plain (codes "fmt") leaf

abbrev pub spdlog : PackageInfo
spdlog = plain (codes "spdlog") (dep fmt leaf)

-- depends on a package of its own name
abbrev pub looping : PackageInfo
looping = plain (codes "fmt") (dep fmt leaf)

abbrev pub fmt_entry : Entry
fmt_entry = record new_entry { name = codes "fmt" }

abbrev pub clang : Selection
clang = record no_selection { toolchain = some (codes "clang++") }

pub fmt_entry-IsLineFree : IsLineFree fmt_entry
fmt_entry-IsLineFree = record {
  name = Lacks_of newline (codes "fmt") refl;
  version = tt;
  source = Lacks_of newline (codes "registry") refl;
  url = tt;
  git_branch = tt;
  git_commit = tt;
  subdirectory = tt;
  build_system = tt;
  checksum = tt;
  dependencies = tt;
}

pub clang-IsSelectionLineFree : IsSelectionLineFree clang
clang-IsSelectionLineFree = record {
  toolchain = Lacks_of newline (codes "clang++") refl;
  profile = tt;
  registry = tt;
}
