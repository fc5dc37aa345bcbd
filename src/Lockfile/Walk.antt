-- ===== src/Lockfile/Walk.antt =====
-- lockfile.cpp: `entry_from_info`, `walk_info` and `entries_from_configuration`.
pub mod CycleErrors
pub mod Cycles
pub mod Closure
pub mod Invariant
pub mod Open
pub mod Rounds
pub mod Roots
pub mod Termination
use cppup.Base.{
  ℕ, zero, suc, ◌+◌, ◌*◌, Bool, true, false, ◌&&◌, List, [], ◌∷◌, ◌++◌, Option, some, none,
  if◌then◌else◌, Bytes, codes, eqb, is_empty, map, contains, insert, erase, Outcome, ok, err, ◌>>=◌,
}
use cppup.Configuration.Package.{
  SourceType, directory, git, tar, zip, http, registry, PackageInfo, PackageFields, Dependencies,
  package_info, leaf, dep, fields, dependencies, name_of, children,
}
use cppup.Configuration.Build.{TestFramework}
use cppup.Plugin.TestFrameworks.{
  TestFrameworkDefaultPackage, TestFrameworkPlugin, TestFrameworkRegistry, find,
}
use cppup.Lockfile.Document.{Entry, new_entry, sort_by_name}

unfoldable pub map_source_type : SourceType → Bytes
map_source_type directory = codes "directory"
map_source_type git = codes "git"
map_source_type tar = codes "tar"
map_source_type zip = codes "zip"
map_source_type http = codes "url"
map_source_type registry = codes "registry"

-- value.value_or("")
abbrev pub or_empty : Option Bytes → Bytes
or_empty none = []
or_empty (some v) = v

-- a directory package without a url has its directory for one
unfoldable pub url_of : PackageFields → Bytes
url_of f =
    if eqb (map_source_type f.source_type) (codes "directory") && is_empty (or_empty f.url)
    then or_empty f.source_directory
    else or_empty f.url

abbrev pub dependency_names : PackageInfo → List Bytes
dependency_names info = map name_of (children (dependencies info))

unfoldable pub entry_from_info : PackageInfo → Entry
entry_from_info info =
    let f = fields info in
    record new_entry {
      name = f.name;
      version = or_empty f.version;
      source = map_source_type f.source_type;
      url = url_of f;
      git_branch = or_empty f.git_branch;
      git_commit = or_empty f.git_commit;
      subdirectory = or_empty f.subdirectory;
      dependencies = dependency_names info;
    }

pub record WalkState : Type 0 where
  pub entries : List Entry
  pub done : List Bytes
  pub stack : List Bytes

pub record WalkFrame : Type 0 where
  pub info : PackageInfo
  pub expanded : Bool

abbrev pub fresh : PackageInfo → WalkFrame
fresh info = record { info = info; expanded = false }

abbrev pub opened : PackageInfo → WalkFrame
opened info = record { info = info; expanded = true }

-- The second error stands for no message: it says that the fuel of the model ran out.
pub data WalkError : Type 0 where
  dependency_cycle : Bytes → WalkError
  out_of_fuel : WalkError

-- The back of the vector is the head of the list. Pushing in reverse leaves the first dependency
-- at the back.
unfoldable pub push_children : List PackageInfo → List WalkFrame → List WalkFrame
push_children [] frames = frames
push_children (info ∷ infos) frames = fresh info ∷ push_children infos frames

-- the post-order phase
unfoldable pub emit : PackageInfo → WalkState → WalkState
emit info s = record {
  entries = s.entries ++ entry_from_info info ∷ [];
  done = insert (name_of info) s.done;
  stack = erase (name_of info) s.stack;
}

-- One round of the loop, with the frame at the back of the stack taken off.
unfoldable pub walk_round :
    PackageInfo → Bool → List WalkFrame → WalkState → Outcome WalkError (List WalkFrame × WalkState)
walk_round info true frames s = ok (frames, emit info s)
walk_round info false frames s =
    if contains (name_of info) s.done
    then ok (frames, s)
    else if contains (name_of info) s.stack
    then err (dependency_cycle (name_of info))
    else ok (
      push_children (children (dependencies info)) (opened info ∷ frames),
      record s { stack = insert (name_of info) s.stack },
    )

unfoldable pub walk_loop : ℕ → List WalkFrame → WalkState → Outcome WalkError WalkState
walk_loop fuel [] s = ok s
walk_loop zero (frame ∷ frames) s = err out_of_fuel
walk_loop (suc fuel) (frame ∷ frames) s =
    walk_round frame.info frame.expanded frames s >>= λ (frames', s'). walk_loop fuel frames' s'

-- the number of packages in a tree
unfoldable mutual
  pub tree_size : PackageInfo → ℕ
  tree_size (package_info f deps) = suc (forest_size deps)

  pub forest_size : Dependencies → ℕ
  forest_size leaf = 0
  forest_size (dep info deps) = tree_size info + forest_size deps

-- Each package is opened and emitted once at most.
unfoldable pub walk_info : PackageInfo → WalkState → Outcome WalkError WalkState
walk_info root s = walk_loop (2 * tree_size root) (fresh root ∷ []) s

-- the first loop of `entries_from_configuration`
unfoldable pub walk_packages : List PackageInfo → WalkState → Outcome WalkError WalkState
walk_packages [] s = ok s
walk_packages (info ∷ infos) s = walk_info info s >>= λ s'. walk_packages infos s'

-- a text that is there only if it is not empty
abbrev pub if_filled : Bytes → Option Bytes
if_filled [] = none
if_filled (c ∷ s) = some (c ∷ s)

unfoldable pub info_from_default : TestFrameworkDefaultPackage → PackageInfo
info_from_default def =
    package_info
      (record {
        name = def.name;
        version = if_filled def.version;
        source_directory = none;
        url = if_filled def.url;
        source_type = git;
        git_branch = if_filled def.git_branch;
        git_commit = none;
        build_args = [];
        subdirectory = none;
      })
      leaf

-- the package that a registered plugin stands for, if it has one
unfoldable pub default_of : Option TestFrameworkPlugin → Option PackageInfo
default_of none = none
default_of (some plugin) = elim plugin.default_package [
  | none ↦ none
  | some def ↦ some (info_from_default def)
]

-- the package of a framework: its own, or the default of its plugin
unfoldable pub framework_package : TestFrameworkRegistry → TestFramework → Option PackageInfo
framework_package plugins framework = elim framework.own_package [
  | some info ↦ some info
  | none ↦ default_of (find plugins framework.plugin)
]

-- the second loop of `entries_from_configuration`
unfoldable pub walk_frameworks :
    TestFrameworkRegistry → List TestFramework → WalkState → Outcome WalkError WalkState
walk_frameworks plugins [] s = ok s
walk_frameworks plugins (framework ∷ rest) s = elim (framework_package plugins framework) [
  | none ↦ walk_frameworks plugins rest s
  | some info ↦ walk_info info s >>= λ s'. walk_frameworks plugins rest s'
]

abbrev pub start : WalkState
start = record { entries = []; done = []; stack = [] }

-- `config.packages` and `config.test_frameworks`
unfoldable pub entries_from_configuration :
    TestFrameworkRegistry → List PackageInfo → List TestFramework → Outcome WalkError (List Entry)
entries_from_configuration plugins packages frameworks = do
  s ← walk_packages packages start
  s' ← walk_frameworks plugins frameworks s
  ok (sort_by_name s'.entries)
