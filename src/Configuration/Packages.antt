-- ===== src/Configuration/Packages.antt =====
-- src/core/configuration/package_resolver.cpp and .hpp. The provider is an interface: its answers are
-- a parameter, and it is never null. The loop of `resolve_transitive` takes fuel, which
-- `Termination` is about.
pub mod Closure
pub mod Termination
pub mod Definitions
pub mod Merge
use cppup.Base.{
  ℕ, zero, suc, Bool, true, false, not, ◌&&◌, ◌||◌, List, [], ◌∷◌, ◌++◌, Option, none, some, Bytes,
  codes, eqb, if◌then◌else◌, contains, insert, Outcome, ok, err, ◌>>=◌,
}
use cppup.Configuration.Package.{PackageInfo, name_of, fields}

pub record ResolvedPackage : Type 0 where
  pub name : Bytes
  pub version : Bytes
  pub install_path : Bytes
  pub include_paths : List Bytes
  pub library_paths : List Bytes
  pub libraries : List Bytes
  pub compile_flags : List Bytes
  pub link_flags : List Bytes
  pub definitions : List (Bytes × Bytes)

pub record PackageInfoProvider : Type 0 where
  pub get_package_info : Bytes → Option Bytes → Option ResolvedPackage
  pub get_dependencies : Bytes → Bytes → List PackageInfo

abbrev pub make_package_key : Bytes → Bytes → Bytes
make_package_key name version = name ++ (codes "@" ++ version)

abbrev pub key_of : ResolvedPackage → Bytes
key_of info = make_package_key info.name info.version

-- A look-up that failed, without the message that names the package; the second error stands for no
-- message: it says that the fuel of the model ran out.
pub data ResolveError : Type 0 where
  failed_to_resolve : ResolveError
  out_of_fuel : ResolveError

-- the vectors `work` and `out` and the set of the keys; the back of `work` is the head of the list
pub record Resolution : Type 0 where
  pub work : List PackageInfo
  pub keys : List Bytes
  pub out : List ResolvedPackage

-- std::ranges::move(deps, std::back_inserter(work))
unfoldable pub push_all : List PackageInfo → List PackageInfo → List PackageInfo
push_all [] work = work
push_all (d ∷ deps) work = push_all deps (d ∷ work)

module _ (provider : PackageInfoProvider) where
  abbrev pub info_of : PackageInfo → Option ResolvedPackage
  info_of pkg = provider.get_package_info (name_of pkg) (fields pkg).version

  abbrev pub deps_of : ResolvedPackage → List PackageInfo
  deps_of info = provider.get_dependencies info.name info.version

  -- the round behind the look-up
  unfoldable pub resolve_found :
      List PackageInfo
      → List Bytes
      → List ResolvedPackage
      → Option ResolvedPackage
      → Outcome ResolveError Resolution
  resolve_found work keys out none = err failed_to_resolve
  resolve_found work keys out (some info) =
      if contains (key_of info) keys
      then ok (record { work = work; keys = keys; out = out })
      else ok (record {
        work = push_all (deps_of info) work;
        keys = insert (key_of info) keys;
        out = out ++ (info ∷ []);
      })

  unfoldable pub resolve_loop :
      ℕ
      → List PackageInfo
      → List Bytes
      → List ResolvedPackage
      → Outcome ResolveError (List ResolvedPackage × List Bytes)
  resolve_loop fuel [] keys out = ok (out, keys)
  resolve_loop zero (pkg ∷ work) keys out = err out_of_fuel
  resolve_loop (suc fuel) (pkg ∷ work) keys out =
      resolve_found work keys out (info_of pkg) >>= λ r. resolve_loop fuel r.work r.keys r.out

  unfoldable pub resolve_transitive :
      ℕ → PackageInfo → List Bytes → Outcome ResolveError (List ResolvedPackage × List Bytes)
  resolve_transitive fuel root keys = resolve_loop fuel (root ∷ []) keys []

  -- the loop over the packages of a configuration, with what it has resolved
  unfoldable pub resolve_each :
      ℕ
      → List PackageInfo
      → List Bytes
      → List ResolvedPackage
      → Outcome ResolveError (List ResolvedPackage × List Bytes)
  resolve_each fuel [] keys resolved = ok (resolved, keys)
  resolve_each fuel (pkg ∷ packages) keys resolved =
      resolve_transitive fuel pkg keys >>= λ (subset, keys').
      resolve_each fuel packages keys' (resolved ++ subset)

-- A vector and the set of what it holds.
pub record Unique : Type 0 where
  pub out : List Bytes
  pub seen : List Bytes

unfoldable pub append_unique : Unique → List Bytes → Unique
append_unique u [] = u
append_unique u (value ∷ input) =
    append_unique
      (if contains value u.seen
        then u
        else record { out = u.out ++ (value ∷ []); seen = insert value u.seen })
      input

-- the value of a name in a map
unfoldable pub value_of : Bytes → List (Bytes × Bytes) → Option Bytes
value_of n [] = none
value_of n ((k, v) ∷ l) = let later = value_of n l in if eqb k n then some v else later

abbrev pub is_defined : Option Bytes → Bool
is_defined none = false
is_defined (some v) = true

-- `std::map::insert`, which leaves a name that is there as it is
unfoldable pub insert_definition : Bytes → Bytes → List (Bytes × Bytes) → List (Bytes × Bytes)
insert_definition k v l = if is_defined (value_of k l) then l else l ++ ((k, v) ∷ [])

-- whether a set of pairs has this one
unfoldable pub has_pair : Bytes → Bytes → List (Bytes × Bytes) → Bool
has_pair k v [] = false
has_pair k v ((k', v') ∷ l) = (eqb k k' && eqb v v') || has_pair k v l

-- A map of definitions and the set of the pairs that were met.
pub record Defined : Type 0 where
  pub all_definitions : List (Bytes × Bytes)
  pub seen_definitions : List (Bytes × Bytes)

unfoldable pub merge_definitions : Defined → List (Bytes × Bytes) → Defined
merge_definitions d [] = d
merge_definitions d ((k, v) ∷ definitions) =
    merge_definitions
      (if has_pair k v d.seen_definitions then d else record {
        all_definitions = insert_definition k v d.all_definitions;
        seen_definitions = (k, v) ∷ d.seen_definitions;
      })
      definitions

pub record Merged : Type 0 where
  pub compile_flags : Unique
  pub link_flags : Unique
  pub include_paths : Unique
  pub library_paths : Unique
  pub libraries : Unique
  pub definitions : Defined

abbrev pub nothing : Unique
nothing = record { out = []; seen = [] }

abbrev pub no_packages : Merged
no_packages = record {
  compile_flags = nothing;
  link_flags = nothing;
  include_paths = nothing;
  library_paths = nothing;
  libraries = nothing;
  definitions = record { all_definitions = []; seen_definitions = [] };
}

-- `merge_package_information`
unfoldable pub merge_packages : Merged → List ResolvedPackage → Merged
merge_packages m [] = m
merge_packages m (pkg ∷ packages) =
    merge_packages
      (record {
        compile_flags = append_unique m.compile_flags pkg.compile_flags;
        link_flags = append_unique m.link_flags pkg.link_flags;
        include_paths = append_unique m.include_paths pkg.include_paths;
        library_paths = append_unique m.library_paths pkg.library_paths;
        libraries = append_unique m.libraries pkg.libraries;
        definitions = merge_definitions m.definitions pkg.definitions;
      })
      packages

unfoldable pub resolve_packages :
    PackageInfoProvider
    → ℕ
    → List PackageInfo
    → Outcome ResolveError (List ResolvedPackage × Merged)
resolve_packages provider fuel packages =
    resolve_each provider fuel packages [] [] >>= λ (resolved, keys).
    ok (resolved, merge_packages no_packages resolved)
