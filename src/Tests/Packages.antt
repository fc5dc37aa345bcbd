-- ===== src/Tests/Packages.antt =====
-- The theorems about the package resolver, at a provider that knows two packages.
use cppup.Base.{
  if_intro, sym, ◌≡◌, ◌≢◌, ◌≤◌, refl, arith, List, [], ◌∷◌, some, Bytes, codes, ok, err, eqb,
  if◌then◌else◌, contains, insert, length, true,
}
use cppup.Configuration.Package.{name_of}
use cppup.Configuration.Packages.{
  ResolvedPackage, PackageInfoProvider, key_of, push_all, resolve_found, resolve_loop,
  resolve_transitive, resolve_each, resolve_packages, ResolveError, no_packages, merge_packages,
}
use cppup.Configuration.Packages.Closure.{IsResolution, resolve_each-IsResolution}
use cppup.Configuration.Packages.Termination.{IsFinite, resolve_packages_ends}
use cppup.Configuration.Packages.Merge.{IsGathered, merge_packages-IsGathered}
use cppup.Tests.Data.{fmt, spdlog}

abbrev resolved : Bytes → ResolvedPackage
resolved n = record {
  name = n;
  version = codes "1";
  install_path = [];
  include_paths = codes "include" ∷ [];
  library_paths = [];
  libraries = n ∷ [];
  compile_flags = [];
  link_flags = [];
  definitions = (codes "LIBRARY", n) ∷ [];
}

abbrev fmt_package : ResolvedPackage
fmt_package = resolved (codes "fmt")

abbrev spdlog_package : ResolvedPackage
spdlog_package = resolved (codes "spdlog")

-- fmt needs nothing, every other package is spdlog, which needs fmt
abbrev provider : PackageInfoProvider
provider = record {
  get_package_info = λ n v. if eqb n (codes "fmt") then some fmt_package else some spdlog_package;
  get_dependencies = λ n v. if eqb n (codes "fmt") then [] else fmt ∷ [];
}

two_resolved :
    resolve_each provider 3 (spdlog ∷ []) [] []
    ≡ ok (spdlog_package ∷ fmt_package ∷ [], key_of fmt_package ∷ key_of spdlog_package ∷ [])
unfolding resolve_each resolve_transitive resolve_loop resolve_found push_all eqb contains insert
two_resolved = refl

IsResolution_example : IsResolution provider (spdlog ∷ []) (spdlog_package ∷ fmt_package ∷ [])
IsResolution_example =
    resolve_each-IsResolution provider 3 (spdlog ∷ []) (spdlog_package ∷ fmt_package ∷ [])
      (key_of fmt_package ∷ key_of spdlog_package ∷ []) two_resolved

abbrev universe : List Bytes
universe = key_of fmt_package ∷ key_of spdlog_package ∷ []

fmt_listed : contains (key_of fmt_package) universe ≡ true
unfolding contains eqb
fmt_listed = refl

spdlog_listed : contains (key_of spdlog_package) universe ≡ true
unfolding contains eqb
spdlog_listed = refl

listed :
    (p info : ResolvedPackage)
    → some p ≡ some info
    → contains (key_of p) universe ≡ true
    → contains (key_of info) universe ≡ true
listed p info e c = let same : p ≡ info = cc in rw (sym same) c

provider-IsFinite : IsFinite provider universe 1
provider-IsFinite = record {
  keys = λ pkg info q.
      if_intro (λ o. o ≡ some info → contains (key_of info) universe ≡ true)
        (eqb (name_of pkg) (codes "fmt")) (λ h e. listed fmt_package info e fmt_listed)
        (λ h e. listed spdlog_package info e spdlog_listed) q;
  dependencies = λ info.
      if_intro (λ l. length l ≤ 1) (eqb info.name (codes "fmt")) (λ h. omega arith)
        (λ h. omega arith);
}

ends_example : resolve_packages provider 3 (spdlog ∷ []) ≢ err ResolveError.out_of_fuel
ends_example =
    resolve_packages_ends provider universe 1 provider-IsFinite 3 (spdlog ∷ []) (omega arith)

IsGathered_example :
    IsGathered
      (spdlog_package ∷ fmt_package ∷ [])
      (merge_packages no_packages (spdlog_package ∷ fmt_package ∷ []))
IsGathered_example = merge_packages-IsGathered (spdlog_package ∷ fmt_package ∷ [])
