-- ===== src/Lockfile/Walk/Roots.antt =====
-- The second loop of `entries_from_configuration` is the first one over the frameworks' packages.
use cppup.Base.{
  List, [], ◌∷◌, ◌≡◌, refl, Option, some, none, Option-cases, inl, inr, ap, ok, Outcome, bind_assoc,
  ◌++◌, sym, ◌∙◌, ◌>>=◌, fun_ext,
}
use cppup.Configuration.Package.{PackageInfo}
use cppup.Plugin.TestFrameworks.{TestFrameworkRegistry}
use cppup.Lockfile.Document.{Entry, sort_by_name}
use cppup.Configuration.Build.{TestFramework}
use cppup.Lockfile.Walk.{
  WalkState, WalkError, walk_info, start, entries_from_configuration, walk_packages,
  walk_frameworks, framework_package,
}

abbrev pub cons_some : Option PackageInfo → List PackageInfo → List PackageInfo
cons_some none infos = infos
cons_some (some info) infos = info ∷ infos

-- the packages of the frameworks that are not skipped, in order
unfoldable pub framework_packages : TestFrameworkRegistry → List TestFramework → List PackageInfo
framework_packages plugins [] = []
framework_packages plugins (framework ∷ rest) =
    cons_some (framework_package plugins framework) (framework_packages plugins rest)

pub walk_frameworks_lem :
    (plugins : TestFrameworkRegistry) (frameworks : List TestFramework) (s : WalkState)
    → walk_frameworks plugins frameworks s ≡ walk_packages (framework_packages plugins frameworks) s
unfolding walk_frameworks walk_packages framework_packages
walk_frameworks_lem plugins [] s = refl
walk_frameworks_lem plugins (framework ∷ rest) s =
    elim (Option-cases (framework_package plugins framework)) [
      | inl e ↦ rw (e, walk_frameworks) (walk_frameworks_lem plugins rest s)
      | inr (info, e) ↦
          rw (e, walk_frameworks)
            (ap (λ f. walk_info info s >>= f) (fun_ext (λ s'. walk_frameworks_lem plugins rest s')))
    ]

-- The packages from which the walk starts.
abbrev pub roots : TestFrameworkRegistry → List PackageInfo → List TestFramework → List PackageInfo
roots plugins packages frameworks = packages ++ framework_packages plugins frameworks

walk_packages-append :
    (xs ys : List PackageInfo) (s : WalkState) (k : WalkState → Outcome WalkError (List Entry))
    → (walk_packages (xs ++ ys) s >>= k) ≡ (walk_packages xs s >>= λ s'. walk_packages ys s' >>= k)
unfolding walk_packages
walk_packages-append [] ys s k = refl
walk_packages-append (x ∷ xs) ys s k =
    bind_assoc (walk_info x s) (walk_packages (xs ++ ys)) k
    ∙ ap (λ f. walk_info x s >>= f) (fun_ext (λ s'. walk_packages-append xs ys s' k))
    ∙ sym (bind_assoc (walk_info x s) (walk_packages xs) (λ s'. walk_packages ys s' >>= k))

pub entries_from_configuration_lem :
    (plugins : TestFrameworkRegistry) (packages : List PackageInfo)
    (frameworks : List TestFramework)
    → entries_from_configuration plugins packages frameworks ≡ (
        walk_packages (roots plugins packages frameworks) start >>= λ s.
        ok (sort_by_name s.entries))
unfolding entries_from_configuration
entries_from_configuration_lem plugins packages frameworks =
    ap (λ f. walk_packages packages start >>= λ s. f s >>= λ s'. ok (sort_by_name s'.entries))
      (fun_ext (walk_frameworks_lem plugins frameworks))
    ∙ sym (
        walk_packages-append packages (framework_packages plugins frameworks) start
          (λ s. ok (sort_by_name s.entries)))
