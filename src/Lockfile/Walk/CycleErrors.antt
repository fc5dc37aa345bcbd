-- ===== src/Lockfile/Walk/CycleErrors.antt =====
-- The error of `cppup lock` against the cycles of the manifest.
use mathlib.Core.List.{Memᴰ}
use mathlib.Core.List.Memᴰ
use cppup.Base.{
  ℕ, zero, suc, ◌*◌, Bool, true, false, List, [], ◌∷◌, ◌≡◌, refl, arith, Bytes, contains, Outcome,
  ok, err, ◌>>=◌, inl,
}
use cppup.Configuration.Package.{PackageInfo}
use cppup.Plugin.TestFrameworks.{TestFrameworkRegistry}
use cppup.Lockfile.Document.{sort_by_name}
use cppup.Configuration.Build.{TestFramework}
use cppup.Lockfile.Walk.{
  WalkState, WalkFrame, WalkError, dependency_cycle, out_of_fuel, fresh, walk_round, walk_loop,
  walk_info, walk_packages, tree_size, start, entries_from_configuration,
}
use cppup.Lockfile.Walk.Roots.{roots, entries_from_configuration_lem}
use cppup.Lockfile.Walk.Cycles.{HasCycle, Inv, After, walk_round-After}

-- After a walk nothing is on the path; an error has a cycle below one of the packages.
abbrev Ended : List PackageInfo → Outcome WalkError WalkState → Type 0
Ended infos (ok s) = (n : Bytes) → contains n s.stack ≡ false
Ended infos (err (dependency_cycle n)) = (root : PackageInfo) × Memᴰ root infos × HasCycle root n
Ended infos (err out_of_fuel) = Unit

not_true : (b : Bool) → (b ≡ true → ⊥) → b ≡ false
not_true true h = absurd (h refl)
not_true false h = refl

bind-Ended :
    (root : PackageInfo) (m : Outcome WalkError (List WalkFrame × WalkState))
    (k : List WalkFrame × WalkState → Outcome WalkError WalkState)
    → After root m
    → ((p : List WalkFrame × WalkState) → Inv root p.0 p.1 → Ended (root ∷ []) (k p))
    → Ended (root ∷ []) (m >>= k)
bind-Ended root (ok p) k h hk = hk p h
bind-Ended root (err (dependency_cycle n)) k h hk = (root, Memᴰ.head refl, h)
bind-Ended root (err out_of_fuel) k h hk = tt

walk_loop-Ended :
    (fuel : ℕ) (root : PackageInfo) (frames : List WalkFrame) (s : WalkState)
    → Inv root frames s
    → Ended (root ∷ []) (walk_loop fuel frames s)
unfolding walk_loop
walk_loop-Ended fuel root [] s h = λ n. not_true (contains n s.stack) (h.path n)
walk_loop-Ended zero root (f ∷ fs) s h = tt
walk_loop-Ended (suc fuel) root (f ∷ fs) s h =
    bind-Ended root (walk_round f.info f.expanded fs s) _
      (walk_round-After root f.info f.expanded fs s h)
      (λ p h'. walk_loop-Ended fuel root p.0 p.1 h')

walk_info-Ended :
    (info : PackageInfo) (s : WalkState)
    → ((n : Bytes) → contains n s.stack ≡ false)
    → Ended (info ∷ []) (walk_info info s)
unfolding walk_info
walk_info-Ended info s e =
    walk_loop-Ended (2 * tree_size info) info (fresh info ∷ []) s
      (record { nested = (inl refl, tt, tt); path = λ n c. absurd (ground (arith, e n)) })

then-Ended :
    (info : PackageInfo) (infos : List PackageInfo) (m : Outcome WalkError WalkState)
    (k : WalkState → Outcome WalkError WalkState)
    → Ended (info ∷ []) m
    → ((s : WalkState) → ((n : Bytes) → contains n s.stack ≡ false) → Ended infos (k s))
    → Ended (info ∷ infos) (m >>= k)
then-Ended info infos (ok s) k h hk = wider (k s) (hk s h)
  where
    wider : (m : Outcome WalkError WalkState) → Ended infos m → Ended (info ∷ infos) m
    wider (ok s) h = h
    wider (err (dependency_cycle n)) (root, m, c) = (root, Memᴰ.tail m, c)
    wider (err out_of_fuel) h = tt
then-Ended info infos (err (dependency_cycle n)) k (root, m, c) hk =
    (root, Memᴰ.head (Memᴰ.eq_of_singleton m), c)
then-Ended info infos (err out_of_fuel) k h hk = tt

walk_packages-Ended :
    (infos : List PackageInfo) (s : WalkState)
    → ((n : Bytes) → contains n s.stack ≡ false)
    → Ended infos (walk_packages infos s)
unfolding walk_packages
walk_packages-Ended [] s e = e
walk_packages-Ended (info ∷ infos) s e =
    then-Ended info infos (walk_info info s) _ (walk_info-Ended info s e)
      (λ s' e'. walk_packages-Ended infos s' e')

cycle_of_error :
    (infos : List PackageInfo) (m : Outcome WalkError WalkState) (n : Bytes)
    → Ended infos m
    → (m >>= λ s. ok (sort_by_name s.entries)) ≡ err (dependency_cycle n)
    → (root : PackageInfo) × Memᴰ root infos × HasCycle root n
cycle_of_error infos (ok s) n h e = absurd (cc)
cycle_of_error infos (err (dependency_cycle m)) n (root, mem, c) e =
    let same : m ≡ n = cc in (root, mem, rw same at c)
cycle_of_error infos (err out_of_fuel) n h e = absurd (cc)

-- The error of `cppup lock` is never spurious: the package that it names is the name of a package
-- of the manifest that has a dependency, at some depth, of the same name.
pub entries_from_configuration-HasCycle :
    (plugins : TestFrameworkRegistry) (packages : List PackageInfo)
    (frameworks : List TestFramework) (n : Bytes)
    → entries_from_configuration plugins packages frameworks ≡ err (dependency_cycle n)
    → (root : PackageInfo) × Memᴰ root (roots plugins packages frameworks) × HasCycle root n
entries_from_configuration-HasCycle plugins packages frameworks n e =
    let infos = roots plugins packages frameworks in
    cycle_of_error infos (walk_packages infos start) n (walk_packages-Ended infos start nothing)
      (rw (entries_from_configuration_lem plugins packages frameworks) at e)
  where
    nothing : (n : Bytes) → contains n [] ≡ false
    nothing n = unfold contains in refl
