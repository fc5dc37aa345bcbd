-- ===== src/Lockfile/Walk/Termination.antt =====
-- The loop of `walk_info` ends: an open frame weighs one, a fresh one twice its tree, and each
-- round takes weight off the stack.
use cppup.Base.{
  ℕ, zero, suc, ◌+◌, ◌*◌, ◌≤◌, ◌<◌, Bool, true, false, List, [], ◌∷◌, ◌≡◌, ◌≢◌, arith, contains,
  Outcome, ok, err, ◌>>=◌, if_intro, bind-ne-err,
}
use cppup.Configuration.Package.{
  PackageInfo, Dependencies, package_info, leaf, dep, dependencies, name_of, children,
}
use cppup.Plugin.TestFrameworks.{TestFrameworkRegistry}
use cppup.Lockfile.Walk.Roots.{framework_packages, walk_frameworks_lem}
use cppup.Configuration.Build.{TestFramework}
use cppup.Lockfile.Walk.{
  WalkState, WalkFrame, WalkError, out_of_fuel, fresh, opened, push_children, walk_round, walk_loop,
  tree_size, forest_size, walk_info, walk_packages, start, walk_frameworks,
  entries_from_configuration,
}

weigh : PackageInfo → Bool → ℕ
weigh info true = 1
weigh info false = 2 * tree_size info

weight : List WalkFrame → ℕ
weight [] = 0
weight (frame ∷ frames) = weigh frame.info frame.expanded + weight frames

weight-push_children :
    (deps : Dependencies) (frames : List WalkFrame)
    → weight (push_children (children deps) frames) ≡ 2 * forest_size deps + weight frames
unfolding weight weigh push_children forest_size
weight-push_children leaf frames = omega arith
weight-push_children (dep info deps) frames = omega (arith, weight-push_children deps frames)

tree_size_pos : (info : PackageInfo) → 0 < tree_size info
unfolding tree_size
tree_size_pos (package_info f deps) = omega arith

weight-opened :
    (info : PackageInfo) (frames : List WalkFrame)
    → weight (push_children (children (dependencies info)) (opened info ∷ frames))
      < 2 * tree_size info + weight frames
unfolding weight weigh tree_size
weight-opened (package_info f deps) frames =
    omega (arith, weight-push_children deps (opened (package_info f deps) ∷ frames))

weigh_pos : (info : PackageInfo) (expanded : Bool) → 0 < weigh info expanded
unfolding weigh
weigh_pos info true = omega arith
weigh_pos info false = omega (arith, tree_size_pos info)

-- A round ends with an error of its own, or with less on the stack.
abbrev Lighter : ℕ → Outcome WalkError (List WalkFrame × WalkState) → Type 0
Lighter n (ok (frames, s)) = weight frames < n
Lighter n (err e) = e ≢ out_of_fuel

walk_round-Lighter :
    (info : PackageInfo) (expanded : Bool) (frames : List WalkFrame) (s : WalkState)
    → Lighter (weigh info expanded + weight frames) (walk_round info expanded frames s)
unfolding walk_round weigh
walk_round-Lighter info true frames s = omega arith
walk_round-Lighter info false frames s =
    if_intro (Lighter _) (contains (name_of info) s.done) (λ _. omega (arith, tree_size_pos info))
      (λ _.
        if_intro (Lighter _) (contains (name_of info) s.stack) (λ _. λ e. cc)
          (λ _. weight-opened info frames))

bind-total :
    (n : ℕ) (m : Outcome WalkError (List WalkFrame × WalkState))
    (k : List WalkFrame × WalkState → Outcome WalkError WalkState)
    → Lighter n m
    → ((p : List WalkFrame × WalkState) → weight p.0 < n → k p ≢ err out_of_fuel)
    → (m >>= k) ≢ err out_of_fuel
bind-total n (ok p) k h hk = hk p h
bind-total n (err e) k h hk = λ x. h (cc)

walk_loop-total :
    (fuel : ℕ) (frames : List WalkFrame) (s : WalkState)
    → weight frames ≤ fuel
    → walk_loop fuel frames s ≢ err out_of_fuel
unfolding walk_loop
walk_loop-total fuel [] s h = λ e. cc
walk_loop-total zero (frame ∷ frames) s h =
    λ e. absurd (unfold weight in omega (arith, weigh_pos frame.info frame.expanded))
walk_loop-total (suc fuel) (frame ∷ frames) s h =
    bind-total (weigh frame.info frame.expanded + weight frames) _ _
      (walk_round-Lighter frame.info frame.expanded frames s)
      (λ p lighter. walk_loop-total fuel p.0 p.1 (unfold weight in omega arith))

walk_info-total : (info : PackageInfo) (s : WalkState) → walk_info info s ≢ err out_of_fuel
unfolding walk_info
walk_info-total info s =
    walk_loop-total (2 * tree_size info) (fresh info ∷ []) s (unfold weight weigh in omega arith)

walk_packages-total :
    (infos : List PackageInfo) (s : WalkState) → walk_packages infos s ≢ err out_of_fuel
unfolding walk_packages
walk_packages-total [] s = λ e. cc
walk_packages-total (info ∷ infos) s =
    bind-ne-err (walk_info info s) _ (walk_info-total info s) (λ s'. walk_packages-total infos s')

-- `cppup lock` always ends: no manifest makes the walk run out of fuel.
pub entries_from_configuration-total :
    (plugins : TestFrameworkRegistry) (packages : List PackageInfo)
    (frameworks : List TestFramework)
    → entries_from_configuration plugins packages frameworks ≢ err out_of_fuel
unfolding entries_from_configuration
entries_from_configuration-total plugins packages frameworks =
    bind-ne-err (walk_packages packages start) _ (walk_packages-total packages start) (λ s.
      bind-ne-err (walk_frameworks plugins frameworks s) _
        (rw (walk_frameworks_lem plugins frameworks s)
          (walk_packages-total (framework_packages plugins frameworks) s))
        (λ s' e. cc))
