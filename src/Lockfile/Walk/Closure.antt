-- ===== src/Lockfile/Walk/Closure.antt =====
-- What `entries_from_configuration` returns.
use cppup.Base.{
  true, false, List, [], ◌∷◌, ◌≡◌, refl, ap, ◌∙◌, arith, Bytes, eqb_iff, contains, contains-cons,
  contains-head, Within, AllIn, AllIn-Within, All, All-map, ok, Ensures-bind, ensured, map, ◌||◌,
}
use cppup.Configuration.Package.{PackageInfo, name_of}
use cppup.Plugin.TestFrameworks.{TestFrameworkRegistry}
use cppup.Lockfile.Document.{Entry, Selection, sort_by_name, serialize}
use cppup.Lockfile.Document.Parse.{parse}
use cppup.Lockfile.Document.Sort.{
  names, All-sort_by_name, contains-sort_by_name, IsStrict, IsDistinct, sort_by_name-IsStrict,
  sort_by_name_of_IsStrict,
}
use cppup.Lockfile.Document.RoundTrip.Packages.{IsLineFree, IsSelectionLineFree, parse-serialize}
use cppup.Configuration.Build.{TestFramework}
use cppup.Lockfile.Walk.{WalkState, start, walk_packages, entries_from_configuration}
use cppup.Lockfile.Walk.Invariant.{IsOrdered, names_after, extend, AllIn-extend}
use cppup.Lockfile.Walk.Rounds.{IsFinished, walk_packages-IsFinished}
use cppup.Lockfile.Walk.Roots.{roots, entries_from_configuration_lem}

contains-names_after :
    (n : Bytes) (seen : List Bytes) (es : List Entry)
    → contains n (names_after seen es) ≡ (contains n (names es) || contains n seen)
unfolding contains
contains-names_after n seen [] = refl
contains-names_after n seen (e ∷ es) = ground (arith, contains-names_after n (e.name ∷ seen) es)

seen-not_later :
    (n : Bytes) (seen : List Bytes) (es : List Entry)
    → IsOrdered seen es
    → contains n seen ≡ true
    → contains n (names es) ≡ false
unfolding contains
seen-not_later n seen [] o h = refl
seen-not_later n seen (e ∷ es) (new, _, o) h =
    ground (arith, seen-not_later n (e.name ∷ seen) es o, eqb_iff n e.name)

IsOrdered-IsDistinct : (seen : List Bytes) (es : List Entry) → IsOrdered seen es → IsDistinct es
IsOrdered-IsDistinct seen [] o = tt
IsOrdered-IsDistinct seen (e ∷ es) (new, _, o) = (
  seen-not_later e.name (e.name ∷ seen) es o (contains-head e.name seen),
  IsOrdered-IsDistinct (e.name ∷ seen) es o,
)

no_name : (n : Bytes) → contains n [] ≡ false
unfolding contains
no_name n = refl

Within-names_after : (seen : List Bytes) (es : List Entry) → Within seen (names_after seen es)
Within-names_after seen es n h = ground (arith, contains-names_after n seen es)

-- all the dependencies of the entry are in the set
abbrev pub IsClosed : List Bytes → Entry → Type 0
IsClosed known e = AllIn known e.dependencies

IsOrdered-IsClosed :
    (seen : List Bytes) (es : List Entry)
    → IsOrdered seen es
    → All (IsClosed (names_after seen es)) es
IsOrdered-IsClosed seen [] o = tt
IsOrdered-IsClosed seen (e ∷ es) (_, deps, o) = (
  AllIn-Within seen _ e.dependencies
      (λ n h. Within-names_after (e.name ∷ seen) es n (ground (arith, contains-cons n e.name seen)))
      deps,
  IsOrdered-IsClosed (e.name ∷ seen) es o,
)

-- The lockfile of a manifest, against the packages from which the walk started.
pub record IsLock (infos : List PackageInfo) (es : List Entry) : Type 0 where
  pub strict : IsStrict es
  pub closed : All (IsClosed (names es)) es
  pub complete : AllIn (names es) (map name_of infos)

finished-IsLock :
    (infos : List PackageInfo) (s : WalkState)
    → IsFinished (extend [] infos) s
    → IsLock infos (sort_by_name s.entries)
finished-IsLock infos s f =
    let known : Within (names_after [] s.entries) (names (sort_by_name s.entries)) = λ n h.
      ground (
        arith,
        contains-names_after n [] s.entries,
        contains-sort_by_name n s.entries,
        no_name n,
      ) in
    record {
      strict = sort_by_name-IsStrict s.entries (IsOrdered-IsDistinct [] s.entries f.good.ordered);
      closed =
          All-map (λ e h. AllIn-Within _ _ e.dependencies known h) (sort_by_name s.entries)
            (All-sort_by_name (IsClosed (names_after [] s.entries)) s.entries
              (IsOrdered-IsClosed [] s.entries f.good.ordered));
      complete =
          AllIn-Within (extend [] infos) _ (map name_of infos)
            (λ n h. known n (rw f.good.done_names at (f.all_done n h))) (AllIn-extend [] infos);
    }

-- A lockfile's entries stand in strict order of their names, each dependency of an entry is an
-- entry, and so is each package of the manifest and of its test frameworks that are not skipped.
pub entries_from_configuration-IsLock :
    (plugins : TestFrameworkRegistry) (packages : List PackageInfo)
    (frameworks : List TestFramework) (es : List Entry)
    → entries_from_configuration plugins packages frameworks ≡ ok es
    → IsLock (roots plugins packages frameworks) es
entries_from_configuration-IsLock plugins packages frameworks es h =
    let infos = roots plugins packages frameworks in
    ensured (IsLock infos) (entries_from_configuration plugins packages frameworks)
      (rw (entries_from_configuration_lem plugins packages frameworks) (
        Ensures-bind (IsFinished (extend [] infos)) (IsLock infos) (walk_packages infos start) _
          (walk_packages-IsFinished infos start (record { ordered = tt; done_names = refl }))
          (finished-IsLock infos)))
      h

-- What `cppup lock` writes is read back as the entries of the manifest, if no text of an entry or
-- of the selection holds a newline.
pub parse-serialize-entries_from_configuration :
    (plugins : TestFrameworkRegistry) (packages : List PackageInfo)
    (frameworks : List TestFramework) (es : List Entry) (s : Selection)
    → entries_from_configuration plugins packages frameworks ≡ ok es
    → All IsLineFree es
    → IsSelectionLineFree s
    → parse (serialize es s) ≡ ok es
parse-serialize-entries_from_configuration plugins packages frameworks es s h free sfree =
    parse-serialize es s free sfree
    ∙ ap ok (
        sort_by_name_of_IsStrict es
          (entries_from_configuration-IsLock plugins packages frameworks es h).strict)
