-- ===== src/Lockfile/Walk/Invariant.antt =====
-- What holds before each round of the loop of `walk_info`.
use cppup.Base.{
  Bool, true, false, List, [], ◌∷◌, ◌++◌, ◌≡◌, refl, Bytes, contains, Within, Within-cons,
  Within-tail, AllIn, AllIn-Within, contains-head, map,
}
use cppup.Configuration.Package.{PackageInfo, name_of}
use cppup.Lockfile.Document.{Entry}
use cppup.Lockfile.Walk.{WalkFrame, push_children, dependency_names}

-- Each entry has a new name, and stands behind the entries that it depends on. `seen` are the names
-- in front of the list.
abbrev pub IsOrdered : List Bytes → List Entry → Type 0
IsOrdered seen [] = Unit
IsOrdered seen (e ∷ es) =
    (contains e.name seen ≡ false) × AllIn seen e.dependencies × IsOrdered (e.name ∷ seen) es

abbrev pub names_after : List Bytes → List Entry → List Bytes
names_after seen [] = seen
names_after seen (e ∷ es) = names_after (e.name ∷ seen) es

pub names_after-concat :
    (seen : List Bytes) (es : List Entry) (e : Entry)
    → names_after seen (es ++ e ∷ []) ≡ e.name ∷ names_after seen es
names_after-concat seen [] e = refl
names_after-concat seen (x ∷ es) e = names_after-concat (x.name ∷ seen) es e

pub IsOrdered-concat :
    (seen : List Bytes) (es : List Entry) (e : Entry)
    → IsOrdered seen es
    → contains e.name (names_after seen es) ≡ false
    → AllIn (names_after seen es) e.dependencies
    → IsOrdered seen (es ++ e ∷ [])
IsOrdered-concat seen [] e o h d = (h, d, tt)
IsOrdered-concat seen (x ∷ es) e (n, a, o) h d = (n, a, IsOrdered-concat (x.name ∷ seen) es e o h d)

-- The dependencies of an open frame are done, or stand above it.
abbrev IsReady : PackageInfo → Bool → List Bytes → Type 0
IsReady info true known = AllIn known (dependency_names info)
IsReady info false known = Unit

abbrev pub Covered : List Bytes → List WalkFrame → Type 0
Covered known [] = Unit
Covered known (f ∷ fs) = IsReady f.info f.expanded known × Covered (name_of f.info ∷ known) fs

pub Covered-Within :
    (k l : List Bytes) (fs : List WalkFrame) → Within k l → Covered k fs → Covered l fs
Covered-Within k l [] h c = tt
Covered-Within k l (f ∷ fs) h (r, c) = (
  ready f.expanded r,
  Covered-Within (name_of f.info ∷ k) (name_of f.info ∷ l) fs (Within-cons _ k l h) c,
)
  where
    ready : (b : Bool) → IsReady f.info b k → IsReady f.info b l
    ready true a = AllIn-Within k l _ h a
    ready false a = tt

-- the names of `infos` in front of `known`
abbrev pub extend : List Bytes → List PackageInfo → List Bytes
extend known [] = known
extend known (info ∷ infos) = extend (name_of info ∷ known) infos

pub Within-extend :
    (known : List Bytes) (infos : List PackageInfo) → Within known (extend known infos)
Within-extend known [] n c = c
Within-extend known (info ∷ infos) n c =
    Within-extend (name_of info ∷ known) infos n (Within-tail (name_of info) known n c)

pub extend-Within :
    (k l : List Bytes) (infos : List PackageInfo)
    → Within k l
    → Within (extend k infos) (extend l infos)
extend-Within k l [] h = h
extend-Within k l (info ∷ infos) h =
    extend-Within (name_of info ∷ k) (name_of info ∷ l) infos (Within-cons (name_of info) k l h)

pub AllIn-extend :
    (known : List Bytes) (infos : List PackageInfo) → AllIn (extend known infos) (map name_of infos)
AllIn-extend known [] = tt
AllIn-extend known (info ∷ infos) = (
  Within-extend (name_of info ∷ known) infos (name_of info) (contains-head _ known),
  AllIn-extend (name_of info ∷ known) infos,
)

pub Covered-push_children :
    (known : List Bytes) (infos : List PackageInfo) (fs : List WalkFrame)
    → Covered (extend known infos) fs
    → Covered known (push_children infos fs)
unfolding push_children
Covered-push_children known [] fs c = c
Covered-push_children known (info ∷ infos) fs c =
    (tt, Covered-push_children (name_of info ∷ known) infos fs c)

-- all the names that are done or on the stack
abbrev pub all_names : List Bytes → List WalkFrame → List Bytes
all_names known [] = known
all_names known (f ∷ fs) = all_names (name_of f.info ∷ known) fs

pub Within-all_names :
    (k l : List Bytes) (fs : List WalkFrame) → Within k l → Within (all_names k fs) (all_names l fs)
Within-all_names k l [] h = h
Within-all_names k l (f ∷ fs) h =
    Within-all_names (name_of f.info ∷ k) (name_of f.info ∷ l) fs (Within-cons _ k l h)

pub all_names-push_children :
    (known : List Bytes) (infos : List PackageInfo) (fs : List WalkFrame)
    → all_names known (push_children infos fs) ≡ all_names (extend known infos) fs
unfolding push_children
all_names-push_children known [] fs = refl
all_names-push_children known (info ∷ infos) fs =
    all_names-push_children (name_of info ∷ known) infos fs
