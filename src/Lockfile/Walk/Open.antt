-- ===== src/Lockfile/Walk/Open.antt =====
-- The names of the open frames: they differ, they are on the DFS path, and they are not done.
use cppup.Base.{
  Bool, true, false, List, [], ◌∷◌, ◌≡◌, arith, Bytes, eqb, contains, insert, erase, contains-cons,
  contains-insert, contains-erase, eqb_comm, eqb_iff,
}
use cppup.Configuration.Package.{PackageInfo, name_of}
use cppup.Lockfile.Walk.{WalkFrame, push_children}

abbrev Differs : Bytes → PackageInfo → Bool → Type 0
Differs n info true = eqb n (name_of info) ≡ false
Differs n info false = Unit

-- no open frame has the name `n`
abbrev pub NotOpen : Bytes → List WalkFrame → Type 0
NotOpen n [] = Unit
NotOpen n (f ∷ fs) = Differs n f.info f.expanded × NotOpen n fs

abbrev OpenFrame : List Bytes → List Bytes → List WalkFrame → PackageInfo → Bool → Type 0
OpenFrame stack done fs info true =
    (contains (name_of info) stack ≡ true)
    × (contains (name_of info) done ≡ false)
    × NotOpen (name_of info) fs
OpenFrame stack done fs info false = Unit

abbrev pub AllOpen : List Bytes → List Bytes → List WalkFrame → Type 0
AllOpen stack done [] = Unit
AllOpen stack done (f ∷ fs) = OpenFrame stack done fs f.info f.expanded × AllOpen stack done fs

pub AllOpen-push_children :
    (stack done : List Bytes) (infos : List PackageInfo) (fs : List WalkFrame)
    → AllOpen stack done fs
    → AllOpen stack done (push_children infos fs)
unfolding push_children
AllOpen-push_children stack done [] fs a = a
AllOpen-push_children stack done (info ∷ infos) fs a =
    (tt, AllOpen-push_children stack done infos fs a)

-- A name that is not on the path is the name of no open frame.
pub NotOpen-of_stack :
    (n : Bytes) (stack done : List Bytes) (fs : List WalkFrame)
    → contains n stack ≡ false
    → AllOpen stack done fs
    → NotOpen n fs
NotOpen-of_stack n stack done [] h a = tt
NotOpen-of_stack n stack done (f ∷ fs) h (o, a) =
    (differs f.expanded o, NotOpen-of_stack n stack done fs h a)
  where
    differs : (b : Bool) → OpenFrame stack done fs f.info b → Differs n f.info b
    differs true (s, d, _) = ground (arith, eqb_iff n (name_of f.info))
    differs false o = tt

-- Opening one more package keeps the open frames open.
pub AllOpen-insert :
    (n : Bytes) (stack done : List Bytes) (fs : List WalkFrame)
    → AllOpen stack done fs
    → AllOpen (insert n stack) done fs
AllOpen-insert n stack done [] a = tt
AllOpen-insert n stack done (f ∷ fs) (o, a) = (still f.expanded o, AllOpen-insert n stack done fs a)
  where
    still :
        (b : Bool) → OpenFrame stack done fs f.info b → OpenFrame (insert n stack) done fs f.info b
    still true (s, d, x) = (ground (arith, contains-insert (name_of f.info) n stack), d, x)
    still false o = tt

-- Emitting a package keeps the open frames of other names open.
pub AllOpen-erase :
    (n : Bytes) (stack done : List Bytes) (fs : List WalkFrame)
    → NotOpen n fs
    → AllOpen stack done fs
    → AllOpen (erase n stack) (n ∷ done) fs
AllOpen-erase n stack done [] x a = tt
AllOpen-erase n stack done (f ∷ fs) (x, xs) (o, a) =
    (still f.expanded x o, AllOpen-erase n stack done fs xs a)
  where
    still :
        (b : Bool)
        → Differs n f.info b
        → OpenFrame stack done fs f.info b
        → OpenFrame (erase n stack) (n ∷ done) fs f.info b
    still true e (s, d, y) = (
      ground (arith, contains-erase (name_of f.info) n stack, eqb_comm n (name_of f.info)),
      ground (arith, contains-cons (name_of f.info) n done, eqb_comm n (name_of f.info)),
      y,
    )
    still false e o = tt
