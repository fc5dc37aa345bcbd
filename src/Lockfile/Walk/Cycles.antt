-- ===== src/Lockfile/Walk/Cycles.antt =====
-- The error of `walk_info` names a package that depends on a package of its own name.
use mathlib.Core.List.{Memᴰ}
use cppup.Base.{
  Bool, true, false, List, [], ◌∷◌, ◌≡◌, refl, sym, arith, Bytes, eqb, eqb_iff, contains, insert,
  contains-insert, contains_of_erase, Outcome, ok, err, if_intro, ◌⊎◌, inl, inr, Bool-cases,
}
use cppup.Configuration.Package.{PackageInfo, name_of, children, dependencies}
use cppup.Lockfile.Walk.{
  WalkState, WalkFrame, WalkError, dependency_cycle, out_of_fuel, fresh, opened, push_children,
  emit, walk_round,
}

-- `q` is a dependency of `p`, at some depth.
pub data IsBelow (p : PackageInfo) : PackageInfo → Type 0 where
  direct : (q : PackageInfo) → Memᴰ q (children (dependencies p)) → IsBelow p q
  deeper : (q r : PackageInfo) → IsBelow p q → Memᴰ r (children (dependencies q)) → IsBelow p r

abbrev pub From : PackageInfo → PackageInfo → Type 0
From root p = (root ≡ p) ⊎ IsBelow root p

-- A package of the tree of `root` has a dependency of its own name `n`, at some depth.
pub record HasCycle (root : PackageInfo) (n : Bytes) : Type 0 where
  pub outer : PackageInfo
  pub inner : PackageInfo
  pub reached : From root outer
  pub below : IsBelow outer inner
  pub outer_name : name_of outer ≡ n
  pub inner_name : name_of inner ≡ n

-- Every frame stands for a package of the tree, and below the open frames under it.
abbrev pub Below : PackageInfo → Bool → PackageInfo → Type 0
Below p true q = IsBelow p q
Below p false q = Unit

abbrev pub Under : PackageInfo → List WalkFrame → Type 0
Under info [] = Unit
Under info (f ∷ fs) = Below f.info f.expanded info × Under info fs

abbrev pub Nested : PackageInfo → List WalkFrame → Type 0
Nested root [] = Unit
Nested root (f ∷ fs) = From root f.info × Under f.info fs × Nested root fs

abbrev pub IsNamed : Bytes → PackageInfo → Bool → Type 0
IsNamed n info true = name_of info ≡ n
IsNamed n info false = ⊥

-- an open frame has the name
abbrev pub HasOpen : Bytes → List WalkFrame → Type 0
HasOpen n [] = ⊥
HasOpen n (f ∷ fs) = IsNamed n f.info f.expanded ⊎ HasOpen n fs

pub record Inv (root : PackageInfo) (frames : List WalkFrame) (s : WalkState) : Type 0 where
  pub nested : Nested root frames
  pub path : (n : Bytes) → contains n s.stack ≡ true → HasOpen n frames

-- An open frame of the name makes a cycle with a package below all open frames.
cycle_of_HasOpen :
    (root info : PackageInfo) (n : Bytes) (fs : List WalkFrame)
    → name_of info ≡ n
    → Under info fs
    → Nested root fs
    → HasOpen n fs
    → HasCycle root n
cycle_of_HasOpen root info n [] e u d h = absurd h
cycle_of_HasOpen root info n (f ∷ fs) e (b, u) (r, _, d) (inr h) =
    cycle_of_HasOpen root info n fs e u d h
cycle_of_HasOpen root info n (f ∷ fs) e (b, u) (r, _, d) (inl h) = here f.expanded b h
  where
    here : (t : Bool) → Below f.info t info → IsNamed n f.info t → HasCycle root n
    here true b h = record {
      outer = f.info;
      inner = info;
      reached = r;
      below = b;
      outer_name = h;
      inner_name = e;
    }
    here false b h = absurd h

child-From :
    (root info child : PackageInfo)
    → From root info
    → Memᴰ child (children (dependencies info))
    → From root child
child-From root info child (inr b) m = inr (deeper info child b m)
child-From root info child (inl e) m = inr (direct child (rw e m))

child-Under :
    (info child : PackageInfo) (fs : List WalkFrame)
    → Memᴰ child (children (dependencies info))
    → Under info fs
    → Under child fs
child-Under info child [] m u = tt
child-Under info child (f ∷ fs) m (b, u) = (lower f.expanded b, child-Under info child fs m u)
  where
    lower : (t : Bool) → Below f.info t info → Below f.info t child
    lower true b = deeper info child b m
    lower false b = tt

Under-push_children :
    (child : PackageInfo) (infos : List PackageInfo) (fs : List WalkFrame)
    → Under child fs
    → Under child (push_children infos fs)
unfolding push_children
Under-push_children child [] fs u = u
Under-push_children child (info ∷ infos) fs u = (tt, Under-push_children child infos fs u)

Nested-push_children :
    (root info : PackageInfo) (infos : List PackageInfo) (fs : List WalkFrame)
    → ((child : PackageInfo) → Memᴰ child infos → From root child × Under child fs)
    → Nested root fs
    → Nested root (push_children infos fs)
unfolding push_children
Nested-push_children root info [] fs h d = d
Nested-push_children root info (child ∷ infos) fs h d =
    let (r, u) = h child (Memᴰ.head refl) in
    (
      r,
      Under-push_children child infos fs u,
      Nested-push_children root info infos fs (λ c m. h c (Memᴰ.tail m)) d,
    )

HasOpen-push_children :
    (n : Bytes) (infos : List PackageInfo) (fs : List WalkFrame)
    → HasOpen n fs
    → HasOpen n (push_children infos fs)
unfolding push_children
HasOpen-push_children n [] fs h = h
HasOpen-push_children n (info ∷ infos) fs h = inr (HasOpen-push_children n infos fs h)

abbrev pub After : PackageInfo → Outcome WalkError (List WalkFrame × WalkState) → Type 0
After root (ok (fs, s)) = Inv root fs s
After root (err (dependency_cycle n)) = HasCycle root n
After root (err out_of_fuel) = Unit

emit-Inv :
    (root info : PackageInfo) (fs : List WalkFrame) (s : WalkState)
    → Inv root (opened info ∷ fs) s
    → Inv root fs (emit info s)
unfolding emit
emit-Inv root info fs s h = record {
  nested = h.nested.2;
  path = λ n c. still n (contains_of_erase n (name_of info) s.stack c);
}
  where
    still :
        (n : Bytes) → (contains n s.stack ≡ true) × (eqb n (name_of info) ≡ false) → HasOpen n fs
    still n (c, e) = elim (h.path n c) [
      | inl same ↦ absurd (ground (arith, eqb_iff n (name_of info)))
      | inr later ↦ later
    ]

skip-Inv :
    (root info : PackageInfo) (fs : List WalkFrame) (s : WalkState)
    → Inv root (fresh info ∷ fs) s
    → Inv root fs s
skip-Inv root info fs s h = record {
  nested = h.nested.2;
  path = λ n c. elim (h.path n c) [ inl x ↦ absurd x | inr later ↦ later ];
}

open-Inv :
    (root info : PackageInfo) (fs : List WalkFrame) (s : WalkState)
    → Inv root (fresh info ∷ fs) s
    → Inv root
        (push_children (children (dependencies info)) (opened info ∷ fs))
        (record s { stack = insert (name_of info) s.stack })
open-Inv root info fs s h =
    let (r, u, d) = h.nested in
    let infos = children (dependencies info) in
    record {
      nested =
          Nested-push_children root info infos (opened info ∷ fs)
            (λ child m.
              (child-From root info child r m, (direct child m, child-Under info child fs m u)))
            (r, u, d);
      path = λ n c.
          HasOpen-push_children n infos (opened info ∷ fs)
            (elim (Bool-cases (eqb n (name_of info))) [
              | inl e ↦ inl (sym ((eqb_iff n (name_of info)).0 e))
              | inr e ↦ elim (h.path n (ground (arith, contains-insert n (name_of info) s.stack))) [
                | inl x ↦ absurd x
                | inr later ↦ inr later
              ]
            ]);
    }

pub walk_round-After :
    (root info : PackageInfo) (expanded : Bool) (fs : List WalkFrame) (s : WalkState)
    → Inv root (record { info = info; expanded = expanded } ∷ fs) s
    → After root (walk_round info expanded fs s)
unfolding walk_round
walk_round-After root info true fs s h = emit-Inv root info fs s h
walk_round-After root info false fs s h =
    let (r, u, d) = h.nested in
    if_intro (After root) (contains (name_of info) s.done) (λ _. skip-Inv root info fs s h)
      (λ _.
        if_intro (After root) (contains (name_of info) s.stack)
          (λ t.
            cycle_of_HasOpen root info (name_of info) fs refl u d
              (elim (h.path (name_of info) t) [ inl x ↦ absurd x | inr later ↦ later ]))
          (λ _. open-Inv root info fs s h))
