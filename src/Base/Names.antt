-- ===== src/Base/Names.antt =====
-- `std::set<std::string>` as the list of its elements, the newest first.
use mathlib.Core.Path.{◌≡◌, refl}
use mathlib.Core.Bool.{Bool, true, false, ◌||◌}
use mathlib.Core.List.{List, [], ◌∷◌}
use native.Mathlib.Omega.{arith}
use mathlib.Core.Logic.{inl, inr}
use cppup.Base.Tests.{if◌then◌else◌, Bool-cases}
use Prim.Native.Nat.{◌≤◌, ◌<◌}
use cppup.Base.Lists.{All, length}
use cppup.Base.Strings.{Bytes, eqb, eqb_iff, eqb_refl}

-- set.contains(name)
unfoldable pub contains : Bytes → List Bytes → Bool
contains n [] = false
contains n (m ∷ l) = eqb n m || contains n l

-- set.insert(name)
unfoldable pub insert : Bytes → List Bytes → List Bytes
insert n l = if contains n l then l else n ∷ l

-- set.erase(name)
unfoldable pub erase : Bytes → List Bytes → List Bytes
erase n [] = []
erase n (m ∷ l) = let rest = erase n l in if eqb n m then rest else m ∷ rest

pub contains-head : (n : Bytes) (l : List Bytes) → contains n (n ∷ l) ≡ true
unfolding contains
contains-head n l = ground (arith, eqb_refl n)

pub contains-insert :
    (n m : Bytes) (l : List Bytes) → contains n (insert m l) ≡ (eqb n m || contains n l)
unfolding contains insert
contains-insert n m l = ground (arith, eqb_iff n m)

pub contains-erase :
    (n m : Bytes) (l : List Bytes) → eqb n m ≡ false → contains n (erase m l) ≡ contains n l
unfolding contains erase
contains-erase n m [] h = refl
contains-erase n m (k ∷ l) h =
    ground (arith, contains-erase n m l, eqb_iff n m, eqb_iff m k, eqb_iff n k)

pub contains-cons : (n m : Bytes) (l : List Bytes) → contains n (m ∷ l) ≡ (eqb n m || contains n l)
unfolding contains
contains-cons n m l = refl

pub insert_new : (n : Bytes) (l : List Bytes) → contains n l ≡ false → insert n l ≡ n ∷ l
unfolding insert
insert_new n l h = rw h

pub eqb_comm : (n m : Bytes) → eqb n m ≡ eqb m n
eqb_comm n m = ground (arith, eqb_iff n m, eqb_iff m n)

-- Every name of the one set is in the other.
abbrev pub Within : List Bytes → List Bytes → Type 0
Within k l = (n : Bytes) → contains n k ≡ true → contains n l ≡ true

pub Within-cons : (m : Bytes) (k l : List Bytes) → Within k l → Within (m ∷ k) (m ∷ l)
unfolding contains
Within-cons m k l h n c = ground (arith, h n)

pub Within-tail : (m : Bytes) (l : List Bytes) → Within l (m ∷ l)
unfolding contains
Within-tail m l n c = ground arith

pub Within-known : (m : Bytes) (l : List Bytes) → contains m l ≡ true → Within (m ∷ l) l
unfolding contains
Within-known m l h n c = elim (Bool-cases (eqb n m)) [
  | inl e ↦ rw ((eqb_iff n m).0 e) h
  | inr e ↦ ground arith
]

-- All the names are in the set.
abbrev pub AllIn : List Bytes → List Bytes → Type 0
AllIn l = All (λ n. contains n l ≡ true)

pub AllIn-Within : (k l ns : List Bytes) → Within k l → AllIn k ns → AllIn l ns
AllIn-Within k l [] h a = tt
AllIn-Within k l (n ∷ ns) h (c, a) = (h n c, AllIn-Within k l ns h a)

pub contains-insert_self : (n : Bytes) (l : List Bytes) → contains n (insert n l) ≡ true
contains-insert_self n l = ground (arith, contains-insert n n l, eqb_refl n)

pub contains_of_erase :
    (n m : Bytes) (l : List Bytes)
    → contains n (erase m l) ≡ true
    → (contains n l ≡ true) × (eqb n m ≡ false)
unfolding contains erase
contains_of_erase n m [] h = ground arith
contains_of_erase n m (k ∷ l) h =
    ground (arith, contains_of_erase n m l, eqb_iff n m, eqb_iff m k, eqb_iff n k)

-- The names of a list are pairwise different.
abbrev pub NoDup : List Bytes → Type 0
NoDup [] = Unit
NoDup (n ∷ l) = (contains n l ≡ false) × NoDup l

length-erase_le : (n : Bytes) (l : List Bytes) → length (erase n l) ≤ length l
unfolding erase
length-erase_le n [] = omega arith
length-erase_le n (m ∷ l) = ground (arith, length-erase_le n l)

pub length-erase :
    (n : Bytes) (l : List Bytes) → contains n l ≡ true → length (erase n l) < length l
unfolding erase contains
length-erase n [] h = ground arith
length-erase n (m ∷ l) h = ground (arith, length-erase n l, length-erase_le n l)

pub Within-erase :
    (m : Bytes) (k l : List Bytes) → contains m k ≡ false → Within k l → Within k (erase m l)
Within-erase m k l h w n c = elim (Bool-cases (eqb n m)) [
  | inl e ↦ absurd (ground (arith, eqb_iff n m))
  | inr e ↦ rw (contains-erase n m l e) (w n c)
]

-- Different names that are all in a set are no more than the set has.
pub length-le_of_Within : (k l : List Bytes) → NoDup k → Within k l → length k ≤ length l
length-le_of_Within [] l d w = omega arith
length-le_of_Within (n ∷ k) l (new, d) w =
    let member : contains n l ≡ true = w n (contains-head n k) in
    let rest : Within k (erase n l) = Within-erase n k l new (λ m c. w m (Within-tail n k m c)) in
    omega (arith, length-le_of_Within k (erase n l) d rest, length-erase n l member)

-- As many different names as the set has, all of them in the set, are the whole set.
pub Within-of_length : (k l : List Bytes) → NoDup k → Within k l → length k ≡ length l → Within l k
Within-of_length k l d w e n c = elim (Bool-cases (contains n k)) [
  | inl h ↦ h
  | inr h ↦ absurd (
      omega
        (arith, length-le_of_Within k (erase n l) d (Within-erase n k l h w), length-erase n l c))
]
