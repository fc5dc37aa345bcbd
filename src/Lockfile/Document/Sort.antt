-- ===== src/Lockfile/Document/Sort.antt =====
-- `sort_by_name` keeps the entries, and puts entries of different names in strict order.
use cppup.Base.{
  true, false, List, [], ◌∷◌, ◌≡◌, refl, arith, Bytes, eqb, eqb_comm, lt_bytes, lt_bytes_total,
  lt_bytes_trans, lt_bytes_asymm, contains, All, if_intro, map, ◌||◌,
}
use cppup.Lockfile.Document.{Entry, insert_by_name, sort_by_name}

abbrev pub names : List Entry → List Bytes
names = map (λ e. e.name)

module _ {κ} (P : Entry → Type κ) where
  All-insert_by_name : (e : Entry) (l : List Entry) → P e → All P l → All P (insert_by_name e l)
  unfolding insert_by_name
  All-insert_by_name e [] he h = (he, tt)
  All-insert_by_name e (x ∷ l) he (hx, h) =
      if_intro (All P) (lt_bytes x.name e.name) (λ _. (hx, All-insert_by_name e l he h))
        (λ _. (he, (hx, h)))

  pub All-sort_by_name : (l : List Entry) → All P l → All P (sort_by_name l)
  unfolding sort_by_name
  All-sort_by_name [] h = tt
  All-sort_by_name (e ∷ l) (he, h) = All-insert_by_name e (sort_by_name l) he (All-sort_by_name l h)

contains-insert_by_name :
    (n : Bytes) (e : Entry) (l : List Entry)
    → contains n (names (insert_by_name e l)) ≡ (eqb n e.name || contains n (names l))
unfolding insert_by_name contains
contains-insert_by_name n e [] = refl
contains-insert_by_name n e (x ∷ l) = ground (arith, contains-insert_by_name n e l)

pub contains-sort_by_name :
    (n : Bytes) (l : List Entry) → contains n (names (sort_by_name l)) ≡ contains n (names l)
unfolding sort_by_name contains
contains-sort_by_name n [] = refl
contains-sort_by_name n (e ∷ l) =
    ground (arith, contains-insert_by_name n e (sort_by_name l), contains-sort_by_name n l)

-- Every name is smaller than all that follow it.
abbrev pub IsStrict : List Entry → Type 0
IsStrict [] = Unit
IsStrict (x ∷ l) = All (λ (y : Entry). lt_bytes x.name y.name ≡ true) l × IsStrict l

abbrev pub IsDistinct : List Entry → Type 0
IsDistinct [] = Unit
IsDistinct (x ∷ l) = (contains x.name (names l) ≡ false) × IsDistinct l

All-above :
    (a b : Bytes) (l : List Entry)
    → lt_bytes a b ≡ true
    → All (λ (y : Entry). lt_bytes b y.name ≡ true) l
    → All (λ (y : Entry). lt_bytes a y.name ≡ true) l
All-above a b [] h k = tt
All-above a b (y ∷ l) h (hy, k) = (lt_bytes_trans a b y.name h hy, All-above a b l h k)

insert_by_name-IsStrict :
    (e : Entry) (l : List Entry)
    → contains e.name (names l) ≡ false
    → IsStrict l
    → IsStrict (insert_by_name e l)
unfolding insert_by_name contains
insert_by_name-IsStrict e [] n s = (tt, tt)
insert_by_name-IsStrict e (x ∷ l) n (above, s) =
    if_intro IsStrict (lt_bytes x.name e.name)
      (λ h. (
        All-insert_by_name (λ y. lt_bytes x.name y.name ≡ true) e l h above,
        insert_by_name-IsStrict e l (ground arith) s,
      ))
      (λ h.
        let smaller : lt_bytes e.name x.name ≡ true =
          lt_bytes_total x.name e.name h (ground (arith, eqb_comm x.name e.name)) in
        ((smaller, All-above e.name x.name l smaller above), (above, s)))

pub sort_by_name-IsStrict : (l : List Entry) → IsDistinct l → IsStrict (sort_by_name l)
unfolding sort_by_name
sort_by_name-IsStrict [] d = tt
sort_by_name-IsStrict (e ∷ l) (n, d) =
    insert_by_name-IsStrict e (sort_by_name l) (rw (contains-sort_by_name e.name l) n)
      (sort_by_name-IsStrict l d)

insert_by_name_first :
    (e : Entry) (l : List Entry)
    → All (λ (y : Entry). lt_bytes e.name y.name ≡ true) l
    → insert_by_name e l ≡ e ∷ l
unfolding insert_by_name
insert_by_name_first e [] h = refl
insert_by_name_first e (x ∷ l) (hx, h) = rw (lt_bytes_asymm e.name x.name hx)

-- What is in strict order is sorted.
pub sort_by_name_of_IsStrict : (l : List Entry) → IsStrict l → sort_by_name l ≡ l
unfolding sort_by_name
sort_by_name_of_IsStrict [] s = refl
sort_by_name_of_IsStrict (e ∷ l) (above, s) =
    rw (sort_by_name_of_IsStrict l s) (insert_by_name_first e l above)
