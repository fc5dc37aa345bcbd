-- ===== src/Configuration/Packages/Merge.antt =====
-- What `merge_package_information` collects.
use cppup.Base.{
  true, false, ◌≡◌, refl, sym, ◌∙◌, ap, append-nil, append_assoc, arith, ◌||◌, List, [], ◌∷◌, ◌++◌,
  Bytes, eqb, eqb_iff, eqb_comm, contains, insert, contains-insert, NoDup, Bool-cases, inl, inr,
}
use cppup.Configuration.Packages.{
  ResolvedPackage, Unique, append_unique, Merged, nothing, no_packages, merge_packages,
}
use cppup.Configuration.Packages.Definitions.{
  IsDefined, merge_definitions-IsDefined, nothing-IsDefined,
}

-- all the flags, paths, libraries or definitions of the packages
abbrev pub gathered {ℓ} : {A : Type ℓ} → (ResolvedPackage → List A) → List ResolvedPackage → List A
gathered values [] = []
gathered values (pkg ∷ packages) = values pkg ++ gathered values packages

contains-append :
    (n : Bytes) (xs ys : List Bytes) → contains n (xs ++ ys) ≡ (contains n xs || contains n ys)
unfolding contains
contains-append n [] ys = refl
contains-append n (x ∷ xs) ys = ground (arith, contains-append n xs ys)

NoDup-append_last :
    (xs : List Bytes) (v : Bytes) → NoDup xs → contains v xs ≡ false → NoDup (xs ++ (v ∷ []))
unfolding contains
NoDup-append_last [] v d h = (refl, tt)
NoDup-append_last (x ∷ xs) v (new, d) h = (
  ground (arith, contains-append x xs (v ∷ []), eqb_comm x v),
  NoDup-append_last xs v d (ground arith),
)

-- The vector has each value once, the set has the same, and both have the values of `given`.
pub record IsUnique (given : List Bytes) (u : Unique) : Type 0 where
  pub distinct : NoDup u.out
  pub in_out : (n : Bytes) → contains n u.out ≡ contains n given
  pub in_seen : (n : Bytes) → contains n u.seen ≡ contains n given

contains-append_last :
    (n v : Bytes) (given : List Bytes)
    → contains n (given ++ (v ∷ [])) ≡ (contains n given || eqb n v)
unfolding contains
contains-append_last n v given = ground (arith, contains-append n given (v ∷ []))

-- a value that is there is no news
contains-known :
    (n v : Bytes) (given : List Bytes)
    → contains v given ≡ true
    → contains n given ≡ contains n (given ++ (v ∷ []))
contains-known n v given h = elim (Bool-cases (eqb n v)) [
  | inl e ↦ rw (contains-append_last n v given, (eqb_iff n v).0 e, h) refl
  | inr e ↦ ground (arith, contains-append_last n v given)
]

known :
    (v : Bytes) (given : List Bytes) (u : Unique)
    → IsUnique given u
    → contains v u.seen ≡ true
    → IsUnique (given ++ (v ∷ [])) u
known v given u h c =
    let there : contains v given ≡ true = sym (h.in_seen v) ∙ c in
    record {
      distinct = h.distinct;
      in_out = λ n. h.in_out n ∙ contains-known n v given there;
      in_seen = λ n. h.in_seen n ∙ contains-known n v given there;
    }

new :
    (v : Bytes) (given : List Bytes) (u : Unique)
    → IsUnique given u
    → contains v u.seen ≡ false
    → IsUnique (given ++ (v ∷ [])) (record { out = u.out ++ (v ∷ []); seen = insert v u.seen })
new v given u h c = record {
  distinct = NoDup-append_last u.out v h.distinct (h.in_out v ∙ sym (h.in_seen v) ∙ c);
  in_out = λ n.
      ground (arith, contains-append_last n v u.out, contains-append_last n v given, h.in_out n);
  in_seen =
      λ n. ground (arith, contains-insert n v u.seen, contains-append_last n v given, h.in_seen n);
}

append_unique-IsUnique :
    (input given : List Bytes) (u : Unique)
    → IsUnique given u
    → IsUnique (given ++ input) (append_unique u input)
unfolding append_unique
append_unique-IsUnique [] given u h = rw (append-nil given) h
append_unique-IsUnique (v ∷ input) given u h = elim (Bool-cases (contains v u.seen)) [
  | inl c ↦
      rw (c, sym (append_assoc given (v ∷ []) input))
        (append_unique-IsUnique input (given ++ (v ∷ [])) u (known v given u h c))
  | inr c ↦
      rw (c, sym (append_assoc given (v ∷ []) input))
        (append_unique-IsUnique input (given ++ (v ∷ []))
          (record { out = u.out ++ (v ∷ []); seen = insert v u.seen }) (new v given u h c))
]

gathered-append_last {ℓ} :
    {A : Type ℓ} (values : ResolvedPackage → List A) (packages : List ResolvedPackage)
    (pkg : ResolvedPackage)
    → gathered values (packages ++ (pkg ∷ [])) ≡ gathered values packages ++ values pkg
gathered-append_last values [] pkg = append-nil (values pkg)
gathered-append_last values (p ∷ packages) pkg =
    ap (◌++◌ (values p)) (gathered-append_last values packages pkg)
    ∙ sym (append_assoc (values p) (gathered values packages) (values pkg))

next :
    (values : ResolvedPackage → List Bytes) (packages : List ResolvedPackage)
    (pkg : ResolvedPackage) (u : Unique)
    → IsUnique (gathered values packages) u
    → IsUnique (gathered values (packages ++ (pkg ∷ []))) (append_unique u (values pkg))
next values packages pkg u h =
    rw (gathered-append_last values packages pkg)
      (append_unique-IsUnique (values pkg) (gathered values packages) u h)

-- Each vector has every value of the packages exactly once, and no others, and a name has the value
-- that the first package with a definition of it has.
pub record IsGathered (packages : List ResolvedPackage) (m : Merged) : Type 0 where
  pub compile_flags : IsUnique (gathered (λ p. p.compile_flags) packages) m.compile_flags
  pub link_flags : IsUnique (gathered (λ p. p.link_flags) packages) m.link_flags
  pub include_paths : IsUnique (gathered (λ p. p.include_paths) packages) m.include_paths
  pub library_paths : IsUnique (gathered (λ p. p.library_paths) packages) m.library_paths
  pub libraries : IsUnique (gathered (λ p. p.libraries) packages) m.libraries
  pub definitions : IsDefined (gathered (λ p. p.definitions) packages) m.definitions

merge_packages_from :
    (packages before : List ResolvedPackage) (m : Merged)
    → IsGathered before m
    → IsGathered (before ++ packages) (merge_packages m packages)
unfolding merge_packages
merge_packages_from [] before m h = rw (append-nil before) h
merge_packages_from (pkg ∷ packages) before m h =
    rw (sym (append_assoc before (pkg ∷ []) packages)) (
      merge_packages_from packages (before ++ (pkg ∷ [])) _ (record {
        compile_flags = next (λ p. p.compile_flags) before pkg m.compile_flags h.compile_flags;
        link_flags = next (λ p. p.link_flags) before pkg m.link_flags h.link_flags;
        include_paths = next (λ p. p.include_paths) before pkg m.include_paths h.include_paths;
        library_paths = next (λ p. p.library_paths) before pkg m.library_paths h.library_paths;
        libraries = next (λ p. p.libraries) before pkg m.libraries h.libraries;
        definitions = rw (gathered-append_last (λ p. p.definitions) before pkg) (
            merge_definitions-IsDefined pkg.definitions (gathered (λ p. p.definitions) before)
              m.definitions h.definitions);
      }))

nothing-IsUnique : IsUnique [] nothing
nothing-IsUnique = record { distinct = tt; in_out = λ n. refl; in_seen = λ n. refl }

-- The merged flags, paths and libraries are those of the packages, each of them once, and a name has
-- the value that the first package which defines it gives it.
pub merge_packages-IsGathered :
    (packages : List ResolvedPackage) → IsGathered packages (merge_packages no_packages packages)
merge_packages-IsGathered packages = merge_packages_from packages [] no_packages (record {
  compile_flags = nothing-IsUnique;
  link_flags = nothing-IsUnique;
  include_paths = nothing-IsUnique;
  library_paths = nothing-IsUnique;
  libraries = nothing-IsUnique;
  definitions = nothing-IsDefined;
})
