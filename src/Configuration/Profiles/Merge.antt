-- ===== src/Configuration/Profiles/Merge.antt =====
-- What a profile adds to a configuration.
use cppup.Base.{
  Bool, true, false, ◌||◌, ◌≡◌, refl, sym, ap, ◌∙◌, arith, List, [], ◌∷◌, ◌++◌, append_assoc,
  append-nil, All, Option, none, some, Bytes, eqb, eqb_refl, eqb_iff, if◌then◌else◌, Bool-cases,
  inl, inr,
}
use cppup.Configuration.Build.{BuildConfiguration, Profile, Definition, eq_package, eq_optional}
use cppup.Configuration.Package.{PackageInfo, name_of, fields}
use cppup.Configuration.Profiles.{
  matches, push_unique, merge_unique, push_or_collide, merge_overriding, same_flag, same_name,
  set_value, merge_profile,
}

-- The items of the first list are among those of the second, in their order.
pub data Sublist {ℓ} {T : Type ℓ} : List T → List T → Type ℓ where
  done : Sublist [] []
  kept : {x : T} {xs ys : List T} → Sublist xs ys → Sublist (x ∷ xs) (x ∷ ys)
  skipped : {y : T} {xs ys : List T} → Sublist xs ys → Sublist xs (y ∷ ys)

module _ {ℓ} {T : Type ℓ} (same : T → T → Bool) where
  -- No item has the key of one before it.
  abbrev pub Fresh : List T → List T → Type 0
  Fresh result [] = Unit
  Fresh result (item ∷ added) =
      (matches same item result ≡ false) × Fresh (result ++ (item ∷ [])) added

  -- The result is the base with fresh items of the additional ones behind it, and has all keys.
  pub record IsUnion (base additional result : List T) : Type ℓ where
    pub added : List T
    pub extends : result ≡ base ++ added
    pub taken : Sublist added additional
    pub fresh : Fresh base added
    pub covers : All (λ item. matches same item result ≡ true) additional

  matches-append :
      (item : T) (xs ys : List T)
      → matches same item (xs ++ ys) ≡ (matches same item xs || matches same item ys)
  unfolding matches
  matches-append item [] ys = refl
  matches-append item (x ∷ xs) ys = ground (arith, matches-append item xs ys)

  matches-prefix :
      (item : T) (xs ys : List T)
      → matches same item xs ≡ true
      → matches same item (xs ++ ys) ≡ true
  matches-prefix item xs ys h = ground (arith, matches-append item xs ys)

  matches-last :
      (item : T) (xs : List T)
      → same item item ≡ true
      → matches same item (xs ++ (item ∷ [])) ≡ true
  unfolding matches
  matches-last item xs h = ground (arith, matches-append item xs (item ∷ []))

  -- the same items beyond a key that the base has
  with_old :
      (base additional result : List T) (item : T)
      → matches same item base ≡ true
      → IsUnion base additional result
      → IsUnion base (item ∷ additional) result
  with_old base additional result item h u = record {
    added = u.added;
    extends = u.extends;
    taken = skipped u.taken;
    fresh = u.fresh;
    covers = (rw u.extends (matches-prefix item base u.added h), u.covers);
  }

  with_new :
      (base additional result : List T) (item : T)
      → same item item ≡ true
      → matches same item base ≡ false
      → IsUnion (base ++ (item ∷ [])) additional result
      → IsUnion base (item ∷ additional) result
  with_new base additional result item own h u = record {
    added = item ∷ u.added;
    extends = u.extends ∙ append_assoc base (item ∷ []) u.added;
    taken = kept u.taken;
    fresh = (h, u.fresh);
    covers = (
      rw u.extends (matches-prefix item (base ++ (item ∷ [])) u.added (matches-last item base own)),
      u.covers,
    );
  }

  pub merge_unique-IsUnion :
      ((item : T) → same item item ≡ true)
      → (base additional : List T) → IsUnion base additional (merge_unique same base additional)
  unfolding merge_unique push_unique
  merge_unique-IsUnion own base [] = record {
    added = [];
    extends = sym (append-nil base);
    taken = done;
    fresh = tt;
    covers = tt;
  }
  merge_unique-IsUnion own base (item ∷ additional) = elim (Bool-cases (matches same item base)) [
    | inl h ↦ rw h (
        with_old base additional (merge_unique same base additional) item h
          (merge_unique-IsUnion own base additional))
    | inr h ↦ rw h (
        with_new base additional (merge_unique same (base ++ (item ∷ [])) additional) item
          (own item) h (merge_unique-IsUnion own (base ++ (item ∷ [])) additional))
  ]

-- the value of the first definition of the name
abbrev pub value_of : Bytes → List Definition → Option Bytes
value_of n [] = none
value_of n (d ∷ definitions) =
    let rest = value_of n definitions in if eqb d.name n then some d.value else rest

-- the value of the last definition of the name, or else `v`
abbrev pub last_value : Option Bytes → Bytes → List Definition → Option Bytes
last_value v n [] = v
last_value v n (d ∷ definitions) =
    last_value (if eqb d.name n then some d.value else v) n definitions

value_of-push :
    (n : Bytes) (base : List Definition) (d : Definition)
    → value_of n (push_or_collide same_name set_value base d)
      ≡ (if eqb d.name n then some d.value else value_of n base)
unfolding push_or_collide
value_of-push n [] d = refl
value_of-push n (x ∷ base) d =
    ground
      (arith, value_of-push n base d, eqb_iff x.name d.name, eqb_iff x.name n, eqb_iff d.name n)

value_of-merge :
    (n : Bytes) (base additional : List Definition)
    → value_of n (merge_overriding same_name set_value base additional)
      ≡ last_value (value_of n base) n additional
unfolding merge_overriding
value_of-merge n base [] = refl
value_of-merge n base (d ∷ additional) =
    value_of-merge n (push_or_collide same_name set_value base d) additional
    ∙ ap (λ v. last_value v n additional) (value_of-push n base d)

eq_optional_refl : (o : Option Bytes) → eq_optional o o ≡ true
unfolding eq_optional
eq_optional_refl none = refl
eq_optional_refl (some s) = eqb_refl s

eq_package_refl : (p : PackageInfo) → eq_package p p ≡ true
unfolding eq_package
eq_package_refl p = ground (arith, eqb_refl (name_of p), eq_optional_refl (fields p).version)

-- What a merge makes of the members that a profile has.
pub record IsMerged (base : BuildConfiguration) (profile : Profile) (result : BuildConfiguration)
    : Type 0 where
  pub packages : IsUnion eq_package base.packages profile.packages result.packages
  pub compile_flags :
      IsUnion same_flag base.compile_flags profile.compile_flags result.compile_flags
  pub link_flags : IsUnion same_flag base.link_flags profile.link_flags result.link_flags
  pub include_paths : IsUnion eqb base.include_paths profile.include_paths result.include_paths
  pub definitions :
      (n : Bytes)
      → value_of n result.definitions
        ≡ last_value (value_of n base.definitions) n profile.definitions

-- The merged packages, flags and include paths are those of the base, unchanged and in front, and
-- behind them the profile's that have a new key, in the profile's order, so that every key of the
-- profile is there; and a name has the value of its last definition in the profile, or else the
-- value that it has in the base.
pub merge_profile-IsMerged :
    (base : BuildConfiguration) (profile : Profile)
    → IsMerged base profile (merge_profile base profile)
unfolding merge_profile
merge_profile-IsMerged base profile = record {
  packages = merge_unique-IsUnion eq_package eq_package_refl base.packages profile.packages;
  compile_flags =
      merge_unique-IsUnion same_flag (λ f. eqb_refl f.flag) base.compile_flags
        profile.compile_flags;
  link_flags =
      merge_unique-IsUnion same_flag (λ f. eqb_refl f.flag) base.link_flags profile.link_flags;
  include_paths = merge_unique-IsUnion eqb eqb_refl base.include_paths profile.include_paths;
  definitions = λ n. value_of-merge n base.definitions profile.definitions;
}
