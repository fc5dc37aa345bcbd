-- ===== src/Configuration/Packages/Termination.antt =====
-- How many rounds `resolve_each` takes.
use cppup.Base.{
  ℕ, zero, suc, ◌+◌, ◌*◌, ◌≤◌, ◌<◌, true, ◌≡◌, ◌≢◌, refl, arith, ◌||◌, List, [], ◌∷◌, ◌++◌, Option,
  none, some, Bytes, eqb, contains, contains-cons, contains-erase, length-erase, erase, insert_new,
  length, err, ◌>>=◌, bind-ne-err, Bool-cases, inl, inr,
}
use cppup.Configuration.Package.{PackageInfo}
use cppup.Configuration.Packages.{
  ResolvedPackage, PackageInfoProvider, out_of_fuel, key_of, info_of, deps_of, push_all,
  resolve_found, resolve_loop, resolve_transitive, resolve_each, resolve_packages,
}

length-push_all :
    (deps work : List PackageInfo) → length (push_all deps work) ≡ length deps + length work
unfolding push_all
length-push_all [] work = omega arith
length-push_all (d ∷ deps) work = omega (arith, length-push_all deps (d ∷ work))

mul_lt : (a b m : ℕ) → a < b → a * m + m ≤ b * m
mul_lt a zero m h = absurd (omega arith)
mul_lt zero (suc b) m h = omega arith
mul_lt (suc a) (suc b) m h = omega (arith, mul_lt a b m (omega arith))

module _ (provider : PackageInfoProvider) (universe : List Bytes) (most : ℕ) where
  -- The provider knows packages of finitely many keys, each with at most so many dependencies.
  pub record IsFinite : Type 0 where
    pub keys :
        (pkg : PackageInfo) (info : ResolvedPackage)
        → info_of provider pkg ≡ some info
        → contains (key_of info) universe ≡ true
    pub dependencies : (info : ResolvedPackage) → length (deps_of provider info) ≤ most

  -- What has no key yet is among the rest.
  abbrev Rest : List Bytes → List Bytes → Type 0
  Rest keys rest =
      (n : Bytes) → contains n universe ≡ true → (contains n keys || contains n rest) ≡ true

  Rest-erase :
      (keys rest : List Bytes) (k : Bytes) → Rest keys rest → Rest (k ∷ keys) (erase k rest)
  Rest-erase keys rest k h n u = elim (Bool-cases (eqb n k)) [
    | inl e ↦ ground (arith, contains-cons n k keys)
    | inr e ↦ ground (arith, contains-cons n k keys, contains-erase n k rest e, h n u)
  ]

  found_ends :
      IsFinite
      → (fuel : ℕ) (pkg : PackageInfo) (work : List PackageInfo) (keys rest : List Bytes)
        (out : List ResolvedPackage) (o : Option ResolvedPackage)
      → info_of provider pkg ≡ o
      → Rest keys rest
      → length work + length rest * most ≤ fuel
      → ((w : List PackageInfo) (k l : List Bytes) (t : List ResolvedPackage)
          → Rest k l
          → length w + length l * most ≤ fuel
          → resolve_loop provider fuel w k t ≢ err out_of_fuel)
      → (resolve_found provider work keys out o >>= λ r.
          resolve_loop provider fuel r.work r.keys r.out)
        ≢ err out_of_fuel
  unfolding resolve_found
  found_ends finite fuel pkg work keys rest out none q h bound ih = λ p. cc
  found_ends finite fuel pkg work keys rest out (some info) q h bound ih =
      elim (Bool-cases (contains (key_of info) keys)) [
        | inl c ↦ rw c (ih work keys rest out h bound)
        | inr c ↦
            let here : contains (key_of info) rest ≡ true =
              ground (arith, h (key_of info) (finite.keys pkg info q)) in
            let fewer : length (erase (key_of info) rest) < length rest =
              length-erase (key_of info) rest here in
            rw (c, insert_new (key_of info) keys c)
              (ih (push_all (deps_of provider info) work) (key_of info ∷ keys)
                (erase (key_of info) rest) (out ++ (info ∷ []))
                (Rest-erase keys rest (key_of info) h)
                (omega (
                  arith,
                  length-push_all (deps_of provider info) work,
                  finite.dependencies info,
                  mul_lt (length (erase (key_of info) rest)) (length rest) most fewer,
                )))
      ]

  resolve_loop_ends :
      IsFinite
      → (fuel : ℕ) (work : List PackageInfo) (keys rest : List Bytes) (out : List ResolvedPackage)
      → Rest keys rest
      → length work + length rest * most ≤ fuel
      → resolve_loop provider fuel work keys out ≢ err out_of_fuel
  unfolding resolve_loop
  resolve_loop_ends finite fuel [] keys rest out h bound = λ p. cc
  resolve_loop_ends finite zero (pkg ∷ work) keys rest out h bound = absurd (omega arith)
  resolve_loop_ends finite (suc fuel) (pkg ∷ work) keys rest out h bound =
      found_ends finite fuel pkg work keys rest out (info_of provider pkg) refl h (omega arith)
        (resolve_loop_ends finite fuel)

  resolve_each_ends :
      IsFinite
      → (fuel : ℕ) (packages : List PackageInfo) (keys : List Bytes)
        (resolved : List ResolvedPackage)
      → 1 + length universe * most ≤ fuel
      → resolve_each provider fuel packages keys resolved ≢ err out_of_fuel
  unfolding resolve_each resolve_transitive
  resolve_each_ends finite fuel [] keys resolved bound = λ p. cc
  resolve_each_ends finite fuel (pkg ∷ packages) keys resolved bound =
      bind-ne-err (resolve_loop provider fuel (pkg ∷ []) keys []) _
        (resolve_loop_ends finite fuel (pkg ∷ []) keys universe [] (λ n u. ground arith) bound)
        (λ first. resolve_each_ends finite fuel packages first.1 (resolved ++ first.0) bound)

  -- Where the provider knows finitely many keys, and no package has more dependencies than `most`,
  -- a fuel of one more than `most` times the number of keys is enough for the resolution.
  pub resolve_packages_ends :
      IsFinite
      → (fuel : ℕ) (packages : List PackageInfo) → 1 + length universe * most ≤ fuel
      → resolve_packages provider fuel packages ≢ err out_of_fuel
  unfolding resolve_packages
  resolve_packages_ends finite fuel packages bound =
      bind-ne-err (resolve_each provider fuel packages [] []) _
        (resolve_each_ends finite fuel packages [] [] bound) (λ r p. cc)
