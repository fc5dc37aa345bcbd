-- ===== src/Configuration/Packages/Closure.antt =====
-- What `resolve_each` returns is closed under the dependencies.
use cppup.Base.{
  ℕ, zero, suc, true, false, ◌≡◌, refl, sym, ap, ◌∙◌, arith, List, [], ◌∷◌, ◌++◌, append_assoc,
  append-nil, All, All-append, All-map, Option, none, some, Bytes, contains, contains-cons,
  contains-head, Bool-cases, inl, inr, Ensures-map, insert_new, ok, ◌>>=◌, Ensures, ensured,
  Ensures-bind, Within,
}
use cppup.Configuration.Package.{PackageInfo}
use cppup.Configuration.Packages.{
  ResolvedPackage, PackageInfoProvider, key_of, info_of, deps_of, push_all, resolve_found,
  resolve_loop, resolve_transitive, resolve_each,
}

-- the keys after the packages
abbrev pub after : List Bytes → List ResolvedPackage → List Bytes
after keys [] = keys
after keys (info ∷ added) = after (key_of info ∷ keys) added

-- Each package has a key that is new.
abbrev pub Fresh : List Bytes → List ResolvedPackage → Type 0
Fresh keys [] = Unit
Fresh keys (info ∷ added) = (contains (key_of info) keys ≡ false) × Fresh (key_of info ∷ keys) added

after-append :
    (keys : List Bytes) (xs ys : List ResolvedPackage)
    → after keys (xs ++ ys) ≡ after (after keys xs) ys
after-append keys [] ys = refl
after-append keys (x ∷ xs) ys = after-append (key_of x ∷ keys) xs ys

Fresh-append :
    (keys : List Bytes) (xs ys : List ResolvedPackage)
    → Fresh keys xs
    → Fresh (after keys xs) ys
    → Fresh keys (xs ++ ys)
Fresh-append keys [] ys f g = g
Fresh-append keys (x ∷ xs) ys (new, f) g = (new, Fresh-append (key_of x ∷ keys) xs ys f g)

Within-after : (keys : List Bytes) (added : List ResolvedPackage) → Within keys (after keys added)
Within-after keys [] n h = h
Within-after keys (x ∷ added) n h =
    Within-after (key_of x ∷ keys) added n (ground (arith, contains-cons n (key_of x) keys))

module _ (provider : PackageInfoProvider) where
  -- The package is found, and its key is there.
  abbrev pub IsResolved : List Bytes → PackageInfo → Type 0
  IsResolved keys pkg =
      (info : ResolvedPackage) × (info_of provider pkg ≡ some info)
      × (contains (key_of info) keys ≡ true)

  abbrev pub IsClosed : List Bytes → ResolvedPackage → Type 0
  IsClosed keys info = All (IsResolved keys) (deps_of provider info)

  -- What a run adds, for the packages that it was to resolve.
  record Adds (work : List PackageInfo) (keys : List Bytes) (out : List ResolvedPackage)
      (r : List ResolvedPackage × List Bytes) : Type 0 where
    added : List ResolvedPackage
    extends : r.0 ≡ out ++ added
    keys_after : r.1 ≡ after keys added
    fresh : Fresh keys added
    closed : All (IsClosed r.1) added
    settled : All (IsResolved r.1) work

  IsResolved-Within :
      (k l : List Bytes) (pkg : PackageInfo) → Within k l → IsResolved k pkg → IsResolved l pkg
  IsResolved-Within k l pkg w (info, q, c) = (info, q, w (key_of info) c)

  All-push_left :
      (P : PackageInfo → Type 0) (deps work : List PackageInfo)
      → All P (push_all deps work)
      → All P deps × All P work
  unfolding push_all
  All-push_left P [] work h = (tt, h)
  All-push_left P (d ∷ deps) work h =
      let (hd, (hx, hw)) = All-push_left P deps (d ∷ work) h in ((hx, hd), hw)

  -- a package whose key is there
  Adds-known :
      (pkg : PackageInfo) (info : ResolvedPackage) (work : List PackageInfo) (keys : List Bytes)
      (out : List ResolvedPackage) (r : List ResolvedPackage × List Bytes)
      → info_of provider pkg ≡ some info
      → contains (key_of info) keys ≡ true
      → Adds work keys out r
      → Adds (pkg ∷ work) keys out r
  Adds-known pkg info work keys out r q c a = record {
    added = a.added;
    extends = a.extends;
    keys_after = a.keys_after;
    fresh = a.fresh;
    closed = a.closed;
    settled = ((info, q, rw a.keys_after (Within-after keys a.added (key_of info) c)), a.settled);
  }

  -- a package that is added, with its dependencies behind it
  Adds-new :
      (pkg : PackageInfo) (info : ResolvedPackage) (work : List PackageInfo) (keys : List Bytes)
      (out : List ResolvedPackage) (r : List ResolvedPackage × List Bytes)
      → info_of provider pkg ≡ some info
      → contains (key_of info) keys ≡ false
      → Adds (push_all (deps_of provider info) work) (key_of info ∷ keys) (out ++ (info ∷ [])) r
      → Adds (pkg ∷ work) keys out r
  Adds-new pkg info work keys out r q c a =
      let (deps, later) = All-push_left (IsResolved r.1) (deps_of provider info) work a.settled in
      let own : contains (key_of info) r.1 ≡ true = rw a.keys_after (
        Within-after (key_of info ∷ keys) a.added (key_of info)
          (contains-head (key_of info) keys)) in
      record {
        added = info ∷ a.added;
        extends = a.extends ∙ append_assoc out (info ∷ []) a.added;
        keys_after = a.keys_after;
        fresh = (c, a.fresh);
        closed = (deps, a.closed);
        settled = ((info, q, own), later);
      }

  found-Adds :
      (fuel : ℕ) (pkg : PackageInfo) (work : List PackageInfo) (keys : List Bytes)
      (out : List ResolvedPackage) (o : Option ResolvedPackage)
      → info_of provider pkg ≡ o
      → ((w : List PackageInfo) (k : List Bytes) (t : List ResolvedPackage)
          → Ensures (Adds w k t) (resolve_loop provider fuel w k t))
      → Ensures (Adds (pkg ∷ work) keys out) (
          resolve_found provider work keys out o >>= λ r.
          resolve_loop provider fuel r.work r.keys r.out)
  unfolding resolve_found
  found-Adds fuel pkg work keys out none q ih = tt
  found-Adds fuel pkg work keys out (some info) q ih =
      elim (Bool-cases (contains (key_of info) keys)) [
        | inl c ↦ rw c (
            Ensures-map (Adds work keys out) (Adds (pkg ∷ work) keys out)
              (resolve_loop provider fuel work keys out)
              (λ r a. Adds-known pkg info work keys out r q c a) (ih work keys out))
        | inr c ↦
            let next =
              resolve_loop provider fuel (push_all (deps_of provider info) work)
                (key_of info ∷ keys) (out ++ (info ∷ [])) in
            rw (c, insert_new (key_of info) keys c)
              (Ensures-map
                (Adds (push_all (deps_of provider info) work) (key_of info ∷ keys)
                  (out ++ (info ∷ [])))
                (Adds (pkg ∷ work) keys out) next (λ r a. Adds-new pkg info work keys out r q c a)
                (ih (push_all (deps_of provider info) work) (key_of info ∷ keys)
                  (out ++ (info ∷ []))))
      ]

  resolve_loop-Adds :
      (fuel : ℕ) (work : List PackageInfo) (keys : List Bytes) (out : List ResolvedPackage)
      → Ensures (Adds work keys out) (resolve_loop provider fuel work keys out)
  unfolding resolve_loop
  resolve_loop-Adds fuel [] keys out = record {
    added = [];
    extends = sym (append-nil out);
    keys_after = refl;
    fresh = tt;
    closed = tt;
    settled = tt;
  }
  resolve_loop-Adds zero (pkg ∷ work) keys out = tt
  resolve_loop-Adds (suc fuel) (pkg ∷ work) keys out =
      found-Adds fuel pkg work keys out (info_of provider pkg) refl (resolve_loop-Adds fuel)

  -- one root, and the others behind it
  Adds-each :
      (pkg : PackageInfo) (packages : List PackageInfo) (keys : List Bytes)
      (out : List ResolvedPackage) (first r : List ResolvedPackage × List Bytes)
      → Adds (pkg ∷ []) keys [] first
      → Adds packages first.1 (out ++ first.0) r
      → Adds (pkg ∷ packages) keys out r
  Adds-each pkg packages keys out first r a b =
      let grows : Within first.1 r.1 = rw b.keys_after (Within-after first.1 b.added) in
      let early : All (IsClosed r.1) a.added =
        All-map
          (λ info. All-map (λ d. IsResolved-Within first.1 r.1 d grows) (deps_of provider info))
          a.added a.closed in
      record {
        added = a.added ++ b.added;
        extends =
            b.extends
            ∙ ap (λ t. (out ++ t) ++ b.added) a.extends
            ∙ append_assoc out a.added b.added;
        keys_after =
            b.keys_after
            ∙ ap (λ k. after k b.added) a.keys_after
            ∙ sym (after-append keys a.added b.added);
        fresh = Fresh-append keys a.added b.added a.fresh (rw a.keys_after at b.fresh);
        closed = All-append (IsClosed r.1) a.added b.added early b.closed;
        settled = (IsResolved-Within first.1 r.1 pkg grows a.settled.0, b.settled);
      }

  resolve_each-Adds :
      (fuel : ℕ) (packages : List PackageInfo) (keys : List Bytes) (resolved : List ResolvedPackage)
      → Ensures (Adds packages keys resolved) (resolve_each provider fuel packages keys resolved)
  unfolding resolve_each resolve_transitive
  resolve_each-Adds fuel [] keys resolved = record {
    added = [];
    extends = sym (append-nil resolved);
    keys_after = refl;
    fresh = tt;
    closed = tt;
    settled = tt;
  }
  resolve_each-Adds fuel (pkg ∷ packages) keys resolved =
      Ensures-bind (Adds (pkg ∷ []) keys []) (Adds (pkg ∷ packages) keys resolved)
        (resolve_loop provider fuel (pkg ∷ []) keys []) _
        (resolve_loop-Adds fuel (pkg ∷ []) keys [])
        (λ first a.
          Ensures-map (Adds packages first.1 (resolved ++ first.0))
            (Adds (pkg ∷ packages) keys resolved)
            (resolve_each provider fuel packages first.1 (resolved ++ first.0))
            (λ r b. Adds-each pkg packages keys resolved first r a b)
            (resolve_each-Adds fuel packages first.1 (resolved ++ first.0)))

  -- A set of packages, each once, that has the roots and the dependencies of its packages.
  pub record IsResolution (packages : List PackageInfo) (resolved : List ResolvedPackage)
      : Type 0 where
    pub distinct : Fresh [] resolved
    pub closed : All (IsClosed (after [] resolved)) resolved
    pub rooted : All (IsResolved (after [] resolved)) packages

  -- A successful resolution lists each package once, finds every package of the configuration and
  -- every dependency of a listed package, and lists it too.
  pub resolve_each-IsResolution :
      (fuel : ℕ) (packages : List PackageInfo) (resolved : List ResolvedPackage) (keys : List Bytes)
      → resolve_each provider fuel packages [] [] ≡ ok (resolved, keys)
      → IsResolution packages resolved
  resolve_each-IsResolution fuel packages resolved keys h =
      let a : Adds packages [] [] (resolved, keys) =
        ensured (Adds packages [] []) (resolve_each provider fuel packages [] [])
          (resolve_each-Adds fuel packages [] []) h in
      let all : keys ≡ after [] resolved = a.keys_after ∙ ap (after []) (sym a.extends) in
      record {
        distinct = rw a.extends a.fresh;
        closed = rw (sym all, a.extends) a.closed;
        rooted = rw (sym all) a.settled;
      }
