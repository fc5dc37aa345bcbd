-- ===== src/Configuration/Linking/Reach.antt =====
-- What the libraries link: which are wanted, which link themselves, and which order serves them.
use cppup.Base.{
  ℕ, zero, suc, Bool, true, false, List, [], ◌∷◌, map, ◌≡◌, ◌≢◌, arith, Option, none, some, Bytes,
  contains, AllIn, contains-head,
}
use cppup.Configuration.Build.{Library}
use cppup.Configuration.Linking.{Color, gray, black, Frame, find_library, nth}

abbrev pub libraries_of : Option Library → List Bytes
libraries_of none = []
libraries_of (some lib) = lib.libraries

-- the libraries that one links, none if it is not there
abbrev pub deps_of : List Library → Bytes → List Bytes
deps_of libs n = libraries_of (find_library libs n)

-- A root, or linked by a library that is wanted.
pub data Wanted (libs : List Library) (roots : List Bytes) : Bytes → Type 0 where
  root : {n : Bytes} → contains n roots ≡ true → Wanted libs roots n
  link :
      {m n : Bytes} → Wanted libs roots m → contains n (deps_of libs m) ≡ true → Wanted libs roots n

-- The first library links the second, at some depth.
pub data Links (libs : List Library) : Bytes → Bytes → Type 0 where
  once : {m n : Bytes} → contains n (deps_of libs m) ≡ true → Links libs m n
  further : {m n k : Bytes} → Links libs m n → contains k (deps_of libs n) ≡ true → Links libs m k

-- Each library is there, is not listed again, and those that it links stand behind it.
abbrev pub Ordered : List Library → List Bytes → Type 0
Ordered libs [] = Unit
Ordered libs (n ∷ rest) =
    (find_library libs n ≢ none)
    × (contains n rest ≡ false)
    × AllIn rest (deps_of libs n)
    × Ordered libs rest

abbrev pub names : List Frame → List Bytes
names = map (λ f. f.name)

-- the dependencies in front of an index
abbrev pub prefix : ℕ → List Bytes → List Bytes
prefix zero deps = []
prefix (suc k) [] = []
prefix (suc k) (d ∷ deps) = d ∷ prefix k deps

abbrev pub is_gray : Color → Bool
is_gray gray = true
is_gray _ = false

abbrev pub is_black : Color → Bool
is_black black = true
is_black _ = false

pub nth-contains :
    (deps : List Bytes) (k : ℕ) (d : Bytes) → nth deps k ≡ some d → contains d deps ≡ true
unfolding nth contains
nth-contains [] k d h = absurd (cc)
nth-contains (x ∷ deps) zero d h = let e : x ≡ d = ground arith in rw e (contains-head d deps)
nth-contains (x ∷ deps) (suc k) d h = ground (arith, nth-contains deps k d h)

pub prefix_whole :
    (l deps : List Bytes) (k : ℕ) → nth deps k ≡ none → AllIn l (prefix k deps) → AllIn l deps
unfolding nth
prefix_whole l [] k h a = tt
prefix_whole l (x ∷ deps) zero h a = absurd (cc)
prefix_whole l (x ∷ deps) (suc k) h (c, a) = (c, prefix_whole l deps k h a)

pub prefix_more :
    (l deps : List Bytes) (k : ℕ) (d : Bytes)
    → nth deps k ≡ some d
    → AllIn l (prefix k deps)
    → contains d l ≡ true
    → AllIn l (prefix (suc k) deps)
unfolding nth
prefix_more l [] k d h a c = tt
prefix_more l (x ∷ deps) zero d h a c = let e : x ≡ d = ground arith in (rw e c, tt)
prefix_more l (x ∷ deps) (suc k) d h (p, a) c = (p, prefix_more l deps k d h a c)
