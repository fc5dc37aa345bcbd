-- ===== src/Configuration/Linking/Order.antt =====
-- What `resolve_link_set` returns: an order of the libraries that are wanted, or what is wrong with
-- them.
use cppup.Base.{
  ℕ, true, false, ◌||◌, List, [], ◌∷◌, ◌≡◌, refl, sym, ap, ◌∙◌, arith, Bytes, eqb_iff, contains,
  Outcome, ok, err, ◌>>=◌, AllIn, AllIn-Within, All, contains-head, Within-tail,
}
use cppup.Configuration.Build.{Library}
use cppup.Configuration.Linking.{
  Color, white, gray, black, LinkError, set_color, visit_root, visit_roots, resolve_link_set,
}
use cppup.Configuration.Linking.Reach.{Wanted, Ordered, is_gray, is_black}
use cppup.Configuration.Linking.Frames.{Explains, IsSearch, Searched, search_loop-Searched}

-- A link order of the roots: each library that a root wants, and no other, is listed once, in front
-- of the libraries that it links itself.
pub record IsLinkOrder (libs : List Library) (roots order : List Bytes) : Type 0 where
  pub ordered : Ordered libs order
  pub complete : AllIn order roots
  pub wanted : All (Wanted libs roots) order

abbrev pub IsResolved : List Library → List Bytes → Outcome LinkError (List Bytes) → Type 0
IsResolved libs roots (ok order) = IsLinkOrder libs roots order
IsResolved libs roots (err e) = Explains libs roots e

module _ (libs : List Library) (roots : List Bytes) where
  -- the search behind a root, which is reached too
  visit_root-Searched :
      (fuel : ℕ) (kept : List Bytes) (color : Bytes → Color) (order : List Bytes) (name : Bytes)
      (c : Color)
      → contains name roots ≡ true
      → color name ≡ c
      → IsSearch libs roots kept color order []
      → Searched libs roots (name ∷ kept) (visit_root fuel libs color order name c)
  unfolding visit_root contains
  visit_root-Searched fuel kept color order name black w e h = record {
    grays = h.grays;
    blacks = h.blacks;
    distinct = tt;
    stacked = tt;
    ordered = h.ordered;
    wanted = h.wanted;
    reached = λ n c. ground (arith, h.reached n, h.blacks name, ap is_black e, eqb_iff n name);
  }
  visit_root-Searched fuel kept color order name gray w e h =
      absurd (let q : true ≡ false = sym (ap is_gray e) ∙ h.grays name in cc)
  visit_root-Searched fuel kept color order name white w e h =
      search_loop-Searched libs roots (name ∷ kept) fuel (set_color name gray color) order
        (record { name = name; next_dep = 0 } ∷ [])
        (record {
          grays = λ n. ground (arith, h.grays n);
          blacks = λ n. ground (arith, h.blacks n, eqb_iff n name);
          distinct = (refl, tt);
          stacked = (tt, w);
          ordered = h.ordered;
          wanted = h.wanted;
          reached = λ n c. ground (arith, h.reached n);
        })

  visit_roots-IsResolved :
      (fuel : ℕ) (kept : List Bytes) (color : Bytes → Color) (order rest : List Bytes)
      → IsSearch libs roots kept color order []
      → AllIn roots rest
      → ((n : Bytes) → contains n roots ≡ true → (contains n kept || contains n rest) ≡ true)
      → IsResolved libs roots (visit_roots fuel libs color order rest)
  unfolding visit_roots contains
  visit_roots-IsResolved fuel kept color order [] h w all = record {
    ordered = h.ordered;
    complete = every roots (λ n c. ground (arith, all n c, h.reached n));
    wanted = h.wanted;
  }
    where
      every :
          (l : List Bytes)
          → ((n : Bytes) → contains n l ≡ true → contains n order ≡ true)
          → AllIn order l
      every [] f = tt
      every (x ∷ l) f = (f x (contains-head x l), every l (λ n c. f n (Within-tail x l n c)))
  visit_roots-IsResolved fuel kept color order (name ∷ rest) h (w, ws) all =
      behind (visit_root fuel libs color order name (color name))
        (visit_root-Searched fuel kept color order name (color name) w refl h)
        (λ (color', order') h'.
          visit_roots-IsResolved fuel (name ∷ kept) color' order' rest h' ws
            (λ n c. ground (arith, all n c)))
    where
      behind :
          (m : Outcome LinkError ((Bytes → Color) × List Bytes))
          → Searched libs roots (name ∷ kept) m
          → ((p : (Bytes → Color) × List Bytes)
              → IsSearch libs roots (name ∷ kept) p.0 p.1 []
              → IsResolved libs roots (visit_roots fuel libs p.0 p.1 rest))
          → IsResolved libs roots
              (m >>= λ (color', order'). visit_roots fuel libs color' order' rest)
      behind (ok p) h k = k p h
      behind (err e) h k = h

-- A list of libraries that is returned is a link order of the roots. An unknown library is wanted
-- by a root and is not there; a cycle goes through the library that it names.
pub resolve_link_set-IsResolved :
    (fuel : ℕ) (roots : List Bytes) (libs : List Library)
    → IsResolved libs roots (resolve_link_set fuel roots libs)
unfolding resolve_link_set contains
resolve_link_set-IsResolved fuel roots libs =
    visit_roots-IsResolved libs roots fuel [] (λ n. white) [] roots
      (record {
        grays = λ n. refl;
        blacks = λ n. refl;
        distinct = tt;
        stacked = tt;
        ordered = tt;
        wanted = tt;
        reached = λ n c. absurd (cc);
      })
      (own roots) (λ n c. c)
  where
    own : (l : List Bytes) → AllIn l l
    own [] = tt
    own (x ∷ l) = (contains-head x l, AllIn-Within l (x ∷ l) l (Within-tail x l) (own l))
