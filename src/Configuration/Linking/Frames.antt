-- ===== src/Configuration/Linking/Frames.antt =====
-- The search of `resolve_link_set`: what holds of its colors, its order and its stack of frames.
use cppup.Base.{
  ℕ, zero, suc, true, false, ◌||◌, List, [], ◌∷◌, ◌≡◌, ◌≢◌, refl, sym, ap, ◌∙◌, arith, Option, none,
  some, Bytes, eqb, eqb_iff, eqb_refl, contains, Outcome, ok, err, ◌>>=◌, AllIn, AllIn-Within, All,
  NoDup, Bool-cases, inl, inr, contains-head, Within-tail,
}
use cppup.Configuration.Build.{Library}
use cppup.Configuration.Linking.{
  Color, white, gray, black, Frame, LinkError, unknown_library, cycle_detected, out_of_fuel,
  find_library, nth, set_color, Search, visit, advance, search_round, search_loop,
}
use cppup.Configuration.Linking.Reach.{
  root, link, once, further, libraries_of, deps_of, Wanted, Links, Ordered, names, prefix, is_gray,
  is_black, nth-contains, prefix_whole, prefix_more,
}

-- What is wrong: a wanted library that is not there, or a library that links itself.
abbrev pub Explains : List Library → List Bytes → LinkError → Type 0
Explains libs roots (unknown_library n) = Wanted libs roots n × (find_library libs n ≡ none)
Explains libs roots (cycle_detected n) = Links libs n n
Explains libs roots out_of_fuel = Unit

module _ (libs : List Library) (roots kept : List Bytes) where
  -- The frames below that of `child`: each waits for the one above it, the last is a root's.
  abbrev pub Below : List Bytes → Bytes → List Frame → Type 0
  Below order child [] = contains child roots ≡ true
  Below order child (f ∷ frames) =
      ((k : ℕ) × (f.next_dep ≡ suc k)
        × (nth (deps_of libs f.name) k ≡ some child)
        × AllIn order (prefix k (deps_of libs f.name)))
      × Below order f.name frames

  abbrev pub Stacked : List Bytes → List Frame → Type 0
  Stacked order [] = Unit
  Stacked order (f ∷ frames) =
      AllIn order (prefix f.next_dep (deps_of libs f.name)) × Below order f.name frames

  -- The colors tell the stack and the order, whose libraries are wanted and stand in order.
  pub record IsSearch (color : Bytes → Color) (order : List Bytes) (stack : List Frame)
      : Type 0 where
    pub grays : (n : Bytes) → is_gray (color n) ≡ contains n (names stack)
    pub blacks : (n : Bytes) → is_black (color n) ≡ contains n order
    pub distinct : NoDup (names stack)
    pub stacked : Stacked order stack
    pub ordered : Ordered libs order
    pub wanted : All (Wanted libs roots) order
    pub reached :
        (n : Bytes) → contains n kept ≡ true → (contains n order || contains n (names stack)) ≡ true

  Below-grow :
      (order : List Bytes) (n child : Bytes) (frames : List Frame)
      → Below order child frames
      → Below (n ∷ order) child frames
  Below-grow order n child [] b = b
  Below-grow order n child (f ∷ frames) ((k, e, h, a), b) = (
    (
      k,
      e,
      h,
      AllIn-Within order (n ∷ order) (prefix k (deps_of libs f.name)) (Within-tail n order) a,
    ),
    Below-grow order n f.name frames b,
  )

  Below-Wanted :
      (order : List Bytes) (child : Bytes) (frames : List Frame)
      → Below order child frames
      → Wanted libs roots child
  Below-Wanted order child [] b = root b
  Below-Wanted order child (f ∷ frames) ((k, e, h, a), b) =
      link (Below-Wanted order f.name frames b) (nth-contains (deps_of libs f.name) k child h)

  -- a library of the stack links the one above it
  Below-Links :
      (order : List Bytes) (n child : Bytes) (frames : List Frame)
      → Below order child frames
      → contains n (names frames) ≡ true
      → Links libs n child
  unfolding contains
  Below-Links order n child [] b c = absurd (cc)
  Below-Links order n child (f ∷ frames) ((k, e, h, a), b) c =
      let edge : contains child (deps_of libs f.name) ≡ true =
        nth-contains (deps_of libs f.name) k child h in
      elim (Bool-cases (eqb n f.name)) [
        | inl q ↦ let same : n ≡ f.name = (eqb_iff n f.name).0 q in once (rw same edge)
        | inr q ↦ further (Below-Links order n f.name frames b (ground arith)) edge
      ]

  abbrev Goes : Outcome LinkError Search → Type 0
  Goes (ok s) = IsSearch s.color s.order s.stack
  Goes (err e) = Explains libs roots e

  -- the frame on top has no further dependency
  finish_IsSearch :
      (color : Bytes → Color) (order : List Bytes) (frames : List Frame) (frame : Frame)
      → IsSearch color order (frame ∷ frames)
      → find_library libs frame.name ≢ none
      → nth (deps_of libs frame.name) frame.next_dep ≡ none
      → IsSearch (set_color frame.name black color) (frame.name ∷ order) frames
  unfolding contains
  finish_IsSearch color order frames frame h known last =
      let all : AllIn order (deps_of libs frame.name) =
        prefix_whole order (deps_of libs frame.name) frame.next_dep last h.stacked.0 in
      let fresh : contains frame.name order ≡ false =
        ground (arith, h.blacks frame.name, h.grays frame.name, eqb_refl frame.name) in
      record {
        grays = λ n. ground (arith, h.grays n, h.distinct, eqb_iff n frame.name);
        blacks = λ n. ground (arith, h.blacks n);
        distinct = h.distinct.1;
        stacked = finish_Stacked frames h.stacked.1;
        ordered = (known, fresh, all, h.ordered);
        wanted = (Below-Wanted order frame.name frames h.stacked.1, h.wanted);
        reached = λ n c. ground (arith, h.reached n c);
      }
    where
      finish_Stacked :
          (frames : List Frame)
          → Below order frame.name frames
          → Stacked (frame.name ∷ order) frames
      finish_Stacked [] b = tt
      finish_Stacked (f ∷ frames) ((k, e, h, a), b) = (
        rw e (
            prefix_more (frame.name ∷ order) (deps_of libs f.name) k frame.name h
              (AllIn-Within order (frame.name ∷ order) (prefix k (deps_of libs f.name))
                (Within-tail frame.name order) a)
              (contains-head frame.name order)),
        Below-grow order frame.name f.name frames b,
      )

  -- the frame on top goes on to a dependency that is black
  passed_IsSearch :
      (color : Bytes → Color) (order : List Bytes) (frames : List Frame) (frame : Frame)
      (dep : Bytes)
      → IsSearch color order (frame ∷ frames)
      → nth (deps_of libs frame.name) frame.next_dep ≡ some dep
      → color dep ≡ black
      → IsSearch color order (record frame { next_dep = suc frame.next_dep } ∷ frames)
  passed_IsSearch color order frames frame dep h here c = record {
    grays = h.grays;
    blacks = h.blacks;
    distinct = h.distinct;
    stacked = (
      prefix_more order (deps_of libs frame.name) frame.next_dep dep here h.stacked.0
          (sym (h.blacks dep) ∙ ap is_black c),
      h.stacked.1,
    );
    ordered = h.ordered;
    wanted = h.wanted;
    reached = h.reached;
  }

  -- to one that is white, which goes on top
  opened_IsSearch :
      (color : Bytes → Color) (order : List Bytes) (frames : List Frame) (frame : Frame)
      (dep : Bytes)
      → IsSearch color order (frame ∷ frames)
      → nth (deps_of libs frame.name) frame.next_dep ≡ some dep
      → color dep ≡ white
      → IsSearch (set_color dep gray color) order (
          record { name = dep; next_dep = 0 }
          ∷ record frame { next_dep = suc frame.next_dep }
          ∷ frames)
  unfolding contains
  opened_IsSearch color order frames frame dep h here c = record {
    grays = λ n. ground (arith, h.grays n);
    blacks = λ n. ground (arith, h.blacks n, eqb_iff n dep);
    distinct = (sym (h.grays dep) ∙ ap is_gray c, h.distinct);
    stacked = (tt, ((frame.next_dep, refl, here, h.stacked.0), h.stacked.1));
    ordered = h.ordered;
    wanted = h.wanted;
    reached = λ n c. ground (arith, h.reached n c);
  }

  -- to one that is gray: it links the frame on top, and is linked by it
  caught_Links :
      (color : Bytes → Color) (order : List Bytes) (frames : List Frame) (frame : Frame)
      (dep : Bytes)
      → IsSearch color order (frame ∷ frames)
      → nth (deps_of libs frame.name) frame.next_dep ≡ some dep
      → color dep ≡ gray
      → Links libs dep dep
  unfolding contains
  caught_Links color order frames frame dep h here c =
      let edge : contains dep (deps_of libs frame.name) ≡ true =
        nth-contains (deps_of libs frame.name) frame.next_dep dep here in
      let there : contains dep (names (frame ∷ frames)) ≡ true = sym (h.grays dep) ∙ ap is_gray c in
      elim (Bool-cases (eqb dep frame.name)) [
        | inl q ↦
            let same : dep ≡ frame.name = (eqb_iff dep frame.name).0 q in
            once (rw (sym same) at edge)
        | inr q ↦ further (Below-Links order dep frame.name frames h.stacked.1 (ground arith)) edge
      ]

  visit-Goes :
      (color : Bytes → Color) (order : List Bytes) (frames : List Frame) (frame : Frame)
      (dep : Bytes) (c : Color)
      → IsSearch color order (frame ∷ frames)
      → nth (deps_of libs frame.name) frame.next_dep ≡ some dep
      → color dep ≡ c
      → Goes (visit color order (record frame { next_dep = suc frame.next_dep } ∷ frames) dep c)
  unfolding visit
  visit-Goes color order frames frame dep black h here c =
      passed_IsSearch color order frames frame dep h here c
  visit-Goes color order frames frame dep gray h here c =
      caught_Links color order frames frame dep h here c
  visit-Goes color order frames frame dep white h here c =
      opened_IsSearch color order frames frame dep h here c

  advance-Goes :
      (color : Bytes → Color) (order : List Bytes) (frames : List Frame) (frame : Frame)
      (o : Option Bytes)
      → IsSearch color order (frame ∷ frames)
      → find_library libs frame.name ≢ none
      → nth (deps_of libs frame.name) frame.next_dep ≡ o
      → Goes (advance color order frames frame o)
  unfolding advance
  advance-Goes color order frames frame none h known here =
      finish_IsSearch color order frames frame h known here
  advance-Goes color order frames frame (some dep) h known here =
      visit-Goes color order frames frame dep (color dep) h here refl

  round_Goes :
      (color : Bytes → Color) (order : List Bytes) (frames : List Frame) (frame : Frame)
      (o : Option Library)
      → IsSearch color order (frame ∷ frames)
      → find_library libs frame.name ≡ o
      → Goes (search_round color order frames frame o)
  unfolding search_round
  round_Goes color order frames frame none h e =
      (Below-Wanted order frame.name frames h.stacked.1, e)
  round_Goes color order frames frame (some lib) h e =
      advance-Goes color order frames frame (nth lib.libraries frame.next_dep) h (λ q. absurd (cc))
        (ap (λ p. nth (libraries_of p) frame.next_dep) e)

  -- the loop of a root ends with no frames
  abbrev pub Searched : Outcome LinkError ((Bytes → Color) × List Bytes) → Type 0
  Searched (ok (color, order)) = IsSearch color order []
  Searched (err e) = Explains libs roots e

  Goes-bind :
      (m : Outcome LinkError Search) (f : Search → Outcome LinkError ((Bytes → Color) × List Bytes))
      → Goes m
      → ((s : Search) → IsSearch s.color s.order s.stack → Searched (f s))
      → Searched (m >>= f)
  Goes-bind (ok s) f h k = k s h
  Goes-bind (err e) f h k = h

  pub search_loop-Searched :
      (fuel : ℕ) (color : Bytes → Color) (order : List Bytes) (stack : List Frame)
      → IsSearch color order stack
      → Searched (search_loop fuel libs color order stack)
  unfolding search_loop
  search_loop-Searched fuel color order [] h = h
  search_loop-Searched zero color order (frame ∷ frames) h = tt
  search_loop-Searched (suc fuel) color order (frame ∷ frames) h =
      Goes-bind (search_round color order frames frame (find_library libs frame.name))
        (λ s. search_loop fuel libs s.color s.order s.stack)
        (round_Goes color order frames frame (find_library libs frame.name) h refl)
        (λ s. search_loop-Searched fuel s.color s.order s.stack)
