-- ===== src/Configuration/Linking/Termination.antt =====
-- The fuel that `resolve_link_set` needs.
use cppup.Base.{
  ℕ, zero, suc, ◌+◌, ◌-◌, ◌*◌, ◌≤◌, ◌<◌, Bool, true, false, List, [], ◌∷◌, ◌≡◌, ◌≢◌, refl, ap, ◌∙◌,
  arith, Option, none, some, Bytes, eqb, eqb_iff, if◌then◌else◌, length, Outcome, ok, err, ◌>>=◌,
  bind-ne-err, Bool-cases, inl, inr,
}
use cppup.Configuration.Build.{Library}
use cppup.Configuration.Linking.{
  Color, white, gray, black, Frame, LinkError, unknown_library, cycle_detected, out_of_fuel,
  find_library, nth, set_color, Search, visit, advance, search_round, search_loop, visit_root,
  visit_roots, resolve_link_set,
}
use cppup.Configuration.Linking.Reach.{deps_of, libraries_of, Wanted, Links}
use cppup.Configuration.Linking.Order.{IsLinkOrder, IsResolved, resolve_link_set-IsResolved}

abbrev pub is_white : Color → Bool
is_white white = true
is_white _ = false

-- a library that is not yet seen costs two rounds for a dependency, and one
unfoldable pub weight : (Bytes → Color) → List Library → ℕ
weight color [] = 0
weight color (lib ∷ libs) =
    (if is_white (color lib.name) then 2 * length lib.libraries + 1 else 0) + weight color libs

-- So many rounds are enough.
unfoldable pub link_fuel : List Library → ℕ
unfolding weight
link_fuel libs = suc (2 * weight (λ n. white) libs)

weight-le :
    (color : Bytes → Color) (libs : List Library) → weight color libs ≤ weight (λ n. white) libs
unfolding weight
weight-le color [] = omega arith
weight-le color (lib ∷ libs) = ground (arith, weight-le color libs)

-- a library that gets another color weighs no more
weight-set :
    (color : Bytes → Color) (c : Color) (name : Bytes) (libs : List Library)
    → is_white c ≡ false
    → weight (set_color name c color) libs ≤ weight color libs
unfolding weight
weight-set color c name [] h = omega arith
weight-set color c name (lib ∷ libs) h = ground (arith, weight-set color c name libs h)

-- and one that was white is taken off
weight-found :
    (color : Bytes → Color) (name : Bytes) (libs : List Library)
    → color name ≡ white
    → weight (set_color name gray color) libs + 2 * length (deps_of libs name) ≤ weight color libs
unfolding weight find_library
weight-found color name [] h = omega arith
weight-found color name (lib ∷ libs) h = elim (Bool-cases (eqb lib.name name)) [
  | inl e ↦
      let same : color lib.name ≡ white = ap color ((eqb_iff lib.name name).0 e) ∙ h in
      rw (e, same) (omega (arith, weight-set color gray name libs refl))
  | inr e ↦ rw e (ground (arith, weight-found color name libs h))
]

module _ (libs : List Library) where
  abbrev cost : Frame → ℕ
  cost f = 2 * (length (deps_of libs f.name) - f.next_dep) + 1

  unfoldable costs : List Frame → ℕ
  costs [] = 0
  costs (f ∷ frames) = cost f + costs frames

  -- A round that goes on leaves less to do.
  abbrev Lighter : ℕ → Outcome LinkError Search → Type 0
  Lighter all (ok s) = weight s.color libs + costs s.stack < all
  Lighter all (err e) = e ≢ out_of_fuel

nth-bound : (deps : List Bytes) (k : ℕ) (d : Bytes) → nth deps k ≡ some d → k < length deps
unfolding nth
nth-bound [] k d h = absurd (cc)
nth-bound (x ∷ deps) zero d h = omega arith
nth-bound (x ∷ deps) (suc k) d h = omega (arith, nth-bound deps k d h)

module _ (libs : List Library) (color : Bytes → Color) (order : List Bytes) (frames : List Frame)
    (frame : Frame) where
  abbrev here_cost : ℕ
  here_cost = weight color libs + costs libs (frame ∷ frames)

  visit-Lighter :
      (dep : Bytes) (c : Color)
      → frame.next_dep < length (deps_of libs frame.name)
      → color dep ≡ c
      → Lighter libs here_cost
          (visit color order (record frame { next_dep = suc frame.next_dep } ∷ frames) dep c)
  unfolding visit costs
  visit-Lighter dep black b e = omega arith
  visit-Lighter dep gray b e = λ q. absurd (cc)
  visit-Lighter dep white b e = omega (arith, weight-found color dep libs e)

  advance-Lighter :
      (o : Option Bytes)
      → nth (deps_of libs frame.name) frame.next_dep ≡ o
      → Lighter libs here_cost (advance color order frames frame o)
  unfolding advance costs
  advance-Lighter none e = omega (arith, weight-set color black frame.name libs refl)
  advance-Lighter (some dep) e =
      visit-Lighter dep (color dep) (nth-bound (deps_of libs frame.name) frame.next_dep dep e) refl

  round_Lighter :
      (o : Option Library)
      → find_library libs frame.name ≡ o
      → Lighter libs here_cost (search_round color order frames frame o)
  unfolding search_round
  round_Lighter none e = λ q. absurd (cc)
  round_Lighter (some lib) e =
      advance-Lighter (nth lib.libraries frame.next_dep)
        (ap (λ p. nth (libraries_of p) frame.next_dep) e)

module _ (libs : List Library) where
  abbrev Result : Type 0
  Result = Outcome LinkError ((Bytes → Color) × List Bytes)

  bound_total :
      (all fuel : ℕ) (m : Outcome LinkError Search) (f : Search → Result)
      → Lighter libs all m
      → all ≤ suc fuel
      → ((s : Search) → weight s.color libs + costs libs s.stack ≤ fuel → f s ≢ err out_of_fuel)
      → (m >>= f) ≢ err out_of_fuel
  bound_total all fuel (ok s) f h b k = k s (omega arith)
  bound_total all fuel (err e) f h b k = λ q. h (cc)

  search_loop-total :
      (fuel : ℕ) (color : Bytes → Color) (order : List Bytes) (stack : List Frame)
      → weight color libs + costs libs stack ≤ fuel
      → search_loop fuel libs color order stack ≢ err out_of_fuel
  unfolding search_loop costs
  search_loop-total fuel color order [] b = λ q. absurd (cc)
  search_loop-total zero color order (frame ∷ frames) b = absurd (omega arith)
  search_loop-total (suc fuel) color order (frame ∷ frames) b =
      bound_total (weight color libs + costs libs (frame ∷ frames)) fuel
        (search_round color order frames frame (find_library libs frame.name))
        (λ s. search_loop fuel libs s.color s.order s.stack)
        (round_Lighter libs color order frames frame (find_library libs frame.name) refl) b
        (λ s. search_loop-total fuel s.color s.order s.stack)

  search_root :
      (fuel : ℕ) (color : Bytes → Color) (order : List Bytes) (name : Bytes)
      → link_fuel libs ≤ fuel
      → search_loop fuel libs
          (set_color name gray color)
          order
          (record { name = name; next_dep = 0 } ∷ [])
        ≢ err out_of_fuel
  unfolding costs link_fuel
  search_root fuel color order name b =
      search_loop-total fuel (set_color name gray color) order
        (record { name = name; next_dep = 0 } ∷ [])
        (omega (
          arith,
          weight-found (λ n. white) name libs refl,
          weight-le (set_color name gray color) libs,
        ))

  visit_root-total :
      (fuel : ℕ) (color : Bytes → Color) (order : List Bytes) (name : Bytes) (c : Color)
      → link_fuel libs ≤ fuel
      → visit_root fuel libs color order name c ≢ err out_of_fuel
  unfolding visit_root costs link_fuel
  visit_root-total fuel color order name black b = λ q. absurd (cc)
  visit_root-total fuel color order name gray b = search_root fuel color order name b
  visit_root-total fuel color order name white b = search_root fuel color order name b

  visit_roots-total :
      (fuel : ℕ) (color : Bytes → Color) (order roots : List Bytes)
      → link_fuel libs ≤ fuel
      → visit_roots fuel libs color order roots ≢ err out_of_fuel
  unfolding visit_roots
  visit_roots-total fuel color order [] b = λ q. absurd (cc)
  visit_roots-total fuel color order (root ∷ roots) b =
      bind-ne-err (visit_root fuel libs color order root (color root))
        (λ (color', order'). visit_roots fuel libs color' order' roots)
        (visit_root-total fuel color order root (color root) b)
        (λ (color', order'). visit_roots-total fuel color' order' roots b)

-- the search never runs out of fuel
resolve_link_set-total :
    (fuel : ℕ) (roots : List Bytes) (libs : List Library)
    → link_fuel libs ≤ fuel
    → resolve_link_set fuel roots libs ≢ err out_of_fuel
unfolding resolve_link_set
resolve_link_set-total fuel roots libs b = visit_roots-total libs fuel (λ n. white) [] roots b

-- An answer: a link order, or what is wrong; never that the fuel ran out.
abbrev pub Answers : List Library → List Bytes → Outcome LinkError (List Bytes) → Type 0
Answers libs roots (ok order) = IsLinkOrder libs roots order
Answers libs roots (err (unknown_library n)) = Wanted libs roots n × (find_library libs n ≡ none)
Answers libs roots (err (cycle_detected n)) = Links libs n n
Answers libs roots (err out_of_fuel) = false ≡ true

answered :
    (libs : List Library) (roots : List Bytes) (m : Outcome LinkError (List Bytes))
    → IsResolved libs roots m
    → m ≢ err out_of_fuel
    → Answers libs roots m
answered libs roots (ok order) h n = h
answered libs roots (err (unknown_library name)) h n = h
answered libs roots (err (cycle_detected name)) h n = h
answered libs roots (err out_of_fuel) h n = absurd (n refl)

-- The search ends. The libraries that it returns are all that the roots want, each once and in
-- front of those that it links; an unknown library is wanted by a root and is not there; and a
-- library that is reported for a cycle links itself at some depth. Enough fuel is one more than
-- twice the rounds that all libraries and links take.
pub resolve_link_set-Answers :
    (fuel : ℕ) (roots : List Bytes) (libs : List Library)
    → link_fuel libs ≤ fuel
    → Answers libs roots (resolve_link_set fuel roots libs)
resolve_link_set-Answers fuel roots libs b =
    answered libs roots (resolve_link_set fuel roots libs)
      (resolve_link_set-IsResolved fuel roots libs) (resolve_link_set-total fuel roots libs b)
