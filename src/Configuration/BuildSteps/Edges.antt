-- ===== src/Configuration/BuildSteps/Edges.antt =====
-- The graph that `build_dependency_graph` makes.
use cppup.Base.{
  ℕ, suc, ◌+◌, ◌≤◌, ◌<◌, Bool, true, false, List, [], ◌∷◌, ◌++◌, ◌≡◌, refl, sym, ap, ◌∙◌, arith,
  ◌==◌, length, length-append, All, All-append, if◌then◌else◌, inl, inr, Bool-cases, Option, none,
  some, Bytes, append_assoc, append-nil,
}
use cppup.Configuration.Build.{BuildStep}
use cppup.Configuration.BuildSteps.{
  Graph, find_index, add_dependency, add_dependencies, add_steps, build_dependency_graph,
}
use cppup.Configuration.BuildSteps.Sums.{count, count-append, count-one}

-- The dependents and the dependencies are the same edges, between steps that are there.
pub record IsLinked (g : Graph) : Type 0 where
  pub edges : (j d : ℕ) → count d (g.dependents j) ≡ count j (g.dependencies d)
  pub bound : (d : ℕ) → All (λ k. k < g.size) (g.dependencies d)
  pub indegree : (d : ℕ) → g.indegree d ≡ length (g.dependencies d)

-- A graph whose nodes are below its size.
pub record IsGraph (g : Graph) : Type 0 where
  pub linked : IsLinked g
  pub outside : (d : ℕ) → g.size ≤ d → g.dependencies d ≡ []

find_index-bound :
    (i : ℕ) (steps : List BuildStep) (name : Bytes) (k : ℕ)
    → find_index i steps name ≡ some k
    → k < i + length steps
unfolding find_index
find_index-bound i [] name k h = absurd (cc)
find_index-bound i (step ∷ steps) name k h = ground (arith, find_index-bound (suc i) steps name k)

find_index-size : (i : ℕ) (g : Graph) (o : _) → (add_dependency i g o).size ≡ g.size
unfolding add_dependency
find_index-size i g none = refl
find_index-size i g (some k) = refl

if_app :
    (test : Bool) (d x : ℕ) (a b : List ℕ)
    → count d (if test then a ++ (x ∷ []) else b)
      ≡ (if test then count d a + (if x == d then 1 else 0) else count d b)
if_app true d x a b = omega (arith, count-append d a (x ∷ []), count-one d x)
if_app false d x a b = refl

add_dependency-IsLinked :
    (i : ℕ) (g : Graph) (o : Option ℕ)
    → ((k : ℕ) → o ≡ some k → k < g.size)
    → IsLinked g
    → IsLinked (add_dependency i g o)
unfolding add_dependency
add_dependency-IsLinked i g none b h = h
add_dependency-IsLinked i g (some dep) b h = record {
  edges = λ j d. ground (
    arith,
    if_app (j == dep) d i (g.dependents dep) (g.dependents j),
    if_app (d == i) j dep (g.dependencies i) (g.dependencies d),
    h.edges j d,
  );
  bound = λ d. elim (Bool-cases (d == i)) [
    | inl e ↦
        rw e
          (All-append (λ k. k < g.size) (g.dependencies i) (dep ∷ []) (h.bound i) (b dep refl, tt))
    | inr e ↦ rw e (h.bound d)
  ];
  indegree =
      λ d. ground (arith, length-append (g.dependencies i) (dep ∷ []), h.indegree d, h.indegree i);
}

add_dependencies-IsLinked :
    (steps : List BuildStep) (i : ℕ) (names : List Bytes) (g : Graph)
    → g.size ≡ length steps
    → IsLinked g
    → IsLinked (add_dependencies steps i names g)
      × ((add_dependencies steps i names g).size ≡ length steps)
unfolding add_dependencies
add_dependencies-IsLinked steps i [] g e h = (h, e)
add_dependencies-IsLinked steps i (name ∷ names) g e h =
    let o = find_index 0 steps name in
    add_dependencies-IsLinked steps i names (add_dependency i g o) (find_index-size i g o ∙ e)
      (add_dependency-IsLinked i g o (λ k q. omega (arith, find_index-bound 0 steps name k q)) h)

add_steps-IsLinked :
    (steps : List BuildStep) (i : ℕ) (rest : List BuildStep) (g : Graph)
    → g.size ≡ length steps
    → IsLinked g
    → IsLinked (add_steps steps i rest g) × ((add_steps steps i rest g).size ≡ length steps)
unfolding add_steps
add_steps-IsLinked steps i [] g e h = (h, e)
add_steps-IsLinked steps i (step ∷ rest) g e h =
    let (h', e') = add_dependencies-IsLinked steps i step.dependencies g e h in
    add_steps-IsLinked steps (suc i) rest (add_dependencies steps i step.dependencies g) e' h'

abbrev with_found : Option ℕ → List ℕ → List ℕ
with_found none later = later
with_found (some k) later = k ∷ later

-- the steps that the names stand for
abbrev pub resolved : List BuildStep → List Bytes → List ℕ
resolved steps [] = []
resolved steps (name ∷ names) = with_found (find_index 0 steps name) (resolved steps names)

-- the names that the step `k` depends on, in the steps from the index `i` on
abbrev pub names_from : ℕ → List BuildStep → ℕ → List Bytes
names_from i [] k = []
names_from i (step ∷ rest) k =
    let later = names_from (suc i) rest k in if k == i then step.dependencies else later

add_dependency-dependencies :
    (i : ℕ) (g : Graph) (o : Option ℕ) (k : ℕ) (later : List ℕ)
    → (add_dependency i g o).dependencies k ++ (if k == i then later else [])
      ≡ g.dependencies k ++ (if k == i then with_found o later else [])
unfolding add_dependency
add_dependency-dependencies i g none k later = refl
add_dependency-dependencies i g (some dep) k later = elim (Bool-cases (k == i)) [
  | inl e ↦
      let same : k ≡ i = ground arith in
      rw e (rw same (append_assoc (g.dependencies i) (dep ∷ []) later))
  | inr e ↦ rw e refl
]

add_dependencies-dependencies :
    (steps : List BuildStep) (i : ℕ) (names : List Bytes) (g : Graph) (k : ℕ)
    → (add_dependencies steps i names g).dependencies k
      ≡ g.dependencies k ++ (if k == i then resolved steps names else [])
unfolding add_dependencies
add_dependencies-dependencies steps i [] g k = elim (Bool-cases (k == i)) [
  | inl e ↦ rw e (sym (append-nil (g.dependencies k)))
  | inr e ↦ rw e (sym (append-nil (g.dependencies k)))
]
add_dependencies-dependencies steps i (name ∷ names) g k =
    let o = find_index 0 steps name in
    add_dependencies-dependencies steps i names (add_dependency i g o) k
    ∙ add_dependency-dependencies i g o k (resolved steps names)

names_from-low : (i : ℕ) (rest : List BuildStep) (k : ℕ) → k < i → names_from i rest k ≡ []
names_from-low i [] k b = refl
names_from-low i (step ∷ rest) k b = ground (arith, names_from-low (suc i) rest k)

names_from-high :
    (i : ℕ) (rest : List BuildStep) (k : ℕ) → i + length rest ≤ k → names_from i rest k ≡ []
names_from-high i [] k b = refl
names_from-high i (step ∷ rest) k b = ground (arith, names_from-high (suc i) rest k)

add_steps-dependencies :
    (steps : List BuildStep) (i : ℕ) (rest : List BuildStep) (g : Graph) (k : ℕ)
    → (add_steps steps i rest g).dependencies k
      ≡ g.dependencies k ++ resolved steps (names_from i rest k)
unfolding add_steps
add_steps-dependencies steps i [] g k = sym (append-nil (g.dependencies k))
add_steps-dependencies steps i (step ∷ rest) g k =
    add_steps-dependencies steps (suc i) rest (add_dependencies steps i step.dependencies g) k
    ∙ (rw (add_dependencies-dependencies steps i step.dependencies g k)
        (elim (Bool-cases (k == i)) [
          | inl e ↦
              let low : names_from (suc i) rest k ≡ [] =
                names_from-low (suc i) rest k (ground arith) in
              rw (e, low) (append-nil (g.dependencies k ++ resolved steps step.dependencies))
          | inr e ↦ rw (e, append-nil (g.dependencies k)) refl
        ]))

-- The graph has a node for each step, with the steps that its names stand for, and the same edges
-- in both directions.
pub build_dependency_graph-IsGraph :
    (steps : List BuildStep)
    → IsGraph (build_dependency_graph steps)
      × ((build_dependency_graph steps).size ≡ length steps)
      × ((k : ℕ)
          → (build_dependency_graph steps).dependencies k ≡ resolved steps (names_from 0 steps k))
unfolding build_dependency_graph count
build_dependency_graph-IsGraph steps =
    let start : Graph = record {
      size = length steps;
      dependencies = λ k. [];
      dependents = λ k. [];
      indegree = λ k. 0;
    } in
    let empty : IsLinked start = record {
      edges = λ j d. refl;
      bound = λ d. tt;
      indegree = λ d. refl;
    } in
    let (g, e) = add_steps-IsLinked steps 0 steps start refl empty in
    (
      record {
        linked = g;
        outside = λ d h.
            add_steps-dependencies steps 0 steps start d
            ∙ ap (resolved steps) (names_from-high 0 steps d (omega (arith, e)));
      },
      e,
      add_steps-dependencies steps 0 steps start,
    )
