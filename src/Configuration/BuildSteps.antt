-- ===== src/Configuration/BuildSteps.antt =====
-- src/core/configuration/build_step_executor.cpp: the graph of the build steps and its topological
-- order. A vector that is indexed by a step is a function from indices; `size` is its length.
-- `Workers` has the threads that run the steps.
pub mod Sums
pub mod Balance
pub mod Edges
pub mod Order
pub mod Sort
pub mod Workers
use cppup.Base.{
  ℕ, zero, suc, ◌+◌, ◌-◌, Bool, List, [], ◌∷◌, ◌++◌, Option, none, some, Bytes, eqb, ◌==◌, is_empty,
  length, if◌then◌else◌,
}
use cppup.Configuration.Build.{BuildStep}

-- the nodes, a vector for each field
pub record Graph : Type 0 where
  pub size : ℕ
  pub dependencies : ℕ → List ℕ
  pub dependents : ℕ → List ℕ
  pub indegree : ℕ → ℕ

-- values[i] = v
abbrev pub set {ℓ} : {A : Type ℓ} → ℕ → A → (ℕ → A) → ℕ → A
set i v values = λ k. if k == i then v else values k

-- name_to_index: of steps with one name the last is found
unfoldable pub find_index : ℕ → List BuildStep → Bytes → Option ℕ
find_index i [] name = none
find_index i (step ∷ steps) name = elim (find_index (suc i) steps name) [
  | some k ↦ some k
  | none ↦ if eqb step.name name then some i else none
]

-- the edge to a dependency that is there
unfoldable pub add_dependency : ℕ → Graph → Option ℕ → Graph
add_dependency i graph none = graph
add_dependency i graph (some dep_index) = record {
  size = graph.size;
  dependencies = set i (graph.dependencies i ++ (dep_index ∷ [])) graph.dependencies;
  dependents = set dep_index (graph.dependents dep_index ++ (i ∷ [])) graph.dependents;
  indegree = set i (suc (graph.indegree i)) graph.indegree;
}

unfoldable pub add_dependencies : List BuildStep → ℕ → List Bytes → Graph → Graph
add_dependencies steps i [] graph = graph
add_dependencies steps i (dep_name ∷ names) graph =
    add_dependencies steps i names (add_dependency i graph (find_index 0 steps dep_name))

-- the loop over the steps from the index `i` on
unfoldable pub add_steps : List BuildStep → ℕ → List BuildStep → Graph → Graph
add_steps steps i [] graph = graph
add_steps steps i (step ∷ rest) graph =
    add_steps steps (suc i) rest (add_dependencies steps i step.dependencies graph)

unfoldable pub build_dependency_graph : List BuildStep → Graph
build_dependency_graph steps = add_steps steps 0 steps (record {
  size = length steps;
  dependencies = λ k. [];
  dependents = λ k. [];
  indegree = λ k. 0;
})

-- The queue and the indegrees of `topological_sort`.
pub record Sorting : Type 0 where
  pub queue : List ℕ
  pub indegree : ℕ → ℕ

-- --indegree[dependent] == 0: the old value is 1
unfoldable pub reduce_indegrees : List ℕ → Sorting → Sorting
reduce_indegrees [] s = s
reduce_indegrees (dependent ∷ dependents) s = reduce_indegrees dependents (record {
  queue = if s.indegree dependent == 1 then s.queue ++ (dependent ∷ []) else s.queue;
  indegree = set dependent (s.indegree dependent - 1) s.indegree;
})

-- the `n` steps from `i` on that wait for nothing
unfoldable pub initially_ready : (ℕ → ℕ) → ℕ → ℕ → List ℕ
initially_ready waits i zero = []
initially_ready waits i (suc n) =
    let rest = initially_ready waits (suc i) n in if waits i == 0 then i ∷ rest else rest

-- `none`: the fuel of the model ran out
unfoldable pub sort_loop : ℕ → Graph → List ℕ → List ℕ → (ℕ → ℕ) → Option (List ℕ)
sort_loop fuel graph result [] indegree = some result
sort_loop zero graph result (current ∷ queue) indegree = none
sort_loop (suc fuel) graph result (current ∷ queue) indegree =
    let s =
      reduce_indegrees (graph.dependents current) (record { queue = queue; indegree = indegree }) in
    sort_loop fuel graph (result ++ (current ∷ [])) s.queue s.indegree

-- the check for cycles
unfoldable pub accept_order : Graph → List ℕ → List ℕ
accept_order graph result = if length result == graph.size then result else []

abbrev pub accepted : Graph → Option (List ℕ) → Option (List ℕ)
accepted graph none = none
accepted graph (some result) = some (accept_order graph result)

unfoldable pub topological_sort : Graph → Option (List ℕ)
topological_sort graph =
    accepted graph
      (sort_loop graph.size graph [] (initially_ready graph.indegree 0 graph.size) graph.indegree)
