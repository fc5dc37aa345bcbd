-- ===== src/Tests/BuildSteps.antt =====
-- The theorems about build steps, at steps that generate, compile and link.
use cppup.Base.{ℕ, ◌<◌, ◌≡◌, ◌↔◌, refl, arith, true, false, List, [], ◌∷◌, some, codes, eqb, length}
use cppup.Configuration.Build.{BuildStep}
use cppup.Configuration.BuildSteps.{
  Graph, build_dependency_graph, add_steps, add_dependencies, add_dependency, find_index,
  topological_sort, sort_loop, accept_order, reduce_indegrees, initially_ready,
}
use cppup.Configuration.BuildSteps.Sums.{count}
use cppup.Configuration.BuildSteps.Edges.{
  IsGraph, resolved, names_from, build_dependency_graph-IsGraph,
}
use cppup.Configuration.BuildSteps.Order.{IsOrder}
use cppup.Configuration.BuildSteps.Sort.{Sorts, topological_sort-Sorts}
use cppup.Configuration.BuildSteps.Workers.{
  System, waiting, tested, blocked, popped, finished, not_started, completed, Reach, start, next,
  take, begin, returns, report, counts, again, test, block, ends, initial_system, initial_results,
  refused, refused_steps, final_result, check_results, check_result,
}
use cppup.Configuration.BuildSteps.Workers.Books.{is_over, ended, total}
use cppup.Configuration.BuildSteps.Workers.Refines.{Runs, execute_steps_parallel-Runs}
use cppup.Configuration.BuildSteps.Workers.Progress.{workers_progress, workers_ended}
use cppup.Configuration.BuildSteps.Workers.Results.{final_result-succeeds}

abbrev three_steps : List BuildStep
three_steps =
    record { name = codes "link"; dependencies = codes "compile" ∷ codes "generate" ∷ [] }
    ∷ record { name = codes "generate"; dependencies = codes "absent" ∷ [] }
    ∷ record { name = codes "compile"; dependencies = codes "generate" ∷ [] }
    ∷ []

three_sorted : topological_sort (build_dependency_graph three_steps) ≡ some (1 ∷ 2 ∷ 0 ∷ [])
unfolding topological_sort sort_loop accept_order reduce_indegrees initially_ready
    build_dependency_graph add_steps add_dependencies add_dependency find_index eqb
three_sorted = refl

cycle_refused :
    refused_steps (record { name = codes "a"; dependencies = codes "a" ∷ [] } ∷ [])
    ≡ some (record {
      success = false;
      error_message = codes "Circular dependency detected in build steps";
    })
unfolding refused_steps refused topological_sort sort_loop accept_order reduce_indegrees
    initially_ready build_dependency_graph add_steps add_dependencies add_dependency find_index eqb
cycle_refused = refl

sorted_steps_example :
    (order : List ℕ) × (topological_sort (build_dependency_graph three_steps) ≡ some order)
    × Sorts (build_dependency_graph three_steps) order
sorted_steps_example =
    topological_sort-Sorts (build_dependency_graph three_steps)
      (build_dependency_graph-IsGraph three_steps).0

edges_of_three :
    IsGraph (build_dependency_graph three_steps)
    × ((build_dependency_graph three_steps).size ≡ length three_steps)
    × ((k : ℕ)
        → (build_dependency_graph three_steps).dependencies k
          ≡ resolved three_steps (names_from 0 three_steps k))
edges_of_three = build_dependency_graph-IsGraph three_steps

abbrev one_step : List BuildStep
one_step = record { name = codes "generate"; dependencies = [] } ∷ []

abbrev one_graph : Graph
one_graph = build_dependency_graph one_step

-- The second worker tests the queue while the first runs the only step; it blocks behind the first
-- one's notification, which does not take the mutex. The first worker ends, and nothing wakes the
-- second.
lost_wakeup :
    (s : System) × Reach one_graph (initial_system one_step 2) s
    × (s.workers ≡ finished ∷ blocked ∷ [])
    × (s.ready_queue ≡ [])
    × ((final_result one_step s).success ≡ true)
unfolding initial_system initially_ready build_dependency_graph add_steps add_dependencies
    add_dependency find_index eqb final_result check_results check_result initial_results
lost_wakeup = (
  _,
  next
      (next
        (next
          (next
            (next
              (next
                (next
                  (next
                    (next start (take [] (waiting ∷ []) 0 [] refl (λ p. cc, (λ p. cc, tt)) refl))
                    (test (popped 0 ∷ []) [] refl (λ p. cc, (λ p. cc, tt)) refl (omega arith)))
                  (begin [] (tested ∷ []) 0 refl))
                (returns [] (tested ∷ []) 0 refl))
              (report [] (tested ∷ []) 0 completed [] refl))
            (counts [] (tested ∷ []) 0 refl))
          (again [] (tested ∷ []) 1 refl))
        (block (waiting ∷ []) [] refl))
      (ends [] (blocked ∷ []) refl (λ p. cc, (λ p. cc, tt)) refl refl),
  refl,
  refl,
  refl,
)

runs_example : Runs one_graph (λ k. not_started) (lost_wakeup.0).statuses
runs_example = execute_steps_parallel-Runs one_step 2 lost_wakeup.0 lost_wakeup.1

one-IsOrder : IsOrder one_graph (0 ∷ [])
unfolding build_dependency_graph add_steps add_dependencies count
one-IsOrder = record {
  follows =
      (record { new = refl; low = omega arith; dependencies = λ k c. absurd (omega arith) }, tt);
  complete = refl;
}

progress_example : is_over ((lost_wakeup.0).statuses 0) ≡ true
progress_example =
    workers_progress one_step 2 lost_wakeup.0 (0 ∷ []) one-IsOrder lost_wakeup.1 lost_wakeup.3
      (rw lost_wakeup.2 (tt {0}, (tt {0}, tt {0}))) 0 (omega arith)

one_ended : 0 < total ended (lost_wakeup.0).workers
unfolding total
one_ended = rw lost_wakeup.2 (omega arith)

ended_run : is_over ((lost_wakeup.0).statuses 0) ≡ true
ended_run = workers_ended one_step 2 lost_wakeup.0 lost_wakeup.1 one_ended 0 (omega arith)

-- One worker runs the step and ends.
joined_run :
    (s : System) × Reach one_graph (initial_system one_step 1) s
    × (s.workers ≡ finished ∷ [])
    × (s.statuses 0 ≡ completed)
unfolding initial_system initially_ready build_dependency_graph add_steps add_dependencies
    add_dependency find_index eqb
joined_run = (
  _,
  next
      (next
        (next
          (next
            (next (next (next start (take [] [] 0 [] refl (λ p. cc, tt) refl)) (begin [] [] 0 refl))
              (returns [] [] 0 refl))
            (report [] [] 0 completed [] refl))
          (counts [] [] 0 refl))
        (again [] [] 1 refl))
      (ends [] [] refl (λ p. cc, tt) refl refl),
  refl,
  refl,
)

joined_example :
    ((final_result one_step joined_run.0).success ≡ true)
    ↔ ((d : ℕ) → d < length one_step → (joined_run.0).statuses d ≡ completed)
joined_example =
    final_result-succeeds one_step 1 joined_run.0 joined_run.1 (rw joined_run.2 (omega arith))
      (rw joined_run.2 (refl, tt {0}))
