-- ===== src/Configuration/BuildSteps/Workers.antt =====
-- src/core/configuration/build_step_executor.cpp: `execute_steps_parallel` and the workers that it
-- starts, as moves between states. Whatever the threads do, one move follows another; a callback
-- returns, or throws a `std::exception`. What holds `queue_mutex` for the length of a move takes it
-- and releases it there; a wait holds it from the test to the block.
pub mod Books
pub mod Calls
pub mod Keeps
pub mod Refines
pub mod Progress
pub mod Told
pub mod Results
use cppup.Base.{
  ℕ, zero, suc, ◌+◌, ◌-◌, Bool, true, false, List, [], ◌∷◌, ◌++◌, map, ◌≡◌, ◌≢◌, ◌⊎◌, Option, none,
  some, Bytes, codes, ◌==◌, is_empty, length, All, if◌then◌else◌,
}
use cppup.Configuration.Build.{BuildStep}
use cppup.Configuration.BuildSteps.{
  Graph, set, initially_ready, build_dependency_graph, topological_sort,
}

-- the values that the executor sets
pub data BuildStepStatus : Type 0 where
  not_started running completed failed : BuildStepStatus

pub record BuildStepResult : Type 0 where
  pub step_name : Bytes
  pub status : BuildStepStatus
  pub error_message : Bytes

-- Where a thread stands in `execute_ready_steps_worker`.
pub data Worker : Type 0 where
  -- in front of `queue_mutex`, or in the wait and about to test again
  waiting : Worker
  -- in the wait, behind a test that failed, and not yet blocked
  tested : Worker
  -- blocked on `queue_cv`
  blocked : Worker
  -- with a step from the queue; in its callback; behind it, with the status to report
  popped : ℕ → Worker
  calling : ℕ → Worker
  reporting : ℕ → BuildStepStatus → Bytes → Worker
  counting : ℕ → Worker
  -- `current_completed`, and the dependents that are not yet told
  releasing : ℕ → List ℕ → Worker
  -- with a dependent that is ready, to be put into the queue
  pushing : ℕ → ℕ → List ℕ → Worker
  finished : Worker

pub record System : Type 0 where
  pub ready_queue : List ℕ
  pub remaining_deps : ℕ → ℕ
  pub statuses : ℕ → BuildStepStatus
  pub step_results : ℕ → BuildStepResult
  pub completed_steps : ℕ
  pub workers : List Worker

-- `queue_mutex` is free
abbrev pub Unlocked : List Worker → Type 0
Unlocked = All (λ w. w ≢ tested)

-- queue_cv.notify_all()
abbrev pub wake : Worker → Worker
wake blocked = waiting
wake w = w

-- queue_cv.notify_one(): a blocked worker wakes up, if there is one
pub data WakesOne : List Worker → List Worker → Type 0 where
  here : {ws : List Worker} → WakesOne (blocked ∷ ws) (waiting ∷ ws)
  there : {w : Worker} {ws ws' : List Worker} → WakesOne ws ws' → WakesOne (w ∷ ws) (w ∷ ws')

abbrev pub Notified : List Worker → List Worker → Type 0
Notified ws ws' = WakesOne ws ws' ⊎ (All (λ w. w ≢ blocked) ws × (ws' ≡ ws))

-- A worker between the others goes on.
module _ (graph : Graph) where
  pub data Move (s : System) : System → Type 0 where
    take :
        (l r : List Worker) (step_idx : ℕ) (queue : List ℕ)
        → s.workers ≡ l ++ (waiting ∷ r)
        → Unlocked s.workers
        → s.ready_queue ≡ step_idx ∷ queue
        → Move s (record s { ready_queue = queue; workers = l ++ (popped step_idx ∷ r) })
    begin :
        (l r : List Worker) (step_idx : ℕ)
        → s.workers ≡ l ++ (popped step_idx ∷ r)
        → Move s (record s {
          statuses = set step_idx running s.statuses;
          workers = l ++ (calling step_idx ∷ r);
        })
    returns :
        (l r : List Worker) (step_idx : ℕ)
        → s.workers ≡ l ++ (calling step_idx ∷ r)
        → Move s (record s {
          statuses = set step_idx completed s.statuses;
          workers = l ++ (reporting step_idx completed [] ∷ r);
        })
    throws :
        (l r : List Worker) (step_idx : ℕ) (what : Bytes)
        → s.workers ≡ l ++ (calling step_idx ∷ r)
        → Move s (record s {
          statuses = set step_idx failed s.statuses;
          workers = l ++ (reporting step_idx failed what ∷ r);
        })
    report :
        (l r : List Worker) (step_idx : ℕ) (status : BuildStepStatus) (what : Bytes)
        → s.workers ≡ l ++ (reporting step_idx status what ∷ r)
        → Move s (record s {
          step_results =
              set step_idx
                (record (s.step_results step_idx) { status = status; error_message = what })
                s.step_results;
          workers = l ++ (counting step_idx ∷ r);
        })
    counts :
        (l r : List Worker) (step_idx : ℕ)
        → s.workers ≡ l ++ (counting step_idx ∷ r)
        → Move s (record s {
          completed_steps = suc s.completed_steps;
          workers = l ++ (releasing (suc s.completed_steps) (graph.dependents step_idx) ∷ r);
        })
    -- --remaining_deps[dependent] == 0: the old value is 1
    release :
        (l r : List Worker) (current dependent : ℕ) (dependents : List ℕ)
        → s.workers ≡ l ++ (releasing current (dependent ∷ dependents) ∷ r)
        → Move s (record s {
          remaining_deps = set dependent (s.remaining_deps dependent - 1) s.remaining_deps;
          workers =
              l
              ++ ((if s.remaining_deps dependent == 1
                    then pushing current dependent dependents
                    else releasing current dependents)
                  ∷ r);
        })
    push :
        (l r : List Worker) (current dependent : ℕ) (dependents : List ℕ) (woken : List Worker)
        → s.workers ≡ l ++ (pushing current dependent dependents ∷ r)
        → Unlocked s.workers
        → Notified (l ++ (releasing current dependents ∷ r)) woken
        → Move s (record s { ready_queue = s.ready_queue ++ (dependent ∷ []); workers = woken })
    again :
        (l r : List Worker) (current : ℕ)
        → s.workers ≡ l ++ (releasing current [] ∷ r)
        → Move s (record s {
          workers =
              if current == graph.size then map wake (l ++ (waiting ∷ r)) else l ++ (waiting ∷ r);
        })
    test :
        (l r : List Worker)
        → s.workers ≡ l ++ (waiting ∷ r)
        → Unlocked s.workers
        → s.ready_queue ≡ []
        → s.completed_steps ≢ graph.size
        → Move s (record s { workers = l ++ (tested ∷ r) })
    block :
        (l r : List Worker)
        → s.workers ≡ l ++ (tested ∷ r)
        → Move s (record s { workers = l ++ (blocked ∷ r) })
    wakes_up :
        (l r : List Worker)
        → s.workers ≡ l ++ (blocked ∷ r)
        → Move s (record s { workers = l ++ (waiting ∷ r) })
    ends :
        (l r : List Worker)
        → s.workers ≡ l ++ (waiting ∷ r)
        → Unlocked s.workers
        → s.ready_queue ≡ []
        → s.completed_steps ≡ graph.size
        → Move s (record s { workers = l ++ (finished ∷ r) })

  pub data Reach (s : System) : System → Type 0 where
    start : Reach s s
    next : {t u : System} → Reach s t → Move t u → Reach s u

-- step_results[i], for the steps from the index `i` on
unfoldable pub initial_results : List BuildStep → ℕ → BuildStepResult
initial_results [] k = record { step_name = []; status = not_started; error_message = [] }
initial_results (step ∷ steps) zero = record {
  step_name = step.name;
  status = not_started;
  error_message = [];
}
initial_results (step ∷ steps) (suc k) = initial_results steps k

abbrev pub threads : ℕ → List Worker
threads zero = []
threads (suc n) = waiting ∷ threads n

-- the state when `n` threads are started
unfoldable pub initial_system : List BuildStep → ℕ → System
initial_system steps n =
    let graph : Graph = build_dependency_graph steps in
    let waits : ℕ → ℕ = λ k. length (graph.dependencies k) in
    record {
      ready_queue = initially_ready waits 0 graph.size;
      remaining_deps = waits;
      statuses = λ k. not_started;
      step_results = initial_results steps;
      completed_steps = 0;
      workers = threads n;
    }

pub record BuildStepExecutionResult : Type 0 where
  pub success : Bool
  pub error_message : Bytes

abbrev pub failure_message : BuildStepResult → Bytes
failure_message r = codes "Build step '" ++ (r.step_name ++ (codes "' failed: " ++ r.error_message))

-- one result of the loop over the `step_results`
unfoldable pub check_result : BuildStepResult → BuildStepExecutionResult → BuildStepExecutionResult
check_result r out = elim r.status [
  | failed ↦ record {
    success = false;
    error_message = if is_empty out.error_message then failure_message r else out.error_message;
  }
  | _ ↦ out
]

-- the loop, from the index `i` on
unfoldable pub check_results :
    (ℕ → BuildStepResult) → ℕ → ℕ → BuildStepExecutionResult → BuildStepExecutionResult
check_results results i zero out = out
check_results results i (suc n) out = check_results results (suc i) n (check_result (results i) out)

-- What is returned at once: for no steps, and for a cycle. `none`: the workers are started.
unfoldable pub refused : List BuildStep → Option (List ℕ) → Option BuildStepExecutionResult
refused steps order = elim order [
  | none ↦ none
  | some execution_order ↦
      if is_empty steps
      then some (record { success = true; error_message = [] })
      else if is_empty execution_order
      then some (record {
        success = false;
        error_message = codes "Circular dependency detected in build steps";
      })
      else none
]

unfoldable pub refused_steps : List BuildStep → Option BuildStepExecutionResult
refused_steps steps = refused steps (topological_sort (build_dependency_graph steps))

-- what is returned when the workers are joined
unfoldable pub final_result : List BuildStep → System → BuildStepExecutionResult
final_result steps s =
    check_results s.step_results 0 (length steps) (record { success = true; error_message = [] })
