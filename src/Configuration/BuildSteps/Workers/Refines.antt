-- ===== src/Configuration/BuildSteps/Workers/Refines.antt =====
-- The workers run the steps as their dependencies allow: a specification without threads, queue and
-- counters, and that the workers implement it.
use cppup.Base.{
  ℕ, zero, suc, ◌+◌, ◌≤◌, ◌<◌, true, false, List, ◌∷◌, ◌++◌, ◌≡◌, refl, sym, ap, arith, length,
}
use cppup.Configuration.Build.{BuildStep}
use cppup.Configuration.BuildSteps.{Graph, set, build_dependency_graph}
use cppup.Configuration.BuildSteps.Sums.{count, count-bound, sum-count, sum-same, sum-zero}
use cppup.Configuration.BuildSteps.Edges.{IsGraph, build_dependency_graph-IsGraph}
use cppup.Configuration.BuildSteps.Balance.{undone_by, IsBalanced-ready}
use cppup.Configuration.BuildSteps.Sort.{initially_ready-count}
use cppup.Configuration.BuildSteps.Workers.{
  BuildStepStatus, not_started, running, completed, failed, Worker, waiting, popped, calling,
  System, Move, take, begin, returns, throws, report, counts, release, push, again, test, block,
  wakes_up, ends, Reach, start, next, initial_system, threads,
}
use cppup.Configuration.BuildSteps.Workers.Books.{
  is_over, is_running, token, owes, calls, uncounted, ended, total, total-below, total-le,
  calls_below, books, IsSystem,
}
use cppup.Configuration.BuildSteps.Workers.Keeps.{Move-IsSystem}

-- The specification: a step that is not started begins when its dependencies are over, and a step
-- that runs completes or fails. Each change of the statuses is one of these.
pub data Step (g : Graph) (now : ℕ → BuildStepStatus) : (ℕ → BuildStepStatus) → Type 0 where
  begins :
      (i : ℕ)
      → i < g.size
      → now i ≡ not_started
      → ((k : ℕ) → 0 < count k (g.dependencies i) → is_over (now k) ≡ true)
      → Step g now (set i running now)
  completes : (i : ℕ) → now i ≡ running → Step g now (set i completed now)
  fails : (i : ℕ) → now i ≡ running → Step g now (set i failed now)

pub data Runs (g : Graph) (from : ℕ → BuildStepStatus) : (ℕ → BuildStepStatus) → Type 0 where
  nothing : Runs g from from
  further :
      {now later : ℕ → BuildStepStatus} → Runs g from now → Step g now later → Runs g from later

total-threads : (f : Worker → ℕ) (n : ℕ) → f waiting ≡ 0 → total f (threads n) ≡ 0
unfolding total
total-threads f zero e = refl
total-threads f (suc n) e = omega (arith, e, total-threads f n e)

pub initial_system-IsSystem :
    (steps : List BuildStep) (n : ℕ)
    → IsSystem (build_dependency_graph steps) (initial_system steps n)
unfolding initial_system
initial_system-IsSystem steps n =
    let g : Graph = build_dependency_graph steps in
    let h : IsGraph g = (build_dependency_graph-IsGraph steps).0 in
    record {
      balanced = record {
        released = λ d. omega (
          arith,
          total-threads (owes g d) n refl,
          sum-count g.size (g.dependencies d) (h.linked.bound d),
          sum-same g.size (λ k. count k (g.dependencies d)) (undone_by g (λ k. false) d)
              (λ k b. sym (h.linked.edges k d)),
        );
        queued = λ d. ground (
          arith,
          total-threads (token d) n refl,
          initially_ready-count (λ k. length (g.dependencies k)) 0 g.size d,
        );
        outside = λ d b. ap length (h.outside d b);
      };
      called = λ d. total-threads (calls d) n refl;
      counted =
          omega (arith, total-threads uncounted n refl, sum-zero g.size (λ d. 0) (λ d b. refl));
      exits = λ b. absurd (omega (arith, total-threads ended n refl));
    }

pub Reach-IsSystem : (g : Graph) (s t : System) → Reach g s t → IsSystem g s → IsSystem g t
Reach-IsSystem g s _ start h = h
Reach-IsSystem g s _ (next {t} {u} p m) h = Move-IsSystem g t u m (Reach-IsSystem g s t p h)

fresh_status :
    (status : BuildStepStatus)
    → is_over status ≡ false
    → is_running status ≡ false
    → status ≡ not_started
fresh_status not_started o n = refl
fresh_status running o n = absurd (cc)
fresh_status completed o n = absurd (cc)
fresh_status failed o n = absurd (cc)

running_status : (status : BuildStepStatus) → is_running status ≡ true → status ≡ running
running_status running n = refl
running_status not_started n = absurd (cc)
running_status completed n = absurd (cc)
running_status failed n = absurd (cc)

module _ (g : Graph) (h_graph : IsGraph g) (s : System) (h : IsSystem g s) (l r : List Worker)
    (i : ℕ) where
  popped-Step : s.workers ≡ l ++ (popped i ∷ r) → Step g s.statuses (set i running s.statuses)
  popped-Step e =
      let held : 1 ≤ total (token i) s.workers =
        ground (arith, total-le (token i) s.workers l (popped i) r e) in
      let below : total (calls i) s.workers + token i (popped i)
          ≤ total (token i) s.workers + calls i (popped i) =
        total-below (calls i) (token i) s.workers l (popped i) r (calls_below i) e in
      begins i (ground (arith, h.balanced.queued i))
        (fresh_status (s.statuses i) (ground (arith, h.balanced.queued i))
          (ground (arith, h.balanced.queued i, h.called i)))
        (λ k edge.
          IsBalanced-ready g (books g s) h_graph h.balanced i k (omega arith) edge
            (count-bound g.size k (g.dependencies i) (h_graph.linked.bound i) edge))

  calling-running : s.workers ≡ l ++ (calling i ∷ r) → s.statuses i ≡ running
  calling-running e =
      running_status (s.statuses i)
        (ground (arith, h.called i, total-le (calls i) s.workers l (calling i) r e))

module _ (g : Graph) (h_graph : IsGraph g) where
  Move-Runs :
      (from : ℕ → BuildStepStatus) (s s' : System)
      → IsSystem g s
      → Move g s s'
      → Runs g from s.statuses
      → Runs g from s'.statuses
  Move-Runs from s _ h (take l r i queue e u q) p = p
  Move-Runs from s _ h (begin l r i e) p = further p (popped-Step g h_graph s h l r i e)
  Move-Runs from s _ h (returns l r i e) p =
      further p (completes i (calling-running g h_graph s h l r i e))
  Move-Runs from s _ h (throws l r i what e) p =
      further p (fails i (calling-running g h_graph s h l r i e))
  Move-Runs from s _ h (report l r i status what e) p = p
  Move-Runs from s _ h (counts l r i e) p = p
  Move-Runs from s _ h (release l r current x ds e) p = p
  Move-Runs from s _ h (push l r current x ds woken e u n) p = p
  Move-Runs from s _ h (again l r current e) p = p
  Move-Runs from s _ h (test l r e u q c) p = p
  Move-Runs from s _ h (block l r e) p = p
  Move-Runs from s _ h (wakes_up l r e) p = p
  Move-Runs from s _ h (ends l r e u q c) p = p

  Reach-Runs : (s t : System) → IsSystem g s → Reach g s t → Runs g s.statuses t.statuses
  Reach-Runs s _ h start = nothing
  Reach-Runs s _ h (next {t} {u} p m) =
      Move-Runs s.statuses t u (Reach-IsSystem g s t p h) m (Reach-Runs s t h p)

-- Whatever the threads do, and however many they are, they run the steps as the specification
-- allows: a step begins once, when its dependencies are completed or failed, and ends once.
pub execute_steps_parallel-Runs :
    (steps : List BuildStep) (n : ℕ) (s : System)
    → Reach (build_dependency_graph steps) (initial_system steps n) s
    → Runs (build_dependency_graph steps) (λ k. not_started) s.statuses
unfolding initial_system
execute_steps_parallel-Runs steps n s p =
    Reach-Runs (build_dependency_graph steps) (build_dependency_graph-IsGraph steps).0
      (initial_system steps n) s (initial_system-IsSystem steps n) p
