-- ===== src/Configuration/BuildSteps/Workers/Progress.antt =====
-- The workers stop only when every step is over.
use cppup.Base.{
  ℕ, ◌+◌, ◌<◌, true, false, List, [], ◌∷◌, ◌++◌, ◌≡◌, refl, sym, ap, arith, ◌==◌, length, All, inl,
  inr, Bool-cases, append_assoc,
}
use cppup.Configuration.Build.{BuildStep}
use cppup.Configuration.BuildSteps.{Graph, build_dependency_graph}
use cppup.Configuration.BuildSteps.Sums.{count, count-append, count-one, count-nil, sum-full}
use cppup.Configuration.BuildSteps.Edges.{IsGraph, build_dependency_graph-IsGraph}
use cppup.Configuration.BuildSteps.Balance.{one, IsBalanced-idle}
use cppup.Configuration.BuildSteps.Order.{Follows, IsOrder, IsOrder-has}
use cppup.Configuration.BuildSteps.Workers.{
  Worker, waiting, tested, blocked, finished, popped, calling, reporting, counting, releasing,
  pushing, System, Reach, initial_system,
}
use cppup.Configuration.BuildSteps.Workers.Books.{
  is_over, token, owes, ended, total, books, IsSystem,
}
use cppup.Configuration.BuildSteps.Workers.Refines.{initial_system-IsSystem, Reach-IsSystem}

-- The worker has no step and nothing to release.
abbrev pub IsIdle : Worker → Type 0
IsIdle waiting = Unit
IsIdle tested = Unit
IsIdle blocked = Unit
IsIdle finished = Unit
IsIdle _ = false ≡ true

-- a count that is 0 at every idle worker
total-idle :
    (f : Worker → ℕ) (ws : List Worker)
    → f waiting ≡ 0
    → f tested ≡ 0
    → f blocked ≡ 0
    → f finished ≡ 0
    → All IsIdle ws
    → total f ws ≡ 0
unfolding total
total-idle f [] a b c d all = refl
total-idle f (waiting ∷ ws) a b c d (_, all) = omega (arith, total-idle f ws a b c d all)
total-idle f (tested ∷ ws) a b c d (_, all) = omega (arith, total-idle f ws a b c d all)
total-idle f (blocked ∷ ws) a b c d (_, all) = omega (arith, total-idle f ws a b c d all)
total-idle f (finished ∷ ws) a b c d (_, all) = omega (arith, total-idle f ws a b c d all)
total-idle f (popped i ∷ ws) a b c d (h, all) = absurd (cc)
total-idle f (calling i ∷ ws) a b c d (h, all) = absurd (cc)
total-idle f (reporting i st w ∷ ws) a b c d (h, all) = absurd (cc)
total-idle f (counting i ∷ ws) a b c d (h, all) = absurd (cc)
total-idle f (releasing k ds ∷ ws) a b c d (h, all) = absurd (cc)
total-idle f (pushing k i ds ∷ ws) a b c d (h, all) = absurd (cc)

module _ (g : Graph) (h_graph : IsGraph g) (s : System) (h : IsSystem g s) where
  ordered_over :
      (seen l : List ℕ)
      → s.ready_queue ≡ []
      → All IsIdle s.workers
      → Follows g seen l
      → ((k : ℕ) → 0 < count k seen → is_over (s.statuses k) ≡ true)
      → (k : ℕ) → 0 < count k (seen ++ l)
      → is_over (s.statuses k) ≡ true
  ordered_over seen [] q idle f over k c =
      over k (omega (arith, count-append k seen [], count-nil k))
  ordered_over seen (x ∷ l) q idle (n, f) over k c =
      let none_owed : total (owes g x) s.workers ≡ 0 =
        total-idle (owes g x) s.workers refl refl refl refl idle in
      let none_held : total (token x) s.workers ≡ 0 =
        total-idle (token x) s.workers refl refl refl refl idle in
      let once : (books g s).tokens x + one (is_over (s.statuses x)) ≡ 1 =
        IsBalanced-idle g (books g s) h_graph h.balanced x n.low none_owed
          (λ j e. over j (n.dependencies j e)) in
      let this : is_over (s.statuses x) ≡ true = ground (arith, ap (count x) q, count-nil x) in
      ordered_over (seen ++ (x ∷ [])) l q idle f
        (λ j e. elim (Bool-cases (x == j)) [
          | inl p ↦ let same : x ≡ j = ground arith in rw same at this
          | inr p ↦ over j (ground (arith, count-append j seen (x ∷ []), count-one j x))
        ])
        k (rw (sym (append_assoc seen (x ∷ []) l)) at c)

  ended_over : 0 < total ended s.workers → (d : ℕ) → d < g.size → is_over (s.statuses d) ≡ true
  ended_over e d low =
      let all : one (is_over (s.statuses d)) ≡ 1 =
        sum-full g.size d (λ k. one (is_over (s.statuses k))) (λ k. ground arith)
          (omega (arith, h.counted, h.exits e)) low in
      ground arith

-- Where the steps have an order, the workers run out of work only when every step is completed or
-- failed: as long as one is not, the queue holds a step or a worker is busy.
pub workers_progress :
    (steps : List BuildStep) (n : ℕ) (s : System) (order : List ℕ)
    → IsOrder (build_dependency_graph steps) order
    → Reach (build_dependency_graph steps) (initial_system steps n) s
    → s.ready_queue ≡ []
    → All IsIdle s.workers
    → (d : ℕ) → d < length steps
    → is_over (s.statuses d) ≡ true
workers_progress steps n s order o p q idle d low =
    let g : Graph = build_dependency_graph steps in
    let (h_graph, e, _) = build_dependency_graph-IsGraph steps in
    let h : IsSystem g s =
      Reach-IsSystem g (initial_system steps n) s p (initial_system-IsSystem steps n) in
    ordered_over g h_graph s h [] order q idle o.follows
      (λ k c. absurd (omega (arith, count-nil k))) d
      (omega (arith, e, IsOrder-has g order o d (omega (arith, e))))

-- A worker that has ended leaves every step completed or failed.
pub workers_ended :
    (steps : List BuildStep) (n : ℕ) (s : System)
    → Reach (build_dependency_graph steps) (initial_system steps n) s
    → 0 < total ended s.workers
    → (d : ℕ) → d < length steps
    → is_over (s.statuses d) ≡ true
workers_ended steps n s p e d low =
    let g : Graph = build_dependency_graph steps in
    let (h_graph, size, _) = build_dependency_graph-IsGraph steps in
    let h : IsSystem g s =
      Reach-IsSystem g (initial_system steps n) s p (initial_system-IsSystem steps n) in
    ended_over g h_graph s h e d (omega (arith, size))
