-- ===== src/Configuration/BuildSteps/Workers/Results.antt =====
-- What is returned when the workers are joined.
use cppup.Base.{
  ℕ, zero, suc, ◌+◌, ◌≤◌, ◌<◌, Bool, true, false, List, [], ◌∷◌, ◌≡◌, ◌↔◌, refl, ap, ◌∙◌, arith,
  ◌==◌, length, All, inl, inr, Bool-cases,
}
use cppup.Configuration.Build.{BuildStep}
use cppup.Configuration.BuildSteps.{Graph, build_dependency_graph}
use cppup.Configuration.BuildSteps.Workers.{
  BuildStepStatus, not_started, running, completed, failed, BuildStepResult, Worker, finished,
  System, Reach, start, next, threads, initial_system, BuildStepExecutionResult, check_result,
  check_results, final_result,
}
use cppup.Configuration.BuildSteps.Workers.Books.{is_over, ended, total, IsSystem}
use cppup.Configuration.BuildSteps.Workers.Refines.{initial_system-IsSystem, Reach-IsSystem}
use cppup.Configuration.BuildSteps.Workers.Progress.{workers_ended}
use cppup.Configuration.BuildSteps.Workers.Told.{Honest, reports, IsTold, Move-IsTold}

Reach-IsTold : (g : Graph) (s t : System) → Reach g s t → IsSystem g s → IsTold s → IsTold t
Reach-IsTold g s _ start b h = h
Reach-IsTold g s _ (next {t} {u} p m) b h =
    Move-IsTold g t u m (Reach-IsSystem g s t p b) (Reach-IsTold g s t p b h)

threads-Honest : (statuses : ℕ → BuildStepStatus) (n : ℕ) → All (Honest statuses) (threads n)
threads-Honest statuses zero = tt
threads-Honest statuses (suc n) = (tt, threads-Honest statuses n)

reports_ended : (d : ℕ) (ws : List Worker) → All (λ w. w ≡ finished) ws → total (reports d) ws ≡ 0
unfolding total
reports_ended d [] a = refl
reports_ended d (w ∷ ws) (e, a) = omega (arith, reports_ended d ws a, ap (reports d) e)

abbrev is_failed : BuildStepStatus → Bool
is_failed failed = true
is_failed _ = false

check_result-success :
    (r : BuildStepResult) (out : BuildStepExecutionResult)
    → ((check_result r out).success ≡ true) ↔ ((is_failed r.status ≡ false) × (out.success ≡ true))
unfolding check_result
check_result-success r out = by_status r.status
  where
    by_status :
        (status : BuildStepStatus)
        → ((check_result (record r { status = status }) out).success ≡ true)
          ↔ ((is_failed status ≡ false) × (out.success ≡ true))
    by_status failed = (λ h. absurd (cc), λ h. absurd (cc))
    by_status not_started = (λ h. (refl, h), λ h. h.1)
    by_status running = (λ h. (refl, h), λ h. h.1)
    by_status completed = (λ h. (refl, h), λ h. h.1)

check_results-success :
    (results : ℕ → BuildStepResult) (i n : ℕ) (out : BuildStepExecutionResult)
    → ((check_results results i n out).success ≡ true) ↔ (
        (out.success ≡ true) × ((d : ℕ) → i ≤ d → d < i + n → is_failed (results d).status ≡ false))
unfolding check_results
check_results-success results i zero out = (λ h. (h, λ d a b. absurd (omega arith)), λ h. h.0)
check_results-success results i (suc n) out =
    let (to, from) = check_results-success results (suc i) n (check_result (results i) out) in
    let (to_one, from_one) = check_result-success (results i) out in
    (
      λ h. (
        (to_one (to h).0).1,
        λ d a b. elim (Bool-cases (d == i)) [
          | inl q ↦ let same : d ≡ i = ground arith in rw same (to_one (to h).0).0
          | inr q ↦ (to h).1 d (ground arith) (omega arith)
        ],
      ),
      λ h. from (
        from_one (h.1 i (omega arith) (omega arith), h.0),
        λ d a b. h.1 d (omega arith) (omega arith),
      ),
    )

over_completed :
    (status : BuildStepStatus)
    → is_over status ≡ true
    → is_failed status ≡ false
    → status ≡ completed
over_completed completed o f = refl
over_completed not_started o f = absurd (cc)
over_completed running o f = absurd (cc)
over_completed failed o f = absurd (cc)

-- When the workers are joined, success is returned exactly where every step has completed: each
-- callback has returned, and none has thrown.
pub final_result-succeeds :
    (steps : List BuildStep) (n : ℕ) (s : System)
    → Reach (build_dependency_graph steps) (initial_system steps n) s
    → 0 < length s.workers
    → All (λ w. w ≡ finished) s.workers
    → ((final_result steps s).success ≡ true)
      ↔ ((d : ℕ) → d < length steps → s.statuses d ≡ completed)
unfolding final_result
final_result-succeeds steps n s p b all =
    let g : Graph = build_dependency_graph steps in
    let h : IsTold s =
      Reach-IsTold g (initial_system steps n) s p (initial_system-IsSystem steps n) (record {
        honest = unfold initial_system in threads-Honest (λ k. not_started) n;
        told = unfold initial_system in λ d o. absurd (cc);
      }) in
    let over : (d : ℕ) → d < length steps → is_over (s.statuses d) ≡ true =
      workers_ended steps n s p (some_ended s.workers b all) in
    let same : (d : ℕ) → d < length steps → (s.step_results d).status ≡ s.statuses d = λ d low.
      elim (h.told d (over d low)) [
        | inl c ↦ absurd (omega (arith, reports_ended d s.workers all))
        | inr e ↦ e
      ] in
    let (to, from) =
      check_results-success s.step_results 0 (length steps)
        (record { success = true; error_message = [] }) in
    (
      λ good d low.
          over_completed (s.statuses d) (over d low)
            (rw (same d low) at ((to good).1 d (omega arith) (omega arith))),
      λ done. from (refl, λ d a low. ap is_failed (same d (omega arith) ∙ done d (omega arith))),
    )
  where
    some_ended :
        (ws : List Worker) → 0 < length ws → All (λ w. w ≡ finished) ws → 0 < total ended ws
    some_ended [] b a = absurd (omega arith)
    some_ended (w ∷ ws) b (e, a) = unfold total in omega (arith, ap ended e)
