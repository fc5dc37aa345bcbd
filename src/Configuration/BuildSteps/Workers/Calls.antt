-- ===== src/Configuration/BuildSteps/Workers/Calls.antt =====
-- A worker takes a step, calls it, and reports it: the books stay in balance.
use cppup.Base.{
  ℕ, ◌+◌, ◌<◌, true, false, ◌||◌, List, ◌∷◌, ◌++◌, ◌≡◌, refl, sym, ap, arith, ◌==◌, inl, inr,
  Bool-cases, Bytes,
}
use cppup.Configuration.BuildSteps.{Graph, set}
use cppup.Configuration.BuildSteps.Sums.{count, count-cons, sum-less, sum-same}
use cppup.Configuration.BuildSteps.Balance.{one, IsBalanced-agree, IsBalanced-finish}
use cppup.Configuration.BuildSteps.Workers.{
  BuildStepStatus, running, Worker, waiting, popped, calling, reporting, System,
}
use cppup.Configuration.BuildSteps.Workers.Books.{
  is_over, is_running, token, owes, calls, uncounted, ended, total-moved, total-le, total-below,
  calls_below, books, number_over, IsSystem, IsSystem-still,
}

module _ (g : Graph) (s : System) (l r : List Worker) where
  pub take_keeps :
      (i : ℕ) (queue : List ℕ)
      → s.workers ≡ l ++ (waiting ∷ r)
      → s.ready_queue ≡ i ∷ queue
      → IsSystem g s
      → IsSystem g (record s { ready_queue = queue; workers = l ++ (popped i ∷ r) })
  take_keeps i queue e q h =
      IsSystem-still g s (record s { ready_queue = queue; workers = l ++ (popped i ∷ r) })
        (record {
          remaining = refl;
          statuses = refl;
          completed = refl;
          tokens = λ d. ground (
            arith,
            total-moved (token d) s.workers l waiting (popped i) r e,
            ap (count d) q,
            count-cons d i queue,
          );
          pending = λ d. omega (arith, total-moved (owes g d) s.workers l waiting (popped i) r e);
          called = λ d. omega (arith, total-moved (calls d) s.workers l waiting (popped i) r e);
          uncounted = omega (arith, total-moved uncounted s.workers l waiting (popped i) r e);
          exits = inl (omega (arith, total-moved ended s.workers l waiting (popped i) r e));
        })
        h

  -- the step of a worker is there, and is not over
  pub held_busy :
      (w : Worker) (i : ℕ)
      → s.workers ≡ l ++ (w ∷ r)
      → token i w ≡ 1
      → IsSystem g s
      → (is_over (s.statuses i) ≡ false) × (i < g.size)
  held_busy w i e t h = (
    ground (arith, h.balanced.queued i, total-le (token i) s.workers l w r e),
    ground (arith, h.balanced.queued i, total-le (token i) s.workers l w r e),
  )

  pub begin_keeps :
      (i : ℕ)
      → s.workers ≡ l ++ (popped i ∷ r)
      → IsSystem g s
      → IsSystem g
          (record s { statuses = set i running s.statuses; workers = l ++ (calling i ∷ r) })
  begin_keeps i e h =
      let s' : System = record s {
        statuses = set i running s.statuses;
        workers = l ++ (calling i ∷ r);
      } in
      let (idle, low) = held_busy (popped i) i e (ground arith) h in
      let over : (d : ℕ) → is_over (s'.statuses d) ≡ is_over (s.statuses d) = λ d.
        elim (Bool-cases (d == i)) [
          | inl q ↦ let same : d ≡ i = ground arith in rw q (rw same (sym idle))
          | inr q ↦ rw q refl
        ] in
      let quiet : is_running (s.statuses i) ≡ false = ground (
        arith,
        h.called i,
        h.balanced.queued i,
        total-le (token i) s.workers l (popped i) r e,
        total-below (calls i) (token i) s.workers l (popped i) r (calls_below i) e,
      ) in
      record {
        balanced =
            IsBalanced-agree g (books g s) (books g s')
              (record {
                done = over;
                pending = λ d.
                    omega (arith, total-moved (owes g d) s.workers l (popped i) (calling i) r e);
                remaining = λ d. refl;
                tokens = λ d.
                    omega (arith, total-moved (token d) s.workers l (popped i) (calling i) r e);
              })
              h.balanced;
        called = λ d. elim (Bool-cases (d == i)) [
          | inl q ↦
              let same : d ≡ i = ground arith in
              rw q (
                rw same (
                  ground (
                    arith,
                    total-moved (calls i) s.workers l (popped i) (calling i) r e,
                    h.called i,
                  )))
          | inr q ↦ rw q (
              ground
                (arith, total-moved (calls d) s.workers l (popped i) (calling i) r e, h.called d))
        ];
        counted = omega (
          arith,
          total-moved uncounted s.workers l (popped i) (calling i) r e,
          h.counted,
          sum-same g.size (λ d. one (is_over (s'.statuses d))) (λ d. one (is_over (s.statuses d)))
              (λ d b. ap one (over d)),
        );
        exits =
            λ b. h.exits (omega (arith, total-moved ended s.workers l (popped i) (calling i) r e));
      }

  -- the callback of the step returns, or throws
  pub finish_keeps :
      (i : ℕ) (status : BuildStepStatus) (what : Bytes)
      → is_over status ≡ true
      → is_running status ≡ false
      → s.workers ≡ l ++ (calling i ∷ r)
      → IsSystem g s
      → IsSystem g (record s {
        statuses = set i status s.statuses;
        workers = l ++ (reporting i status what ∷ r);
      })
  finish_keeps i status what o n e h =
      let w' : Worker = reporting i status what in
      let s' : System = record s { statuses = set i status s.statuses; workers = l ++ (w' ∷ r) } in
      let (busy, low) = held_busy (calling i) i e (ground arith) h in
      let over : (d : ℕ) → is_over (s'.statuses d) ≡ (d == i || is_over (s.statuses d)) =
        λ d. elim (Bool-cases (d == i)) [ inl q ↦ rw q o | inr q ↦ rw q refl ] in
      let more : number_over g s + 1 ≡ number_over g s' =
        sum-less g.size i 1 (λ d. one (is_over (s'.statuses d))) (λ d. one (is_over (s.statuses d)))
          low (ground (arith, over i, busy)) (λ d x. ground (arith, over d)) in
      record {
        balanced =
            IsBalanced-finish g (books g s) (books g s') i
              (record {
                done = over;
                pending = λ d. omega (arith, total-moved (owes g d) s.workers l (calling i) w' r e);
                remaining = λ d. refl;
                tokens = λ d. ground (arith, total-moved (token d) s.workers l (calling i) w' r e);
              })
              h.balanced;
        called = λ d. elim (Bool-cases (d == i)) [
          | inl q ↦
              let same : d ≡ i = ground arith in
              rw q (
                rw same (
                  ground
                    (arith, total-moved (calls i) s.workers l (calling i) w' r e, h.called i, n)))
          | inr q ↦
              rw q
                (ground (arith, total-moved (calls d) s.workers l (calling i) w' r e, h.called d))
        ];
        counted =
            omega (arith, total-moved uncounted s.workers l (calling i) w' r e, h.counted, more);
        exits = λ b. h.exits (omega (arith, total-moved ended s.workers l (calling i) w' r e));
      }
