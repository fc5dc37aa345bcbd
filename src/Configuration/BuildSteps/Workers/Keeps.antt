-- ===== src/Configuration/BuildSteps/Workers/Keeps.antt =====
-- Every move of the workers keeps the books in balance.
use cppup.Base.{
  ℕ, suc, ◌-◌, ◌≤◌, ◌&&◌, List, [], ◌∷◌, ◌++◌, map, ◌≡◌, refl, sym, arith, ◌==◌, inl, inr,
  Bool-cases,
}
use cppup.Configuration.BuildSteps.{Graph, set}
use cppup.Configuration.BuildSteps.Sums.{
  count, count-append, count-one, count-cons, count-nil, sum-le,
}
use cppup.Configuration.BuildSteps.Balance.{one, IsBalanced-agree, IsBalanced-release}
use cppup.Configuration.BuildSteps.Workers.{
  completed, failed, Worker, waiting, tested, blocked, reporting, counting, releasing, pushing,
  finished, System, wake, Notified, Move, take, begin, returns, throws, report, counts, release,
  push, again, test, block, wakes_up, ends,
}
use cppup.Configuration.BuildSteps.Workers.Books.{
  is_over, token, owes, calls, uncounted, ended, total-moved, total-wake, total-notify, total-le,
  books, number_over, IsSystem, IsSystem-still, IsSystem-aside,
}
use cppup.Configuration.BuildSteps.Workers.Calls.{take_keeps, begin_keeps, finish_keeps}

module _ (g : Graph) (s : System) (l r : List Worker) where
  counts_keeps :
      (i : ℕ)
      → s.workers ≡ l ++ (counting i ∷ r)
      → number_over g s ≤ g.size
      → IsSystem g s
      → IsSystem g (record s {
        completed_steps = suc s.completed_steps;
        workers = l ++ (releasing (suc s.completed_steps) (g.dependents i) ∷ r);
      })
  counts_keeps i e all h =
      let w' : Worker = releasing (suc s.completed_steps) (g.dependents i) in
      let s' : System = record s {
        completed_steps = suc s.completed_steps;
        workers = l ++ (w' ∷ r);
      } in
      record {
        balanced =
            IsBalanced-agree g (books g s) (books g s')
              (record {
                done = λ d. refl;
                pending =
                    λ d. omega (arith, total-moved (owes g d) s.workers l (counting i) w' r e);
                remaining = λ d. refl;
                tokens = λ d. omega (arith, total-moved (token d) s.workers l (counting i) w' r e);
              })
              h.balanced;
        called =
            λ d. omega (arith, total-moved (calls d) s.workers l (counting i) w' r e, h.called d);
        counted = omega (arith, total-moved uncounted s.workers l (counting i) w' r e, h.counted);
        exits = λ b.
            let before : s.completed_steps ≡ g.size =
              h.exits (omega (arith, total-moved ended s.workers l (counting i) w' r e)) in
            absurd (omega (arith, h.counted, total-le uncounted s.workers l (counting i) r e));
      }

  release_keeps :
      (current x : ℕ) (ds : List ℕ) (w' : Worker)
      → s.workers ≡ l ++ (releasing current (x ∷ ds) ∷ r)
      → ((d : ℕ) → token d w' ≡ one (d == x && s.remaining_deps x == 1))
      → ((d : ℕ) → owes g d w' ≡ count d ds)
      → ((d : ℕ) → calls d w' ≡ 0)
      → uncounted w' ≡ 0
      → ended w' ≡ 0
      → IsSystem g s
      → IsSystem g (record s {
        remaining_deps = set x (s.remaining_deps x - 1) s.remaining_deps;
        workers = l ++ (w' ∷ r);
      })
  release_keeps current x ds w' e t o c u x' h =
      let w : Worker = releasing current (x ∷ ds) in
      let s' : System = record s {
        remaining_deps = set x (s.remaining_deps x - 1) s.remaining_deps;
        workers = l ++ (w' ∷ r);
      } in
      record {
        balanced =
            IsBalanced-release g (books g s) (books g s') x
              (record {
                done = λ d. refl;
                pending = λ d.
                    ground
                      (arith, total-moved (owes g d) s.workers l w w' r e, count-cons d x ds, o d);
                remaining = λ d. refl;
                tokens = λ d. omega (arith, total-moved (token d) s.workers l w w' r e, t d);
              })
              h.balanced;
        called = λ d. omega (arith, total-moved (calls d) s.workers l w w' r e, h.called d, c d);
        counted = omega (arith, total-moved uncounted s.workers l w w' r e, h.counted, u);
        exits = λ b. h.exits (omega (arith, total-moved ended s.workers l w w' r e, x'));
      }

  push_keeps :
      (current x : ℕ) (ds : List ℕ) (woken : List Worker)
      → s.workers ≡ l ++ (pushing current x ds ∷ r)
      → Notified (l ++ (releasing current ds ∷ r)) woken
      → IsSystem g s
      → IsSystem g (record s { ready_queue = s.ready_queue ++ (x ∷ []); workers = woken })
  push_keeps current x ds woken e n h =
      let w : Worker = pushing current x ds in
      let w' : Worker = releasing current ds in
      let ws : List Worker = l ++ (w' ∷ r) in
      IsSystem-still g s (record s { ready_queue = s.ready_queue ++ (x ∷ []); workers = woken })
        (record {
          remaining = refl;
          statuses = refl;
          completed = refl;
          tokens = λ d. ground (
            arith,
            total-notify (token d) ws woken refl n,
            total-moved (token d) s.workers l w w' r e,
            count-append d s.ready_queue (x ∷ []),
            count-one d x,
          );
          pending = λ d. omega (
            arith,
            total-notify (owes g d) ws woken refl n,
            total-moved (owes g d) s.workers l w w' r e,
          );
          called = λ d. omega (
            arith,
            total-notify (calls d) ws woken refl n,
            total-moved (calls d) s.workers l w w' r e,
          );
          uncounted = omega (
            arith,
            total-notify uncounted ws woken refl n,
            total-moved uncounted s.workers l w w' r e,
          );
          exits = inl (
              omega (
                arith,
                total-notify ended ws woken refl n,
                total-moved ended s.workers l w w' r e,
              ));
        })
        h

wake_keeps :
    (g : Graph) (s : System) → IsSystem g s → IsSystem g (record s { workers = map wake s.workers })
wake_keeps g s h =
    IsSystem-still g s (record s { workers = map wake s.workers })
      (record {
        remaining = refl;
        statuses = refl;
        completed = refl;
        tokens = λ d. omega (arith, total-wake (token d) s.workers refl);
        pending = λ d. total-wake (owes g d) s.workers refl;
        called = λ d. total-wake (calls d) s.workers refl;
        uncounted = total-wake uncounted s.workers refl;
        exits = inl (total-wake ended s.workers refl);
      })
      h

number_over-le : (g : Graph) (s : System) → number_over g s ≤ g.size
number_over-le g s = sum-le g.size (λ d. one (is_over (s.statuses d))) (λ d. ground arith)

pub Move-IsSystem : (g : Graph) (s s' : System) → Move g s s' → IsSystem g s → IsSystem g s'
Move-IsSystem g s _ (take l r i queue e u q) h = take_keeps g s l r i queue e q h
Move-IsSystem g s _ (begin l r i e) h = begin_keeps g s l r i e h
Move-IsSystem g s _ (returns l r i e) h = finish_keeps g s l r i completed [] refl refl e h
Move-IsSystem g s _ (throws l r i what e) h = finish_keeps g s l r i failed what refl refl e h
Move-IsSystem g s _ (report l r i status what e) h =
    IsSystem-still g (record s { workers = l ++ (counting i ∷ r) }) _
      (record {
        remaining = refl;
        statuses = refl;
        completed = refl;
        tokens = λ d. refl;
        pending = λ d. refl;
        called = λ d. refl;
        uncounted = refl;
        exits = inl refl;
      })
      (IsSystem-aside g s l (reporting i status what) (counting i) r e (λ d. refl) (λ d. refl)
        (λ d. refl) refl (inl refl) h)
Move-IsSystem g s _ (counts l r i e) h = counts_keeps g s l r i e (number_over-le g s) h
Move-IsSystem g s _ (release l r current x ds e) h = elim (Bool-cases (s.remaining_deps x == 1)) [
  | inl q ↦ rw q (
      release_keeps g s l r current x ds (pushing current x ds) e (λ d. rw q (ground arith))
        (λ d. refl) (λ d. refl) refl refl h)
  | inr q ↦ rw q (
      release_keeps g s l r current x ds (releasing current ds) e (λ d. rw q (ground arith))
        (λ d. refl) (λ d. refl) refl refl h)
]
Move-IsSystem g s _ (push l r current x ds woken e u n) h =
    push_keeps g s l r current x ds woken e n h
Move-IsSystem g s _ (again l r current e) h =
    let rested : IsSystem g (record s { workers = l ++ (waiting ∷ r) }) =
      IsSystem-aside g s l (releasing current []) waiting r e (λ d. refl) (λ d. sym (count-nil d))
        (λ d. refl) refl (inl refl) h in
    elim (Bool-cases (current == g.size)) [
      | inl q ↦ rw q (wake_keeps g (record s { workers = l ++ (waiting ∷ r) }) rested)
      | inr q ↦ rw q rested
    ]
Move-IsSystem g s _ (test l r e u q c) h =
    IsSystem-aside g s l waiting tested r e (λ d. refl) (λ d. refl) (λ d. refl) refl (inl refl) h
Move-IsSystem g s _ (block l r e) h =
    IsSystem-aside g s l tested blocked r e (λ d. refl) (λ d. refl) (λ d. refl) refl (inl refl) h
Move-IsSystem g s _ (wakes_up l r e) h =
    IsSystem-aside g s l blocked waiting r e (λ d. refl) (λ d. refl) (λ d. refl) refl (inl refl) h
Move-IsSystem g s _ (ends l r e u q c) h =
    IsSystem-aside g s l waiting finished r e (λ d. refl) (λ d. refl) (λ d. refl) refl (inr c) h
