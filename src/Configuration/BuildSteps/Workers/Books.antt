-- ===== src/Configuration/BuildSteps/Workers/Books.antt =====
-- The books of the workers: what the threads hold, added up, and the invariant about it.
use cppup.Base.{
  ℕ, ◌+◌, ◌≤◌, ◌<◌, Bool, true, false, List, [], ◌∷◌, ◌++◌, map, ◌≡◌, ◌⊎◌, refl, sym, ap, ◌∙◌,
  arith, ◌==◌, inl, inr,
}
use cppup.Configuration.BuildSteps.{Graph}
use cppup.Configuration.BuildSteps.Sums.{sum_upto, count}
use cppup.Configuration.BuildSteps.Balance.{one, Ledger, IsBalanced, IsBalanced-agree}
use cppup.Configuration.BuildSteps.Workers.{
  BuildStepStatus, running, completed, failed, Worker, waiting, tested, blocked, popped, calling,
  reporting, counting, releasing, pushing, finished, System, wake, WakesOne, here, there, Notified,
}

abbrev pub is_over : BuildStepStatus → Bool
is_over completed = true
is_over failed = true
is_over _ = false

abbrev pub is_running : BuildStepStatus → Bool
is_running running = true
is_running _ = false

-- the worker has the step `d`, and it is not over
abbrev pub token : ℕ → Worker → ℕ
token d (popped i) = one (d == i)
token d (calling i) = one (d == i)
token d (pushing current i ds) = one (d == i)
token d _ = 0

-- the edges to `d` that the worker has to release
abbrev pub owes : Graph → ℕ → Worker → ℕ
owes g d (reporting i status what) = count d (g.dependents i)
owes g d (counting i) = count d (g.dependents i)
owes g d (releasing current ds) = count d ds
owes g d (pushing current i ds) = count d ds
owes g d _ = 0

abbrev pub calls : ℕ → Worker → ℕ
calls d (calling i) = one (d == i)
calls d _ = 0

abbrev pub uncounted : Worker → ℕ
uncounted (reporting i status what) = 1
uncounted (counting i) = 1
uncounted _ = 0

abbrev pub ended : Worker → ℕ
ended finished = 1
ended _ = 0

unfoldable pub total : (Worker → ℕ) → List Worker → ℕ
total f [] = 0
total f (w ∷ ws) = f w + total f ws

total-append : (f : Worker → ℕ) (l r : List Worker) → total f (l ++ r) ≡ total f l + total f r
unfolding total
total-append f [] r = omega arith
total-append f (w ∷ l) r = omega (arith, total-append f l r)

-- One worker goes on, from `w` to `w'`.
pub total-moved :
    (f : Worker → ℕ) (ws l : List Worker) (w w' : Worker) (r : List Worker)
    → ws ≡ l ++ (w ∷ r)
    → total f (l ++ (w' ∷ r)) + f w ≡ total f ws + f w'
unfolding total
total-moved f ws l w w' r e =
    omega (arith, ap (total f) e, total-append f l (w ∷ r), total-append f l (w' ∷ r))

pub total-wake :
    (f : Worker → ℕ) (ws : List Worker) → f blocked ≡ f waiting → total f (map wake ws) ≡ total f ws
unfolding total
total-wake f [] e = refl
total-wake f (w ∷ ws) e = omega (arith, total-wake f ws e, wake_same f w e)
  where
    wake_same : (f : Worker → ℕ) (w : Worker) → f blocked ≡ f waiting → f (wake w) ≡ f w
    wake_same f waiting e = refl
    wake_same f tested e = refl
    wake_same f blocked e = sym e
    wake_same f (popped i) e = refl
    wake_same f (calling i) e = refl
    wake_same f (reporting i status what) e = refl
    wake_same f (counting i) e = refl
    wake_same f (releasing current ds) e = refl
    wake_same f (pushing current i ds) e = refl
    wake_same f finished e = refl

total-wakes :
    (f : Worker → ℕ) (ws ws' : List Worker)
    → f blocked ≡ f waiting
    → WakesOne ws ws'
    → total f ws' ≡ total f ws
unfolding total
total-wakes f _ _ e (here {ws}) = omega (arith, e)
total-wakes f _ _ e (there {w} {ws} {ws'} h) = omega (arith, total-wakes f ws ws' e h)

pub total-notify :
    (f : Worker → ℕ) (ws ws' : List Worker)
    → f blocked ≡ f waiting
    → Notified ws ws'
    → total f ws' ≡ total f ws
total-notify f ws ws' e (inl h) = total-wakes f ws ws' e h
total-notify f ws ws' e (inr (none_blocked, q)) = ap (total f) q

-- A worker holds no less than all of them.
pub total-le :
    (f : Worker → ℕ) (ws l : List Worker) (w : Worker) (r : List Worker)
    → ws ≡ l ++ (w ∷ r)
    → f w ≤ total f ws
unfolding total
total-le f ws l w r e = omega (arith, ap (total f) e, total-append f l (w ∷ r))

total-pointwise :
    (f h : Worker → ℕ) (ws : List Worker) → ((w : Worker) → f w ≤ h w) → total f ws ≤ total h ws
unfolding total
total-pointwise f h [] b = omega arith
total-pointwise f h (w ∷ ws) b = omega (arith, b w, total-pointwise f h ws b)

pub total-below :
    (f h : Worker → ℕ) (ws l : List Worker) (w : Worker) (r : List Worker)
    → ((v : Worker) → f v ≤ h v)
    → ws ≡ l ++ (w ∷ r)
    → total f ws + h w ≤ total h ws + f w
unfolding total
total-below f h ws l w r b e = omega (
  arith,
  ap (total f) e,
  ap (total h) e,
  total-append f l (w ∷ r),
  total-append h l (w ∷ r),
  total-pointwise f h l b,
  total-pointwise f h r b,
)

-- A step in its callback is held.
pub calls_below : (d : ℕ) (w : Worker) → calls d w ≤ token d w
calls_below d (popped j) = omega arith
calls_below d (calling j) = omega arith
calls_below d (pushing current j ds) = omega arith
calls_below d waiting = omega arith
calls_below d tested = omega arith
calls_below d blocked = omega arith
calls_below d (reporting j status what) = omega arith
calls_below d (counting j) = omega arith
calls_below d (releasing current ds) = omega arith
calls_below d finished = omega arith

abbrev pub books : Graph → System → Ledger
books g s = record {
  done = λ d. is_over (s.statuses d);
  pending = λ d. total (owes g d) s.workers;
  remaining = s.remaining_deps;
  tokens = λ d. count d s.ready_queue + total (token d) s.workers;
}

abbrev pub number_over : Graph → System → ℕ
number_over g s = sum_upto g.size (λ d. one (is_over (s.statuses d)))

pub record IsSystem (g : Graph) (s : System) : Type 0 where
  pub balanced : IsBalanced g (books g s)
  pub called : (d : ℕ) → total (calls d) s.workers ≡ one (is_running (s.statuses d))
  pub counted : s.completed_steps + total uncounted s.workers ≡ number_over g s
  pub exits : 0 < total ended s.workers → s.completed_steps ≡ g.size

-- The step moves nothing in the books; a worker that ends has seen all the steps counted.
pub record Quiet (g : Graph) (s s' : System) : Type 0 where
  pub remaining : s'.remaining_deps ≡ s.remaining_deps
  pub statuses : s'.statuses ≡ s.statuses
  pub completed : s'.completed_steps ≡ s.completed_steps
  pub tokens : (d : ℕ) → (books g s').tokens d ≡ (books g s).tokens d
  pub pending : (d : ℕ) → (books g s').pending d ≡ (books g s).pending d
  pub called : (d : ℕ) → total (calls d) s'.workers ≡ total (calls d) s.workers
  pub uncounted : total uncounted s'.workers ≡ total uncounted s.workers
  pub exits : (total ended s'.workers ≡ total ended s.workers) ⊎ (s.completed_steps ≡ g.size)

pub IsSystem-still : (g : Graph) (s s' : System) → Quiet g s s' → IsSystem g s → IsSystem g s'
IsSystem-still g s s' q h = record {
  balanced =
      IsBalanced-agree g (books g s) (books g s')
        (record {
          done = λ d. ap (λ f. is_over (f d)) q.statuses;
          pending = q.pending;
          remaining = λ d. ap (λ f. f d) q.remaining;
          tokens = q.tokens;
        })
        h.balanced;
  called = λ d. q.called d ∙ (h.called d ∙ sym (ap (λ f. one (is_running (f d))) q.statuses));
  counted = omega (
    arith,
    q.completed,
    q.uncounted,
    h.counted,
    ap (λ (f : ℕ → BuildStepStatus). sum_upto g.size (λ d. one (is_over (f d)))) q.statuses,
  );
  exits = λ b. elim q.exits [
    | inl e ↦ omega (arith, q.completed, h.exits (omega arith))
    | inr e ↦ omega (arith, q.completed)
  ];
}

-- A worker alone goes on, and holds what it held.
pub IsSystem-aside :
    (g : Graph) (s : System) (l : List Worker) (w w' : Worker) (r : List Worker)
    → s.workers ≡ l ++ (w ∷ r)
    → ((d : ℕ) → token d w' ≡ token d w)
    → ((d : ℕ) → owes g d w' ≡ owes g d w)
    → ((d : ℕ) → calls d w' ≡ calls d w)
    → uncounted w' ≡ uncounted w
    → (ended w' ≡ ended w) ⊎ (s.completed_steps ≡ g.size)
    → IsSystem g s
    → IsSystem g (record s { workers = l ++ (w' ∷ r) })
IsSystem-aside g s l w w' r e t o c u x h =
    IsSystem-still g s (record s { workers = l ++ (w' ∷ r) })
      (record {
        remaining = refl;
        statuses = refl;
        completed = refl;
        tokens = λ d. omega (arith, total-moved (token d) s.workers l w w' r e, t d);
        pending = λ d. omega (arith, total-moved (owes g d) s.workers l w w' r e, o d);
        called = λ d. omega (arith, total-moved (calls d) s.workers l w w' r e, c d);
        uncounted = omega (arith, total-moved uncounted s.workers l w w' r e, u);
        exits = elim x [
          | inl q ↦ inl (omega (arith, total-moved ended s.workers l w w' r e, q))
          | inr q ↦ inr q
        ];
      })
      h
