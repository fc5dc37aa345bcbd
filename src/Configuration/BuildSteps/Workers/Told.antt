-- ===== src/Configuration/BuildSteps/Workers/Told.antt =====
-- The results of the steps, as the workers report them.
use cppup.Base.{
  ℕ, suc, ◌<◌, true, false, List, [], ◌∷◌, ◌++◌, map, ◌≡◌, ◌⊎◌, refl, sym, ap, ◌∙◌, arith, ◌==◌,
  All, All-append, All-append_left, All-append_right, inl, inr, Bool-cases, Bytes, if◌then◌else◌,
}
use cppup.Configuration.BuildSteps.{Graph, set}
use cppup.Configuration.BuildSteps.Balance.{one}
use cppup.Configuration.BuildSteps.Workers.{
  BuildStepStatus, running, completed, failed, Worker, waiting, tested, blocked, popped, calling,
  reporting, counting, releasing, pushing, finished, System, wake, WakesOne, here, there, Notified,
  Move, take, begin, returns, throws, report, counts, release, push, again, test, block, wakes_up,
  ends,
}
use cppup.Configuration.BuildSteps.Workers.Books.{
  is_over, total, total-moved, total-wake, total-notify, IsSystem,
}
use cppup.Configuration.BuildSteps.Workers.Calls.{held_busy}

-- the status that a worker will report is the step's
abbrev pub Honest : (ℕ → BuildStepStatus) → Worker → Type 0
Honest statuses (reporting i status what) = (statuses i ≡ status) × (is_over status ≡ true)
Honest statuses _ = Unit

abbrev pub reports : ℕ → Worker → ℕ
reports d (reporting i status what) = one (d == i)
reports d _ = 0

-- The result of a step that is over has its status, or a worker is about to report it.
pub record IsTold (s : System) : Type 0 where
  pub honest : All (Honest s.statuses) s.workers
  pub told :
      (d : ℕ)
      → is_over (s.statuses d) ≡ true
      → (0 < total (reports d) s.workers) ⊎ ((s.step_results d).status ≡ s.statuses d)

module _ (P : Worker → Type 0) where
  All-moved :
      (ws l : List Worker) (w w' : Worker) (r : List Worker)
      → ws ≡ l ++ (w ∷ r)
      → All P ws
      → P w'
      → All P (l ++ (w' ∷ r))
  All-moved ws l w w' r e a p =
      let whole : All P (l ++ (w ∷ r)) = rw e at a in
      let behind : All P (w ∷ r) = All-append_right P l (w ∷ r) whole in
      All-append P l (w' ∷ r) (All-append_left P l (w ∷ r) whole) (p, behind.1)

  All-at : (ws l : List Worker) (w : Worker) (r : List Worker) → ws ≡ l ++ (w ∷ r) → All P ws → P w
  All-at ws l w r e a =
      let whole : All P (l ++ (w ∷ r)) = rw e at a in
      let behind : All P (w ∷ r) = All-append_right P l (w ∷ r) whole in behind.0

  All-wakes : (ws ws' : List Worker) → P waiting → WakesOne ws ws' → All P ws → All P ws'
  All-wakes _ _ p (here {ws}) (q, a) = (p, a)
  All-wakes _ _ p (there {w} {ws} {ws'} h) (q, a) = (q, All-wakes ws ws' p h a)

  All-notified : (ws ws' : List Worker) → P waiting → Notified ws ws' → All P ws → All P ws'
  All-notified ws ws' p (inl h) a = All-wakes ws ws' p h a
  All-notified ws ws' p (inr (none_blocked, e)) a = rw e a

Honest-wake :
    (statuses : ℕ → BuildStepStatus) (ws : List Worker)
    → All (Honest statuses) ws
    → All (Honest statuses) (map wake ws)
Honest-wake statuses [] a = tt
Honest-wake statuses (waiting ∷ ws) (p, a) = (tt, Honest-wake statuses ws a)
Honest-wake statuses (tested ∷ ws) (p, a) = (tt, Honest-wake statuses ws a)
Honest-wake statuses (blocked ∷ ws) (p, a) = (tt, Honest-wake statuses ws a)
Honest-wake statuses (popped i ∷ ws) (p, a) = (tt, Honest-wake statuses ws a)
Honest-wake statuses (calling i ∷ ws) (p, a) = (tt, Honest-wake statuses ws a)
Honest-wake statuses (reporting i status what ∷ ws) (p, a) = (p, Honest-wake statuses ws a)
Honest-wake statuses (counting i ∷ ws) (p, a) = (tt, Honest-wake statuses ws a)
Honest-wake statuses (releasing k ds ∷ ws) (p, a) = (tt, Honest-wake statuses ws a)
Honest-wake statuses (pushing k i ds ∷ ws) (p, a) = (tt, Honest-wake statuses ws a)
Honest-wake statuses (finished ∷ ws) (p, a) = (tt, Honest-wake statuses ws a)

-- a step that is not over is reported by nobody
Honest-set :
    (statuses : ℕ → BuildStepStatus) (i : ℕ) (status : BuildStepStatus) (ws : List Worker)
    → is_over (statuses i) ≡ false
    → All (Honest statuses) ws
    → All (Honest (set i status statuses)) ws
Honest-set statuses i status [] h a = tt
Honest-set statuses i status (reporting j st what ∷ ws) h ((e, o), a) = (
  elim (Bool-cases (j == i)) [
    | inl q ↦ absurd (
        let same : j ≡ i = ground arith in
        let over : is_over (statuses i) ≡ true = rw same at (ap is_over e ∙ o) in cc)
    | inr q ↦ (rw q e, o)
  ],
  Honest-set statuses i status ws h a,
)
Honest-set statuses i status (waiting ∷ ws) h (p, a) = (tt, Honest-set statuses i status ws h a)
Honest-set statuses i status (tested ∷ ws) h (p, a) = (tt, Honest-set statuses i status ws h a)
Honest-set statuses i status (blocked ∷ ws) h (p, a) = (tt, Honest-set statuses i status ws h a)
Honest-set statuses i status (popped j ∷ ws) h (p, a) = (tt, Honest-set statuses i status ws h a)
Honest-set statuses i status (calling j ∷ ws) h (p, a) = (tt, Honest-set statuses i status ws h a)
Honest-set statuses i status (counting j ∷ ws) h (p, a) = (tt, Honest-set statuses i status ws h a)
Honest-set statuses i status (releasing k ds ∷ ws) h (p, a) =
    (tt, Honest-set statuses i status ws h a)
Honest-set statuses i status (pushing k j ds ∷ ws) h (p, a) =
    (tt, Honest-set statuses i status ws h a)
Honest-set statuses i status (finished ∷ ws) h (p, a) = (tt, Honest-set statuses i status ws h a)

module _ (s : System) (h : IsTold s) where
  -- nothing is told, and as much is about to be
  IsTold-aside :
      (ws : List Worker)
      → All (Honest s.statuses) ws
      → ((d : ℕ) → total (reports d) ws ≡ total (reports d) s.workers)
      → (d : ℕ) → is_over (s.statuses d) ≡ true
      → (0 < total (reports d) ws) ⊎ ((s.step_results d).status ≡ s.statuses d)
  IsTold-aside ws a t d o = elim (h.told d o) [ inl b ↦ inl (omega (arith, t d)) | inr e ↦ inr e ]

  module _ (l r : List Worker) (w : Worker) (e : s.workers ≡ l ++ (w ∷ r)) where
    Told-moved :
        (w' : Worker)
        → Honest s.statuses w'
        → ((d : ℕ) → reports d w' ≡ reports d w)
        → IsTold (record s { workers = l ++ (w' ∷ r) })
    Told-moved w' p t =
        let a : All (Honest s.statuses) (l ++ (w' ∷ r)) =
          All-moved (Honest s.statuses) s.workers l w w' r e h.honest p in
        record {
          honest = a;
          told =
              IsTold-aside (l ++ (w' ∷ r)) a
                (λ d. omega (arith, total-moved (reports d) s.workers l w w' r e, t d));
        }

    -- the status of its step changes
    Told-set :
        (i : ℕ) (status : BuildStepStatus) (w' : Worker)
        → is_over (s.statuses i) ≡ false
        → Honest (set i status s.statuses) w'
        → ((d : ℕ) → reports d w ≡ 0)
        → ((d : ℕ) → reports d w' ≡ (if is_over status then one (d == i) else 0))
        → IsTold (record s { statuses = set i status s.statuses; workers = l ++ (w' ∷ r) })
    Told-set i status w' busy p none_here t = record {
      honest =
          All-moved (Honest (set i status s.statuses)) s.workers l w w' r e
            (Honest-set s.statuses i status s.workers busy h.honest) p;
      told = λ d. elim (Bool-cases (d == i)) [
        | inl q ↦ rw q (λ o.
            inl (ground (arith, total-moved (reports d) s.workers l w w' r e, none_here d, t d)))
        | inr q ↦ rw q (λ o. elim (h.told d o) [
          | inl b ↦
              inl (ground (arith, total-moved (reports d) s.workers l w w' r e, none_here d, t d))
          | inr same ↦ inr same
        ])
      ];
    }

Told-report :
    (s : System) (l r : List Worker) (i : ℕ) (status : BuildStepStatus) (what : Bytes)
    → s.workers ≡ l ++ (reporting i status what ∷ r)
    → IsTold s
    → IsTold (record s {
      step_results =
          set i
            (record (s.step_results i) { status = status; error_message = what })
            s.step_results;
      workers = l ++ (counting i ∷ r);
    })
Told-report s l r i status what e h =
    let w : Worker = reporting i status what in
    let (same, over) = All-at (Honest s.statuses) s.workers l w r e h.honest in
    record {
      honest = All-moved (Honest s.statuses) s.workers l w (counting i) r e h.honest tt;
      told = λ d. elim (Bool-cases (d == i)) [
        | inl q ↦ rw q (λ o. inr (let at_i : d ≡ i = ground arith in rw at_i (sym same)))
        | inr q ↦ rw q (λ o. elim (h.told d o) [
          | inl b ↦ inl (ground (arith, total-moved (reports d) s.workers l w (counting i) r e))
          | inr told ↦ inr told
        ])
      ];
    }

pub Move-IsTold : (g : Graph) (s s' : System) → Move g s s' → IsSystem g s → IsTold s → IsTold s'
Move-IsTold g s _ (take l r i queue e u q) b h =
    let h' : IsTold (record s { workers = l ++ (popped i ∷ r) }) =
      Told-moved s h l r waiting e (popped i) tt (λ d. refl) in
    record { honest = h'.honest; told = h'.told }
Move-IsTold g s _ (begin l r i e) b h =
    Told-set s h l r (popped i) e i running (calling i)
      (held_busy g s l r (popped i) i e (ground arith) b).0 tt (λ d. refl) (λ d. refl)
Move-IsTold g s _ (returns l r i e) b h =
    Told-set s h l r (calling i) e i completed (reporting i completed [])
      (held_busy g s l r (calling i) i e (ground arith) b).0 (ground arith, refl) (λ d. refl)
      (λ d. refl)
Move-IsTold g s _ (throws l r i what e) b h =
    Told-set s h l r (calling i) e i failed (reporting i failed what)
      (held_busy g s l r (calling i) i e (ground arith) b).0 (ground arith, refl) (λ d. refl)
      (λ d. refl)
Move-IsTold g s _ (report l r i status what e) b h = Told-report s l r i status what e h
Move-IsTold g s _ (counts l r i e) b h =
    let h' : IsTold
        (record s { workers = l ++ (releasing (suc s.completed_steps) (g.dependents i) ∷ r) }) =
      Told-moved s h l r (counting i) e (releasing (suc s.completed_steps) (g.dependents i)) tt
        (λ d. refl) in
    record { honest = h'.honest; told = h'.told }
Move-IsTold g s _ (release l r current x ds e) b h = elim (Bool-cases (s.remaining_deps x == 1)) [
  | inl q ↦
      let h' : IsTold (record s { workers = l ++ (pushing current x ds ∷ r) }) =
        Told-moved s h l r (releasing current (x ∷ ds)) e (pushing current x ds) tt (λ d. refl) in
      rw q (record { honest = h'.honest; told = h'.told })
  | inr q ↦
      let h' : IsTold (record s { workers = l ++ (releasing current ds ∷ r) }) =
        Told-moved s h l r (releasing current (x ∷ ds)) e (releasing current ds) tt (λ d. refl) in
      rw q (record { honest = h'.honest; told = h'.told })
]
Move-IsTold g s _ (push l r current x ds woken e u n) b h =
    let ws : List Worker = l ++ (releasing current ds ∷ r) in
    let a : All (Honest s.statuses) ws =
      All-moved (Honest s.statuses) s.workers l (pushing current x ds) (releasing current ds) r e
        h.honest tt in
    record {
      honest = All-notified (Honest s.statuses) ws woken tt n a;
      told = IsTold-aside s h woken (All-notified (Honest s.statuses) ws woken tt n a) (λ d. omega (
        arith,
        total-notify (reports d) ws woken refl n,
        total-moved (reports d) s.workers l (pushing current x ds) (releasing current ds) r e,
      ));
    }
Move-IsTold g s _ (again l r current e) b h =
    let h' : IsTold (record s { workers = l ++ (waiting ∷ r) }) =
      Told-moved s h l r (releasing current []) e waiting tt (λ d. refl) in
    elim (Bool-cases (current == g.size)) [
      | inl q ↦ rw q (record {
        honest = Honest-wake s.statuses (l ++ (waiting ∷ r)) h'.honest;
        told =
            IsTold-aside (record s { workers = l ++ (waiting ∷ r) }) h'
              (map wake (l ++ (waiting ∷ r)))
              (Honest-wake s.statuses (l ++ (waiting ∷ r)) h'.honest)
              (λ d. total-wake (reports d) (l ++ (waiting ∷ r)) refl);
      })
      | inr q ↦ rw q h'
    ]
Move-IsTold g s _ (test l r e u q c) b h = Told-moved s h l r waiting e tested tt (λ d. refl)
Move-IsTold g s _ (block l r e) b h = Told-moved s h l r tested e blocked tt (λ d. refl)
Move-IsTold g s _ (wakes_up l r e) b h = Told-moved s h l r blocked e waiting tt (λ d. refl)
Move-IsTold g s _ (ends l r e u q c) b h = Told-moved s h l r waiting e finished tt (λ d. refl)
