-- ===== src/Configuration/BuildSteps/Balance.antt =====
-- What the counters of the build steps add up to, whoever keeps them: `topological_sort` in one
-- thread, or the workers in many.
use cppup.Base.{
  ℕ, ◌+◌, ◌-◌, ◌≤◌, ◌<◌, Bool, true, false, ◌&&◌, ◌||◌, ltb, ◌≡◌, ◌≢◌, refl, arith, ◌==◌,
  if◌then◌else◌, inl, inr, Bool-cases,
}
use cppup.Configuration.BuildSteps.{Graph}
use cppup.Configuration.BuildSteps.Sums.{sum_upto, count, sum-same, sum-less, le-sum, sum-zero}
use cppup.Configuration.BuildSteps.Edges.{IsGraph}

-- 1 for a test that holds
abbrev pub one : Bool → ℕ
one true = 1
one false = 0

-- For each step: whether it is over, how many of its dependencies are over and not yet released to
-- it, its counter, and how often it is ready or at work.
pub record Ledger : Type 0 where
  pub done : ℕ → Bool
  pub pending : ℕ → ℕ
  pub remaining : ℕ → ℕ
  pub tokens : ℕ → ℕ

-- the edges to `d` from a step that is not over
abbrev pub undone_by : Graph → (ℕ → Bool) → ℕ → ℕ → ℕ
undone_by g done d j = if done j then 0 else count d (g.dependents j)

abbrev pub undone : Graph → (ℕ → Bool) → ℕ → ℕ
undone g done d = sum_upto g.size (undone_by g done d)

-- A counter is the edges that are not yet released. A step whose counter is 0 is once ready, at
-- work or over, and no other step is.
pub record IsBalanced (g : Graph) (l : Ledger) : Type 0 where
  pub released : (d : ℕ) → l.remaining d ≡ l.pending d + undone g l.done d
  pub queued : (d : ℕ) → l.tokens d + one (l.done d) ≡ one (l.remaining d == 0 && ltb d g.size)
  pub outside : (d : ℕ) → g.size ≤ d → l.remaining d ≡ 0

undone-same :
    (g : Graph) (done done' : ℕ → Bool) (d : ℕ)
    → ((k : ℕ) → done' k ≡ done k)
    → undone g done' d ≡ undone g done d
undone-same g done done' d h =
    sum-same g.size (undone_by g done' d) (undone_by g done d) (λ k b. rw (h k) refl)

-- The ledgers agree at every step.
pub record Same (l l' : Ledger) : Type 0 where
  pub done : (d : ℕ) → l'.done d ≡ l.done d
  pub pending : (d : ℕ) → l'.pending d ≡ l.pending d
  pub remaining : (d : ℕ) → l'.remaining d ≡ l.remaining d
  pub tokens : (d : ℕ) → l'.tokens d ≡ l.tokens d

-- The step `j`, which was at work, is over; its edges are to be released.
pub record Finishes (g : Graph) (j : ℕ) (l l' : Ledger) : Type 0 where
  pub done : (d : ℕ) → l'.done d ≡ (d == j || l.done d)
  pub pending : (d : ℕ) → l'.pending d ≡ l.pending d + count d (g.dependents j)
  pub remaining : (d : ℕ) → l'.remaining d ≡ l.remaining d
  pub tokens : (d : ℕ) → l'.tokens d + one (d == j) ≡ l.tokens d

-- One edge to `x` is released: the counter goes down, and at 0 the step is ready.
pub record Releases (x : ℕ) (l l' : Ledger) : Type 0 where
  pub done : (d : ℕ) → l'.done d ≡ l.done d
  pub pending : (d : ℕ) → l'.pending d + one (d == x) ≡ l.pending d
  pub remaining : (d : ℕ) → l'.remaining d ≡ (if d == x then l.remaining x - 1 else l.remaining d)
  pub tokens : (d : ℕ) → l'.tokens d ≡ l.tokens d + one (d == x && l.remaining x == 1)

module _ (g : Graph) (l l' : Ledger) where
  pub IsBalanced-agree : Same l l' → IsBalanced g l → IsBalanced g l'
  IsBalanced-agree s b = record {
    released =
        λ d. rw (s.remaining d, s.pending d, undone-same g l.done l'.done d s.done) (b.released d);
    queued = λ d. rw (s.remaining d, s.tokens d, s.done d) (b.queued d);
    outside = λ d h. rw (s.remaining d) (b.outside d h);
  }

  pub IsBalanced-finish : (j : ℕ) → Finishes g j l l' → IsBalanced g l → IsBalanced g l'
  IsBalanced-finish j f b =
      let busy : l.done j ≡ false = ground (arith, f.tokens j, b.queued j) in
      let low : j < g.size = ground (arith, f.tokens j, b.queued j) in
      record {
        released = λ d.
            let others : (k : ℕ) → k ≢ j → undone_by g l'.done d k ≡ undone_by g l.done d k =
              λ k n. let off : (k == j) ≡ false = ground arith in rw (f.done k, off) refl in
            let own : undone_by g l'.done d j + count d (g.dependents j) ≡ undone_by g l.done d j =
              let on : (j == j) ≡ true = ground arith in rw (f.done j, on, busy) (omega arith) in
            omega (
              arith,
              f.remaining d,
              f.pending d,
              b.released d,
              sum-less g.size j (count d (g.dependents j)) (undone_by g l.done d)
                  (undone_by g l'.done d) low own others,
            );
        queued = λ d. ground (arith, f.remaining d, f.tokens d, f.done d, b.queued d, busy);
        outside = λ d h. rw (f.remaining d) (b.outside d h);
      }

  pub IsBalanced-release : (x : ℕ) → Releases x l l' → IsBalanced g l → IsBalanced g l'
  IsBalanced-release x r b = record {
    released = λ d.
        ground
          (arith, r.remaining d, r.pending d, b.released d, undone-same g l.done l'.done d r.done);
    queued = λ d. ground (
      arith,
      r.remaining d,
      r.pending x,
      r.tokens d,
      r.done d,
      b.queued d,
      b.released x,
      b.outside x,
    );
    outside = λ d h. ground (arith, r.remaining d, b.outside d h, b.outside x);
  }

module _ (g : Graph) (l : Ledger) where
  -- A step that is ready, at work or over has dependencies that are all over.
  pub IsBalanced-ready :
      IsGraph g
      → IsBalanced g l
      → (d k : ℕ) → 0 < l.tokens d + one (l.done d)
      → 0 < count k (g.dependencies d)
      → k < g.size
      → l.done k ≡ true
  IsBalanced-ready h b d k ready edge low = elim (Bool-cases (l.done k)) [
    | inl e ↦ e
    | inr e ↦
        let own : undone_by g l.done d k ≡ count d (g.dependents k) = rw e refl in
        absurd (
          ground (
            arith,
            b.queued d,
            b.released d,
            h.linked.edges k d,
            le-sum g.size k (undone_by g l.done d) low,
            own,
          ))
  ]

  -- A step without open dependencies has been made ready, if nothing is left to release.
  pub IsBalanced-idle :
      IsGraph g
      → IsBalanced g l
      → (d : ℕ) → d < g.size
      → l.pending d ≡ 0
      → ((k : ℕ) → 0 < count k (g.dependencies d) → l.done k ≡ true)
      → l.tokens d + one (l.done d) ≡ 1
  IsBalanced-idle h b d low p over =
      let none_left : undone g l.done d ≡ 0 = sum-zero g.size (undone_by g l.done d) (λ k c.
        elim (Bool-cases (l.done k)) [
          | inl e ↦ rw e refl
          | inr e ↦ rw e (ground (arith, over k, h.linked.edges k d))
        ]) in
      ground (arith, b.queued d, b.released d)
