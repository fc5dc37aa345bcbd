-- ===== src/Configuration/BuildSteps/Order.antt =====
-- What `topological_sort` returns.
use cppup.Base.{
  ℕ, ◌+◌, ◌≤◌, ◌<◌, List, [], ◌∷◌, ◌++◌, ◌≡◌, refl, sym, ap, arith, ◌==◌, length, All, inl, inr,
  Bool-cases, append_assoc,
}
use cppup.Configuration.BuildSteps.{Graph}
use cppup.Configuration.BuildSteps.Sums.{
  count, count-append, count-one, sum-count, sum-full, count-nil,
}

-- A step that can come next: it is there and new, and its dependencies are before it.
pub record IsNext (g : Graph) (seen : List ℕ) (c : ℕ) : Type 0 where
  pub new : count c seen ≡ 0
  pub low : c < g.size
  pub dependencies : (k : ℕ) → 0 < count k (g.dependencies c) → 0 < count k seen

-- Behind the steps `seen`, each step can come next.
abbrev pub Follows : Graph → List ℕ → List ℕ → Type 0
Follows g seen [] = Unit
Follows g seen (c ∷ rest) = IsNext g seen c × Follows g (seen ++ (c ∷ [])) rest

-- All the steps, each once and behind its dependencies.
pub record IsOrder (g : Graph) (order : List ℕ) : Type 0 where
  pub follows : Follows g [] order
  pub complete : length order ≡ g.size

pub Follows-append :
    (g : Graph) (seen l : List ℕ) (c : ℕ)
    → Follows g seen l
    → IsNext g (seen ++ l) c
    → Follows g seen (l ++ (c ∷ []))
Follows-append g seen [] c f n = (rw (append_nil_right seen) at n, tt)
  where
    append_nil_right : (s : List ℕ) → s ++ [] ≡ s
    append_nil_right [] = refl
    append_nil_right (x ∷ s) = ap (◌∷◌ x) (append_nil_right s)
Follows-append g seen (x ∷ l) c (h, f) n =
    (h, Follows-append g (seen ++ (x ∷ [])) l c f (rw (sym (append_assoc seen (x ∷ []) l)) at n))

pub Follows-bound : (g : Graph) (seen l : List ℕ) → Follows g seen l → All (λ k. k < g.size) l
Follows-bound g seen [] f = tt
Follows-bound g seen (c ∷ l) (n, f) = (n.low, Follows-bound g (seen ++ (c ∷ [])) l f)

pub Follows-once :
    (g : Graph) (seen l : List ℕ) (d : ℕ)
    → Follows g seen l
    → count d seen ≤ 1
    → count d seen + count d l ≤ 1
unfolding count
Follows-once g seen [] d f h = omega arith
Follows-once g seen (c ∷ l) d (n, f) h = elim (Bool-cases (c == d)) [
  | inl e ↦
      let same : c ≡ d = ground arith in
      let new : count d seen ≡ 0 = rw same at n.new in
      ground (
        arith,
        count-append d seen (c ∷ []),
        count-one d c,
        Follows-once g (seen ++ (c ∷ [])) l d f,
      )
  | inr e ↦
      ground (
        arith,
        count-append d seen (c ∷ []),
        count-one d c,
        Follows-once g (seen ++ (c ∷ [])) l d f,
      )
]

-- An order of all the steps has each of them once.
pub IsOrder-has :
    (g : Graph) (order : List ℕ) → IsOrder g order → (d : ℕ) → d < g.size → count d order ≡ 1
IsOrder-has g order o d low =
    sum-full g.size d (λ k. count k order)
      (λ k.
        omega
          (arith, Follows-once g [] order k o.follows (omega (arith, count-nil k)), count-nil k))
      (omega (arith, o.complete, sum-count g.size order (Follows-bound g [] order o.follows))) low
