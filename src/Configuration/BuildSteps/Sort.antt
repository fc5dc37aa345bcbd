-- ===== src/Configuration/BuildSteps/Sort.antt =====
-- `topological_sort` keeps the balance of the counters, and orders the steps of a graph that has an
-- order.
use cppup.Base.{
  ℕ, zero, suc, ◌+◌, ◌-◌, ◌<◌, ◌&&◌, ltb, leb, List, [], ◌∷◌, ◌++◌, ◌≡◌, ◌⊎◌, refl, sym, ap, ◌∙◌,
  arith, ◌==◌, length, length-append, if◌then◌else◌, inl, inr, Bool-cases, Option, some,
  append_assoc,
}
use cppup.Configuration.BuildSteps.{
  Graph, set, Sorting, reduce_indegrees, initially_ready, sort_loop, accept_order, accepted,
  topological_sort,
}
use cppup.Configuration.BuildSteps.Sums.{
  count, count-append, count-one, count-cons, count-nil, count-bound, sum-count, sum-same, sum-ones,
}
use cppup.Configuration.BuildSteps.Edges.{IsGraph}
use cppup.Configuration.BuildSteps.Balance.{
  one, Ledger, undone_by, IsBalanced, Finishes, Releases, IsBalanced-finish, IsBalanced-release,
  IsBalanced-ready, IsBalanced-idle,
}
use cppup.Configuration.BuildSteps.Order.{
  IsNext, Follows, IsOrder, Follows-append, Follows-bound, Follows-once, IsOrder-has,
}

-- An order of all the steps, each once and behind its dependencies; or no steps, where there is
-- no order.
abbrev pub Sorts : Graph → List ℕ → Type 0
Sorts g order = IsOrder g order ⊎ ((order ≡ []) × ((other : List ℕ) → IsOrder g other → ⊥))

-- the ledger of the loop: the result is over, and of the last step the edges `pend` are left
abbrev ledger_of : List ℕ → List ℕ → List ℕ → (ℕ → ℕ) → Ledger
ledger_of result pend queue indegree = record {
  done = λ d. ltb 0 (count d result);
  pending = λ d. count d pend;
  remaining = indegree;
  tokens = λ d. count d queue;
}

reduce_one :
    (result pend queue : List ℕ) (indegree : ℕ → ℕ) (x : ℕ)
    → Releases x (ledger_of result (x ∷ pend) queue indegree) (
        ledger_of result pend
          (if indegree x == 1 then queue ++ (x ∷ []) else queue)
          (set x (indegree x - 1) indegree))
reduce_one result pend queue indegree x = record {
  done = λ d. refl;
  pending = λ d. ground (arith, count-cons d x pend);
  remaining = λ d. ground arith;
  tokens = λ d. elim (Bool-cases (indegree x == 1)) [
    | inl e ↦ rw e (ground (arith, count-append d queue (x ∷ []), count-one d x))
    | inr e ↦ rw e (ground arith)
  ];
}

reduce_indegrees-IsBalanced :
    (g : Graph) (result pend : List ℕ) (s : Sorting)
    → IsBalanced g (ledger_of result pend s.queue s.indegree)
    → IsBalanced g
        (ledger_of result [] (reduce_indegrees pend s).queue (reduce_indegrees pend s).indegree)
unfolding reduce_indegrees
reduce_indegrees-IsBalanced g result [] s b = b
reduce_indegrees-IsBalanced g result (x ∷ pend) s b =
    let next : Sorting = record {
      queue = if s.indegree x == 1 then s.queue ++ (x ∷ []) else s.queue;
      indegree = set x (s.indegree x - 1) s.indegree;
    } in
    reduce_indegrees-IsBalanced g result pend next (
      IsBalanced-release g (ledger_of result (x ∷ pend) s.queue s.indegree)
        (ledger_of result pend next.queue next.indegree) x
        (reduce_one result pend s.queue s.indegree x) b)

pop_one :
    (g : Graph) (result queue : List ℕ) (indegree : ℕ → ℕ) (c : ℕ)
    → Finishes g c
        (ledger_of result [] (c ∷ queue) indegree)
        (ledger_of (result ++ (c ∷ [])) (g.dependents c) queue indegree)
pop_one g result queue indegree c = record {
  done = λ d. ground (arith, count-append d result (c ∷ []), count-one d c);
  pending = λ d. omega (arith, count-nil d);
  remaining = λ d. refl;
  tokens = λ d. ground (arith, count-cons d c queue);
}

pub initially_ready-count :
    (waits : ℕ → ℕ) (i n d : ℕ)
    → count d (initially_ready waits i n) ≡ one (waits d == 0 && (leb i d && ltb d (i + n)))
unfolding initially_ready count
initially_ready-count waits i zero d = ground arith
initially_ready-count waits i (suc n) d = elim (Bool-cases (i == d)) [
  | inl e ↦
      let same : i ≡ d = ground arith in
      rw same (ground (arith, initially_ready-count waits (suc d) n d))
  | inr e ↦ ground (arith, initially_ready-count waits (suc i) n d)
]

module _ (g : Graph) (h_graph : IsGraph g) where
  starts_IsBalanced :
      IsBalanced g (ledger_of [] [] (initially_ready g.indegree 0 g.size) g.indegree)
  starts_IsBalanced = record {
    released = λ d. omega (
      arith,
      h_graph.linked.indegree d,
      sum-count g.size (g.dependencies d) (h_graph.linked.bound d),
      sum-same g.size (λ k. count k (g.dependencies d)) (undone_by g (λ k. ltb 0 (count k [])) d)
          (λ k b. rw (count-nil k) (sym (h_graph.linked.edges k d))),
      count-nil d,
    );
    queued = λ d. ground (arith, initially_ready-count g.indegree 0 g.size d, count-nil d);
    outside = λ d b. h_graph.linked.indegree d ∙ ap length (h_graph.outside d b);
  }

  queue_IsNext :
      (result queue : List ℕ) (indegree : ℕ → ℕ) (c : ℕ)
      → IsBalanced g (ledger_of result [] (c ∷ queue) indegree)
      → IsNext g result c
  queue_IsNext result queue indegree c b = record {
    new = ground (arith, b.queued c, count-cons c c queue);
    low = ground (arith, b.queued c, count-cons c c queue);
    dependencies = λ k e. ground (
      arith,
      IsBalanced-ready g (ledger_of result [] (c ∷ queue) indegree) h_graph b c k
          (ground (arith, count-cons c c queue)) e
          (count-bound g.size k (g.dependencies c) (h_graph.linked.bound c) e),
    );
  }

  -- what the loop ends with
  abbrev Ended : Option (List ℕ) → Type 0
  Ended returned =
      (r : List ℕ) × (indegree : ℕ → ℕ) × (returned ≡ some r)
      × Follows g [] r
      × IsBalanced g (ledger_of r [] [] indegree)

  sort_loop-Ended :
      (fuel : ℕ) (result queue : List ℕ) (indegree : ℕ → ℕ)
      → length result + fuel ≡ g.size
      → Follows g [] result
      → IsBalanced g (ledger_of result [] queue indegree)
      → Ended (sort_loop fuel g result queue indegree)
  unfolding sort_loop
  sort_loop-Ended fuel result [] indegree e f b = (result, indegree, refl, f, b)
  sort_loop-Ended zero result (c ∷ queue) indegree e f b =
      let next : IsNext g result c = queue_IsNext result queue indegree c b in
      let whole : IsOrder g result = record { follows = f; complete = omega arith } in
      absurd (omega (arith, IsOrder-has g result whole c next.low, next.new))
  sort_loop-Ended (suc fuel) result (c ∷ queue) indegree e f b =
      let next : IsNext g result c = queue_IsNext result queue indegree c b in
      let s : Sorting =
        reduce_indegrees (g.dependents c) (record { queue = queue; indegree = indegree }) in
      sort_loop-Ended fuel (result ++ (c ∷ [])) s.queue s.indegree
        (omega (arith, length-append result (c ∷ []))) (Follows-append g [] result c f next)
        (reduce_indegrees-IsBalanced g (result ++ (c ∷ [])) (g.dependents c)
          (record { queue = queue; indegree = indegree })
          (IsBalanced-finish g (ledger_of result [] (c ∷ queue) indegree)
            (ledger_of (result ++ (c ∷ [])) (g.dependents c) queue indegree) c
            (pop_one g result queue indegree c) b))

  -- Where nothing is ready, every step of an order is in the result.
  ordered_ended :
      (r : List ℕ) (indegree : ℕ → ℕ) (seen l : List ℕ)
      → IsBalanced g (ledger_of r [] [] indegree)
      → Follows g seen l
      → ((k : ℕ) → 0 < count k seen → 0 < count k r)
      → (k : ℕ) → 0 < count k (seen ++ l)
      → 0 < count k r
  ordered_ended r indegree seen [] b f h k c =
      h k (omega (arith, count-append k seen [], count-nil k))
  ordered_ended r indegree seen (x ∷ l) b (n, f) h k c =
      let idle : count x [] + one (ltb 0 (count x r)) ≡ 1 =
        IsBalanced-idle g (ledger_of r [] [] indegree) h_graph b x n.low (count-nil x)
          (λ j e. let more : 0 < count j r = h j (n.dependencies j e) in ground arith) in
      let found : 0 < count x r = ground (arith, count-nil x) in
      ordered_ended r indegree (seen ++ (x ∷ [])) l b f
        (λ j e. elim (Bool-cases (x == j)) [
          | inl q ↦ let same : x ≡ j = ground arith in rw same at found
          | inr q ↦ h j (ground (arith, count-append j seen (x ∷ []), count-one j x))
        ])
        k (rw (sym (append_assoc seen (x ∷ []) l)) at c)

  ended_IsOrder :
      (r : List ℕ) (indegree : ℕ → ℕ) (order : List ℕ)
      → IsBalanced g (ledger_of r [] [] indegree)
      → Follows g [] r
      → IsOrder g order
      → length r ≡ g.size
  ended_IsOrder r indegree order b f o =
      let once : (k : ℕ) → k < g.size → count k r ≡ 1 = λ k low. omega (
        arith,
        ordered_ended r indegree [] order b o.follows (λ j e. absurd (omega (arith, count-nil j))) k
            (omega (arith, IsOrder-has g order o k low)),
        Follows-once g [] r k f (omega (arith, count-nil k)),
        count-nil k,
      ) in
      omega
        (arith, sum-count g.size r (Follows-bound g [] r f), sum-ones g.size (λ k. count k r) once)

  accept_order-Sorts :
      (r : List ℕ) (indegree : ℕ → ℕ)
      → Follows g [] r
      → IsBalanced g (ledger_of r [] [] indegree)
      → Sorts g (accept_order g r)
  unfolding accept_order
  accept_order-Sorts r indegree f b = elim (Bool-cases (length r == g.size)) [
    | inl e ↦ rw e (inl (record { follows = f; complete = ground arith }))
    | inr e ↦
        rw e (inr (refl, λ other o. absurd (ground (arith, ended_IsOrder r indegree other b f o))))
  ]

-- The sort ends, within as many rounds as there are steps. It returns an order of all the steps in
-- which each is behind its dependencies, or no steps at all, and then there is no such order.
pub topological_sort-Sorts :
    (g : Graph) → IsGraph g → (order : List ℕ) × (topological_sort g ≡ some order) × Sorts g order
unfolding topological_sort
topological_sort-Sorts g h =
    let (r, indegree, e, f, b) =
      sort_loop-Ended g h g.size [] (initially_ready g.indegree 0 g.size) g.indegree (omega arith)
        tt (starts_IsBalanced g h) in
    (accept_order g r, ap (accepted g) e, accept_order-Sorts g h r indegree f b)
