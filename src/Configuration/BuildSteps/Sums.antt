-- ===== src/Configuration/BuildSteps/Sums.antt =====
-- Sums over the indices of the steps, and the occurrences of an index in a list.
use cppup.Base.{
  ℕ, zero, suc, ◌+◌, ◌≤◌, ◌<◌, List, [], ◌∷◌, ◌++◌, ◌≡◌, ◌≢◌, refl, arith, ◌==◌, length, All,
  if◌then◌else◌, inl, inr, Bool-cases,
}

-- f 0 + … + f (n - 1)
unfoldable pub sum_upto : ℕ → (ℕ → ℕ) → ℕ
sum_upto zero f = 0
sum_upto (suc n) f = sum_upto n f + f n

unfoldable pub count : ℕ → List ℕ → ℕ
count k [] = 0
count k (x ∷ l) = (if x == k then 1 else 0) + count k l

pub count-append : (k : ℕ) (a b : List ℕ) → count k (a ++ b) ≡ count k a + count k b
unfolding count
count-append k [] b = omega arith
count-append k (x ∷ a) b = omega (arith, count-append k a b)

pub count-one : (k x : ℕ) → count k (x ∷ []) ≡ (if x == k then 1 else 0)
unfolding count
count-one k x = omega arith

pub count-cons : (k x : ℕ) (l : List ℕ) → count k (x ∷ l) ≡ (if x == k then 1 else 0) + count k l
unfolding count
count-cons k x l = refl

pub sum-same : (n : ℕ) (f g : ℕ → ℕ) → ((k : ℕ) → k < n → f k ≡ g k) → sum_upto n f ≡ sum_upto n g
unfolding sum_upto
sum-same zero f g h = refl
sum-same (suc n) f g h = omega (arith, sum-same n f g (λ k b. h k (omega arith)), h n (omega arith))

-- One summand gives up `a`.
pub sum-less :
    (n j a : ℕ) (f g : ℕ → ℕ)
    → j < n
    → g j + a ≡ f j
    → ((k : ℕ) → k ≢ j → g k ≡ f k)
    → sum_upto n g + a ≡ sum_upto n f
unfolding sum_upto
sum-less zero j a f g b e h = absurd (omega arith)
sum-less (suc n) j a f g b e h = elim (Bool-cases (j == n)) [
  | inl q ↦
      let same : j ≡ n = ground arith in
      let rest : sum_upto n g ≡ sum_upto n f =
        sum-same n g f (λ k l. h k (λ r. absurd (omega arith))) in
      let last : g n + a ≡ f n = rw same at e in omega arith
  | inr q ↦
      let low : j < n = ground arith in
      let last : g n ≡ f n = h n (λ r. absurd (ground arith)) in
      omega (arith, sum-less n j a f g low e h)
]

pub le-sum : (n j : ℕ) (f : ℕ → ℕ) → j < n → f j ≤ sum_upto n f
unfolding sum_upto
le-sum zero j f b = absurd (omega arith)
le-sum (suc n) j f b = elim (Bool-cases (j == n)) [
  | inl q ↦ let same : j ≡ n = ground arith in rw same (omega arith)
  | inr q ↦ let low : j < n = ground arith in omega (arith, le-sum n j f low)
]

pub sum-zero : (n : ℕ) (f : ℕ → ℕ) → ((k : ℕ) → k < n → f k ≡ 0) → sum_upto n f ≡ 0
unfolding sum_upto
sum-zero zero f h = refl
sum-zero (suc n) f h = omega (arith, sum-zero n f (λ k b. h k (omega arith)), h n (omega arith))

pub sum-le : (n : ℕ) (f : ℕ → ℕ) → ((k : ℕ) → f k ≤ 1) → sum_upto n f ≤ n
unfolding sum_upto
sum-le zero f h = omega arith
sum-le (suc n) f h = omega (arith, sum-le n f h, h n)

-- Ones and zeros that add up to `n` are all ones.
pub sum-full : (n j : ℕ) (f : ℕ → ℕ) → ((k : ℕ) → f k ≤ 1) → n ≤ sum_upto n f → j < n → f j ≡ 1
unfolding sum_upto
sum-full zero j f h s b = absurd (omega arith)
sum-full (suc n) j f h s b = elim (Bool-cases (j == n)) [
  | inl q ↦ let same : j ≡ n = ground arith in rw same (omega (arith, sum-le n f h, h n))
  | inr q ↦ let low : j < n = ground arith in sum-full n j f h (omega (arith, h n)) low
]

sum-add : (n : ℕ) (f g : ℕ → ℕ) → sum_upto n (λ k. f k + g k) ≡ sum_upto n f + sum_upto n g
unfolding sum_upto
sum-add zero f g = refl
sum-add (suc n) f g = omega (arith, sum-add n f g)

sum-is : (n x : ℕ) → x < n → sum_upto n (λ k. if x == k then 1 else 0) ≡ 1
sum-is n x b =
    let off : sum_upto n (λ k. 0) ≡ 0 = sum-zero n (λ k. 0) (λ k l. refl) in
    let on : sum_upto n (λ k. 0) + 1 ≡ sum_upto n (λ k. if x == k then 1 else 0) =
      sum-less n x 1 (λ k. if x == k then 1 else 0) (λ k. 0) b (ground arith)
        (λ k l. ground arith) in
    omega arith

-- A list of indices is as long as the occurrences of the indices.
pub sum-count : (n : ℕ) (l : List ℕ) → All (λ k. k < n) l → sum_upto n (λ k. count k l) ≡ length l
unfolding count
sum-count n [] h = sum-zero n (λ k. 0) (λ k b. refl)
sum-count n (x ∷ l) (b, h) =
    let one : sum_upto n (λ k. (if x == k then 1 else 0) + count k l)
        ≡ sum_upto n (λ k. if x == k then 1 else 0) + sum_upto n (λ k. count k l) =
      sum-add n (λ k. if x == k then 1 else 0) (λ k. count k l) in
    omega (arith, one, sum-is n x b, sum-count n l h)

pub count-bound : (n k : ℕ) (l : List ℕ) → All (λ j. j < n) l → 0 < count k l → k < n
unfolding count
count-bound n k [] h c = absurd (omega arith)
count-bound n k (x ∷ l) (b, h) c = ground (arith, count-bound n k l h)

pub count-nil : (k : ℕ) → count k [] ≡ 0
unfolding count
count-nil k = refl

pub sum-ones : (n : ℕ) (f : ℕ → ℕ) → ((k : ℕ) → k < n → f k ≡ 1) → sum_upto n f ≡ n
unfolding sum_upto
sum-ones zero f h = refl
sum-ones (suc n) f h = omega (arith, sum-ones n f (λ k b. h k (omega arith)), h n (omega arith))
