-- ===== src/Base/Parts.antt =====
-- The parts of a text that the parts of a regular expression match.
use Prim.Native.Nat.{ℕ, zero, suc, ◌+◌, ◌≤◌}
use mathlib.Core.Path.{◌≡◌, refl, ◌∙◌, sym, ap}
use mathlib.Core.Bool.{Bool, true, ◌&&◌}
use mathlib.Core.List.{[], ◌∷◌, ◌++◌}
use mathlib.Core.Logic.{◌⊎◌, inl, inr}
use native.Mathlib.Omega.{arith}
use cppup.Base.Tests.{◌==◌, Bool-cases}
use cppup.Base.Lists.{All, length, length-append}
use cppup.Base.Strings.{Bytes}
use cppup.Base.Regex.{
  Regex, empty, one, seq, alt, star, plus, maybe, accepts_empty, derivative, regex_match,
  match-nothing, match-alt, match-one_seq, match-star_one,
}

-- A text in two parts, one for each expression.
pub record Parted (q r : Regex) (s : Bytes) : Type 0 where
  pub left : Bytes
  pub right : Bytes
  pub text : s ≡ left ++ right
  pub matches_left : regex_match left q ≡ true
  pub matches_right : regex_match right r ≡ true

one_further : (c : ℕ) (q r : Regex) (s : Bytes) → Parted (derivative c q) r s → Parted q r (c ∷ s)
unfolding regex_match
one_further c q r s p = record {
  left = c ∷ p.left;
  right = p.right;
  text = ap (◌∷◌ c) p.text;
  matches_left = p.matches_left;
  matches_right = p.matches_right;
}

pub match-seq : (q r : Regex) (s : Bytes) → regex_match s (seq q r) ≡ true → Parted q r s
unfolding regex_match accepts_empty derivative
match-seq q r [] h = record {
  left = [];
  right = [];
  text = refl;
  matches_left = ground arith;
  matches_right = ground arith;
}
match-seq q r (c ∷ s) h = elim (Bool-cases (accepts_empty q)) [
  | inl e ↦
      let h' : regex_match s (alt (seq (derivative c q) r) (derivative c r)) ≡ true = rw e at h in
      elim (Bool-cases (regex_match s (seq (derivative c q) r))) [
        | inl d ↦ one_further c q r s (match-seq (derivative c q) r s d)
        | inr d ↦ record {
          left = [];
          right = c ∷ s;
          text = refl;
          matches_left = e;
          matches_right = ground (arith, match-alt s (seq (derivative c q) r) (derivative c r));
        }
      ]
  | inr e ↦
      let h' : regex_match s (seq (derivative c q) r) ≡ true = rw e at h in
      one_further c q r s (match-seq (derivative c q) r s h')
]

pub match-empty : (s : Bytes) → regex_match s empty ≡ true → s ≡ []
unfolding regex_match derivative
match-empty [] h = refl
match-empty (c ∷ s) h = absurd (let bad = match-nothing s in cc)

-- either of two alternatives
pub match-either :
    (q r : Regex) (s : Bytes)
    → regex_match s (alt q r) ≡ true
    → (regex_match s q ≡ true) ⊎ (regex_match s r ≡ true)
match-either q r s h = elim (Bool-cases (regex_match s q)) [
  | inl e ↦ inl e
  | inr e ↦ inr (ground (arith, match-alt s q r))
]

pub match-maybe :
    (r : Regex) (s : Bytes) → regex_match s (maybe r) ≡ true → (s ≡ []) ⊎ (regex_match s r ≡ true)
match-maybe r s h = elim (match-either empty r s h) [
  | inl e ↦ inl (match-empty s e)
  | inr e ↦ inr e
]

-- A byte of a class in front of what is matched by the rest.
pub record Headed (p : ℕ → Bool) (r : Regex) (s : Bytes) : Type 0 where
  pub byte : ℕ
  pub rest : Bytes
  pub text : s ≡ byte ∷ rest
  pub holds : p byte ≡ true
  pub matches : regex_match rest r ≡ true

pub match-Headed :
    (p : ℕ → Bool) (r : Regex) (s : Bytes) → regex_match s (seq (one p) r) ≡ true → Headed p r s
unfolding regex_match accepts_empty
match-Headed p r [] h = absurd (cc)
match-Headed p r (c ∷ s) h =
    let both : (p c && regex_match s r) ≡ true = sym (match-one_seq p c s r) ∙ h in
    record { byte = c; rest = s; text = refl; holds = ground arith; matches = ground arith }

-- the one byte of a class
pub match-one :
    (p : ℕ → Bool) (s : Bytes)
    → regex_match s (one p) ≡ true
    → (c : ℕ) × (s ≡ c ∷ []) × (p c ≡ true)
unfolding regex_match accepts_empty derivative
match-one p [] h = absurd (cc)
match-one p (c ∷ s) h = elim (Bool-cases (p c)) [
  | inl e ↦ let h' : regex_match s empty ≡ true = rw e at h in (c, ap (◌∷◌ c) (match-empty s h'), e)
  | inr e ↦ absurd (let bad = match-nothing s in let h' = rw e at h in ground arith)
]

-- A text that is not empty, all of one class.
pub record IsRun (p : ℕ → Bool) (s : Bytes) : Type 0 where
  pub some_byte : 1 ≤ length s
  pub holds : All (λ c. p c ≡ true) s

pub match-plus : (p : ℕ → Bool) (s : Bytes) → regex_match s (plus (one p)) ≡ true → IsRun p s
match-plus p s h =
    let m = match-Headed p (star (one p)) s h in
    rw m.text
      (record { some_byte = omega arith; holds = (m.holds, match-star_one p m.rest m.matches) })

-- So many digits, or bytes of another class, and a separator in front of the rest.
pub record Field (q : Regex) (c : ℕ) (r : Regex) (s : Bytes) : Type 0 where
  pub left : Bytes
  pub right : Bytes
  pub text : s ≡ left ++ (c ∷ right)
  pub matches_left : regex_match left q ≡ true
  pub matches_right : regex_match right r ≡ true

pub match-Field :
    (q : Regex) (c : ℕ) (r : Regex) (s : Bytes)
    → regex_match s (seq q (seq (one (λ d. d == c)) r)) ≡ true
    → Field q c r s
match-Field q c r s h =
    let p = match-seq q (seq (one (λ d. d == c)) r) s h in
    let m = match-Headed (λ d. d == c) r p.right p.matches_right in
    let found = m.holds in
    let same : m.byte ≡ c = ground arith in
    record {
      left = p.left;
      right = m.rest;
      text = p.text ∙ ap (◌++◌ p.left) (m.text ∙ ap (λ d. d ∷ m.rest) same);
      matches_left = p.matches_left;
      matches_right = m.matches;
    }

-- Parts one behind the other, each of which the expression matches.
pub data Repeats (r : Regex) : Bytes → Type 0 where
  no_more : Repeats r []
  one_more : (t u : Bytes) → regex_match t r ≡ true → Repeats r u → Repeats r (t ++ u)

length-part : (s t u : Bytes) (n : ℕ) → s ≡ t ++ u → length s ≤ n → length u ≤ n
length-part s t u n e h =
    let l : length s ≡ length t + length u = ap length e ∙ length-append t u in omega arith

Repeats-within :
    (n : ℕ) (r : Regex) (s : Bytes) → length s ≤ n → regex_match s (star r) ≡ true → Repeats r s
unfolding regex_match derivative
Repeats-within n r [] l h = no_more
Repeats-within zero r (c ∷ s) l h = absurd (omega arith)
Repeats-within (suc n) r (c ∷ s) l h =
    let p = match-seq (derivative c r) (star r) s h in
    rw p.text (
      one_more (c ∷ p.left) p.right p.matches_left (
        Repeats-within n r p.right (length-part s p.left p.right n p.text (omega arith))
          p.matches_right))

pub match-star : (r : Regex) (s : Bytes) → regex_match s (star r) ≡ true → Repeats r s
match-star r s h = Repeats-within (length s) r s (omega arith) h
