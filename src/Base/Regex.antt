-- ===== src/Base/Regex.antt =====
-- The regular expressions of `std::regex`, with `std::regex_match` by derivatives.
use Prim.Native.Nat.{ℕ, zero, suc}
use mathlib.Core.Path.{◌≡◌, refl, ◌∙◌, sym}
use mathlib.Core.Bool.{Bool, true, false, ◌&&◌, ◌||◌}
use mathlib.Core.List.{[], ◌∷◌, ◌++◌}
use mathlib.Core.Logic.{inl, inr}
use native.Mathlib.Omega.{arith}
use cppup.Base.Tests.{◌==◌, if◌then◌else◌, Bool-cases}
use cppup.Base.Lists.{All, length}
use cppup.Base.Strings.{Bytes}

pub data Regex : Type 0 where
  nothing empty : Regex
  one : (ℕ → Bool) → Regex
  seq alt : Regex → Regex → Regex
  star : Regex → Regex

-- a literal text in front of `rest`, r+, r? and r{n}
abbrev pub literal : Bytes → Regex → Regex
literal [] rest = rest
literal (c ∷ s) rest = seq (one (λ d. d == c)) (literal s rest)

abbrev pub plus : Regex → Regex
plus r = seq r (star r)

abbrev pub maybe : Regex → Regex
maybe r = alt empty r

abbrev pub times : ℕ → Regex → Regex
times zero r = empty
times (suc n) r = seq r (times n r)

unfoldable pub accepts_empty : Regex → Bool
accepts_empty nothing = false
accepts_empty empty = true
accepts_empty (one p) = false
accepts_empty (seq r s) = accepts_empty r && accepts_empty s
accepts_empty (alt r s) = accepts_empty r || accepts_empty s
accepts_empty (star r) = true

-- what is left to match behind a byte
unfoldable pub derivative : ℕ → Regex → Regex
derivative c nothing = nothing
derivative c empty = nothing
derivative c (one p) = if p c then empty else nothing
derivative c (seq r s) =
    let left = seq (derivative c r) s in if accepts_empty r then alt left (derivative c s) else left
derivative c (alt r s) = alt (derivative c r) (derivative c s)
derivative c (star r) = seq (derivative c r) (star r)

unfoldable pub regex_match : Bytes → Regex → Bool
regex_match [] r = accepts_empty r
regex_match (c ∷ s) r = regex_match s (derivative c r)

pub match-nothing : (s : Bytes) → regex_match s nothing ≡ false
unfolding regex_match accepts_empty derivative
match-nothing [] = refl
match-nothing (c ∷ s) = match-nothing s

pub match-alt :
    (s : Bytes) (q r : Regex) → regex_match s (alt q r) ≡ (regex_match s q || regex_match s r)
unfolding regex_match accepts_empty derivative
match-alt [] q r = refl
match-alt (c ∷ s) q r = match-alt s (derivative c q) (derivative c r)

match-seq_nothing : (s : Bytes) (r : Regex) → regex_match s (seq nothing r) ≡ false
unfolding regex_match accepts_empty derivative
match-seq_nothing [] r = refl
match-seq_nothing (c ∷ s) r = match-seq_nothing s r

match-seq_empty : (s : Bytes) (r : Regex) → regex_match s (seq empty r) ≡ regex_match s r
unfolding regex_match accepts_empty derivative
match-seq_empty [] r = refl
match-seq_empty (c ∷ s) r =
    match-alt s (seq nothing r) (derivative c r) ∙ ground (arith, match-seq_nothing s r)

-- a class in front takes one byte
pub match-one_seq :
    (p : ℕ → Bool) (c : ℕ) (s : Bytes) (r : Regex)
    → regex_match (c ∷ s) (seq (one p) r) ≡ (p c && regex_match s r)
unfolding regex_match accepts_empty derivative
match-one_seq p c s r = elim (Bool-cases (p c)) [
  | inl h ↦ rw h (match-seq_empty s r)
  | inr h ↦ rw h (match-seq_nothing s r)
]

-- the texts of a repeated class
pub match-star_one :
    (p : ℕ → Bool) (s : Bytes) → regex_match s (star (one p)) ≡ true → All (λ c. p c ≡ true) s
unfolding regex_match derivative
match-star_one p [] h = tt
match-star_one p (c ∷ s) h = elim (Bool-cases (p c)) [
  | inl e ↦ (e, match-star_one p s (sym (match-seq_empty s (star (one p))) ∙ (rw e at h)))
  | inr e ↦
      absurd (let bad = match-seq_nothing s (star (one p)) in let h' = rw e at h in ground arith)
]

pub match-times :
    (n : ℕ) (p : ℕ → Bool) (s : Bytes)
    → regex_match s (times n (one p)) ≡ true
    → (length s ≡ n) × All (λ c. p c ≡ true) s
unfolding regex_match accepts_empty derivative
match-times zero p [] h = (refl, tt)
match-times zero p (c ∷ s) h = absurd (let bad = match-nothing s in cc)
match-times (suc n) p [] h = absurd (cc)
match-times (suc n) p (c ∷ s) h =
    let both : (p c && regex_match s (times n (one p))) ≡ true =
      sym (match-one_seq p c s (times n (one p))) ∙ h in
    let (l, a) = match-times n p s (ground arith) in (ground arith, (ground arith, a))

pub match-literal :
    (t s : Bytes) (r : Regex)
    → regex_match s (literal t r) ≡ true
    → (u : Bytes) × (s ≡ t ++ u) × (regex_match u r ≡ true)
unfolding regex_match accepts_empty
match-literal [] s r h = (s, refl, h)
match-literal (c ∷ t) [] r h = absurd (cc)
match-literal (c ∷ t) (d ∷ s) r h =
    let both : (d == c && regex_match s (literal t r)) ≡ true =
      sym (match-one_seq (λ d. d == c) d s (literal t r)) ∙ h in
    let (u, e, m) = match-literal t s r (ground arith) in
    let same : d ≡ c = ground arith in (u, rw (same, e) refl, m)
