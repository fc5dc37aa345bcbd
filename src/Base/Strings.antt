-- ===== src/Base/Strings.antt =====
-- `std::string` and `std::string_view` as lists of bytes, with the tests that the program makes.
use Prim.Native.Nat.{ℕ}
use Prim.Native.Char.{code}
use Prim.Native.String.{String}
use mathlib.Core.Path.{◌≡◌, refl}
use mathlib.Core.Logic.{◌↔◌, ◌≢◌}
use mathlib.Core.Bool.{Bool, true, false, ◌&&◌}
use mathlib.Core.List.{List, [], ◌∷◌}
use native.Mathlib.Omega.{arith}
use cppup.Base.Tests.{ltb, ◌==◌, if◌then◌else◌}
use cppup.Base.Lists.{All}

abbrev pub Bytes : Type 0
Bytes = List ℕ

-- The code points of a literal: its bytes, since every literal of the program is ASCII.
abbrev pub codes : String → Bytes
codes String.[] = []
codes (String.◌∷◌ c s) = code c ∷ codes s

-- text.empty()
abbrev pub is_empty {ℓ} : {A : Type ℓ} → List A → Bool
is_empty [] = true
is_empty (x ∷ xs) = false

-- operator== of strings
unfoldable pub eqb : Bytes → Bytes → Bool
eqb [] [] = true
eqb [] (d ∷ t) = false
eqb (c ∷ s) [] = false
eqb (c ∷ s) (d ∷ t) = c == d && eqb s t

eq_of_eqb : (s t : Bytes) → eqb s t ≡ true → s ≡ t
unfolding eqb
eq_of_eqb [] [] h = refl
eq_of_eqb [] (d ∷ t) h = ground arith
eq_of_eqb (c ∷ s) [] h = ground arith
eq_of_eqb (c ∷ s) (d ∷ t) h = ground (arith, eq_of_eqb s t)

pub eqb_refl : (s : Bytes) → eqb s s ≡ true
unfolding eqb
eqb_refl [] = refl
eqb_refl (c ∷ s) = ground (arith, eqb_refl s)

pub eqb_iff : (s t : Bytes) → (eqb s t ≡ true) ↔ (s ≡ t)
eqb_iff s t = (eq_of_eqb s t, λ e. rw e (eqb_refl t))

-- operator< of strings: lexicographic, by unsigned bytes.
unfoldable pub lt_bytes : Bytes → Bytes → Bool
lt_bytes s [] = false
lt_bytes [] (d ∷ t) = true
lt_bytes (c ∷ s) (d ∷ t) = let rest = lt_bytes s t in if c == d then rest else ltb c d

-- text.starts_with(prefix)
unfoldable pub starts_with : Bytes → Bytes → Bool
starts_with s [] = true
starts_with [] (p ∷ prefix) = false
starts_with (c ∷ s) (p ∷ prefix) = c == p && starts_with s prefix

-- No byte of the text is `b`.
abbrev pub Lacks : ℕ → Bytes → Type 0
Lacks b = All (λ c. c ≢ b)

-- The order of the strings is strict, total and transitive.
pub lt_bytes_total : (s t : Bytes) → lt_bytes s t ≡ false → eqb s t ≡ false → lt_bytes t s ≡ true
unfolding lt_bytes eqb
lt_bytes_total [] [] h e = ground arith
lt_bytes_total [] (d ∷ t) h e = ground arith
lt_bytes_total (c ∷ s) [] h e = refl
lt_bytes_total (c ∷ s) (d ∷ t) h e = ground (arith, lt_bytes_total s t)

pub lt_bytes_trans :
    (s t u : Bytes) → lt_bytes s t ≡ true → lt_bytes t u ≡ true → lt_bytes s u ≡ true
unfolding lt_bytes
lt_bytes_trans s t [] h k = ground arith
lt_bytes_trans s [] (e ∷ u) h k = ground arith
lt_bytes_trans [] (d ∷ t) (e ∷ u) h k = refl
lt_bytes_trans (c ∷ s) (d ∷ t) (e ∷ u) h k = ground (arith, lt_bytes_trans s t u)

pub lt_bytes_asymm : (s t : Bytes) → lt_bytes s t ≡ true → lt_bytes t s ≡ false
unfolding lt_bytes
lt_bytes_asymm s [] h = ground arith
lt_bytes_asymm [] (d ∷ t) h = refl
lt_bytes_asymm (c ∷ s) (d ∷ t) h = ground (arith, lt_bytes_asymm s t)
