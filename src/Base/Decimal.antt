-- ===== src/Base/Decimal.antt =====
-- std::to_string of a natural number, and what `read_digits` makes of it.
use Prim.Native.Nat.{ℕ, zero, suc, ◌+◌, ◌/◌, ◌%◌, ◌<◌}
use mathlib.Core.Path.{◌≡◌, ◌∙◌, ap}
use mathlib.Core.Bool.{true}
use mathlib.Core.List.{[], ◌∷◌}
use mathlib.Core.Logic.{inl, inr}
use native.Mathlib.Omega.{arith}
use cppup.Base.Tests.{ltb, if◌then◌else◌, Bool-cases}
use cppup.Base.Lists.{All}
use cppup.Base.Strings.{Bytes}
use cppup.Base.Number.{is_digit, read_digits}

-- the digits of `n` in front of `rest`; the fuel is more than `n`
unfoldable pub put_digits : ℕ → ℕ → Bytes → Bytes
put_digits zero n rest = rest
put_digits (suc fuel) n rest =
    let higher = put_digits fuel (n / 10) ((48 + n % 10) ∷ rest) in
    if ltb n 10 then (48 + n) ∷ rest else higher

unfoldable pub to_string : ℕ → Bytes
to_string n = put_digits (suc n) n []

pub read_digits-put_digits :
    (fuel n : ℕ) (rest : Bytes)
    → n < fuel
    → read_digits 0 (put_digits fuel n rest) ≡ read_digits n rest
unfolding put_digits read_digits
read_digits-put_digits zero n rest h = absurd (omega arith)
read_digits-put_digits (suc fuel) n rest h = elim (Bool-cases (ltb n 10)) [
  | inl small ↦ rw small (
      let d : is_digit (48 + n) ≡ true = ground arith in
      rw d (ap (λ k. read_digits k rest) (ground arith)))
  | inr large ↦ rw large (
      read_digits-put_digits fuel (n / 10) ((48 + n % 10) ∷ rest) (ground arith)
      ∙ (let d : is_digit (48 + n % 10) ≡ true = ground arith in
          rw d (ap (λ k. read_digits k rest) (omega arith))))
]

All-put_digits :
    (fuel n : ℕ) (rest : Bytes)
    → All (λ c. is_digit c ≡ true) rest
    → All (λ c. is_digit c ≡ true) (put_digits fuel n rest)
unfolding put_digits
All-put_digits zero n rest h = h
All-put_digits (suc fuel) n rest h = elim (Bool-cases (ltb n 10)) [
  | inl small ↦ rw small (ground arith, h)
  | inr large ↦ rw large (All-put_digits fuel (n / 10) ((48 + n % 10) ∷ rest) (ground arith, h))
]
