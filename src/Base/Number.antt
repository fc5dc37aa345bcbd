-- ===== src/Base/Number.antt =====
-- `int` values and `std::stoi`, over the native numbers.
use Prim.Native.Nat.{ℕ, zero, suc, ◌+◌, ◌-◌, ◌*◌, ◌^◌}
use mathlib.Core.Bool.{Bool, true, false, ◌&&◌, ◌||◌}
use mathlib.Core.List.{[], ◌∷◌}
use mathlib.Core.Option.{Option, none, some}
use cppup.Base.Tests.{ltb, leb, ◌==◌, if◌then◌else◌}
use cppup.Base.Strings.{Bytes}

-- `negsuc n` is -(n + 1).
pub data ℤ : Type 0 where
  pos : ℕ → ℤ
  negsuc : ℕ → ℤ

abbrev pub negate : ℕ → ℤ
negate zero = pos 0
negate (suc n) = negsuc n

abbrev pub is_digit : ℕ → Bool
is_digit c = leb b'0' c && leb c b'9'

-- isspace in the "C" locale
abbrev pub is_space : ℕ → Bool
is_space c = c == 32 || (leb 9 c && leb c 13)

unfoldable pub skip_spaces : Bytes → Bytes
skip_spaces [] = []
skip_spaces (c ∷ s) = let rest = skip_spaces s in if is_space c then rest else c ∷ s

-- the value of the digits that stand at the front, behind those of `n`
unfoldable pub read_digits : ℕ → Bytes → ℕ
read_digits n [] = n
read_digits n (c ∷ s) =
    let rest = read_digits (n * 10 + (c - b'0')) s in if is_digit c then rest else n

-- `std::invalid_argument` where there is no digit
unfoldable pub magnitude : Bytes → Option ℕ
unfolding read_digits
magnitude [] = none
magnitude (c ∷ s) = if is_digit c then some (read_digits 0 (c ∷ s)) else none

-- `std::out_of_range` beyond the 32 bits of an `int`
unfoldable pub in_range : Bool → Option ℕ → Option ℤ
in_range negative none = none
in_range true (some n) = if leb n (2 ^ 31) then some (negate n) else none
in_range false (some n) = if ltb n (2 ^ 31) then some (pos n) else none

unfoldable pub signed : Bytes → Option ℤ
unfolding magnitude in_range
signed [] = none
signed (c ∷ s) =
    if c == b'-'
    then in_range true (magnitude s)
    else if c == b'+'
    then in_range false (magnitude s)
    else in_range false (magnitude (c ∷ s))

-- std::stoi; `none` stands for the exception
unfoldable pub stoi : Bytes → Option ℤ
unfolding skip_spaces signed
stoi s = signed (skip_spaces s)

-- operator== of `int`
unfoldable pub eq_int : ℤ → ℤ → Bool
eq_int (pos a) (pos b) = a == b
eq_int (pos a) (negsuc b) = false
eq_int (negsuc a) (pos b) = false
eq_int (negsuc a) (negsuc b) = a == b
