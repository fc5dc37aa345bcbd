-- ===== src/Plugin/Manifest/Grammar.antt =====
-- The texts that a manifest can have as its version, as the versions of the host that it fits, and as
-- its date, told by their parts. Only the form counts: a number can begin with a zero, and a date need
-- not be one of the calendar.
use cppup.Base.{ℕ, true, ◌≡◌, ◌⊎◌, [], ◌∷◌, ◌++◌, All, length, Bytes, codes, is_digit, is_space}
use cppup.Base.Parts.{IsRun}
use cppup.Plugin.Manifest.Formats.{is_tag}

-- A separator and a tag behind it, or neither.
abbrev pub IsTag : ℕ → Bytes → Type 0
IsTag sep t = (t ≡ []) ⊎ ((u : Bytes) × (t ≡ sep ∷ u) × IsRun is_tag u)

-- Three numbers with dots between them, then `-` and a tag or not, then `+` and a tag or not.
pub record IsVersion (v : Bytes) : Type 0 where
  pub major : Bytes
  pub minor : Bytes
  pub patch : Bytes
  pub pre : Bytes
  pub build : Bytes
  pub text : v ≡ major ++ (b'.' ∷ (minor ++ (b'.' ∷ (patch ++ (pre ++ build)))))
  pub is_major : IsRun is_digit major
  pub is_minor : IsRun is_digit minor
  pub is_patch : IsRun is_digit patch
  pub is_pre : IsTag b'-' pre
  pub is_build : IsTag b'+' build

-- How a version is compared.
pub data IsOperator : Bytes → Type 0 where
  equal : IsOperator []
  less : IsOperator (codes "<")
  less_or_equal : IsOperator (codes "<=")
  greater : IsOperator (codes ">")
  greater_or_equal : IsOperator (codes ">=")
  compatible : IsOperator (codes "^")
  close : IsOperator (codes "~")
  exactly : IsOperator (codes "=")

abbrev IsBlank : Bytes → Type 0
IsBlank = All (λ c. is_space c ≡ true)

-- An operator and a version, with spaces around them.
pub record IsBound (t : Bytes) : Type 0 where
  pub before : Bytes
  pub operator : Bytes
  pub between : Bytes
  pub version : Bytes
  pub behind : Bytes
  pub text : t ≡ before ++ (operator ++ (between ++ (version ++ behind)))
  pub is_operator : IsOperator operator
  pub is_version : IsVersion version
  pub is_blank : IsBlank before × IsBlank between × IsBlank behind

-- A comma and a bound, so often as it likes.
pub data IsBounds : Bytes → Type 0 where
  no_bound : IsBounds []
  comma : (t u : Bytes) → IsBound t → IsBounds u → IsBounds (b',' ∷ (t ++ u))

pub record IsRange (s : Bytes) : Type 0 where
  pub first : Bytes
  pub others : Bytes
  pub text : s ≡ first ++ others
  pub is_first : IsBound first
  pub are_bounds : IsBounds others

abbrev pub IsDigits : ℕ → Bytes → Type 0
IsDigits n s = (length s ≡ n) × All (λ c. is_digit c ≡ true) s

abbrev pub IsFraction : Bytes → Type 0
IsFraction t = (t ≡ []) ⊎ ((u : Bytes) × (t ≡ b'.' ∷ u) × IsRun is_digit u)

-- `Z`, or a sign and hours and minutes.
pub record IsOffset (t : Bytes) : Type 0 where
  pub sign : ℕ
  pub hours : Bytes
  pub minutes : Bytes
  pub text : t ≡ sign ∷ (hours ++ (b':' ∷ minutes))
  pub is_sign : (sign ≡ b'+') ⊎ (sign ≡ b'-')
  pub is_hours : IsDigits 2 hours
  pub is_minutes : IsDigits 2 minutes

-- A date, a `T` and a time with its zone, in the form of RFC 3339.
pub record IsDate (s : Bytes) : Type 0 where
  pub year : Bytes
  pub month : Bytes
  pub day : Bytes
  pub hour : Bytes
  pub minute : Bytes
  pub second : Bytes
  pub fraction : Bytes
  pub zone : Bytes
  pub text :
      s
      ≡ year
        ++ (b'-'
            ∷ (month
                ++ (b'-'
                    ∷ (day
                        ++ (b'T'
                            ∷ (hour
                                ++ (b':'
                                    ∷ (minute ++ (b':' ∷ (second ++ (fraction ++ zone)))))))))))
  pub is_year : IsDigits 4 year
  pub is_month : IsDigits 2 month
  pub is_day : IsDigits 2 day
  pub is_hour : IsDigits 2 hour
  pub is_minute : IsDigits 2 minute
  pub is_second : IsDigits 2 second
  pub is_fraction : IsFraction fraction
  pub is_zone : (zone ≡ codes "Z") ⊎ IsOffset zone
