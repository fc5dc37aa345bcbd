-- ===== src/Configuration/CompileCommands/Json.antt =====
-- The tokens of a JSON text (RFC 8259) without numbers and names, read byte by byte. A string is given
-- as the bytes of its UTF-8: an escape with a code point as those that encode it, a byte from 128 on as
-- it stands, without a test that the bytes around it are UTF-8. Escaped surrogates are not read.
use cppup.Base.{
  ℕ, ◌+◌, ◌-◌, ◌*◌, ◌<◌, Bool, true, false, ◌&&◌, ◌||◌, List, [], ◌∷◌, ◌++◌, ◌≡◌, refl, ap, ◌∙◌,
  arith, append_assoc, append-nil, Option, none, some, Bytes, codes, if◌then◌else◌, ltb, leb, ◌==◌,
  is_digit, Bool-cases, inl, inr,
}
use Prim.Native.Nat.{◌/◌, ◌%◌}
use cppup.Configuration.CompileCommands.{hex_digit, escape_byte, json_escape}

pub data Token : Type 0 where
  punctuation : ℕ → Token
  text : Bytes → Token

pub data Mode : Type 0 where
  between : Mode
  -- with the bytes of the string so far
  quoted escaped : Bytes → Mode
  -- and of \uXXXX the digits so far and their value
  point : Bytes → ℕ → ℕ → Mode

abbrev is_space : ℕ → Bool
is_space c = c == 32 || (c == 10 || (c == 13 || c == 9))

abbrev is_punctuation : ℕ → Bool
is_punctuation c =
    c == b'[' || (c == b']' || (c == b'{' || (c == b'}' || (c == b',' || c == b':'))))

abbrev pub goes : Mode → Option (Mode × List Token)
goes m = some (m, [])

unfoldable pub read_escape : Bytes → ℕ → Option (Mode × List Token)
read_escape s c =
    if c == b'"' || c == b'\\' || c == b'/'
    then goes (quoted (s ++ (c ∷ [])))
    else if c == b'n'
    then goes (quoted (s ++ (10 ∷ [])))
    else if c == b'r'
    then goes (quoted (s ++ (13 ∷ [])))
    else if c == b't'
    then goes (quoted (s ++ (9 ∷ [])))
    else if c == b'b'
    then goes (quoted (s ++ (8 ∷ [])))
    else if c == b'f'
    then goes (quoted (s ++ (12 ∷ [])))
    else if c == b'u'
    then goes (point s 0 0)
    else none

unfoldable pub hex_value : ℕ → Option ℕ
hex_value c =
    if is_digit c
    then some (c - 48)
    else if leb b'a' c && leb c b'f'
    then some (c - 87)
    else if leb b'A' c && leb c b'F'
    then some (c - 55)
    else none

-- the bytes of a code point below 2 ^ 16 in UTF-8 (RFC 3629)
unfoldable pub utf8 : ℕ → Option Bytes
utf8 n =
    if ltb n 128
    then some (n ∷ [])
    else if ltb n 2048
    then some ((192 + n / 64) ∷ (128 + n % 64) ∷ [])
    else if leb 55296 n && ltb n 57344
    then none
    else some ((224 + n / 4096) ∷ (128 + n / 64 % 64) ∷ (128 + n % 64) ∷ [])

abbrev pub add_point : Bytes → Option Bytes → Option (Mode × List Token)
add_point s none = none
add_point s (some bytes) = goes (quoted (s ++ bytes))

unfoldable pub read_point : Bytes → ℕ → ℕ → Option ℕ → Option (Mode × List Token)
read_point s k n none = none
read_point s k n (some v) =
    if ltb k 3 then goes (point s (k + 1) (n * 16 + v)) else add_point s (utf8 (n * 16 + v))

unfoldable pub step : Mode → ℕ → Option (Mode × List Token)
step between c =
    if is_space c
    then goes between
    else if c == b'"'
    then goes (quoted [])
    else if is_punctuation c
    then some (between, punctuation c ∷ [])
    else none
step (quoted s) c =
    if c == b'"'
    then some (between, text s ∷ [])
    else if c == b'\\'
    then goes (escaped s)
    else if ltb c 32
    then none
    else goes (quoted (s ++ (c ∷ [])))
step (escaped s) c = read_escape s c
step (point s k n) c = read_point s k n (hex_value c)

abbrev pub prepend : List Token → Option (List Token) → Option (List Token)
prepend ts none = none
prepend ts (some rest) = some (ts ++ rest)

abbrev pub is_end : Mode → Option (List Token)
is_end between = some []
is_end _ = none

unfoldable pub tokens : Mode → Bytes → Option (List Token)
tokens m [] = is_end m
tokens m (c ∷ s) = elim (step m c) [ none ↦ none | some (m', ts) ↦ prepend ts (tokens m' s) ]

pub prepend-nil : (r : Option (List Token)) → prepend [] r ≡ r
prepend-nil none = refl
prepend-nil (some ts) = refl

-- one byte that adds nothing
tokens-goes :
    (m m' : Mode) (c : ℕ) (s : Bytes) → step m c ≡ goes m' → tokens m (c ∷ s) ≡ tokens m' s
unfolding tokens
tokens-goes m m' c s e = rw (e, tokens) (prepend-nil (tokens m' s))

hex_value-hex_digit : (n : ℕ) → n < 16 → hex_value (hex_digit n) ≡ some n
unfolding hex_value hex_digit
hex_value-hex_digit n h = ground arith

-- an escape of one letter
tokens-letter :
    (s : Bytes) (letter c : ℕ) (rest : Bytes)
    → read_escape s letter ≡ goes (quoted (s ++ (c ∷ [])))
    → tokens (quoted s) (b'\\' ∷ letter ∷ rest) ≡ tokens (quoted (s ++ (c ∷ []))) rest
unfolding step
tokens-letter s letter c rest e =
    tokens-goes (quoted s) (escaped s) b'\\' (letter ∷ rest) refl
    ∙ tokens-goes (escaped s) (quoted (s ++ (c ∷ []))) letter rest e

-- the escape of a control character
tokens-point :
    (s : Bytes) (c : ℕ) (rest : Bytes)
    → c < 32
    → tokens (quoted s) (codes "\\u00" ++ (hex_digit (c / 16) ∷ hex_digit (c % 16) ∷ rest))
      ≡ tokens (quoted (s ++ (c ∷ []))) rest
unfolding step read_escape read_point hex_value utf8
tokens-point s c rest h =
    let high : step (point s 2 0) (hex_digit (c / 16)) ≡ goes (point s 3 (0 * 16 + c / 16)) =
      ap (read_point s 2 0) (hex_value-hex_digit (c / 16) (omega arith)) in
    let low : step (point s 3 (0 * 16 + c / 16)) (hex_digit (c % 16))
        ≡ goes (quoted (s ++ (c ∷ []))) =
      ap (read_point s 3 (0 * 16 + c / 16)) (hex_value-hex_digit (c % 16) (omega arith))
      ∙ (let value : (0 * 16 + c / 16) * 16 + c % 16 ≡ c = omega arith in
          let small : ltb c 128 ≡ true = ground arith in rw (value, small) refl) in
    tokens-goes (quoted s) (escaped s) b'\\' _ refl
    ∙ (tokens-goes (escaped s) (point s 0 0) b'u' _ refl
        ∙ (tokens-goes (point s 0 0) (point s 1 0) b'0' _ refl
            ∙ (tokens-goes (point s 1 0) (point s 2 0) b'0' _ refl
                ∙ (tokens-goes (point s 2 0) (point s 3 (0 * 16 + c / 16)) (hex_digit (c / 16)) _
                      high
                    ∙ tokens-goes (point s 3 (0 * 16 + c / 16)) (quoted (s ++ (c ∷ [])))
                        (hex_digit (c % 16)) rest low))))

plain_step :
    (s : Bytes) (c : ℕ)
    → (c == b'"') ≡ false
    → (c == b'\\') ≡ false
    → ltb c 32 ≡ false
    → step (quoted s) c ≡ goes (quoted (s ++ (c ∷ [])))
unfolding step
plain_step s c a b d = rw (a, b, d) refl

-- What stands for a byte is read as the byte.
tokens-escape_byte :
    (s : Bytes) (c : ℕ) (rest : Bytes)
    → tokens (quoted s) (escape_byte c ++ rest) ≡ tokens (quoted (s ++ (c ∷ []))) rest
unfolding escape_byte read_escape
tokens-escape_byte s c rest = elim (Bool-cases (c == b'"')) [
  | inl e ↦ let is : c ≡ b'"' = ground arith in rw is (tokens-letter s b'"' b'"' rest refl)
  | inr n0 ↦ elim (Bool-cases (c == b'\\')) [
    | inl e ↦ let is : c ≡ b'\\' = ground arith in rw is (tokens-letter s b'\\' b'\\' rest refl)
    | inr n1 ↦ elim (Bool-cases (c == 10)) [
      | inl e ↦ let is : c ≡ 10 = ground arith in rw is (tokens-letter s b'n' 10 rest refl)
      | inr n2 ↦ elim (Bool-cases (c == 13)) [
        | inl e ↦ let is : c ≡ 13 = ground arith in rw is (tokens-letter s b'r' 13 rest refl)
        | inr n3 ↦ elim (Bool-cases (c == 9)) [
          | inl e ↦ let is : c ≡ 9 = ground arith in rw is (tokens-letter s b't' 9 rest refl)
          | inr n4 ↦ elim (Bool-cases (ltb c 32)) [
            | inl e ↦ rw (n0, n1, n2, n3, n4, e) (tokens-point s c rest (ground arith))
            | inr n5 ↦
                rw (n0, n1, n2, n3, n4, n5)
                  (tokens-goes (quoted s) (quoted (s ++ (c ∷ []))) c rest (plain_step s c n0 n1 n5))
          ]
        ]
      ]
    ]
  ]
]

tokens-json_escape :
    (s t rest : Bytes) → tokens (quoted s) (json_escape t ++ rest) ≡ tokens (quoted (s ++ t)) rest
unfolding json_escape
tokens-json_escape s [] rest = rw (append-nil s) refl
tokens-json_escape s (c ∷ t) rest = rw (append_assoc (escape_byte c) (json_escape t) rest) (
    tokens-escape_byte s c (json_escape t ++ rest)
    ∙ (tokens-json_escape (s ++ (c ∷ [])) t rest
        ∙ ap (λ x. tokens (quoted x) rest) (append_assoc s (c ∷ []) t)))

-- A string that is written by `json_escape` is read back.
pub tokens-string :
    (t rest : Bytes)
    → tokens (quoted []) (json_escape t ++ (b'"' ∷ rest))
      ≡ prepend (text t ∷ []) (tokens between rest)
unfolding step tokens
tokens-string t rest = tokens-json_escape [] t (b'"' ∷ rest)
