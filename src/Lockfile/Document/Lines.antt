-- ===== src/Lockfile/Document/Lines.antt =====
-- How the lines that `serialize` writes are split again.
use cppup.Base.{
  ℕ, Bool, true, false, ◌&&◌, ◌||◌, not, [], ◌∷◌, ◌++◌, ◌≡◌, refl, arith, ◌==◌, leb, Bytes, codes,
  eqb, is_empty, Lacks, All-append, ok, some, ◌∙◌, ap,
}
use cppup.Lockfile.Text.{trim, trim_front, trim_back}
use cppup.Lockfile.Text.Trim.{trim_back-append, trim_front_solid}
use cppup.Lockfile.Document.{newline, put_line}
use cppup.Lockfile.Document.Parse.{
  split_at_eq, split_key_value, split_lines, is_comment, package_line,
}

pub split_lines-put_line :
    (line rest : Bytes)
    → Lacks newline line
    → split_lines (put_line line rest) ≡ line ∷ split_lines rest
unfolding split_lines put_line
split_lines-put_line [] rest h = refl
split_lines-put_line (c ∷ line) rest (hc, h) = ground (arith, split_lines-put_line line rest h)

-- The keys are words of small letters and underscores.
abbrev key_char : ℕ → Bool
key_char c = (leb b'a' c && leb c b'z') || c == b'_'

abbrev all_key_chars : Bytes → Bool
all_key_chars [] = true
all_key_chars (c ∷ key) = key_char c && all_key_chars key

abbrev pub is_key : Bytes → Bool
is_key key = not (is_empty key) && all_key_chars key

split_at_eq-key :
    (key value : Bytes)
    → all_key_chars key ≡ true
    → split_at_eq (key ++ (codes " = " ++ value)) ≡ some (key ++ codes " ", codes " " ++ value)
unfolding split_at_eq
split_at_eq-key [] value h = refl
split_at_eq-key (c ∷ key) value h = ground (arith, split_at_eq-key key value)

trim_back-key : (key : Bytes) → all_key_chars key ≡ true → trim_back (key ++ codes " ") ≡ key
unfolding trim_back
trim_back-key [] h = refl
trim_back-key (c ∷ key) h = ground (arith, trim_back-key key)

trim-key : (key : Bytes) → all_key_chars key ≡ true → trim (key ++ codes " ") ≡ key
unfolding trim
trim-key [] h = refl
trim-key (c ∷ key) h =
    ap trim_back (trim_front_solid c (key ++ codes " ") (ground arith)) ∙ trim_back-key (c ∷ key) h

Lacks-key : (key : Bytes) → all_key_chars key ≡ true → Lacks newline key
Lacks-key [] h = tt
Lacks-key (c ∷ key) h = (ground arith, Lacks-key key (ground arith))

-- A value with nothing to trim.
pub record IsSolid (value : Bytes) : Type 0 where
  pub filled : is_empty value ≡ false
  pub front : trim_front value ≡ value
  pub back : trim_back value ≡ value

trim-value : (value : Bytes) → IsSolid value → trim (codes " " ++ value) ≡ value
unfolding trim
trim-value value h = ap trim_back h.front ∙ h.back

abbrev pub field_line : Bytes → Bytes → Bytes
field_line key value = key ++ (codes " = " ++ value)

module _ (key value : Bytes) (k : is_key key ≡ true) (v : IsSolid value) where
  keys : all_key_chars key ≡ true
  keys = ground arith

  pub split_key_value-field :
      (n : ℕ)
      → split_key_value (field_line key value) n
        ≡ ok (record { key = key; value = value; line_no = n })
  unfolding split_key_value
  split_key_value-field n =
      rw (split_at_eq-key key value keys, split_key_value)
        (rw (trim-key key keys, trim-value value v))

  trim_back-field : trim_back (field_line key value) ≡ field_line key value
  trim_back-field =
      trim_back-append key (codes " = " ++ value) refl
        (trim_back-append (codes " = ") value v.filled v.back)

  pub field-Lacks : Lacks newline value → Lacks newline (field_line key value)
  field-Lacks h =
      All-append _ key (codes " = " ++ value) (Lacks-key key keys)
        (All-append _ (codes " = ") value (omega arith) h)

front_of_key :
    (key value : Bytes)
    → is_key key ≡ true
    → (trim_front (key ++ value) ≡ key ++ value)
      × (is_empty (key ++ value) ≡ false)
      × (is_comment (key ++ value) ≡ false)
      × (eqb (key ++ value) package_line ≡ false)
unfolding trim_front is_comment eqb
front_of_key [] value k = ground arith
front_of_key (c ∷ key) value k = (ground arith, refl, ground arith, ground arith)

pub record IsPlain (line : Bytes) : Type 0 where
  pub trimmed : trim line ≡ line
  pub filled : is_empty line ≡ false
  pub no_comment : is_comment line ≡ false
  pub no_package : eqb line package_line ≡ false

pub field-IsPlain :
    (key value : Bytes) → is_key key ≡ true → IsSolid value → IsPlain (field_line key value)
unfolding trim
field-IsPlain key value k v =
    let (f, e, c, p) = front_of_key key (codes " = " ++ value) k in
    record {
      trimmed = ap trim_back f ∙ trim_back-field key value k v;
      filled = e;
      no_comment = c;
      no_package = p;
    }
