-- ===== src/Lockfile/Document/RoundTrip/Steps.antt =====
-- What `parse` does with each line that `serialize` writes.
use cppup.Base.{
  ℕ, ◌+◌, true, List, [], ◌∷◌, ◌≡◌, refl, Bytes, codes, eqb, Lacks, All, Option, some, ◌∙◌, ap,
  Outcome, ok, ◌>>=◌, bind_assoc,
}
use cppup.Lockfile.Text.{quote, serialize_string_array, trim_front, trim_back}
use cppup.Lockfile.Text.Quote.{unquote-quote, trim_back-quote}
use cppup.Lockfile.Text.Newlines.{quote-Lacks, serialize_string_array-Lacks}
use cppup.Lockfile.Text.Array.{
  parse_string_array-serialize_string_array, trim_back-serialize_string_array,
}
use cppup.Lockfile.Document.{newline, Entry, put_line, put_field}
use cppup.Lockfile.Document.Parse.{
  LockError, KeyValueLine, Field, split_key_value, find_field, string_fields, assign,
  apply_package_line, apply_string_field, apply_dependencies_field, apply_line, parse_trimmed,
  parse_line, parse_lines, split_lines, ParseState, finish, apply_source_field,
}
use cppup.Lockfile.Document.Lines.{
  is_key, IsSolid, IsPlain, field_line, split_lines-put_line, split_key_value-field, field-Lacks,
  field-IsPlain,
}

-- the rest of `parse` from a state and the text that is left
abbrev pub read_on : ParseState → Bytes → Outcome LockError (List Entry)
read_on s text = parse_lines s (split_lines text) >>= finish

-- a state behind the version line
abbrev pub seen : List Entry → Option Entry → ℕ → ParseState
seen entries current n = record {
  entries = entries;
  current = current;
  saw_version = true;
  line_no = n;
}

abbrev pub counted : ParseState → ParseState
counted s = record s { line_no = s.line_no + 1 }

pub quote-IsSolid : (v : Bytes) → IsSolid (quote v)
unfolding quote trim_front
quote-IsSolid v = record { filled = refl; front = refl; back = trim_back-quote v }

array-IsSolid : (vs : List Bytes) → IsSolid (serialize_string_array vs)
unfolding serialize_string_array trim_front
array-IsSolid [] = record { filled = refl; front = refl; back = unfold trim_back in refl }
array-IsSolid (v ∷ vs) = record {
  filled = refl;
  front = refl;
  back = trim_back-serialize_string_array (v ∷ vs);
}

parse_trimmed-plain :
    (s : ParseState) (line : Bytes) {split : KeyValueLine}
    → IsPlain line
    → split_key_value line s.line_no ≡ ok split
    → parse_trimmed s line ≡ apply_line s s.current split
unfolding parse_trimmed
parse_trimmed-plain s line p h = rw (p.filled, p.no_comment, p.no_package, h)

parse_line-plain :
    (s : ParseState) (line : Bytes) {split : KeyValueLine}
    → IsPlain line
    → split_key_value line (s.line_no + 1) ≡ ok split
    → parse_line s line ≡ apply_line (counted s) s.current split
unfolding parse_line
parse_line-plain s line p h = rw p.trimmed (parse_trimmed-plain (counted s) line p h)

pub read_on-put_line :
    (s : ParseState) (line rest : Bytes)
    → Lacks newline line
    → read_on s (put_line line rest) ≡ (parse_line s line >>= λ s'. read_on s' rest)
unfolding parse_lines
read_on-put_line s line rest h =
    rw (split_lines-put_line line rest h) (bind_assoc (parse_line s line) _ finish)

-- A field is applied to the current package, or at the top.
pub read_on-put_field :
    (s : ParseState) (key value rest : Bytes)
    → is_key key ≡ true
    → IsSolid value
    → Lacks newline value
    → read_on s (put_field key value rest) ≡ (
        apply_line
          (counted s)
          s.current
          (record { key = key; value = value; line_no = s.line_no + 1 })
        >>= λ s'. read_on s' rest)
unfolding put_field
read_on-put_field s key value rest k v h =
    read_on-put_line s (field_line key value) rest (field-Lacks key value k v h)
    ∙ ap (λ m. m >>= λ s'. read_on s' rest)
        (parse_line-plain s (field_line key value) (field-IsPlain key value k v)
          (split_key_value-field key value k v (s.line_no + 1)))

apply_string :
    (e : Entry) (key v : Bytes) (n : ℕ) {f : Field}
    → find_field key string_fields ≡ some f
    → apply_package_line e (record { key = key; value = quote v; line_no = n }) ≡ ok (assign f v e)
unfolding apply_package_line apply_string_field
apply_string e key v n h = rw (h, apply_package_line) (rw (unquote-quote v))

module _ (es : List Entry) (e : Entry) (n : ℕ) where
  pub string_field_step :
      (key v rest : Bytes) {f : Field}
      → find_field key string_fields ≡ some f
      → is_key key ≡ true
      → Lacks newline v
      → read_on (seen es (some e) n) (put_field key (quote v) rest)
        ≡ read_on (seen es (some (assign f v e)) (n + 1)) rest
  unfolding apply_line
  string_field_step key v rest h k lacks =
      read_on-put_field (seen es (some e) n) key (quote v) rest k (quote-IsSolid v)
        (quote-Lacks v lacks)
      ∙ rw (apply_string e key v (n + 1) h)

  pub source_step :
      (v rest : Bytes)
      → Lacks newline v
      → read_on (seen es (some e) n) (put_field (codes "source") (quote v) rest)
        ≡ read_on (seen es (some (record e { source = v })) (n + 1)) rest
  unfolding apply_line apply_package_line find_field eqb apply_source_field
  source_step v rest lacks =
      read_on-put_field (seen es (some e) n) (codes "source") (quote v) rest refl (quote-IsSolid v)
        (quote-Lacks v lacks)
      ∙ rw (unquote-quote v)

  pub dependencies_step :
      (vs : List Bytes) (rest : Bytes)
      → All (Lacks newline) vs
      → read_on
          (seen es (some e) n)
          (put_field (codes "dependencies") (serialize_string_array vs) rest)
        ≡ read_on (seen es (some (record e { dependencies = vs })) (n + 1)) rest
  unfolding apply_line apply_package_line find_field eqb apply_dependencies_field
  dependencies_step vs rest lacks =
      read_on-put_field (seen es (some e) n) (codes "dependencies") (serialize_string_array vs) rest
        refl (array-IsSolid vs) (serialize_string_array-Lacks vs lacks)
      ∙ rw (parse_string_array-serialize_string_array vs)
