-- ===== src/Lockfile/Document/Update.antt =====
-- `write_selection` keeps the packages of the lockfile.
use cppup.Base.{
  ℕ, ◌+◌, false, not, ◌||◌, List, [], ◌∷◌, ◌≡◌, refl, Bytes, codes, eqb, Lacks, All, All-append,
  Option, some, none, ok, err, Outcome, arith, is_empty, Ensures, ensured, Ensures-bind, if_intro,
  ◌==◌, Option-cases, inl, inr, Bool,
}
use cppup.Lockfile.Text.{trim, unquote, TextError}
use cppup.Lockfile.Text.Newlines.{unquote-Lacks, trim-Lacks, parse_string_array-Lacks}
use cppup.Lockfile.Text.{parse_string_array}
use cppup.Lockfile.Document.{newline, Entry, new_entry, Selection, sort_by_name, serialize}
use cppup.Lockfile.Document.Parse.{
  LockError, KeyValueLine, Field, split_at_eq, split_key_value, cons_left, find_field,
  string_fields, assign, apply_package_line, apply_string_field, apply_source_field,
  apply_dependencies_field, apply_line, apply_top_level, parse_trimmed, parse_line, parse_lines,
  split_lines, ParseState, pushed, flush, finish, parse, on_line, cons_first, package_line,
  is_comment, initial,
}
use cppup.Lockfile.Document.Select.{
  read_selection, write_selection, stored_entries, write_text, written,
}
use cppup.Lockfile.Document.RoundTrip.Packages.{IsLineFree, IsSelectionLineFree, parse-serialize}
use cppup.Lockfile.Document.RoundTrip.Selections.{read_selection-serialize}

abbrev Free : Bytes → Type 0
Free = Lacks newline

cons_first-Free :
    (c : ℕ) (ls : List Bytes) → (c == newline) ≡ false → All Free ls → All Free (cons_first c ls)
cons_first-Free c [] h a = ground arith
cons_first-Free c (l ∷ ls) h (hl, a) = ((ground arith, hl), a)

split_lines-Free : (s : Bytes) → All Free (split_lines s)
unfolding split_lines
split_lines-Free [] = (tt, tt)
split_lines-Free (c ∷ s) =
    if_intro (All Free) (c == newline) (λ _. (tt, split_lines-Free s))
      (λ h. cons_first-Free c (split_lines s) h (split_lines-Free s))

abbrev BothFree : Option (Bytes × Bytes) → Type 0
BothFree none = Unit
BothFree (some (a, b)) = Free a × Free b

cons_left-Free :
    (c : ℕ) (o : Option (Bytes × Bytes)) → Free (c ∷ []) → BothFree o → BothFree (cons_left c o)
cons_left-Free c none hc h = tt
cons_left-Free c (some (a, b)) (hc, _) (ha, hb) = ((hc, ha), hb)

split_at_eq-Free : (s : Bytes) → Free s → BothFree (split_at_eq s)
unfolding split_at_eq
split_at_eq-Free [] h = tt
split_at_eq-Free (c ∷ s) (hc, h) =
    if_intro BothFree (c == b'=') (λ _. (tt, h))
      (λ _. cons_left-Free c (split_at_eq s) (hc, tt) (split_at_eq-Free s h))

abbrev LineFree : KeyValueLine → Type 0
LineFree line = Free line.value

split_key_value-Free :
    (line : Bytes) (n : ℕ) → Free line → Ensures LineFree (split_key_value line n)
unfolding split_key_value
split_key_value-Free line n h = elim (Option-cases (split_at_eq line)) [
  | inl e ↦ rw (e, split_key_value) tt
  | inr (p, e) ↦
      rw (e, split_key_value)
        (let parts : BothFree (some p) = rw e at (split_at_eq-Free line h) in
          trim-Lacks newline p.1 parts.1)
]

assign-Free :
    (f : Field) (v : Bytes) (e : Entry) → Free v → IsLineFree e → IsLineFree (assign f v e)
unfolding assign
assign-Free Field.name v e hv h = assumption
assign-Free _ v e hv h = assumption

on_line-Ensures :
    {A : Type 0} (P : A → Type 0) (n : ℕ) (m : Outcome TextError A)
    → Ensures P m
    → Ensures P (on_line n m)
on_line-Ensures P n (ok a) h = h
on_line-Ensures P n (err e) h = tt

-- A value of a package line goes into the entry as it was quoted.
module _ (e : Entry) (line : KeyValueLine) (h : IsLineFree e) (v : LineFree line) where
  apply_string_field-Free : (f : Field) → Ensures IsLineFree (apply_string_field e f line)
  unfolding apply_string_field
  apply_string_field-Free f =
      Ensures-bind Free IsLineFree (on_line line.line_no (unquote line.value)) _
        (on_line-Ensures Free line.line_no (unquote line.value)
          (unquote-Lacks newline line.value v))
        (λ text free. assign-Free f text e free h)

  apply_source_field-Free : Ensures IsLineFree (apply_source_field e line)
  unfolding apply_source_field
  apply_source_field-Free =
      Ensures-bind Free IsLineFree (on_line line.line_no (unquote line.value)) _
        (on_line-Ensures Free line.line_no (unquote line.value)
          (unquote-Lacks newline line.value v))
        (λ text free. assumption)

  apply_dependencies_field-Free : Ensures IsLineFree (apply_dependencies_field e line)
  unfolding apply_dependencies_field
  apply_dependencies_field-Free =
      Ensures-bind (All Free) IsLineFree (on_line line.line_no (parse_string_array line.value)) _
        (on_line-Ensures (All Free) line.line_no (parse_string_array line.value)
          (parse_string_array-Lacks newline line.value v))
        (λ texts free. assumption)

  apply_package_line-Free : Ensures IsLineFree (apply_package_line e line)
  unfolding apply_package_line
  apply_package_line-Free = elim (Option-cases (find_field line.key string_fields)) [
    | inr (f, q) ↦ rw (q, apply_package_line) (apply_string_field-Free f)
    | inl q ↦
        rw (q, apply_package_line)
          (if_intro (Ensures IsLineFree) (eqb line.key (codes "source"))
            (λ _. apply_source_field-Free)
            (λ _.
              if_intro (Ensures IsLineFree) (eqb line.key (codes "dependencies"))
                (λ _. apply_dependencies_field-Free) (λ _. h)))
  ]

abbrev CurrentFree : Option Entry → Type 0
CurrentFree none = Unit
CurrentFree (some e) = IsLineFree e

record IsFree (s : ParseState) : Type 0 where
  entries : All IsLineFree s.entries
  current : CurrentFree s.current

pushed-Free :
    (es : List Entry) (cur : Option Entry)
    → All IsLineFree es
    → CurrentFree cur
    → All IsLineFree (pushed es cur)
pushed-Free es none h c = h
pushed-Free es (some e) h c = All-append IsLineFree es (e ∷ []) h (c, tt)

new_entry-Free : IsLineFree new_entry
new_entry-Free = omega arith

apply_line-Free :
    (s : ParseState) (cur : Option Entry) (line : KeyValueLine)
    → IsFree s
    → CurrentFree cur
    → LineFree line
    → Ensures IsFree (apply_line s cur line)
unfolding apply_line
apply_line-Free s none line h c v =
    Ensures-bind (λ _. Unit {0}) IsFree (apply_top_level line) _ (anything (apply_top_level line))
      (λ top _. record { entries = h.entries; current = h.current })
  where
    anything : (m : Outcome LockError Bool) → Ensures (λ _. Unit {0}) m
    anything (ok a) = tt
    anything (err e) = tt
apply_line-Free s (some e) line h c v =
    Ensures-bind IsLineFree IsFree (apply_package_line e line) _
      (apply_package_line-Free e line c v)
      (λ applied free. record { entries = h.entries; current = free })

parse_trimmed-Free :
    (s : ParseState) (line : Bytes) → IsFree s → Free line → Ensures IsFree (parse_trimmed s line)
unfolding parse_trimmed flush
parse_trimmed-Free s line h f =
    if_intro (Ensures IsFree) (is_empty line || is_comment line) (λ _. h)
      (λ _.
        if_intro (Ensures IsFree) (eqb line package_line)
          (λ _. record {
            entries = pushed-Free s.entries s.current h.entries h.current;
            current = new_entry-Free;
          })
          (λ _.
            Ensures-bind LineFree IsFree (split_key_value line s.line_no) _
              (split_key_value-Free line s.line_no f)
              (λ split v. apply_line-Free s s.current split h h.current v)))

parse_lines-Free :
    (s : ParseState) (lines : List Bytes)
    → IsFree s
    → All Free lines
    → Ensures IsFree (parse_lines s lines)
unfolding parse_lines parse_line
parse_lines-Free s [] h f = h
parse_lines-Free s (raw ∷ lines) h (hr, f) =
    Ensures-bind IsFree IsFree (parse_line s raw) _
      (parse_trimmed-Free (record s { line_no = s.line_no + 1 }) (trim raw)
        (record { entries = h.entries; current = h.current }) (trim-Lacks newline raw hr))
      (λ s' h'. parse_lines-Free s' lines h' f)

finish-Free : (s : ParseState) → IsFree s → Ensures (All IsLineFree) (finish s)
unfolding finish flush
finish-Free s h =
    if_intro (Ensures (All IsLineFree)) (not s.saw_version) (λ _. tt)
      (λ _. pushed-Free s.entries s.current h.entries h.current)

parse-Ensures : (content : Bytes) → Ensures (All IsLineFree) (parse content)
unfolding parse
parse-Ensures content =
    Ensures-bind IsFree (All IsLineFree) (parse_lines initial (split_lines content)) finish
      (parse_lines-Free initial (split_lines content) (record { entries = tt; current = tt })
        (split_lines-Free content))
      finish-Free

-- No text of an entry that `parse` returns holds a newline, whatever the file holds.
pub parse-IsLineFree :
    (content : Bytes) (es : List Entry) → parse content ≡ ok es → All IsLineFree es
parse-IsLineFree content es h = ensured (All IsLineFree) (parse content) (parse-Ensures content) h

stored_entries-ok :
    (content : Bytes) {es : List Entry}
    → parse content ≡ ok es
    → stored_entries (some content) ≡ ok es
unfolding stored_entries
stored_entries-ok content h = rw (h, stored_entries) refl

-- Where a lockfile that parses is there and the stream takes the text, `write_selection` succeeds,
-- the new file parses to the packages of the old one, sorted by name, and its selection is the new
-- one, if no name of the new selection holds a newline.
pub write_selection_keeps :
    (content : Bytes) (es : List Entry) (s : Selection)
    → parse content ≡ ok es
    → IsSelectionLineFree s
    → (text : Bytes) × (write_selection written (some content) s ≡ (ok tt, some text))
      × (parse text ≡ ok (sort_by_name es))
      × (read_selection text ≡ s)
unfolding write_selection write_text
write_selection_keeps content es s h free = (
  serialize es s,
  rw (stored_entries-ok content h, write_selection) refl,
  parse-serialize es s (parse-IsLineFree content es h) free,
  read_selection-serialize es s free,
)
