-- ===== src/Lockfile/Document/RoundTrip/Selections.antt =====
-- `read_selection` reads back the selection that `serialize` wrote.
use cppup.Base.{
  true, List, [], ◌∷◌, ◌≡◌, refl, Bytes, codes, eqb, Lacks, Option, some, none, ◌∙◌, ap, ok, arith,
}
use cppup.Lockfile.Text.{quote, trim}
use cppup.Lockfile.Text.Quote.{unquote-quote}
use cppup.Lockfile.Text.Newlines.{quote-Lacks}
use cppup.Lockfile.Document.{
  newline, Entry, put_line, put_field, write_entry, write_entries, sort_by_name, Selection,
  no_selection, put_selected, write_selected, serialize, k_header_line1, k_header_line2,
}
use cppup.Lockfile.Document.Parse.{
  split_lines, package_line, is_comment, split_key_value, KeyValueLine,
}
use cppup.Lockfile.Document.Select.{select_field, read_line, read_lines, read_selection}
use cppup.Lockfile.Document.Lines.{
  is_key, IsSolid, IsPlain, field_line, split_lines-put_line, split_key_value-field, field-Lacks,
  field-IsPlain,
}
use cppup.Lockfile.Document.RoundTrip.Steps.{quote-IsSolid}
use cppup.Lockfile.Document.RoundTrip.Packages.{OptionLineFree, IsSelectionLineFree}

abbrev select_on : Selection → Bytes → Selection
select_on out text = read_lines out (split_lines text)

read_line-plain :
    (out : Selection) (line : Bytes) {split : KeyValueLine}
    → IsPlain line
    → split_key_value line 0 ≡ ok split
    → read_line out line ≡ some (select_field out split)
unfolding read_line
read_line-plain out line p h = rw (p.filled, p.no_comment, p.no_package, h)

read_lines_step :
    (out : Selection) (raw : Bytes) (lines : List Bytes) {out' : Selection}
    → read_line out (trim raw) ≡ some out'
    → read_lines out (raw ∷ lines) ≡ read_lines out' lines
read_lines_step out raw lines h = unfold read_lines in rw (h, read_lines) refl

select_on-put_field :
    (out : Selection) (key value rest : Bytes)
    → is_key key ≡ true
    → IsSolid value
    → Lacks newline value
    → select_on out (put_field key value rest)
      ≡ select_on (select_field out (record { key = key; value = value; line_no = 0 })) rest
unfolding put_field
select_on-put_field out key value rest k v h =
    let plain : IsPlain (field_line key value) = field-IsPlain key value k v in
    ap (read_lines out)
      (split_lines-put_line (field_line key value) rest (field-Lacks key value k v h))
    ∙ read_lines_step out (field_line key value) (split_lines rest) (
        rw plain.trimmed (
          read_line-plain out (field_line key value) plain (split_key_value-field key value k v 0)))

abbrev selected : Option Bytes → Option Bytes → Option Bytes → Selection
selected t p r = record { toolchain = t; profile = p; registry = r }

-- Each key sets its own member.
selected_step :
    (s : Selection) (key v rest : Bytes)
    → is_key key ≡ true
    → Lacks newline v
    → select_on s (put_field key (quote v) rest)
      ≡ select_on (select_field s (record { key = key; value = quote v; line_no = 0 })) rest
selected_step s key v rest k h =
    select_on-put_field s key (quote v) rest k (quote-IsSolid v) (quote-Lacks v h)

toolchain_step :
    (v : Option Bytes) (rest : Bytes)
    → OptionLineFree v
    → select_on no_selection (put_selected (codes "selected_toolchain") v rest)
      ≡ select_on (selected v none none) rest
unfolding put_selected select_field eqb
toolchain_step none rest h = refl
toolchain_step (some v) rest h =
    selected_step no_selection (codes "selected_toolchain") v rest refl h ∙ rw (unquote-quote v)

profile_step :
    (t v : Option Bytes) (rest : Bytes)
    → OptionLineFree v
    → select_on (selected t none none) (put_selected (codes "selected_profile") v rest)
      ≡ select_on (selected t v none) rest
unfolding put_selected select_field eqb
profile_step t none rest h = refl
profile_step t (some v) rest h =
    selected_step (selected t none none) (codes "selected_profile") v rest refl h
    ∙ rw (unquote-quote v)

registry_step :
    (t p v : Option Bytes) (rest : Bytes)
    → OptionLineFree v
    → select_on (selected t p none) (put_selected (codes "selected_registry") v rest)
      ≡ select_on (selected t p v) rest
unfolding put_selected select_field eqb
registry_step t p none rest h = refl
registry_step t p (some v) rest h =
    selected_step (selected t p none) (codes "selected_registry") v rest refl h
    ∙ rw (unquote-quote v)

-- The loop stops before the first package, so what the packages hold does not matter.
select_on-write_entries :
    (out : Selection) (es : List Entry) → select_on out (write_entries es) ≡ out
unfolding write_entries split_lines read_lines read_line trim
select_on-write_entries out [] = refl
select_on-write_entries out (e ∷ es) =
    unfold write_entry is_comment eqb in
    ap (read_lines out) (split_lines-put_line package_line _ (omega arith))

comment_step :
    (line rest : Bytes)
    → Lacks newline line
    → read_line no_selection (trim line) ≡ some no_selection
    → select_on no_selection (put_line line rest) ≡ select_on no_selection rest
comment_step line rest h e =
    ap (read_lines no_selection) (split_lines-put_line line rest h)
    ∙ read_lines_step no_selection line (split_lines rest) e

head_step :
    (rest : Bytes)
    → select_on no_selection (
        put_line k_header_line1
          (put_line k_header_line2 (put_field (codes "version") (codes "1") rest)))
      ≡ select_on no_selection rest
unfolding read_line trim is_comment select_field eqb
head_step rest =
    comment_step k_header_line1 _ (omega arith) refl
    ∙ comment_step k_header_line2 _ (omega arith) refl
    ∙ select_on-put_field no_selection (codes "version") (codes "1") rest refl
        (record { filled = refl; front = refl; back = refl }) (omega arith)

-- `read_selection` reads back the selection that `serialize` wrote, whatever the packages hold, if
-- no name of the selection holds a newline.
pub read_selection-serialize :
    (es : List Entry) (s : Selection) → IsSelectionLineFree s → read_selection (serialize es s) ≡ s
unfolding read_selection serialize write_selected
read_selection-serialize es s h =
    head_step _
    ∙ toolchain_step s.toolchain _ h.toolchain
    ∙ profile_step s.toolchain s.profile _ h.profile
    ∙ registry_step s.toolchain s.profile s.registry _ h.registry
    ∙ select_on-write_entries s (sort_by_name es)
