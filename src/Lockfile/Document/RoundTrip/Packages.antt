-- ===== src/Lockfile/Document/RoundTrip/Packages.antt =====
-- `parse` reads back the packages that `serialize` wrote.
use cppup.Base.{
  ℕ, ◌+◌, true, false, List, [], ◌∷◌, ◌++◌, ◌≡◌, refl, Bytes, codes, eqb, Lacks, stoi, eq_int, All,
  Option, some, none, ◌∙◌, ap, ok, sym, append_assoc, append-nil, arith,
}
use cppup.Lockfile.Text.{quote, trim}
use cppup.Lockfile.Document.{
  newline, Entry, new_entry, put_line, put_field, write_entry, write_entries, sort_by_name,
  Selection, put_selected, write_selected, serialize, k_header_line1, k_header_line2,
}
use cppup.Lockfile.Document.Parse.{
  assign, find_field, parse, parse_line, parse_lines, parse_trimmed, split_lines, package_line,
  pushed, flush, finish, apply_line, apply_top_level, initial, is_comment, split_key_value,
  split_at_eq,
}
use cppup.Lockfile.Document.Lines.{is_key}
use cppup.Lockfile.Document.Sort.{All-sort_by_name}
use cppup.Lockfile.Document.RoundTrip.Steps.{
  read_on, seen, read_on-put_line, read_on-put_field, string_field_step, source_step,
  dependencies_step, quote-IsSolid,
}
use cppup.Lockfile.Text.Newlines.{quote-Lacks}

-- No text of the entry holds a newline.
pub record IsLineFree (e : Entry) : Type 0 where
  pub name : Lacks newline e.name
  pub version : Lacks newline e.version
  pub source : Lacks newline e.source
  pub url : Lacks newline e.url
  pub git_branch : Lacks newline e.git_branch
  pub git_commit : Lacks newline e.git_commit
  pub subdirectory : Lacks newline e.subdirectory
  pub build_system : Lacks newline e.build_system
  pub checksum : Lacks newline e.checksum
  pub dependencies : All (Lacks newline) e.dependencies

-- An empty line does nothing.
blank_step :
    (es : List Entry) (cur : Option Entry) (n : ℕ) (rest : Bytes)
    → read_on (seen es cur n) (newline ∷ rest) ≡ read_on (seen es cur (n + 1)) rest
unfolding split_lines parse_lines parse_line parse_trimmed trim
blank_step es cur n rest = refl

package_step :
    (es : List Entry) (cur : Option Entry) (n : ℕ) (rest : Bytes)
    → read_on (seen es cur n) (put_line package_line rest)
      ≡ read_on (seen (pushed es cur) (some new_entry) (n + 1)) rest
unfolding parse_line parse_trimmed trim is_comment eqb flush
package_step es cur n rest = read_on-put_line (seen es cur n) package_line rest (omega arith)

-- The lines of one entry leave it as the current one.
entry_step :
    (es : List Entry) (cur : Option Entry) (n : ℕ) (e : Entry) (rest : Bytes)
    → IsLineFree e
    → (m : ℕ) × (read_on (seen es cur n) (write_entry e rest)
        ≡ read_on (seen (pushed es cur) (some e) m) rest)
unfolding write_entry find_field eqb assign
entry_step es cur n e rest h = (
  n + 1 + 1 + 1 + 1 + 1 + 1 + 1 + 1 + 1 + 1 + 1,
  package_step es cur n _
      ∙ string_field_step (pushed es cur) _ _ (codes "name") e.name _ refl refl h.name
      ∙ string_field_step (pushed es cur) _ _ (codes "version") e.version _ refl refl h.version
      ∙ source_step (pushed es cur) _ _ e.source _ h.source
      ∙ string_field_step (pushed es cur) _ _ (codes "url") e.url _ refl refl h.url
      ∙ string_field_step (pushed es cur) _ _ (codes "git_branch") e.git_branch _ refl refl
          h.git_branch
      ∙ string_field_step (pushed es cur) _ _ (codes "git_commit") e.git_commit _ refl refl
          h.git_commit
      ∙ string_field_step (pushed es cur) _ _ (codes "subdirectory") e.subdirectory _ refl refl
          h.subdirectory
      ∙ string_field_step (pushed es cur) _ _ (codes "build_system") e.build_system _ refl refl
          h.build_system
      ∙ string_field_step (pushed es cur) _ _ (codes "checksum") e.checksum _ refl refl h.checksum
      ∙ dependencies_step (pushed es cur) _ _ e.dependencies rest h.dependencies,
)

read_on-write_entries :
    (l es : List Entry) (cur : Option Entry) (n : ℕ)
    → All IsLineFree l
    → read_on (seen es cur n) (write_entries l) ≡ ok (pushed es cur ++ l)
unfolding write_entries
read_on-write_entries [] es cur n h =
    unfold split_lines parse_lines parse_line parse_trimmed trim finish flush in
    ap ok (sym (append-nil (pushed es cur)))
read_on-write_entries (e ∷ l) es cur n (he, h) =
    let (m, step) = entry_step es cur (n + 1) e (write_entries l) he in
    blank_step es cur n _
    ∙ step
    ∙ read_on-write_entries l (pushed es cur) (some e) m h
    ∙ ap ok (append_assoc (pushed es cur) (e ∷ []) l)

-- a present text holds no newline
abbrev pub OptionLineFree : Option Bytes → Type 0
OptionLineFree none = Unit
OptionLineFree (some v) = Lacks newline v

pub record IsSelectionLineFree (s : Selection) : Type 0 where
  pub toolchain : OptionLineFree s.toolchain
  pub profile : OptionLineFree s.profile
  pub registry : OptionLineFree s.registry

-- A key at the top other than `version` does nothing.
selected_step :
    (key : Bytes) (v : Option Bytes) (n : ℕ) (rest : Bytes)
    → is_key key ≡ true
    → eqb key (codes "version") ≡ false
    → OptionLineFree v
    → (m : ℕ) × (read_on (seen [] none n) (put_selected key v rest) ≡ read_on (seen [] none m) rest)
unfolding put_selected
selected_step key none n rest k h hv = (n, refl)
selected_step key (some v) n rest k h hv = (
  n + 1,
  read_on-put_field (seen [] none n) key (quote v) rest k (quote-IsSolid v) (quote-Lacks v hv)
      ∙ (unfold apply_line apply_top_level in rw h refl),
)

head_step :
    (rest : Bytes)
    → read_on initial (
        put_line k_header_line1
          (put_line k_header_line2 (put_field (codes "version") (codes "1") rest)))
      ≡ read_on (seen [] none 3) rest
unfolding parse_line parse_trimmed trim is_comment eqb apply_line apply_top_level stoi eq_int
    split_key_value split_at_eq
head_step rest =
    read_on-put_line initial k_header_line1 _ (omega arith)
    ∙ read_on-put_line _ k_header_line2 _ (omega arith)
    ∙ read_on-put_field _ (codes "version") (codes "1") rest refl
        (record { filled = refl; front = refl; back = refl }) (omega arith)

-- `parse` reads back what `serialize` wrote, the entries in the order in which they stand in the
-- file, if no text of an entry or of the selection holds a newline.
pub parse-serialize :
    (es : List Entry) (s : Selection)
    → All IsLineFree es
    → IsSelectionLineFree s
    → parse (serialize es s) ≡ ok (sort_by_name es)
unfolding parse serialize write_selected eqb
parse-serialize es s he hs =
    let after = write_entries (sort_by_name es) in
    let registry = put_selected (codes "selected_registry") s.registry after in
    let profile = put_selected (codes "selected_profile") s.profile registry in
    let (n, one) =
      selected_step (codes "selected_toolchain") s.toolchain 3 profile refl refl hs.toolchain in
    let (m, two) =
      selected_step (codes "selected_profile") s.profile n registry refl refl hs.profile in
    let (k, three) =
      selected_step (codes "selected_registry") s.registry m after refl refl hs.registry in
    head_step _
    ∙ one
    ∙ two
    ∙ three
    ∙ read_on-write_entries (sort_by_name es) [] none k (All-sort_by_name IsLineFree es he)
