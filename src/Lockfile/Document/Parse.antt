-- ===== src/Lockfile/Document/Parse.antt =====
-- lockfile.cpp: `split_key_value`, the `apply_` functions and `parse`.
use cppup.Base.{
  ℕ, ◌+◌, Bool, true, false, not, ◌||◌, List, [], ◌∷◌, ◌++◌, Option, none, some, ◌==◌,
  if◌then◌else◌, Bytes, codes, eqb, is_empty, Outcome, ok, err, ◌>>=◌, ℤ, pos, stoi, eq_int,
}
use cppup.Lockfile.Text.{TextError, trim, unquote, parse_string_array}
use cppup.Lockfile.Document.{newline, Entry, new_entry, k_format_version}

-- The messages, with what they print.
pub data LockError : Type 0 where
  expected_key_value : ℕ → LockError
  unsupported_version : ℤ → LockError
  invalid_version : ℕ → Bytes → LockError
  bad_value : ℕ → TextError → LockError
  missing_version : LockError

pub record KeyValueLine : Type 0 where
  pub key : Bytes
  pub value : Bytes
  pub line_no : ℕ

abbrev pub cons_left : ℕ → Option (Bytes × Bytes) → Option (Bytes × Bytes)
cons_left c none = none
cons_left c (some (a, b)) = some (c ∷ a, b)

-- what stands before the first `=`, and what stands behind it
unfoldable pub split_at_eq : Bytes → Option (Bytes × Bytes)
split_at_eq [] = none
split_at_eq (c ∷ line) =
    let later = cons_left c (split_at_eq line) in if c == b'=' then some ([], line) else later

unfoldable pub split_key_value : Bytes → ℕ → Outcome LockError KeyValueLine
split_key_value line line_no = elim (split_at_eq line) [
  | none ↦ err (expected_key_value line_no)
  | some (a, b) ↦ ok (record { key = trim a; value = trim b; line_no = line_no })
]

unfoldable pub apply_top_level : KeyValueLine → Outcome LockError Bool
apply_top_level line =
    if not (eqb line.key (codes "version")) then ok false else elim (stoi line.value) [
      | none ↦ err (invalid_version line.line_no line.value)
      | some parsed ↦
          (if eq_int parsed (pos k_format_version)
            then ok true
            else err (unsupported_version parsed))
    ]

-- the members of `Entry` that `string_fields` points to
pub data Field : Type 0 where
  name version url git_branch git_commit subdirectory build_system checksum : Field

abbrev pub string_fields : List (Bytes × Field)
string_fields =
    (codes "name", Field.name)
    ∷ (codes "version", Field.version)
    ∷ (codes "url", Field.url)
    ∷ (codes "git_branch", Field.git_branch)
    ∷ (codes "git_commit", Field.git_commit)
    ∷ (codes "subdirectory", Field.subdirectory)
    ∷ (codes "build_system", Field.build_system)
    ∷ (codes "checksum", Field.checksum)
    ∷ []

-- fields.find(key)
unfoldable pub find_field : Bytes → List (Bytes × Field) → Option Field
find_field key [] = none
find_field key ((k, f) ∷ fields) = if eqb k key then some f else find_field key fields

-- entry.*member = value
unfoldable pub assign : Field → Bytes → Entry → Entry
assign name v entry = record entry { name = v }
assign version v entry = record entry { version = v }
assign url v entry = record entry { url = v }
assign git_branch v entry = record entry { git_branch = v }
assign git_commit v entry = record entry { git_commit = v }
assign subdirectory v entry = record entry { subdirectory = v }
assign build_system v entry = record entry { build_system = v }
assign checksum v entry = record entry { checksum = v }

-- `value`, or the message of the line that the value stands on
abbrev pub on_line : {A : Type 0} → ℕ → Outcome TextError A → Outcome LockError A
on_line n (ok v) = ok v
on_line n (err e) = err (bad_value n e)

unfoldable pub apply_string_field : Entry → Field → KeyValueLine → Outcome LockError Entry
apply_string_field entry member line = do
  v ← on_line line.line_no (unquote line.value)
  ok (assign member v entry)

unfoldable pub apply_source_field : Entry → KeyValueLine → Outcome LockError Entry
apply_source_field entry line = do
  v ← on_line line.line_no (unquote line.value)
  ok (record entry { source = v })

unfoldable pub apply_dependencies_field : Entry → KeyValueLine → Outcome LockError Entry
apply_dependencies_field entry line = do
  v ← on_line line.line_no (parse_string_array line.value)
  ok (record entry { dependencies = v })

unfoldable pub apply_package_line : Entry → KeyValueLine → Outcome LockError Entry
apply_package_line entry line = elim (find_field line.key string_fields) [
  | some member ↦ apply_string_field entry member line
  | none ↦
      (if eqb line.key (codes "source")
        then apply_source_field entry line
        else if eqb line.key (codes "dependencies")
        then apply_dependencies_field entry line
        else ok entry)
]

abbrev pub cons_first : ℕ → List Bytes → List Bytes
cons_first c [] = (c ∷ []) ∷ []
cons_first c (line ∷ lines) = (c ∷ line) ∷ lines

-- The lines that the loops over `content.find('\n', pos)` go through: what follows the last
-- newline is one of them, also where it is empty.
unfoldable pub split_lines : Bytes → List Bytes
split_lines [] = [] ∷ []
split_lines (c ∷ content) =
    let rest = split_lines content in if c == newline then [] ∷ rest else cons_first c rest

-- line.front() == '#'
unfoldable pub is_comment : Bytes → Bool
is_comment [] = false
is_comment (c ∷ line) = c == b'#'

abbrev pub package_line : Bytes
package_line = codes "[[package]]"

-- the variables of `parse`
pub record ParseState : Type 0 where
  pub entries : List Entry
  pub current : Option Entry
  pub saw_version : Bool
  pub line_no : ℕ

abbrev pub initial : ParseState
initial = record { entries = []; current = none; saw_version = false; line_no = 0 }

-- entries.push_back(std::move(*current))
abbrev pub pushed : List Entry → Option Entry → List Entry
pushed entries none = entries
pushed entries (some e) = entries ++ e ∷ []

unfoldable pub flush : ParseState → ParseState
flush s = record s { entries = pushed s.entries s.current; current = none }

-- a `key = value` line, at the top or in a package
unfoldable pub apply_line : ParseState → Option Entry → KeyValueLine → Outcome LockError ParseState
apply_line s none split = do
  top ← apply_top_level split
  ok (record s { saw_version = s.saw_version || top })
apply_line s (some e) split = do
  applied ← apply_package_line e split
  ok (record s { current = some applied })

-- one round of the loop of `parse`, with `++line_no` done
unfoldable pub parse_trimmed : ParseState → Bytes → Outcome LockError ParseState
parse_trimmed s line =
    if is_empty line || is_comment line
    then ok s
    else if eqb line package_line
    then ok (record (flush s) { current = some new_entry })
    else do split ← split_key_value line s.line_no; apply_line s s.current split

unfoldable pub parse_line : ParseState → Bytes → Outcome LockError ParseState
parse_line s raw = parse_trimmed (record s { line_no = s.line_no + 1 }) (trim raw)

unfoldable pub parse_lines : ParseState → List Bytes → Outcome LockError ParseState
parse_lines s [] = ok s
parse_lines s (raw ∷ lines) = do s' ← parse_line s raw; parse_lines s' lines

unfoldable pub finish : ParseState → Outcome LockError (List Entry)
finish s = if not s.saw_version then err missing_version else ok (flush s).entries

unfoldable pub parse : Bytes → Outcome LockError (List Entry)
parse content = do s ← parse_lines initial (split_lines content); finish s
