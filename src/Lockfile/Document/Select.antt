-- ===== src/Lockfile/Document/Select.antt =====
-- lockfile.cpp: `read_selection` and `write_selection`.
use cppup.Base.{
  ◌||◌, List, [], ◌∷◌, Option, none, some, if◌then◌else◌, Bytes, codes, eqb, is_empty, Outcome, ok,
  err,
}
use cppup.Lockfile.Text.{TextError, trim, unquote}
use cppup.Lockfile.Document.{Selection, no_selection, Entry, serialize}
use cppup.Lockfile.Document.Parse.{
  LockError, KeyValueLine, split_key_value, is_comment, package_line, split_lines, parse,
}

-- A malformed value leaves its member as it was.
abbrev pub read_value : Option Bytes → Outcome TextError Bytes → Option Bytes
read_value old (ok v) = some v
read_value old (err e) = old

unfoldable pub select_field : Selection → KeyValueLine → Selection
select_field out split =
    if eqb split.key (codes "selected_toolchain")
    then record out { toolchain = read_value out.toolchain (unquote split.value) }
    else if eqb split.key (codes "selected_profile")
    then record out { profile = read_value out.profile (unquote split.value) }
    else if eqb split.key (codes "selected_registry")
    then record out { registry = read_value out.registry (unquote split.value) }
    else out

abbrev pub select_split : Selection → Outcome LockError KeyValueLine → Selection
select_split out (ok split) = select_field out split
select_split out (err e) = out

-- one round of the loop of `read_selection`; `none` is its `break`
unfoldable pub read_line : Selection → Bytes → Option Selection
read_line out line =
    if is_empty line || is_comment line
    then some out
    else if eqb line package_line
    then none
    else some (select_split out (split_key_value line 0))

unfoldable pub read_lines : Selection → List Bytes → Selection
read_lines out [] = out
read_lines out (raw ∷ lines) = elim (read_line out (trim raw)) [
  | none ↦ out
  | some out' ↦ read_lines out' lines
]

unfoldable pub read_selection : Bytes → Selection
read_selection content = read_lines no_selection (split_lines content)

-- How the output stream fares: it does not open, it fails with a part of the text written, or it
-- takes the text.
pub data Stream : Type 0 where
  not_opened : Stream
  cut_off : Bytes → Stream
  written : Stream

pub data WriteError : Type 0 where
  unreadable : LockError → WriteError
  failed_to_open failed_to_write : WriteError

-- The packages of the file that is there; no file has none.
unfoldable pub stored_entries : Option Bytes → Outcome WriteError (List Entry)
stored_entries none = ok []
stored_entries (some content) = elim (parse content) [
  | ok entries ↦ ok entries
  | err e ↦ err (unreadable e)
]

unfoldable pub write_text :
    Stream → Option Bytes → Bytes → Outcome WriteError (Unit {0}) × Option Bytes
write_text not_opened file text = (err failed_to_open, file)
write_text (cut_off part) file text = (err failed_to_write, some part)
write_text written file text = (ok tt, some text)

-- The result, and the file afterwards.
unfoldable pub write_selection :
    Stream → Option Bytes → Selection → Outcome WriteError (Unit {0}) × Option Bytes
write_selection stream file selection = elim (stored_entries file) [
  | err e ↦ (err e, file)
  | ok entries ↦ write_text stream file (serialize entries selection)
]
