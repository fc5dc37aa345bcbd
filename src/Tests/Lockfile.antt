-- ===== src/Tests/Lockfile.antt =====
-- The theorems about the lockfile, at small lockfiles and manifests.
use cppup.Base.{
  eqb, lt_bytes, contains, insert, erase, ◌≡◌, refl, List, [], ◌∷◌, some, Bytes, codes, ok, err,
  ◌≢◌, All,
}
use cppup.Configuration.Package.{PackageInfo}
use cppup.Lockfile.Text.{TextError, quote, unquote, serialize_string_array, parse_string_array}
use cppup.Lockfile.Text.Quote.{unquote-quote}
use cppup.Lockfile.Text.Array.{parse_string_array-serialize_string_array}
use cppup.Lockfile.Text.Termination.{parse_string_array-total}
use cppup.Lockfile.Document.{Entry, serialize, sort_by_name, insert_by_name, newline, no_selection}
use cppup.Lockfile.Document.Parse.{parse}
use cppup.Lockfile.Document.Select.{read_selection, write_selection, written}
use cppup.Lockfile.Document.RoundTrip.Packages.{parse-serialize, IsLineFree}
use cppup.Lockfile.Document.RoundTrip.Selections.{read_selection-serialize}
use cppup.Lockfile.Document.Update.{parse-IsLineFree, write_selection_keeps}
use cppup.Lockfile.Walk.{
  entries_from_configuration, walk_frameworks, WalkState, WalkError, walk_packages, tree_size,
  walk_info, walk_loop, walk_round, push_children, emit, entry_from_info, url_of, map_source_type,
  dependency_cycle,
}
use cppup.Lockfile.Walk.Roots.{roots}
use cppup.Lockfile.Walk.Closure.{
  IsLock, entries_from_configuration-IsLock, parse-serialize-entries_from_configuration,
}
use cppup.Lockfile.Walk.Cycles.{HasCycle}
use cppup.Lockfile.Walk.CycleErrors.{entries_from_configuration-HasCycle}
use cppup.Lockfile.Walk.Termination.{entries_from_configuration-total}
use mathlib.Core.List.{Memᴰ}
use cppup.Tests.Data.{
  Lacks_of, spdlog, looping, fmt_entry, clang, fmt_entry-IsLineFree, clang-IsSelectionLineFree,
}

unquote-quote_example : unquote (quote (codes "a\"b\\")) ≡ ok (codes "a\"b\\")
unquote-quote_example = unquote-quote (codes "a\"b\\")

array_example :
    parse_string_array (serialize_string_array (codes "fmt" ∷ codes "a\"," ∷ []))
    ≡ ok (codes "fmt" ∷ codes "a\"," ∷ [])
array_example = parse_string_array-serialize_string_array (codes "fmt" ∷ codes "a\"," ∷ [])

array_ends : parse_string_array (codes "[\"fmt\", ") ≢ err TextError.out_of_fuel
array_ends = parse_string_array-total (codes "[\"fmt\", ")

parse-serialize_example :
    parse (serialize (fmt_entry ∷ []) clang) ≡ ok (sort_by_name (fmt_entry ∷ []))
parse-serialize_example =
    parse-serialize (fmt_entry ∷ []) clang (fmt_entry-IsLineFree, tt) clang-IsSelectionLineFree

read_selection_example : read_selection (serialize (fmt_entry ∷ []) clang) ≡ clang
read_selection_example = read_selection-serialize (fmt_entry ∷ []) clang clang-IsSelectionLineFree

abbrev spdlog_entry : Entry
spdlog_entry = record fmt_entry { name = codes "spdlog"; dependencies = codes "fmt" ∷ [] }

abbrev spdlog_lock : List Entry
spdlog_lock = fmt_entry ∷ spdlog_entry ∷ []

spdlog_locked : entries_from_configuration [] (spdlog ∷ []) [] ≡ ok spdlog_lock
unfolding entries_from_configuration walk_packages walk_frameworks walk_info walk_loop tree_size
    walk_round push_children emit entry_from_info url_of map_source_type sort_by_name insert_by_name
    lt_bytes eqb contains insert erase
spdlog_locked = refl

spdlog_entry-IsLineFree : IsLineFree spdlog_entry
spdlog_entry-IsLineFree = record {
  name = Lacks_of newline (codes "spdlog") refl;
  version = tt;
  source = fmt_entry-IsLineFree.source;
  url = tt;
  git_branch = tt;
  git_commit = tt;
  subdirectory = tt;
  build_system = tt;
  checksum = tt;
  dependencies = (Lacks_of newline (codes "fmt") refl, tt);
}

IsLock_example : IsLock (roots [] (spdlog ∷ []) []) spdlog_lock
IsLock_example = entries_from_configuration-IsLock [] (spdlog ∷ []) [] spdlog_lock spdlog_locked

lock_round_trip_example : parse (serialize spdlog_lock clang) ≡ ok spdlog_lock
lock_round_trip_example =
    parse-serialize-entries_from_configuration [] (spdlog ∷ []) [] spdlog_lock clang spdlog_locked
      (fmt_entry-IsLineFree, (spdlog_entry-IsLineFree, tt)) clang-IsSelectionLineFree

abbrev spdlog_walked : WalkState
spdlog_walked = record {
  entries = spdlog_lock;
  done = codes "spdlog" ∷ codes "fmt" ∷ [];
  stack = [];
}

cycle_found : entries_from_configuration [] (looping ∷ []) [] ≡ err (dependency_cycle (codes "fmt"))
unfolding entries_from_configuration walk_packages walk_info walk_loop tree_size walk_round
    push_children emit eqb contains insert
cycle_found = refl

HasCycle_example :
    (root : PackageInfo) × Memᴰ root (roots [] (looping ∷ []) []) × HasCycle root (codes "fmt")
HasCycle_example =
    entries_from_configuration-HasCycle [] (looping ∷ []) [] (codes "fmt") cycle_found

walk_ends : entries_from_configuration [] (looping ∷ spdlog ∷ []) [] ≢ err WalkError.out_of_fuel
walk_ends = entries_from_configuration-total [] (looping ∷ spdlog ∷ []) []

write_selection_example :
    (text : Bytes) × (write_selection written (some (serialize (fmt_entry ∷ []) clang)) no_selection
      ≡ (ok tt, some text))
    × (parse text ≡ ok (sort_by_name (sort_by_name (fmt_entry ∷ []))))
    × (read_selection text ≡ no_selection)
write_selection_example =
    write_selection_keeps (serialize (fmt_entry ∷ []) clang) (sort_by_name (fmt_entry ∷ []))
      no_selection parse-serialize_example (record { toolchain = tt; profile = tt; registry = tt })

parse-IsLineFree_example : All IsLineFree (sort_by_name (fmt_entry ∷ []))
parse-IsLineFree_example =
    parse-IsLineFree (serialize (fmt_entry ∷ []) clang) (sort_by_name (fmt_entry ∷ []))
      parse-serialize_example
