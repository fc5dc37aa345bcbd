-- ===== src/Tests/Linking.antt =====
-- The theorems about the order of the libraries, at an application that links two.
use cppup.Base.{◌≡◌, refl, ◌≤◌, arith, List, [], ◌∷◌, Bytes, codes, eqb, ok, err, contains, insert}
use cppup.Configuration.Build.{Library, static}
use cppup.Configuration.Packages.{append_unique}
use cppup.Configuration.Linking.{
  resolve_link_set, visit_roots, visit_root, search_loop, search_round, advance, visit,
  find_library, nth, unknown_library, cycle_detected, aggregate_link_flags, add_libraries,
  add_library_flags,
}
use cppup.Configuration.Linking.Termination.{link_fuel, weight, Answers, resolve_link_set-Answers}

abbrev library : Bytes → List Bytes → Library
library name libraries = record {
  name = name;
  sources = [];
  library_type = static;
  link_flags = record { flag = codes "-lm" } ∷ record { flag = name } ∷ [];
  libraries = libraries;
}

abbrev libs : List Library
libs =
    library (codes "core") []
    ∷ library (codes "net") (codes "core" ∷ [])
    ∷ library (codes "app") (codes "core" ∷ codes "net" ∷ [])
    ∷ []

linked :
    resolve_link_set 30 (codes "core" ∷ codes "app" ∷ []) libs
    ≡ ok (codes "app" ∷ codes "net" ∷ codes "core" ∷ [])
unfolding resolve_link_set visit_roots visit_root search_loop search_round advance visit
    find_library nth eqb
linked = refl

unknown : resolve_link_set 30 (codes "gui" ∷ []) libs ≡ err (unknown_library (codes "gui"))
unfolding resolve_link_set visit_roots visit_root search_loop search_round advance visit
    find_library nth eqb
unknown = refl

self_linked :
    resolve_link_set 30 (codes "a" ∷ []) (library (codes "a") (codes "a" ∷ []) ∷ [])
    ≡ err (cycle_detected (codes "a"))
unfolding resolve_link_set visit_roots visit_root search_loop search_round advance visit
    find_library nth eqb
self_linked = refl

flags :
    aggregate_link_flags (codes "net" ∷ codes "gui" ∷ codes "core" ∷ []) libs
    ≡ codes "-lm" ∷ codes "net" ∷ codes "core" ∷ []
unfolding aggregate_link_flags add_libraries add_library_flags append_unique find_library eqb
    contains insert
flags = refl

enough : link_fuel libs ≤ 30
unfolding link_fuel weight
enough = omega arith

link_example : Answers libs (codes "app" ∷ []) (resolve_link_set 30 (codes "app" ∷ []) libs)
link_example = resolve_link_set-Answers 30 (codes "app" ∷ []) libs enough
