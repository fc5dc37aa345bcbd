-- ===== src/Configuration/Linking.antt =====
-- src/core/configuration/link_resolution.hpp. The loops take fuel, which `Termination` is about.
pub mod Reach
pub mod Frames
pub mod Order
pub mod Termination
use cppup.Base.{
  ℕ, zero, suc, ◌+◌, Bool, true, false, List, [], ◌∷◌, ◌++◌, Option, none, some, Bytes, eqb,
  if◌then◌else◌, contains, map, Outcome, ok, err, ◌>>=◌,
}
use cppup.Configuration.Build.{Library}
use cppup.Configuration.Packages.{Unique, nothing, append_unique}

pub data Color : Type 0 where
  white gray black : Color

pub record Frame : Type 0 where
  pub name : Bytes
  pub next_dep : ℕ

-- The messages by what they name; the last error says that the fuel of the model ran out.
pub data LinkError : Type 0 where
  unknown_library cycle_detected : Bytes → LinkError
  out_of_fuel : LinkError

-- by_name.find(name); of libraries with one name `emplace` keeps the first
unfoldable pub find_library : List Library → Bytes → Option Library
find_library [] name = none
find_library (lib ∷ libs) name =
    let later = find_library libs name in if eqb lib.name name then some lib else later

-- deps[index], or nothing behind the end
unfoldable pub nth : List Bytes → ℕ → Option Bytes
nth [] index = none
nth (dep ∷ deps) zero = some dep
nth (dep ∷ deps) (suc index) = nth deps index

-- color[name] = c
abbrev pub set_color : Bytes → Color → (Bytes → Color) → Bytes → Color
set_color name c color = λ n. if eqb n name then c else color n

-- `color`, `order` and `stack`; the back of each vector is the head of its list
pub record Search : Type 0 where
  pub color : Bytes → Color
  pub order : List Bytes
  pub stack : List Frame

-- the next dependency of the frame on top
unfoldable pub visit :
    (Bytes → Color) → List Bytes → List Frame → Bytes → Color → Outcome LinkError Search
visit color order stack dep black = ok (record { color = color; order = order; stack = stack })
visit color order stack dep gray = err (cycle_detected dep)
visit color order stack dep white = ok (record {
  color = set_color dep gray color;
  order = order;
  stack = record { name = dep; next_dep = 0 } ∷ stack;
})

unfoldable pub advance :
    (Bytes → Color) → List Bytes → List Frame → Frame → Option Bytes → Outcome LinkError Search
advance color order frames frame none = ok (record {
  color = set_color frame.name black color;
  order = frame.name ∷ order;
  stack = frames;
})
advance color order frames frame (some dep) =
    visit color order (record frame { next_dep = suc frame.next_dep } ∷ frames) dep (color dep)

-- a round of the loop, with the frame on top
unfoldable pub search_round :
    (Bytes → Color) → List Bytes → List Frame → Frame → Option Library → Outcome LinkError Search
search_round color order frames frame none = err (unknown_library frame.name)
search_round color order frames frame (some lib) =
    advance color order frames frame (nth lib.libraries frame.next_dep)

unfoldable pub search_loop :
    ℕ
    → List Library
    → (Bytes → Color)
    → List Bytes
    → List Frame
    → Outcome LinkError ((Bytes → Color) × List Bytes)
search_loop fuel libs color order [] = ok (color, order)
search_loop zero libs color order (frame ∷ frames) = err out_of_fuel
search_loop (suc fuel) libs color order (frame ∷ frames) =
    search_round color order frames frame (find_library libs frame.name) >>= λ s.
    search_loop fuel libs s.color s.order s.stack

-- a root that is not yet black
unfoldable pub visit_root :
    ℕ
    → List Library
    → (Bytes → Color)
    → List Bytes
    → Bytes
    → Color
    → Outcome LinkError ((Bytes → Color) × List Bytes)
visit_root fuel libs color order root black = ok (color, order)
visit_root fuel libs color order root _ =
    search_loop fuel libs (set_color root gray color) order
      (record { name = root; next_dep = 0 } ∷ [])

unfoldable pub visit_roots :
    ℕ → List Library → (Bytes → Color) → List Bytes → List Bytes → Outcome LinkError (List Bytes)
visit_roots fuel libs color order [] = ok order
visit_roots fuel libs color order (root ∷ roots) =
    visit_root fuel libs color order root (color root) >>= λ (color', order').
    visit_roots fuel libs color' order' roots

-- The back of `order` is its head, so that the list is the reversed vector.
unfoldable pub resolve_link_set : ℕ → List Bytes → List Library → Outcome LinkError (List Bytes)
resolve_link_set fuel roots all_libraries = visit_roots fuel all_libraries (λ n. white) [] roots

unfoldable pub add_library_flags : Unique → Option Library → Unique
add_library_flags u none = u
add_library_flags u (some lib) = append_unique u (map (λ f. f.flag) lib.link_flags)

unfoldable pub add_libraries : List Library → List Bytes → Unique → Unique
add_libraries libs [] u = u
add_libraries libs (name ∷ names) u =
    add_libraries libs names (add_library_flags u (find_library libs name))

unfoldable pub aggregate_link_flags : List Bytes → List Library → List Bytes
aggregate_link_flags library_names all_libraries =
    (add_libraries all_libraries library_names nothing).out
