-- ===== src/Configuration/Selection/Precedence.antt =====
-- Which source decides the toolchain and the profile.
use cppup.Base.{Option, none, some, Bytes, List, [], ◌∷◌}
use cppup.Configuration.Build.{Toolchain}
use cppup.Lockfile.Document.{Selection}

-- the first value of a list of sources
abbrev pub first_of : List (Option Bytes) → Option Bytes
first_of [] = none
first_of (none ∷ sources) = first_of sources
first_of (some s ∷ sources) = some s

abbrev name_in : Option Toolchain → Option Bytes
name_in none = none
name_in (some t) = some t.name
