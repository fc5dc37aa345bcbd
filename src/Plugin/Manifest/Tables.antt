-- ===== src/Plugin/Manifest/Tables.antt =====
-- What the parser of the manifests calls of toml++: the nodes of a table, and `toml::parse`, which
-- throws what an error prints.
use cppup.Base.{ℤ, List, Option, Bytes, Outcome}

pub record Toml : Type 1 where
  pub Node : Type 0
  pub Table : Type 0
  pub keys : Table → List Bytes
  pub get : Table → Bytes → Option Node
  pub as_string : Node → Option Bytes
  pub as_integer : Node → Option ℤ
  pub as_array : Node → Option (List Node)
  pub as_table : Node → Option Table
  pub parse : Bytes → Outcome Bytes Table
