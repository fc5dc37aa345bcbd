-- ===== src/Configuration/Package.antt =====
-- src/core/configuration/types.hpp: `SourceType` and `PackageInfo`. The shared pointers of
-- `dependencies` are write-once after assembly, so a package is the tree of its dependencies.
use cppup.Base.{List, [], ◌∷◌, Option, Bytes}

pub data SourceType : Type 0 where
  directory git tar zip http registry : SourceType

-- the members of `PackageInfo` but for `dependencies`
pub record PackageFields : Type 0 where
  pub name : Bytes
  pub version : Option Bytes
  pub source_directory : Option Bytes
  pub url : Option Bytes
  pub source_type : SourceType
  pub git_branch : Option Bytes
  pub git_commit : Option Bytes
  pub build_args : List Bytes
  pub subdirectory : Option Bytes

mutual
  pub data PackageInfo : Type 0 where
    package_info : PackageFields → Dependencies → PackageInfo

  pub data Dependencies : Type 0 where
    leaf : Dependencies
    dep : PackageInfo → Dependencies → Dependencies

abbrev pub fields : PackageInfo → PackageFields
fields (package_info f deps) = f

abbrev pub dependencies : PackageInfo → Dependencies
dependencies (package_info f deps) = deps

abbrev pub name_of : PackageInfo → Bytes
name_of info = (fields info).name

-- the direct dependencies
abbrev pub children : Dependencies → List PackageInfo
children leaf = []
children (dep info deps) = info ∷ children deps
