-- ===== src/Configuration/Build.antt =====
-- src/core/configuration/build_configuration.hpp, profile.hpp and outputs.hpp, and of types.hpp the
-- toolchain, the flags and the equality of packages. Modules, subprojects, the platform and the
-- environment of a configuration are left out: no function of this model reads them.
use cppup.Base.{Bool, true, false, ◌&&◌, List, [], Option, none, some, Bytes, eqb}
use cppup.Configuration.Package.{PackageInfo, name_of, fields}

pub data CxxStandard : Type 0 where
  unspecified cxx17 cxx20 cxx23 cxx26 : CxxStandard

pub data WarningLevel : Type 0 where
  no_warnings standard strict werror : WarningLevel

pub record Toolchain : Type 0 where
  pub name : Bytes
  pub cxx_standard : CxxStandard
  pub warnings : WarningLevel
  pub extra_flags : List Bytes

-- Toolchain{.name = name}
abbrev pub toolchain_named : Bytes → Toolchain
toolchain_named n = record {
  name = n;
  cxx_standard = unspecified;
  warnings = no_warnings;
  extra_flags = [];
}

pub record Flag : Type 0 where
  pub flag : Bytes

pub record Definition : Type 0 where
  pub name : Bytes
  pub value : Bytes

pub record Profile : Type 0 where
  pub name : Bytes
  pub packages : List PackageInfo
  pub compile_flags : List Flag
  pub link_flags : List Flag
  pub include_paths : List Bytes
  pub definitions : List Definition

pub data LibraryType : Type 0 where
  static shared : LibraryType

pub record Binary : Type 0 where
  pub name : Bytes
  pub sources : List Bytes
  pub libraries : List Bytes

pub record Library : Type 0 where
  pub name : Bytes
  pub sources : List Bytes
  pub library_type : LibraryType
  pub link_flags : List Flag
  pub libraries : List Bytes

pub record Test : Type 0 where
  pub name : Bytes
  pub sources : List Bytes
  pub libraries : List Bytes
  pub link_flags : List Flag
  pub framework : Bytes

pub record TestFramework : Type 0 where
  pub name : Bytes
  pub plugin : Bytes
  -- `package`
  pub own_package : Option PackageInfo

pub data ScriptPhase : Type 0 where
  pre_build post_build : ScriptPhase

pub record Script : Type 0 where
  pub command : Bytes
  pub args : List Bytes
  pub phase : ScriptPhase
  pub working_dir : Bytes
  pub name : Bytes

-- without the callback
pub record BuildStep : Type 0 where
  pub name : Bytes
  pub dependencies : List Bytes

pub record BuildConfiguration : Type 0 where
  pub toolchain : Option Toolchain
  pub packages : List PackageInfo
  pub sources : List Bytes
  pub compile_flags : List Flag
  pub link_flags : List Flag
  pub include_paths : List Bytes
  pub definitions : List Definition
  pub binaries : List Binary
  pub libraries : List Library
  pub tests : List Test
  pub test_frameworks : List TestFramework
  pub profiles : List Profile
  pub build_steps : List BuildStep
  pub scripts : List Script
  pub features : List Bytes

abbrev pub empty_configuration : BuildConfiguration
empty_configuration = record {
  toolchain = none;
  packages = [];
  sources = [];
  compile_flags = [];
  link_flags = [];
  include_paths = [];
  definitions = [];
  binaries = [];
  libraries = [];
  tests = [];
  test_frameworks = [];
  profiles = [];
  build_steps = [];
  scripts = [];
  features = [];
}

-- operator== of std::optional<std::string>
unfoldable pub eq_optional : Option Bytes → Option Bytes → Bool
eq_optional none none = true
eq_optional none (some t) = false
eq_optional (some s) none = false
eq_optional (some s) (some t) = eqb s t

-- Package::operator==, of packages that were not moved from
unfoldable pub eq_package : PackageInfo → PackageInfo → Bool
eq_package a b = eqb (name_of a) (name_of b) && eq_optional (fields a).version (fields b).version
