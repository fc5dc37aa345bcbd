-- ===== src/Plugin/TestFrameworks.antt =====
-- src/core/plugin/test_framework_plugin.hpp and .cpp: the registry of test-framework plugins. Of
-- a plugin its name and its default package are modelled; the calls that build and run tests are
-- not.
use cppup.Base.{
  ℕ, Bool, true, false, List, [], ◌∷◌, Option, some, none, if◌then◌else◌, Bytes, eqb, length,
}

pub record TestFrameworkDefaultPackage : Type 0 where
  pub name : Bytes
  pub url : Bytes
  pub git_branch : Bytes
  pub version : Bytes

pub record TestFrameworkPlugin : Type 0 where
  pub name : Bytes
  pub default_package : Option TestFrameworkDefaultPackage

abbrev pub TestFrameworkRegistry : Type 0
TestFrameworkRegistry = List TestFrameworkPlugin

unfoldable pub find : TestFrameworkRegistry → Bytes → Option TestFrameworkPlugin
find [] name = none
find (p ∷ plugins) name = if eqb p.name name then some p else find plugins name

-- plugins_.try_emplace(name, plugin).second, after the test for a null pointer
unfoldable pub try_emplace :
    TestFrameworkRegistry
    → TestFrameworkPlugin
    → Option TestFrameworkPlugin
    → TestFrameworkRegistry × Bool
try_emplace plugins p none = (p ∷ plugins, true)
try_emplace plugins p (some old) = (plugins, false)

unfoldable pub register_plugin :
    TestFrameworkRegistry → Option TestFrameworkPlugin → TestFrameworkRegistry × Bool
register_plugin plugins none = (plugins, false)
register_plugin plugins (some p) = try_emplace plugins p (find plugins p.name)

abbrev pub size : TestFrameworkRegistry → ℕ
size = length

abbrev pub clear : TestFrameworkRegistry → TestFrameworkRegistry
clear plugins = []
