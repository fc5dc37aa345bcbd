-- ===== src/Configuration/Validation.antt =====
-- src/core/configuration/validation.cpp. Of the package cache only its absence is read; the
-- toolchain cache is a parameter, the answers of its `exists`.
pub mod Passes
pub mod Valid
use cppup.Base.{
  Bool, true, false, not, ◌&&◌, List, [], ◌∷◌, ◌++◌, Option, none, some, Bytes, codes, is_empty,
  if◌then◌else◌, contains, insert,
}
use cppup.Configuration.Package.{PackageInfo, name_of}
use cppup.Configuration.Build.{
  BuildConfiguration, Toolchain, Test, TestFramework, Script, BuildStep,
}

pub data ValidationErrorType : Type 0 where
  package_not_found toolchain_not_found module_not_found invalid_source : ValidationErrorType
  invalid_output test_framework_not_found warning : ValidationErrorType

pub record ValidationError : Type 0 where
  pub error_type : ValidationErrorType
  pub message : Bytes
  pub suggestion : Bytes

pub record ValidationResult : Type 0 where
  pub is_valid : Bool
  pub errors : List ValidationError
  pub warnings : List ValidationError

abbrev pub new_result : ValidationResult
new_result = record { is_valid = true; errors = []; warnings = [] }

unfoldable pub add_error : ValidationErrorType → Bytes → Bytes → ValidationResult → ValidationResult
add_error t message suggestion r = record r {
  errors = r.errors ++ (record { error_type = t; message = message; suggestion = suggestion } ∷ []);
  is_valid = false;
}

unfoldable pub add_warning :
    ValidationErrorType → Bytes → Bytes → ValidationResult → ValidationResult
add_warning t message suggestion r = record r {
  warnings =
      r.warnings ++ (record { error_type = t; message = message; suggestion = suggestion } ∷ []);
}

unfoldable pub check_packages : List PackageInfo → ValidationResult → ValidationResult
check_packages [] r = r
check_packages (p ∷ packages) r = check_packages packages (
    if is_empty (name_of p)
    then add_error package_not_found (codes "Package with empty name found") [] r
    else r)

unfoldable pub validate_packages : BuildConfiguration → Bool → ValidationResult → ValidationResult
validate_packages config false r =
    add_warning warning (codes "Package cache not available - skipping package validation")
      (codes "Ensure package cache is properly initialized") r
validate_packages config true r = check_packages config.packages r

unfoldable pub check_toolchain :
    (Bytes → Bool) → Option Toolchain → ValidationResult → ValidationResult
check_toolchain exists none r = r
check_toolchain exists (some t) r =
    if not (exists t.name)
    then add_error toolchain_not_found (codes "Toolchain '" ++ (t.name ++ codes "' not found"))
        (codes "Run 'cppup toolchain list' to see available toolchains") r
    else r

unfoldable pub validate_toolchain :
    BuildConfiguration → Option (Bytes → Bool) → ValidationResult → ValidationResult
validate_toolchain config none r =
    add_warning warning (codes "Toolchain cache not available - skipping toolchain validation")
      (codes "Ensure toolchain cache is properly initialized") r
validate_toolchain config (some exists) r = check_toolchain exists config.toolchain r

unfoldable pub validate_sources : BuildConfiguration → ValidationResult → ValidationResult
validate_sources config r =
    if is_empty config.sources
    then add_warning warning (codes "No source files specified in configuration") [] r
    else r

unfoldable pub validate_outputs : BuildConfiguration → ValidationResult → ValidationResult
validate_outputs config r =
    if is_empty config.binaries && is_empty config.libraries
    then add_warning warning (codes "No output targets (binaries or libraries) specified") [] r
    else r

unfoldable pub validate_build_steps : List BuildStep → ValidationResult → ValidationResult
validate_build_steps [] r = r
validate_build_steps (step ∷ steps) r = validate_build_steps steps (
    if is_empty step.name
    then add_error invalid_output (codes "Build step with empty name found") [] r
    else r)

unfoldable pub validate_scripts : List Script → ValidationResult → ValidationResult
validate_scripts [] r = r
validate_scripts (script ∷ scripts) r = validate_scripts scripts (
    if is_empty script.command
    then add_error invalid_output (codes "Script with empty command found")
        (codes "Set `command` on the Script entry") r
    else r)

-- the first loop of `validate_test_frameworks`, with the names that it declares
unfoldable pub declare_frameworks :
    List TestFramework → List Bytes → ValidationResult → ValidationResult × List Bytes
declare_frameworks [] declared r = (r, declared)
declare_frameworks (f ∷ frameworks) declared r =
    if is_empty f.name
    then declare_frameworks frameworks declared (
        add_error invalid_output (codes "TestFramework with empty name found")
          (codes "Set `name` on the TestFramework entry") r)
    else declare_frameworks frameworks (insert f.name declared) (
        if contains f.name declared
        then add_error invalid_output
            (codes "Duplicate TestFramework name: '" ++ (f.name ++ codes "'"))
            (codes "Each entry in config.test_frameworks must have a unique name") r
        else r)

unfoldable pub undeclared : List Bytes → Test → Bool
undeclared declared t = not (is_empty t.framework) && not (contains t.framework declared)

unfoldable pub check_tests : List Test → List Bytes → ValidationResult → ValidationResult
check_tests [] declared r = r
check_tests (t ∷ tests) declared r = check_tests tests declared (
    if undeclared declared t
    then add_error test_framework_not_found
        (codes "Test '"
          ++ (t.name
              ++ (codes "' references undeclared framework '" ++ (t.framework ++ codes "'"))))
        (codes "Declare it in config.test_frameworks or remove the reference") r
    else r)

unfoldable pub validate_test_frameworks : BuildConfiguration → ValidationResult → ValidationResult
validate_test_frameworks config r =
    let (declared_result, declared) = declare_frameworks config.test_frameworks [] r in
    check_tests config.tests declared declared_result

unfoldable pub validate : BuildConfiguration → Bool → Option (Bytes → Bool) → ValidationResult
validate config package_cache toolchain_cache = validate_test_frameworks config (
    validate_scripts config.scripts (
      validate_build_steps config.build_steps (
        validate_outputs config (
          validate_sources config (
            validate_toolchain config toolchain_cache
              (validate_packages config package_cache new_result))))))
