-- ===== src/Configuration/CompileCommands.antt =====
-- src/core/configuration/toolchain_flags.cpp and compile_commands.cpp. The paths of the file system
-- are arguments: `normalize`, and `join` for the operator `/`. The text is what goes into the file.
pub mod Json
pub mod Reading
pub mod Tokens
use cppup.Base.{
  ℕ, ◌+◌, Bool, true, false, ◌&&◌, List, [], ◌∷◌, ◌++◌, map, Option, none, some, Bytes, codes,
  is_empty, if◌then◌else◌, ltb, ◌==◌,
}
use Prim.Native.Nat.{◌/◌, ◌%◌}
use cppup.Configuration.Build.{
  CxxStandard, unspecified, cxx17, cxx20, cxx23, cxx26, WarningLevel, no_warnings, standard, strict,
  werror, Toolchain, Definition, BuildConfiguration,
}

-- the flag, or none
unfoldable pub cxx_std_flag : CxxStandard → List Bytes
cxx_std_flag cxx17 = codes "-std=c++17" ∷ []
cxx_std_flag cxx20 = codes "-std=c++20" ∷ []
cxx_std_flag cxx23 = codes "-std=c++23" ∷ []
cxx_std_flag cxx26 = codes "-std=c++26" ∷ []
cxx_std_flag unspecified = []

unfoldable pub warning_flags : WarningLevel → List Bytes
warning_flags no_warnings = []
warning_flags werror = codes "-Werror" ∷ codes "-Wall" ∷ codes "-Wextra" ∷ codes "-Wpedantic" ∷ []
warning_flags strict = codes "-Wall" ∷ codes "-Wextra" ∷ codes "-Wpedantic" ∷ []
warning_flags standard = codes "-Wall" ∷ []

unfoldable pub dialect_flags : Toolchain → List Bytes
dialect_flags toolchain =
    cxx_std_flag toolchain.cxx_standard
    ++ (warning_flags toolchain.warnings ++ toolchain.extra_flags)

-- a digit of %04x
unfoldable pub hex_digit : ℕ → ℕ
hex_digit n = if ltb n 10 then 48 + n else 87 + n

unfoldable pub escape_byte : ℕ → Bytes
escape_byte c =
    if c == b'"'
    then codes "\\\""
    else if c == b'\\'
    then codes "\\\\"
    else if c == 10
    then codes "\\n"
    else if c == 13
    then codes "\\r"
    else if c == 9
    then codes "\\t"
    else if ltb c 32
    then codes "\\u00" ++ (hex_digit (c / 16) ∷ hex_digit (c % 16) ∷ [])
    else c ∷ []

unfoldable pub json_escape : Bytes → Bytes
json_escape [] = []
json_escape (c ∷ s) = escape_byte c ++ json_escape s

-- build_options.hpp: the options that the flags depend on
pub record BuildOptions : Type 0 where
  pub asan : Bool
  pub coverage : Bool

abbrev pub define_flag : Definition → Bytes
define_flag def = codes "-D" ++ (def.name ++ (if is_empty def.value then [] else b'=' ∷ def.value))

abbrev pub toolchain_flags : Option Toolchain → List Bytes
toolchain_flags none = []
toolchain_flags (some toolchain) = dialect_flags toolchain

abbrev pub compiler_of : Option Toolchain → Bytes
compiler_of none = codes "g++"
compiler_of (some toolchain) = toolchain.name

-- in front of `rest`, which is what follows in the stream
unfoldable pub put_flags : List Bytes → Bytes → Bytes
put_flags [] rest = rest
put_flags (a_flag ∷ flags) rest =
    codes ", \"" ++ (json_escape a_flag ++ (codes "\"" ++ put_flags flags rest))

unfoldable pub emit_entry : Bool → Bytes → Bytes → Bytes → List Bytes → Bytes → Bytes
emit_entry first compiler project_root source flags rest =
    (if first then [] else codes ",\n")
    ++ (codes "  {\n    \"directory\": \""
        ++ (json_escape project_root
            ++ (codes "\",\n    \"file\": \""
                ++ (json_escape source
                    ++ (codes "\",\n    \"arguments\": [\""
                        ++ (json_escape compiler
                            ++ (codes "\", \"-c\""
                                ++ put_flags flags (
                                    codes ", \""
                                    ++ (json_escape source ++ (codes "\"]\n  }" ++ rest))))))))))

abbrev pub groups_of : BuildConfiguration → List (List Bytes)
groups_of config =
    map (λ lib. lib.sources) config.libraries
    ++ (map (λ bin. bin.sources) config.binaries ++ map (λ test. test.sources) config.tests)

module _ (normalize : Bytes → Bytes) (join : Bytes → Bytes → Bytes) where
  unfoldable pub compile_flags_for : BuildConfiguration → Bytes → BuildOptions → List Bytes
  compile_flags_for config project_root options =
      toolchain_flags config.toolchain
      ++ (map (λ f. f.flag) config.compile_flags
          ++ (map define_flag config.definitions
              ++ (map (λ inc. codes "-I" ++ normalize (join project_root inc)) config.include_paths
                  ++ ((if options.asan
                        then codes "-fsanitize=address" ∷ codes "-fno-omit-frame-pointer" ∷ []
                        else [])
                      ++ (if options.coverage then codes "--coverage" ∷ [] else [])))))

  -- the entries of the sources, in front of `rest`
  unfoldable pub emit_sources : Bytes → Bytes → List Bytes → Bool → List Bytes → Bytes → Bytes
  emit_sources compiler root flags first [] rest = rest
  emit_sources compiler root flags first (src ∷ srcs) rest =
      emit_entry first compiler root (normalize (join root src)) flags
        (emit_sources compiler root flags false srcs rest)

  -- the three loops over the outputs, each with its sources
  unfoldable pub emit_groups : Bytes → Bytes → List Bytes → Bool → List (List Bytes) → Bytes → Bytes
  emit_groups compiler root flags first [] rest = rest
  emit_groups compiler root flags first (srcs ∷ groups) rest =
      emit_sources compiler root flags first srcs
        (emit_groups compiler root flags (first && is_empty srcs) groups rest)

  -- the path of the file, and its text
  unfoldable pub emit_compile_commands : BuildConfiguration → Bytes → BuildOptions → Bytes × Bytes
  emit_compile_commands config project_root options =
      let root : Bytes = normalize project_root in
      let flags : List Bytes = compile_flags_for config root options in
      (
        join root (codes "compile_commands.json"),
        codes "[\n"
            ++ emit_groups (compiler_of config.toolchain) root flags true (groups_of config)
                (codes "\n]\n"),
      )

-- src/core/cli/commands/build.cpp: the flags that the build appends to `out`
unfoldable pub append_common_flags :
    (Bytes → Bytes → Bytes) → List Bytes → BuildConfiguration → Bytes → BuildOptions → List Bytes
append_common_flags join out config project_root options =
    out
    ++ (toolchain_flags config.toolchain
        ++ (map (λ f. f.flag) config.compile_flags
            ++ (map define_flag config.definitions
                ++ (map (λ inc. codes "-I" ++ join project_root inc) config.include_paths
                    ++ ((if options.asan
                          then codes "-fsanitize=address" ∷ codes "-fno-omit-frame-pointer" ∷ []
                          else [])
                        ++ (if options.coverage then codes "--coverage" ∷ [] else []))))))
