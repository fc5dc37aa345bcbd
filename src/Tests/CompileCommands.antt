-- ===== src/Tests/CompileCommands.antt =====
-- The theorem about compile_commands.json, at a library and a test with odd names.
use cppup.Base.{◌≡◌, refl, [], ◌∷◌, ◌++◌, some, Bytes, codes, true, false}
use cppup.Configuration.Build.{
  BuildConfiguration, empty_configuration, Toolchain, cxx23, werror, static,
}
use cppup.Configuration.CompileCommands.{
  BuildOptions, compiler_of, compile_flags_for, groups_of, emit_compile_commands, json_escape,
  escape_byte, hex_digit, dialect_flags, cxx_std_flag, warning_flags,
}
use cppup.Configuration.CompileCommands.Json.{punctuation, between, tokens}
use cppup.Configuration.CompileCommands.Tokens.{located, emit_compile_commands-tokens}
use cppup.Configuration.CompileCommands.Reading.{entries, concat}

abbrev toolchain : Toolchain
toolchain = record {
  name = codes "g++-13";
  cxx_standard = cxx23;
  warnings = werror;
  extra_flags = codes "-O2" ∷ [];
}

abbrev configuration : BuildConfiguration
configuration = record empty_configuration {
  toolchain = some toolchain;
  include_paths = codes "include" ∷ [];
  libraries =
      record {
        name = codes "core";
        sources = [];
        library_type = static;
        link_flags = [];
        libraries = [];
      }
      ∷ [];
  tests =
      record {
        name = codes "t";
        sources = codes "a\"b" ∷ codes "c\\d\n" ∷ [];
        libraries = [];
        link_flags = [];
        framework = [];
      }
      ∷ [];
}

abbrev asan_only : BuildOptions
asan_only = record { asan = true; coverage = false }

abbrev slash : Bytes → Bytes → Bytes
slash a b = a ++ (b'/' ∷ b)

flags :
    compile_flags_for (λ p. p) slash configuration (codes "/p") asan_only
    ≡ codes "-std=c++23"
      ∷ codes "-Werror"
      ∷ codes "-Wall"
      ∷ codes "-Wextra"
      ∷ codes "-Wpedantic"
      ∷ codes "-O2"
      ∷ codes "-I/p/include"
      ∷ codes "-fsanitize=address"
      ∷ codes "-fno-omit-frame-pointer"
      ∷ []
unfolding compile_flags_for dialect_flags cxx_std_flag warning_flags
flags = refl

escaped : json_escape (codes "a\"b\\\n" ++ (31 ∷ [])) ≡ codes "a\\\"b\\\\\\n\\u001f"
unfolding json_escape escape_byte hex_digit
escaped = refl

tokens_example :
    tokens between (emit_compile_commands (λ p. p) slash configuration (codes "/p") asan_only).1
    ≡ some (
        punctuation b'['
        ∷ entries
            (compiler_of configuration.toolchain)
            (compile_flags_for (λ p. p) slash configuration (codes "/p") asan_only)
            (codes "/p")
            true
            (located (λ p. p) slash (codes "/p") (concat (groups_of configuration)))
            (punctuation b']' ∷ []))
tokens_example = emit_compile_commands-tokens (λ p. p) slash configuration (codes "/p") asan_only
