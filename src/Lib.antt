-- ===== src/Lib.antt =====
-- cppup is a build tool and package manager for C++. This library models the parts that decide
-- what is built and in which order: the lockfile, the refs that name packages, the profiles, the
-- selection and the validation of a build configuration, the order of libraries and build steps, and
-- the plugins.
--
-- `Base` has what the parts share: strings as lists of bytes (`Base.Strings`), sets of strings as
-- lists (`Base.Names`), `std::expected` (`Base.Expected`), `int` and `std::stoi` (`Base.Number`).
--
-- `Lockfile` is src/core/cli/commands/lockfile.hpp and lockfile.cpp. `Lockfile.Text` has `quote`,
-- `unquote`, `trim` and the string arrays, `Lockfile.Document` the records and `serialize`,
-- `Lockfile.Document.Parse` `parse`, `Lockfile.Document.Select` `read_selection` and
-- `write_selection`, `Lockfile.Walk` `walk_info` and `entries_from_configuration`. The file of
-- `write_selection` is an optional text, and what becomes of the output stream is an argument.
-- The loops take fuel: `parse_string_array` as much as the text is long, a byte at least being
-- taken in each round, and `walk_info` twice the size of the dependency tree, a package being opened
-- and emitted once at most. The shared pointers between packages are unfolded to finite trees, so
-- that a package which holds itself through a pointer is not modelled.
--
-- `RefParser` is src/core/cli/commands/ref_parser.hpp and ref_parser.cpp: the built-in parsers,
-- and in `RefParser.Registry` the registry, whose lock makes each call one step.
--
-- `Configuration.Package` and `Configuration.Build` are the records of
-- src/core/configuration/types.hpp, outputs.hpp, profile.hpp and build_configuration.hpp.
-- `Configuration.Profiles` is profile_processor.cpp, `Configuration.Validation` is validation.cpp,
-- both of src/core/configuration, and `Configuration.Selection` is
-- src/core/cli/commands/selection_resolver.cpp, which puts the lockfile's selection and a profile
-- into a configuration. The environment and the two caches are arguments. `Configuration.Packages`
-- is src/core/configuration/package_resolver.cpp, over the provider of the packages, which is an
-- argument; the fuel of its loop is one too, and depends on how many keys the provider knows.
--
-- `Configuration.Linking` is link_resolution.hpp of the same directory: the depth-first search for
-- the libraries, with its colors and its stack of frames, and the flags. Its fuel is an argument;
-- what is enough depends on the libraries and what they link.
--
-- `Configuration.BuildSteps` is build_step_executor.cpp: the graph of the steps and its topological
-- sort, whose fuel is the number of steps, since each is taken once. `Configuration.BuildSteps.Workers`
-- has the threads as moves between states: what a thread does under `queue_mutex`, and each atomic
-- operation, is one move, and any worker can move next. The test of the wait and the block behind it
-- are two moves, with the mutex held between them. `Configuration.BuildSteps.Balance` has the ledger
-- that both the sort and the workers keep: what the counters add up to.
--
-- `Configuration.CompileCommands` is toolchain_flags.cpp and compile_commands.cpp, and of
-- src/core/cli/commands/build.cpp the flags that every compilation gets; the paths of the file
-- system are arguments. `Configuration.CompileCommands.Json` reads JSON, byte by byte, independently
-- of the program.
--
-- `Plugin.Descriptors` is src/core/plugin/descriptor_validation.cpp and vtable_support.cpp,
-- `Plugin.Manifest` is manifest.cpp, over the nodes of toml++, which are an argument, and with its
-- regular expressions by derivatives (`Base.Regex`, `Base.Parts`) and the forms of the texts in
-- `Plugin.Manifest.Grammar`, `Plugin.Loader` is loader.cpp, whose files and
-- shared objects are an argument and whose handle leaves events, `Plugin.StaticRegistry` is
-- static_registry.hpp and static_registry.cpp, and `Plugin.TestFrameworks` is test_framework_plugin.cpp, whose
-- registry the walk of the lockfile asks for default packages.
--
-- A call that throws or panics is a result of its own in the model. Messages are modelled where
-- the program only returns them, and as a constructor with what they print elsewhere.
--
-- Not modelled: the copies of CLI11 and toml++, the SQLite database of the packages, the version
-- resolver (src/core/dependency/resolver.cpp, which no target compiles), the running of compilers,
-- and the commands that read files and run processes around the parts above.
--
-- `Tests` applies the results at concrete data.
pub mod Base
pub mod Configuration
pub mod Lockfile
pub mod Plugin
pub mod RefParser
pub mod Tests
