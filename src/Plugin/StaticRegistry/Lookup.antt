-- ===== src/Plugin/StaticRegistry/Lookup.antt =====
-- The look-ups see one list of descriptors: the static plugins', then the dynamic ones'.
use cppup.Base.{
  Bool, ◌&&◌, ◌≡◌, refl, sym, ap, arith, List, [], ◌∷◌, ◌++◌, append_assoc, Option, none, some,
  ◌==◌, if◌then◌else◌, Bytes, Bool-cases, inl, inr,
}
use cppup.Plugin.Descriptors.{Descriptor}
use cppup.Plugin.StaticRegistry.{
  StaticPluginRegistration, DynamicPluginRegistration, PluginRegistry, has_id, find_build_system_in,
  or_else, find_in_dynamic, find_in_static, find_build_system_descriptor, append_cli_commands,
  collect_dynamic, collect_static, collect_cli_command_descriptors,
}

-- the descriptors behind the pointers
abbrev pub given : List (Option Descriptor) → List Descriptor
given [] = []
given (none ∷ descriptors) = given descriptors
given (some d ∷ descriptors) = d ∷ given descriptors

abbrev pub of_dynamic : List DynamicPluginRegistration → List Descriptor
of_dynamic [] = []
of_dynamic (reg ∷ plugins) = given reg.descriptors ++ of_dynamic plugins

abbrev pub of_static : List StaticPluginRegistration → List Descriptor
of_static [] = []
of_static (reg ∷ plugins) = given reg.descriptors ++ of_static plugins

-- all that the registry holds, in the order of registration
abbrev pub all_descriptors : PluginRegistry → List Descriptor
all_descriptors registry = of_static registry.static_plugins ++ of_dynamic registry.dynamic_plugins

-- the descriptors that pass a test
abbrev pub select : (Descriptor → Bool) → List Descriptor → List Descriptor
select p [] = []
select p (d ∷ ds) = let rest = select p ds in if p d then d ∷ rest else rest

abbrev pub first : List Descriptor → Option Descriptor
first [] = none
first (d ∷ ds) = some d

select-append :
    (p : Descriptor → Bool) (ds es : List Descriptor)
    → select p (ds ++ es) ≡ select p ds ++ select p es
select-append p [] es = refl
select-append p (d ∷ ds) es = ground (arith, select-append p ds es)

first-append : (ds es : List Descriptor) → first (ds ++ es) ≡ or_else (first ds) (first es)
first-append [] es = refl
first-append (d ∷ ds) es = refl

module _ (id : Bytes) where
  -- a build system with the id
  abbrev serves : Descriptor → Bool
  serves d = d.kind == 1 && has_id d.id id

  find-first :
      (ds : List (Option Descriptor))
      → find_build_system_in ds id ≡ first (select serves (given ds))
  unfolding find_build_system_in
  find-first [] = refl
  find-first (none ∷ ds) = find-first ds
  find-first (some d ∷ ds) = elim (Bool-cases (d.kind == 1)) [
    | inl k ↦ elim (Bool-cases (has_id d.id id)) [
      | inl h ↦ rw (k, h) refl
      | inr h ↦ rw (k, h) (find-first ds)
    ]
    | inr k ↦ rw k (find-first ds)
  ]

  dynamic-first :
      (plugins : List DynamicPluginRegistration)
      → find_in_dynamic plugins id ≡ first (select serves (of_dynamic plugins))
  unfolding find_in_dynamic
  dynamic-first [] = refl
  dynamic-first (reg ∷ plugins) =
      rw
        (
          find-first reg.descriptors,
          dynamic-first plugins,
          select-append serves (given reg.descriptors) (of_dynamic plugins),
          first-append (select serves (given reg.descriptors)) (select serves (of_dynamic plugins)),
        )
        refl

  static-first :
      (plugins : List StaticPluginRegistration) (es : List Descriptor)
      → find_in_static plugins id (first (select serves es))
        ≡ first (select serves (of_static plugins ++ es))
  unfolding find_in_static
  static-first [] es = refl
  static-first (reg ∷ plugins) es =
      rw
        (
          find-first reg.descriptors,
          static-first plugins es,
          append_assoc (given reg.descriptors) (of_static plugins) es,
          select-append serves (given reg.descriptors) (of_static plugins ++ es),
          first-append (select serves (given reg.descriptors))
              (select serves (of_static plugins ++ es)),
        )
        refl

  found-first :
      (registry : PluginRegistry)
      → find_build_system_descriptor registry id ≡ first (select serves (all_descriptors registry))
  unfolding find_build_system_descriptor
  found-first registry =
      rw (dynamic-first registry.dynamic_plugins)
        (static-first registry.static_plugins (of_dynamic registry.dynamic_plugins))

abbrev is_cli_command : Descriptor → Bool
is_cli_command d = d.kind == 6

append-select :
    (ds : List (Option Descriptor)) (out : List Descriptor)
    → append_cli_commands ds out ≡ select is_cli_command (given ds) ++ out
unfolding append_cli_commands
append-select [] out = refl
append-select (none ∷ ds) out = append-select ds out
append-select (some d ∷ ds) out = elim (Bool-cases (d.kind == 6)) [
  | inl h ↦ rw h (ap (◌∷◌ d) (append-select ds out))
  | inr h ↦ rw h (append-select ds out)
]

dynamic-select :
    (plugins : List DynamicPluginRegistration)
    → collect_dynamic plugins ≡ select is_cli_command (of_dynamic plugins)
unfolding collect_dynamic
dynamic-select [] = refl
dynamic-select (reg ∷ plugins) =
    rw (append-select reg.descriptors (collect_dynamic plugins), dynamic-select plugins)
      (sym (select-append is_cli_command (given reg.descriptors) (of_dynamic plugins)))

static-select :
    (plugins : List StaticPluginRegistration) (es : List Descriptor)
    → collect_static plugins (select is_cli_command es)
      ≡ select is_cli_command (of_static plugins ++ es)
unfolding collect_static
static-select [] es = refl
static-select (reg ∷ plugins) es =
    rw
      (
        append-select reg.descriptors (collect_static plugins (select is_cli_command es)),
        static-select plugins es,
        append_assoc (given reg.descriptors) (of_static plugins) es,
      )
      (sym (select-append is_cli_command (given reg.descriptors) (of_static plugins ++ es)))

-- A build system is looked up as the first of its kind and id among all descriptors, and the CLI
-- commands are all those of their kind, in the order of registration, the static plugins first.
pub registry_lookups :
    (registry : PluginRegistry) (id : Bytes)
    → (find_build_system_descriptor registry id
        ≡ first (select (λ d. d.kind == 1 && has_id d.id id) (all_descriptors registry)))
      × (collect_cli_command_descriptors registry
          ≡ select (λ d. d.kind == 6) (all_descriptors registry))
unfolding collect_cli_command_descriptors
registry_lookups registry id = (
  found-first id registry,
  rw (dynamic-select registry.dynamic_plugins)
      (static-select registry.static_plugins (of_dynamic registry.dynamic_plugins)),
)
