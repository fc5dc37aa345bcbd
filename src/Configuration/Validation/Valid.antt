-- ===== src/Configuration/Validation/Valid.antt =====
-- Which configurations `validate` finds valid.
use cppup.Base.{
  Bool, true, false, ◌||◌, ◌≡◌, ◌↔◌, ◌⊎◌, inl, inr, refl, ◌∙◌, arith, List, [], ◌∷◌, map, All,
  Option, Bytes, eqb, is_empty, Bool-cases, contains, contains-insert, insert, insert_new, All-map,
}
use cppup.Configuration.Package.{name_of}
use cppup.Configuration.Build.{BuildConfiguration, Test, TestFramework}
use cppup.Configuration.Profiles.Process.{Named}
use cppup.Configuration.Validation.{
  invalid_output, test_framework_not_found, warning, ValidationResult, new_result,
  validate_packages, declare_frameworks, undeclared, check_tests, validate_test_frameworks,
  validate,
}
use cppup.Configuration.Validation.Passes.{
  Adds, Adds-warning, Adds-nothing, Adds-then, Adds-error, check_packages-Adds,
  validate_build_steps-Adds, validate_scripts-Adds, ToolchainExists, Adds-iff,
  validate_toolchain-Adds, validate_sources-Adds, validate_outputs-Adds,
}

declare_frameworks-Adds :
    (frameworks : List TestFramework) (declared : List Bytes) (r : ValidationResult)
    → Adds
        (Named declared (map (λ f. f.name) frameworks))
        r
        (declare_frameworks frameworks declared r).0
unfolding declare_frameworks
declare_frameworks-Adds [] declared r = Adds-nothing r
declare_frameworks-Adds (f ∷ frameworks) declared r = elim (Bool-cases (is_empty f.name)) [
  | inl e ↦ rw e (
      Adds-iff r _ (λ h. absurd (let b = h.0 in cc), λ h. absurd (let b = h.0 in cc))
        (Adds-then r _ _ (Adds-error true invalid_output _ _ r)
          (declare_frameworks-Adds frameworks declared _)))
  | inr e ↦ rw e (
      Adds-iff r _
        (
          λ h. (refl, h.0, rw (insert_new f.name declared h.0) at h.1),
          λ h. (h.1, rw (insert_new f.name declared h.1) h.2),
        )
        (Adds-then r _ _ (Adds-error (contains f.name declared) invalid_output _ _ r)
          (declare_frameworks-Adds frameworks (insert f.name declared) _)))
]

nonempty_differs : (n m : Bytes) → is_empty n ≡ false → is_empty m ≡ true → eqb n m ≡ false
unfolding eqb
nonempty_differs [] m h k = absurd (cc)
nonempty_differs (c ∷ n) [] h k = refl
nonempty_differs (c ∷ n) (d ∷ m) h k = absurd (cc)

contains-declared :
    (n : Bytes) (frameworks : List TestFramework) (declared : List Bytes) (r : ValidationResult)
    → is_empty n ≡ false
    → contains n (declare_frameworks frameworks declared r).1
      ≡ (contains n declared || contains n (map (λ f. f.name) frameworks))
unfolding declare_frameworks contains
contains-declared n [] declared r h = ground arith
contains-declared n (f ∷ frameworks) declared r h = elim (Bool-cases (is_empty f.name)) [
  | inl e ↦ rw e (
      contains-declared n frameworks declared _ h
      ∙ (let d = nonempty_differs n f.name h e in ground arith))
  | inr e ↦ rw e (
      contains-declared n frameworks (insert f.name declared) _ h
      ∙ (ground (arith, contains-insert n f.name declared)))
]

check_tests-Adds :
    (tests : List Test) (declared : List Bytes) (r : ValidationResult)
    → Adds (All (λ t. undeclared declared t ≡ false) tests) r (check_tests tests declared r)
unfolding check_tests
check_tests-Adds [] declared r = Adds-nothing r
check_tests-Adds (t ∷ tests) declared r =
    Adds-then r _ _ (Adds-error (undeclared declared t) test_framework_not_found _ _ r)
      (check_tests-Adds tests declared _)

-- The test names no framework, or one of the names.
abbrev pub IsDeclared : List Bytes → Test → Type 0
IsDeclared names t = (is_empty t.framework ≡ true) ⊎ (contains t.framework names ≡ true)

IsDeclared-iff :
    (frameworks : List TestFramework) (r : ValidationResult) (t : Test)
    → (undeclared (declare_frameworks frameworks [] r).1 t ≡ false)
      ↔ IsDeclared (map (λ f. f.name) frameworks) t
unfolding undeclared contains
IsDeclared-iff frameworks r t = elim (Bool-cases (is_empty t.framework)) [
  | inl e ↦ (λ h. inl e, λ h. rw e refl)
  | inr e ↦
      rw (e, contains-declared t.framework frameworks [] r e)
        (λ h. inr (ground arith), λ h. ground arith)
]

-- What a configuration needs to be valid, with what there is of the two caches.
pub record IsSound (config : BuildConfiguration) (package_cache : Bool)
    (cache : Option (Bytes → Bool)) : Type 0 where
  pub packages : package_cache ≡ true → All (λ p. is_empty (name_of p) ≡ false) config.packages
  pub toolchain : ToolchainExists cache config.toolchain
  pub build_steps : All (λ s. is_empty s.name ≡ false) config.build_steps
  pub scripts : All (λ s. is_empty s.command ≡ false) config.scripts
  pub frameworks : Named [] (map (λ f. f.name) config.test_frameworks)
  pub tests : All (IsDeclared (map (λ f. f.name) config.test_frameworks)) config.tests

validate_test_frameworks-Adds :
    (config : BuildConfiguration) (r : ValidationResult)
    → Adds
        (Named [] (map (λ f. f.name) config.test_frameworks)
          × All (IsDeclared (map (λ f. f.name) config.test_frameworks)) config.tests)
        r
        (validate_test_frameworks config r)
unfolding validate_test_frameworks
validate_test_frameworks-Adds config r =
    Adds-then r (declare_frameworks config.test_frameworks [] r).0 _
      (declare_frameworks-Adds config.test_frameworks [] r)
      (Adds-iff (declare_frameworks config.test_frameworks [] r).0 _
        (
          All-map (λ t. (IsDeclared-iff config.test_frameworks r t).0) config.tests,
          All-map (λ t. (IsDeclared-iff config.test_frameworks r t).1) config.tests,
        )
        (check_tests-Adds config.tests (declare_frameworks config.test_frameworks [] r).1 _))

packages-Adds :
    (config : BuildConfiguration) (package_cache : Bool) (r : ValidationResult)
    → Adds
        (package_cache ≡ true → All (λ p. is_empty (name_of p) ≡ false) config.packages)
        r
        (validate_packages config package_cache r)
unfolding validate_packages
packages-Adds config false r =
    Adds-iff r _ (λ h e. absurd (cc), λ h. tt) (Adds-warning warning _ _ r)
packages-Adds config true r =
    Adds-iff r _ (λ h e. h, λ h. h refl) (check_packages-Adds config.packages r)

all_passes :
    (config : BuildConfiguration) (package_cache : Bool) (cache : Option (Bytes → Bool))
    → Adds
        ((package_cache ≡ true → All (λ p. is_empty (name_of p) ≡ false) config.packages)
          × (ToolchainExists cache config.toolchain
              × (Unit {0}
                  × (Unit {0}
                      × (All (λ s. is_empty s.name ≡ false) config.build_steps
                          × (All (λ s. is_empty s.command ≡ false) config.scripts
                              × (Named [] (map (λ f. f.name) config.test_frameworks)
                                  × All
                                      (IsDeclared (map (λ f. f.name) config.test_frameworks))
                                      config.tests)))))))
        new_result
        (validate config package_cache cache)
unfolding validate
all_passes config package_cache cache =
    Adds-then new_result _ _ (packages-Adds config package_cache new_result) (
      Adds-then _ _ _ (validate_toolchain-Adds config cache config.toolchain _ refl) (
        Adds-then _ _ _ (validate_sources-Adds config _) (
          Adds-then _ _ _ (validate_outputs-Adds config _) (
            Adds-then _ _ _ (validate_build_steps-Adds config.build_steps _) (
              Adds-then _ _ _ (validate_scripts-Adds config.scripts _)
                (validate_test_frameworks-Adds config _))))))

-- A configuration is found valid exactly where it is sound, and where no error is reported.
pub validate-IsSound :
    (config : BuildConfiguration) (package_cache : Bool) (cache : Option (Bytes → Bool))
    → (((validate config package_cache cache).is_valid ≡ true) ↔ IsSound config package_cache cache)
      × ((validate config package_cache cache).is_valid
          ≡ is_empty (validate config package_cache cache).errors)
validate-IsSound config package_cache cache =
    let a = all_passes config package_cache cache in
    (
      (
        λ h.
            let (start, (p, (t, (_, (_, (b, (s, (f, u)))))))) = a.valid.0 h in
            record {
              packages = p;
              toolchain = t;
              build_steps = b;
              scripts = s;
              frameworks = f;
              tests = u;
            },
        λ v. a.valid.1 (
          refl,
          (
            v.packages,
            (v.toolchain, (tt, (tt, (v.build_steps, (v.scripts, (v.frameworks, v.tests)))))),
          ),
        ),
      ),
      a.counted refl,
    )
