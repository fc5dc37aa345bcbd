-- ===== src/Configuration/Validation/Passes.antt =====
-- What each pass of `validate` adds to a result.
use cppup.Base.{
  Bool, true, false, not, ◌&&◌, ◌≡◌, ◌↔◌, refl, sym, arith, List, [], ◌∷◌, ◌++◌, All, Option, none,
  some, Bytes, codes, is_empty, if◌then◌else◌, if_intro,
}
use cppup.Configuration.Package.{PackageInfo, name_of}
use cppup.Configuration.Build.{BuildConfiguration, Toolchain, Script, BuildStep}
use cppup.Configuration.Validation.{
  package_not_found, invalid_output, toolchain_not_found, warning, ValidationErrorType,
  ValidationResult, add_error, add_warning, check_packages, validate_packages, check_toolchain,
  validate_toolchain, validate_sources, validate_outputs, validate_build_steps, validate_scripts,
}

-- A pass that leaves the result valid exactly where `P` holds, and counts every invalid result as an
-- error.
pub record Adds (P : Type 0) (r s : ValidationResult) : Type 0 where
  pub valid : (s.is_valid ≡ true) ↔ ((r.is_valid ≡ true) × P)
  pub counted : r.is_valid ≡ is_empty r.errors → s.is_valid ≡ is_empty s.errors

pub Adds-warning :
    (t : ValidationErrorType) (m u : Bytes) (r : ValidationResult)
    → Adds Unit r (add_warning t m u r)
unfolding add_warning
Adds-warning t m u r = record { valid = (λ h. (h, tt), λ h. h.0); counted = λ h. h }

pub Adds-nothing : (r : ValidationResult) → Adds Unit r r
Adds-nothing r = record { valid = (λ h. (h, tt), λ h. h.0); counted = λ h. h }

pub Adds-then :
    {P Q : Type 0} (r s t : ValidationResult) → Adds P r s → Adds Q s t → Adds (P × Q) r t
Adds-then r s t a b = record {
  valid = (
    λ h. let (sv, q) = b.valid.0 h in let (rv, p) = a.valid.0 sv in (rv, (p, q)),
    λ h. b.valid.1 (a.valid.1 (h.0, h.1.0), h.1.1),
  );
  counted = λ h. b.counted (a.counted h);
}

pub is_empty-append_last {ℓ} :
    {A : Type ℓ} (xs : List A) (x : A) → is_empty (xs ++ (x ∷ [])) ≡ false
is_empty-append_last [] x = refl
is_empty-append_last (y ∷ xs) x = refl

-- an error where the test says so
pub Adds-error :
    (bad : Bool) (t : ValidationErrorType) (m u : Bytes) (r : ValidationResult)
    → Adds (bad ≡ false) r (if bad then add_error t m u r else r)
unfolding add_error
Adds-error true t m u r = record {
  valid = (λ h. absurd (cc), λ h. absurd (let bad = h.1 in cc));
  counted = λ h. sym (is_empty-append_last r.errors _);
}
Adds-error false t m u r = record { valid = (λ h. (h, refl), λ h. h.0); counted = λ h. h }

pub check_packages-Adds :
    (packages : List PackageInfo) (r : ValidationResult)
    → Adds (All (λ p. is_empty (name_of p) ≡ false) packages) r (check_packages packages r)
unfolding check_packages
check_packages-Adds [] r = Adds-nothing r
check_packages-Adds (p ∷ packages) r =
    Adds-then r _ _
      (Adds-error (is_empty (name_of p)) package_not_found (codes "Package with empty name found")
        [] r)
      (check_packages-Adds packages _)

pub validate_build_steps-Adds :
    (steps : List BuildStep) (r : ValidationResult)
    → Adds (All (λ s. is_empty s.name ≡ false) steps) r (validate_build_steps steps r)
unfolding validate_build_steps
validate_build_steps-Adds [] r = Adds-nothing r
validate_build_steps-Adds (s ∷ steps) r =
    Adds-then r _ _
      (Adds-error (is_empty s.name) invalid_output (codes "Build step with empty name found") [] r)
      (validate_build_steps-Adds steps _)

pub validate_scripts-Adds :
    (scripts : List Script) (r : ValidationResult)
    → Adds (All (λ s. is_empty s.command ≡ false) scripts) r (validate_scripts scripts r)
unfolding validate_scripts
validate_scripts-Adds [] r = Adds-nothing r
validate_scripts-Adds (s ∷ scripts) r =
    Adds-then r _ _
      (Adds-error (is_empty s.command) invalid_output (codes "Script with empty command found")
        (codes "Set `command` on the Script entry") r)
      (validate_scripts-Adds scripts _)

-- The toolchain, where one is named and there is a cache to ask, exists.
abbrev pub ToolchainExists : Option (Bytes → Bool) → Option Toolchain → Type 0
ToolchainExists (some exists) (some t) = exists t.name ≡ true
ToolchainExists cache toolchain = Unit

pub Adds-iff : {P Q : Type 0} (r s : ValidationResult) → (P ↔ Q) → Adds P r s → Adds Q r s
Adds-iff r s (to, from) a = record {
  valid = (λ h. let (rv, p) = a.valid.0 h in (rv, to p), λ h. a.valid.1 (h.0, from h.1));
  counted = a.counted;
}

pub validate_toolchain-Adds :
    (config : BuildConfiguration) (cache : Option (Bytes → Bool)) (toolchain : Option Toolchain)
    (r : ValidationResult)
    → config.toolchain ≡ toolchain
    → Adds (ToolchainExists cache toolchain) r (validate_toolchain config cache r)
unfolding validate_toolchain check_toolchain
validate_toolchain-Adds config none toolchain r e = Adds-warning warning _ _ r
validate_toolchain-Adds config (some exists) none r e = rw e (Adds-nothing r)
validate_toolchain-Adds config (some exists) (some t) r e = rw e (
    Adds-iff r _ (λ h. ground arith, λ h. ground arith)
      (Adds-error (not (exists t.name)) toolchain_not_found
        (codes "Toolchain '" ++ (t.name ++ codes "' not found"))
        (codes "Run 'cppup toolchain list' to see available toolchains") r))

pub validate_packages-Adds :
    (config : BuildConfiguration) (r : ValidationResult)
    → Adds
        (All (λ p. is_empty (name_of p) ≡ false) config.packages)
        r
        (validate_packages config true r)
unfolding validate_packages
validate_packages-Adds config r = check_packages-Adds config.packages r

pub validate_sources-Adds :
    (config : BuildConfiguration) (r : ValidationResult) → Adds Unit r (validate_sources config r)
unfolding validate_sources
validate_sources-Adds config r =
    if_intro (Adds Unit r) (is_empty config.sources) (λ h. Adds-warning warning _ _ r)
      (λ h. Adds-nothing r)

pub validate_outputs-Adds :
    (config : BuildConfiguration) (r : ValidationResult) → Adds Unit r (validate_outputs config r)
unfolding validate_outputs
validate_outputs-Adds config r =
    if_intro (Adds Unit r) (is_empty config.binaries && is_empty config.libraries)
      (λ h. Adds-warning warning _ _ r) (λ h. Adds-nothing r)
