-- ===== src/Configuration/Selection/Apply.antt =====
-- What `apply_selection` makes of a configuration.
use cppup.Base.{
  Bool, true, false, not, ◌↔◌, ◌⊎◌, ◌≡◌, ◌∙◌, refl, arith, Option, none, some, Bytes, codes, [],
  ◌++◌, is_empty, contains, insert, contains-insert_self, Ensures, Ensures-bind, ensured, if_intro,
  ok, Bool-cases, inl, inr, ◌||◌,
}
use cppup.Configuration.Build.{BuildConfiguration, Toolchain}
use cppup.Configuration.Profiles.{
  ProfileProcessingResult, process_profiles, get_available_profiles, get_effective_profile_name,
}
use cppup.Configuration.Profiles.Process.{
  Keeps, process_profiles-Keeps, process_profiles_succeeds, Named, IsKnown,
}
use cppup.Configuration.Selection.{
  ResolvedSelection, take_processed, apply_profile, rename_toolchain, apply_toolchain,
  apply_selection,
}

-- A profile is asked for, or the configuration declares some.
abbrev pub wants_profile : BuildConfiguration → Bytes → Bool
wants_profile config profile = not (is_empty profile) || not (is_empty config.profiles)

pub record IsApplied (config : BuildConfiguration) (selection : ResolvedSelection)
    (c : BuildConfiguration) : Type 0 where
  pub toolchain :
      (n : Bytes)
      → selection.toolchain ≡ some n
      → (t : Toolchain) × (c.toolchain ≡ some t) × (t.name ≡ n)
  pub feature :
      wants_profile config selection.profile ≡ true
      → contains (codes "profile:" ++ get_effective_profile_name selection.profile) c.features
        ≡ true
  pub known :
      wants_profile config selection.profile ≡ true
      → Named [] (get_available_profiles config)
        × IsKnown config (get_effective_profile_name selection.profile)
  pub sources : c.sources ≡ config.sources
  pub tests : c.tests ≡ config.tests

-- the block about the profile
record HasProfile (config : BuildConfiguration) (profile : Bytes) (c : BuildConfiguration)
    : Type 0 where
  feature :
      wants_profile config profile ≡ true
      → contains (codes "profile:" ++ get_effective_profile_name profile) c.features ≡ true
  known :
      wants_profile config profile ≡ true
      → Named [] (get_available_profiles config)
        × IsKnown config (get_effective_profile_name profile)
  sources : c.sources ≡ config.sources
  tests : c.tests ≡ config.tests

take_processed-HasProfile :
    (config : BuildConfiguration) (profile : Bytes) (r : ProfileProcessingResult)
    → Keeps config (get_effective_profile_name profile) r
    → (r.success ≡ true
        → Named [] (get_available_profiles config)
          × IsKnown config (get_effective_profile_name profile))
    → Ensures (HasProfile config profile) (take_processed r)
unfolding take_processed
take_processed-HasProfile config profile r keeps known =
    if_intro (Ensures (HasProfile config profile)) (not r.success) (λ h. tt)
      (λ h.
        let s : r.success ≡ true = ground arith in
        record {
          feature = λ w. rw (keeps.active s) (
              contains-insert_self (codes "profile:" ++ get_effective_profile_name profile)
                r.processed_config.features);
          known = λ w. known s;
          sources = keeps.sources;
          tests = keeps.tests;
        })

apply_profile-HasProfile :
    (config : BuildConfiguration) (profile : Bytes)
    → Ensures (HasProfile config profile) (apply_profile config profile)
unfolding apply_profile
apply_profile-HasProfile config profile =
    if_intro (Ensures (HasProfile config profile)) (wants_profile config profile)
      (λ h.
        take_processed-HasProfile config profile (process_profiles config profile)
          (process_profiles-Keeps config profile) (process_profiles_succeeds config profile).0)
      (λ h. record {
        feature = λ w. absurd (cc);
        known = λ w. absurd (cc);
        sources = refl;
        tests = refl;
      })

name-rename : (o : Option Toolchain) (n : Bytes) → (rename_toolchain o n).name ≡ n
unfolding rename_toolchain
name-rename none n = refl
name-rename (some t) n = refl

toolchain_of :
    (o : Option Bytes) (c : BuildConfiguration) (n : Bytes)
    → o ≡ some n
    → (t : Toolchain) × ((apply_toolchain o c).toolchain ≡ some t) × (t.name ≡ n)
unfolding apply_toolchain
toolchain_of none c n e = absurd (cc)
toolchain_of (some m) c n e =
    (rename_toolchain c.toolchain m, refl, name-rename c.toolchain m ∙ (cc))

apply_toolchain_keeps :
    (o : Option Bytes) (c : BuildConfiguration)
    → ((apply_toolchain o c).features ≡ c.features)
      × ((apply_toolchain o c).sources ≡ c.sources)
      × ((apply_toolchain o c).tests ≡ c.tests)
unfolding apply_toolchain
apply_toolchain_keeps none c = (refl, refl, refl)
apply_toolchain_keeps (some n) c = (refl, refl, refl)

apply_toolchain-IsApplied :
    (config : BuildConfiguration) (selection : ResolvedSelection) (c : BuildConfiguration)
    → HasProfile config selection.profile c
    → IsApplied config selection (apply_toolchain selection.toolchain c)
apply_toolchain-IsApplied config selection c h =
    let (features, sources, tests) = apply_toolchain_keeps selection.toolchain c in
    record {
      toolchain = λ n e. toolchain_of selection.toolchain c n e;
      feature = λ w. rw features (h.feature w);
      known = h.known;
      sources = sources ∙ h.sources;
      tests = tests ∙ h.tests;
    }

apply_selection-Ensures :
    (config : BuildConfiguration) (selection : ResolvedSelection)
    → Ensures (IsApplied config selection) (apply_selection config selection)
unfolding apply_selection
apply_selection-Ensures config selection =
    Ensures-bind (HasProfile config selection.profile) (IsApplied config selection)
      (apply_profile config selection.profile) (λ c. ok (apply_toolchain selection.toolchain c))
      (apply_profile-HasProfile config selection.profile)
      (λ c h. apply_toolchain-IsApplied config selection c h)

-- An accepted selection gives the configuration the selected toolchain's name and, where a profile
-- is asked for or declared, the feature of a profile that the configuration knows; the sources and
-- the tests stay.
pub apply_selection-IsApplied :
    (config : BuildConfiguration) (selection : ResolvedSelection) (c : BuildConfiguration)
    → apply_selection config selection ≡ ok c
    → IsApplied config selection c
apply_selection-IsApplied config selection c h =
    ensured (IsApplied config selection) (apply_selection config selection)
      (apply_selection-Ensures config selection) h

take_processed_succeeds :
    (r : ProfileProcessingResult)
    → r.success ≡ true
    → (c : BuildConfiguration) × (take_processed r ≡ ok c)
unfolding take_processed
take_processed_succeeds r h = (
  record r.processed_config {
    features = insert (codes "profile:" ++ r.active_profile) r.processed_config.features;
  },
  rw h refl,
)

accepted :
    (config : BuildConfiguration) (selection : ResolvedSelection)
    → (wants_profile config selection.profile ≡ false)
      ⊎ (Named [] (get_available_profiles config)
          × IsKnown config (get_effective_profile_name selection.profile))
    → (c : BuildConfiguration) × (apply_selection config selection ≡ ok c)
unfolding apply_selection apply_profile
accepted config selection (inl w) = (apply_toolchain selection.toolchain config, rw w refl)
accepted config selection (inr known) = elim (Bool-cases (wants_profile config selection.profile)) [
  | inl w ↦
      let (c, e) =
        take_processed_succeeds (process_profiles config selection.profile)
          ((process_profiles_succeeds config selection.profile).1 known) in
      (apply_toolchain selection.toolchain c, rw (w, e) refl)
  | inr w ↦ (apply_toolchain selection.toolchain config, rw w refl)
]

-- A selection is accepted exactly where no profile is asked for or declared, or every profile has a
-- name of its own and the effective one, the given or else "debug", is declared, is "debug", declared
-- or not, or there are no profiles at all.
pub apply_selection_succeeds :
    (config : BuildConfiguration) (selection : ResolvedSelection)
    → ((c : BuildConfiguration) × (apply_selection config selection ≡ ok c)) ↔ (
        (wants_profile config selection.profile ≡ false)
        ⊎ (Named [] (get_available_profiles config)
            × IsKnown config (get_effective_profile_name selection.profile)))
apply_selection_succeeds config selection = (
  λ (c, e). elim (Bool-cases (wants_profile config selection.profile)) [
    | inl w ↦ inr ((apply_selection-IsApplied config selection c e).known w)
    | inr w ↦ inl w
  ],
  accepted config selection,
)
