-- ===== src/Configuration/Profiles/Process.antt =====
-- How `process_profiles` ends.
use cppup.Base.{
  ℕ, eqb_comm, if_intro, Bool, true, false, not, ◌≡◌, refl, sym, arith, List, [], ◌∷◌, ◌++◌, map,
  Option, none, some, Bytes, codes, eqb, eqb_iff, is_empty, if◌then◌else◌, Bool-cases, inl, inr,
  ◌↔◌, ◌⊎◌, contains, insert, insert_new,
}
use cppup.Configuration.Build.{BuildConfiguration, Profile}
use cppup.Configuration.Profiles.{
  merge_profile, find_profile, validate_names, validate_profiles, get_available_profiles,
  get_default_profile_name, get_effective_profile_name, process_missing, process_found,
  process_profiles, ProfileProcessingResult,
}

-- Every profile has a name, no two the same, and none one of `seen`.
abbrev pub Named : List Bytes → List Bytes → Type 0
Named seen [] = Unit
Named seen (n ∷ names) = (is_empty n ≡ false) × (contains n seen ≡ false) × Named (n ∷ seen) names

tests_of :
    (a b : Bool) (c d : ℕ) (s m rest : Bytes)
    → (if a then c ∷ s else if b then d ∷ m else rest) ≡ []
    → (a ≡ false) × (b ≡ false) × (rest ≡ [])
tests_of true b c d s m rest h = absurd (cc)
tests_of false true c d s m rest h = absurd (cc)
tests_of false false c d s m rest h = (refl, refl, h)

Named-of_valid :
    (seen : List Bytes) (profiles : List Profile)
    → validate_names seen profiles ≡ []
    → Named seen (map (λ p. p.name) profiles)
unfolding validate_names
Named-of_valid seen [] h = tt
Named-of_valid seen (p ∷ profiles) h =
    let (e, c, rest) =
      tests_of (is_empty p.name) (contains p.name seen) b'P' b'D'
        (codes "rofile with empty name found") (codes "uplicate profile name: " ++ p.name)
        (validate_names (insert p.name seen) profiles) h in
    let later : validate_names (p.name ∷ seen) profiles ≡ [] =
      rw (insert_new p.name seen c) at rest in
    (e, c, Named-of_valid (p.name ∷ seen) profiles later)

valid_of_Named :
    (seen : List Bytes) (profiles : List Profile)
    → Named seen (map (λ p. p.name) profiles)
    → validate_names seen profiles ≡ []
unfolding validate_names
valid_of_Named seen [] h = refl
valid_of_Named seen (p ∷ profiles) (e, c, h) =
    rw (e, c, insert_new p.name seen c, valid_of_Named (p.name ∷ seen) profiles h)

find_profile-contains :
    (profiles : List Profile) (n : Bytes)
    → (elim (find_profile profiles n) [ none ↦ false | some p ↦ true ])
      ≡ contains n (map (λ p. p.name) profiles)
unfolding find_profile contains
find_profile-contains [] n = refl
find_profile-contains (p ∷ profiles) n =
    ground (arith, find_profile-contains profiles n, eqb_comm p.name n)

-- Which names of a profile are known to a configuration: all, where it has no profiles, and else
-- those that are declared and "debug", declared or not.
abbrev pub IsKnown : BuildConfiguration → Bytes → Type 0
IsKnown config n =
    (config.profiles ≡ [])
    ⊎ (n ≡ codes "debug")
    ⊎ (contains n (get_available_profiles config) ≡ true)

success_of-found :
    (config : BuildConfiguration) (n : Bytes) (o : Option Profile)
    → (process_found config n o).success
      ≡ (elim o [ none ↦ eqb n get_default_profile_name | some p ↦ true ])
unfolding process_found process_missing
success_of-found config n none = elim (Bool-cases (eqb n get_default_profile_name)) [
  | inl h ↦ rw h refl
  | inr h ↦ rw h refl
]
success_of-found config n (some p) = refl

empty_or {ℓ} : {A : Type ℓ} (ps : List A) → (ps ≡ []) ⊎ (is_empty ps ≡ false)
empty_or [] = inl refl
empty_or (p ∷ ps) = inr refl

known_of :
    (n : Bytes) (o : Option Profile)
    → ((elim o [ none ↦ eqb n get_default_profile_name | some p ↦ true ]) ≡ true)
      ↔ ((n ≡ codes "debug") ⊎ ((elim o [ none ↦ false | some p ↦ true ]) ≡ true))
known_of n none = (
  λ h. inl ((eqb_iff n (codes "debug")).0 h),
  λ k. elim k [ inl e ↦ (eqb_iff n (codes "debug")).1 e | inr bad ↦ absurd (cc) ],
)
known_of n (some p) = (λ h. inr refl, λ h. refl)

known_of-found :
    (config : BuildConfiguration) (n : Bytes)
    → ((process_found config n (find_profile config.profiles n)).success ≡ true)
      ↔ ((n ≡ codes "debug") ⊎ (contains n (get_available_profiles config) ≡ true))
unfolding get_available_profiles
known_of-found config n =
    rw
      (
        success_of-found config n (find_profile config.profiles n),
        sym (find_profile-contains config.profiles n),
      )
      (known_of n (find_profile config.profiles n))

process_valid :
    (config : BuildConfiguration) (n : Bytes)
    → validate_profiles config ≡ []
    → ((process_profiles config n).success ≡ true) ↔ IsKnown config (get_effective_profile_name n)
unfolding process_profiles
process_valid config n h = elim (empty_or config.profiles) [
  | inl e ↦ (λ s. inl e, λ k. rw (h, e) refl)
  | inr e ↦
      rw (h, e)
        (
          λ s. inr ((known_of-found config (get_effective_profile_name n)).0 s),
          λ k. elim k [
            | inl e' ↦ absurd (cc)
            | inr k ↦ (known_of-found config (get_effective_profile_name n)).1 k
          ],
        )
]

process_invalid :
    (config : BuildConfiguration) (n : Bytes)
    → is_empty (validate_profiles config) ≡ false
    → (process_profiles config n).success ≡ false
unfolding process_profiles
process_invalid config n h = rw h refl

-- Processing succeeds exactly where every profile has a name of its own and the effective profile,
-- the given one or else "debug", is declared, is "debug", declared or not, or there are no profiles
-- at all.
pub process_profiles_succeeds :
    (config : BuildConfiguration) (n : Bytes)
    → ((process_profiles config n).success ≡ true)
      ↔ (Named [] (get_available_profiles config) × IsKnown config (get_effective_profile_name n))
unfolding get_available_profiles validate_profiles
process_profiles_succeeds config n = elim (empty_or (validate_profiles config)) [
  | inl h ↦ (
    λ s. (Named-of_valid [] config.profiles h, (process_valid config n h).0 s),
    λ k. (process_valid config n h).1 k.1,
  )
  | inr h ↦ (
    λ s. absurd (let bad = process_invalid config n h in cc),
    λ k. absurd (let bad = valid_of_Named [] config.profiles k.0 in ground arith),
  )
]

-- What every result has: a failure names an error and keeps the configuration, a success names the
-- effective profile; sources and outputs are never changed.
pub record Keeps (config : BuildConfiguration) (effective : Bytes) (r : ProfileProcessingResult)
    : Type 0 where
  pub unchanged : r.success ≡ false → r.processed_config ≡ config
  pub named_error : r.success ≡ false → is_empty r.error_message ≡ false
  pub active : r.success ≡ true → r.active_profile ≡ effective
  pub sources : r.processed_config.sources ≡ config.sources
  pub binaries : r.processed_config.binaries ≡ config.binaries
  pub libraries : r.processed_config.libraries ≡ config.libraries
  pub tests : r.processed_config.tests ≡ config.tests

-- a success that keeps them
Keeps-of_success :
    (config c : BuildConfiguration) (n : Bytes)
    → c.sources ≡ config.sources
    → c.binaries ≡ config.binaries
    → c.libraries ≡ config.libraries
    → c.tests ≡ config.tests
    → Keeps config n
        (record { success = true; processed_config = c; active_profile = n; error_message = [] })
Keeps-of_success config c n s b l t = record {
  unchanged = λ h. absurd (cc);
  named_error = λ h. absurd (cc);
  active = λ h. refl;
  sources = s;
  binaries = b;
  libraries = l;
  tests = t;
}

-- a failure that returns the configuration
Keeps-of_failure :
    (config : BuildConfiguration) (n m e : Bytes)
    → is_empty e ≡ false
    → Keeps config n (record {
      success = false;
      processed_config = config;
      active_profile = m;
      error_message = e;
    })
Keeps-of_failure config n m e h = record {
  unchanged = λ h. refl;
  named_error = λ k. h;
  active = λ h. absurd (cc);
  sources = refl;
  binaries = refl;
  libraries = refl;
  tests = refl;
}

process_found-Keeps :
    (config : BuildConfiguration) (n : Bytes) (o : Option Profile)
    → Keeps config n (process_found config n o)
unfolding process_found process_missing merge_profile
process_found-Keeps config n none =
    if_intro (Keeps config n) (eqb n get_default_profile_name)
      (λ h. Keeps-of_success config config n refl refl refl refl)
      (λ h. Keeps-of_failure config n n (codes "Profile '" ++ (n ++ codes "' not found")) refl)
process_found-Keeps config n (some p) =
    Keeps-of_success config (merge_profile config p) n refl refl refl refl

-- Every failure has a message and returns the configuration unchanged, every success reports the
-- effective profile, and neither changes the sources, the outputs or the tests.
pub process_profiles-Keeps :
    (config : BuildConfiguration) (n : Bytes)
    → Keeps config (get_effective_profile_name n) (process_profiles config n)
unfolding process_profiles
process_profiles-Keeps config n =
    if_intro (Keeps config (get_effective_profile_name n))
      (not (is_empty (validate_profiles config)))
      (λ h.
        Keeps-of_failure config (get_effective_profile_name n) [] (validate_profiles config)
          (ground arith))
      (λ h.
        if_intro (Keeps config (get_effective_profile_name n)) (is_empty config.profiles)
          (λ e. Keeps-of_success config config (get_effective_profile_name n) refl refl refl refl)
          (λ e.
            process_found-Keeps config (get_effective_profile_name n)
              (find_profile config.profiles (get_effective_profile_name n))))
