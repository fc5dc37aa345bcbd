-- ===== src/RefParser/Revisions.antt =====
-- How a ref is split into its base and its revision.
use cppup.Base.{
  ℕ, [], ◌∷◌, ◌++◌, Option, some, none, ◌==◌, true, false, ◌≡◌, ◌≢◌, refl, sym, ap, ◌⊎◌, inl, inr,
  arith, Bytes, codes, starts_with, Lacks, Option-cases, Bool-cases,
}
use cppup.RefParser.{
  cons_left, split_first, last_split, split_last, whole_or, split_revision, split_scp,
  split_git_revision,
}

-- The text lacks the byte, or it is the first one between two parts.
abbrev First : ℕ → Bytes → Option (Bytes × Bytes) → Type 0
First b ref none = Lacks b ref
First b ref (some (x, y)) = (x ++ (b ∷ y) ≡ ref) × Lacks b x

-- And the last one.
abbrev Last : ℕ → Bytes → Option (Bytes × Bytes) → Type 0
Last b ref none = Lacks b ref
Last b ref (some (x, y)) = (x ++ (b ∷ y) ≡ ref) × Lacks b y

differ : (c b : ℕ) → (c == b) ≡ false → c ≢ b
differ c b h = ground arith

cons_left-First :
    (b c : ℕ) (ref : Bytes) (o : Option (Bytes × Bytes))
    → (c == b) ≡ false
    → First b ref o
    → First b (c ∷ ref) (cons_left c o)
cons_left-First b c ref none n h = (differ c b n, h)
cons_left-First b c ref (some (x, y)) n (e, h) = (ap (◌∷◌ c) e, (differ c b n, h))

split_first-First : (b : ℕ) (ref : Bytes) → First b ref (split_first b ref)
unfolding split_first
split_first-First b [] = tt
split_first-First b (c ∷ ref) = elim (Bool-cases (c == b)) [
  | inl e ↦ rw e (let same : c ≡ b = ground arith in (ap (λ x. x ∷ ref) (sym same), tt))
  | inr e ↦ rw e (cons_left-First b c ref (split_first b ref) e (split_first-First b ref))
]

last_split-Last :
    (b c : ℕ) (ref : Bytes) (o : Option (Bytes × Bytes))
    → Last b ref o
    → Last b (c ∷ ref) (last_split b c ref o)
last_split-Last b c ref (some (x, y)) (e, h) = (ap (◌∷◌ c) e, h)
last_split-Last b c ref none h = elim (Bool-cases (c == b)) [
  | inl e ↦ rw e (let same : c ≡ b = ground arith in (ap (λ x. x ∷ ref) (sym same), h))
  | inr e ↦ rw e (differ c b e, h)
]

split_last-Last : (b : ℕ) (ref : Bytes) → Last b ref (split_last b ref)
unfolding split_last
split_last-Last b [] = tt
split_last-Last b (c ∷ ref) = last_split-Last b c ref (split_last b ref) (split_last-Last b ref)

-- The whole ref and no revision.
abbrev pub IsWhole : Bytes → Bytes × Bytes → Type 0
IsWhole ref (base, rev) = (base ≡ ref) × (rev ≡ [])

-- The revision is behind the last `@`, if there is one.
abbrev pub SplitsUrl : Bytes → Bytes × Bytes → Type 0
SplitsUrl ref (base, rev) =
    (Lacks b'@' ref × IsWhole ref (base, rev)) ⊎ ((base ++ (b'@' ∷ rev) ≡ ref) × Lacks b'@' rev)

-- The host is in front of the first colon, and the revision behind the first `@` of the path.
abbrev pub SplitsPath : Bytes → Bytes → Bytes → Bytes × Bytes → Type 0
SplitsPath ref host path (base, rev) =
    (Lacks b'@' path × IsWhole ref (base, rev))
    ⊎ ((p : Bytes) × (base ≡ host ++ (b':' ∷ p)) × (p ++ (b'@' ∷ rev) ≡ path) × Lacks b'@' p)

abbrev pub SplitsScp : Bytes → Bytes × Bytes → Type 0
SplitsScp ref parts =
    (Lacks b':' ref × IsWhole ref parts)
    ⊎ ((host : Bytes) × (path : Bytes) × (host ++ (b':' ∷ path) ≡ ref)
        × Lacks b':' host
        × SplitsPath ref host path parts)

-- A ref in the form of scp is one that begins with git@.
abbrev pub Splits : Bytes → Bytes × Bytes → Type 0
Splits ref parts =
    ((starts_with ref (codes "git@") ≡ true) × SplitsScp ref parts)
    ⊎ ((starts_with ref (codes "git@") ≡ false) × SplitsUrl ref parts)

whole_or-SplitsUrl :
    (ref : Bytes) (o : Option (Bytes × Bytes)) → Last b'@' ref o → SplitsUrl ref (whole_or ref o)
whole_or-SplitsUrl ref none h = inl (h, (refl, refl))
whole_or-SplitsUrl ref (some (x, y)) h = inr h

split_revision-SplitsUrl : (ref : Bytes) → SplitsUrl ref (split_revision ref)
unfolding split_revision
split_revision-SplitsUrl ref =
    whole_or-SplitsUrl ref (split_last b'@' ref) (split_last-Last b'@' ref)

split_scp-SplitsScp :
    (ref : Bytes) (o : Option (Bytes × Bytes)) → First b':' ref o → SplitsScp ref (split_scp ref o)
unfolding split_scp
split_scp-SplitsScp ref none h = inl (h, (refl, refl))
split_scp-SplitsScp ref (some (host, path)) (e, h) =
    let found = split_first-First b'@' path in
    elim (Option-cases (split_first b'@' path)) [
      | inl n ↦
          let lacks : Lacks b'@' path = rw n at found in
          rw (n, split_scp) (inr (host, path, e, h, inl (lacks, (refl, refl))))
      | inr (p, n) ↦
          let joined : First b'@' path (some p) = rw n at found in
          rw (n, split_scp) (inr (host, path, e, h, inr (p.0, refl, joined.0, joined.1)))
    ]

-- A git ref that begins with git@ is split at the first `@` behind the first colon, any other at the
-- last `@`, into its base and its revision; without such an `@` it is its own base, with no revision.
pub split_git_revision-Splits : (ref : Bytes) → Splits ref (split_git_revision ref)
unfolding split_git_revision
split_git_revision-Splits ref = elim (Bool-cases (starts_with ref (codes "git@"))) [
  | inl e ↦
      rw e (inl (refl, split_scp-SplitsScp ref (split_first b':' ref) (split_first-First b':' ref)))
  | inr e ↦ rw e (inr (refl, split_revision-SplitsUrl ref))
]

-- Where the byte is not in the text, and where it first or last is.
pub split_first-Lacks : (b : ℕ) (s : Bytes) → Lacks b s → split_first b s ≡ none
unfolding split_first
split_first-Lacks b [] h = refl
split_first-Lacks b (c ∷ s) (hc, h) = ground (arith, split_first-Lacks b s h)

pub split_first-append :
    (b : ℕ) (s t : Bytes) → Lacks b s → split_first b (s ++ (b ∷ t)) ≡ some (s, t)
unfolding split_first
split_first-append b [] t h = ground arith
split_first-append b (c ∷ s) t (hc, h) = ground (arith, split_first-append b s t h)

pub split_last-Lacks : (b : ℕ) (s : Bytes) → Lacks b s → split_last b s ≡ none
unfolding split_last
split_last-Lacks b [] h = refl
split_last-Lacks b (c ∷ s) (hc, h) = rw (split_last-Lacks b s h) (ground arith)

pub split_last-append :
    (b : ℕ) (s t : Bytes) → Lacks b t → split_last b (s ++ (b ∷ t)) ≡ some (s, t)
unfolding split_last
split_last-append b [] t h = rw (split_last-Lacks b t h) (ground arith)
split_last-append b (c ∷ s) t h = rw (split_last-append b s t h)
