-- ===== src/Plugin/Manifest/Versions.antt =====
-- The parts of a text that is accepted as a version, or as a range of versions.
use cppup.Base.{
  ℕ, Bool, true, ◌||◌, ◌==◌, ◌≡◌, refl, ap, ◌∙◌, ◌⊎◌, inl, inr, arith, [], ◌∷◌, ◌++◌, append_assoc,
  append-nil, Bytes, codes, is_digit, is_space,
}
use cppup.Base.Regex.{
  Regex, empty, one, seq, alt, star, plus, maybe, literal, regex_match, match-star_one,
}
use cppup.Base.Parts.{
  match-seq, match-empty, match-either, match-maybe, match-Headed, match-one, IsRun, match-plus,
  match-Field, Repeats, no_more, one_more, match-star,
}
use cppup.Plugin.Manifest.Grammar.{
  IsVersion, IsOperator, equal, less, less_or_equal, greater, greater_or_equal, compatible, close,
  exactly, IsBound, IsBounds, no_bound, comma, IsRange,
}
use cppup.Plugin.Manifest.Formats.{
  is_tag, digit, spaces, version_then, bound, is_semver, is_semver_range,
}

-- a separator and a run, or neither
pub IsRun-behind :
    (sep : ℕ) (p : ℕ → Bool) (t : Bytes)
    → regex_match t (maybe (seq (one (λ d. d == sep)) (plus (one p)))) ≡ true
    → (t ≡ []) ⊎ ((u : Bytes) × (t ≡ sep ∷ u) × IsRun p u)
IsRun-behind sep p t h = elim (match-maybe (seq (one (λ d. d == sep)) (plus (one p))) t h) [
  | inl e ↦ inl e
  | inr e ↦
      let m = match-Headed (λ d. d == sep) (plus (one p)) t e in
      let found = m.holds in
      let same : m.byte ≡ sep = ground arith in
      inr (m.rest, m.text ∙ ap (λ d. d ∷ m.rest) same, match-plus p m.rest m.matches)
]

-- A version in front of the rest.
record VersionFirst (rest : Regex) (s : Bytes) : Type 0 where
  version : Bytes
  behind : Bytes
  text : s ≡ version ++ behind
  is_version : IsVersion version
  matches : regex_match behind rest ≡ true

-- five parts in front of the rest are one
together :
    (x y : ℕ) (a b c d e u : Bytes) {s t1 t2 t3 t4 : Bytes}
    → s ≡ a ++ (x ∷ t1)
    → t1 ≡ b ++ (y ∷ t2)
    → t2 ≡ c ++ t3
    → t3 ≡ d ++ t4
    → t4 ≡ e ++ u
    → s ≡ (a ++ (x ∷ (b ++ (y ∷ (c ++ (d ++ e)))))) ++ u
together x y a b c d e u h1 h2 h3 h4 h5 = rw (h1, h2, h3, h4, h5) (simp (append_assoc))

version_first :
    (rest : Regex) (s : Bytes) → regex_match s (version_then rest) ≡ true → VersionFirst rest s
version_first rest s h =
    let a = match-Field (plus digit) b'.' _ s h in
    let b = match-Field (plus digit) b'.' _ a.right a.matches_right in
    let c = match-seq (plus digit) _ b.right b.matches_right in
    let d = match-seq _ _ c.right c.matches_right in
    let e = match-seq _ rest d.right d.matches_right in
    record {
      version = a.left ++ (b'.' ∷ (b.left ++ (b'.' ∷ (c.left ++ (d.left ++ e.left)))));
      behind = e.right;
      text =
          together b'.' b'.' a.left b.left c.left d.left e.left e.right a.text b.text c.text d.text
            e.text;
      is_version = record {
        major = a.left;
        minor = b.left;
        patch = c.left;
        pre = d.left;
        build = e.left;
        text = refl;
        is_major = match-plus is_digit a.left a.matches_left;
        is_minor = match-plus is_digit b.left b.matches_left;
        is_patch = match-plus is_digit c.left c.matches_left;
        is_pre = IsRun-behind b'-' is_tag d.left d.matches_left;
        is_build = IsRun-behind b'+' is_tag e.left e.matches_left;
      };
      matches = e.matches_right;
    }

pub is_semver-IsVersion : (v : Bytes) → is_semver v ≡ true → IsVersion v
unfolding is_semver
is_semver-IsVersion v h =
    let f = version_first empty v h in
    rw (f.text, match-empty f.behind f.matches, append-nil f.version) f.is_version

compared :
    (op : Bytes)
    → regex_match op (seq (one (λ c. c == b'<' || c == b'>')) (maybe (literal (codes "=") empty)))
      ≡ true
    → IsOperator op
compared op h =
    let m = match-Headed (λ c. c == b'<' || c == b'>') (maybe (literal (codes "=") empty)) op h in
    rw m.text (behind_sign m.byte m.rest m.holds m.matches)
  where
    sign_of : (c : ℕ) → (c == b'<' || c == b'>') ≡ true → (c ≡ b'<') ⊎ (c ≡ b'>')
    sign_of c h = ground arith

    equals :
        (u : Bytes)
        → regex_match u (maybe (literal (codes "=") empty)) ≡ true
        → (u ≡ []) ⊎ (u ≡ codes "=")
    equals u h = elim (match-maybe (literal (codes "=") empty) u h) [
      | inl e ↦ inl e
      | inr e ↦
          let m = match-Headed (λ d. d == b'=') empty u e in
          let found = m.holds in
          let same : m.byte ≡ b'=' = ground arith in
          inr (m.text ∙ (rw (same, match-empty m.rest m.matches) refl))
    ]

    behind_sign :
        (c : ℕ) (u : Bytes)
        → (c == b'<' || c == b'>') ≡ true
        → regex_match u (maybe (literal (codes "=") empty)) ≡ true
        → IsOperator (c ∷ u)
    behind_sign c u h k = elim (sign_of c h) [
      | inl s ↦ elim (equals u k) [ inl e ↦ rw (s, e) less | inr e ↦ rw (s, e) less_or_equal ]
      | inr s ↦ elim (equals u k) [ inl e ↦ rw (s, e) greater | inr e ↦ rw (s, e) greater_or_equal ]
    ]

single :
    (op : Bytes)
    → regex_match op (one (λ c. c == b'^' || c == b'~' || c == b'=')) ≡ true
    → IsOperator op
single op h =
    let (c, e, k) = match-one (λ c. c == b'^' || c == b'~' || c == b'=') op h in
    rw e (elim (sign_of c k) [
      | inl s ↦ rw s compatible
      | inr (inl s) ↦ rw s close
      | inr (inr s) ↦ rw s exactly
    ])
  where
    sign_of :
        (c : ℕ)
        → (c == b'^' || c == b'~' || c == b'=') ≡ true
        → (c ≡ b'^') ⊎ ((c ≡ b'~') ⊎ (c ≡ b'='))
    sign_of c h = ground arith

IsOperator-of_match :
    (op : Bytes)
    → regex_match op (
        maybe (
          alt
            (seq (one (λ c. c == b'<' || c == b'>')) (maybe (literal (codes "=") empty)))
            (one (λ c. c == b'^' || c == b'~' || c == b'='))))
      ≡ true
    → IsOperator op
IsOperator-of_match op h = elim (match-maybe _ op h) [
  | inl e ↦ rw e equal
  | inr e ↦ elim (match-either _ _ op e) [ inl k ↦ compared op k | inr k ↦ single op k ]
]

IsBound-of_match : (t : Bytes) → regex_match t bound ≡ true → IsBound t
IsBound-of_match t h =
    let a = match-seq spaces _ t h in
    let b = match-seq _ _ a.right a.matches_right in
    let c = match-seq spaces _ b.right b.matches_right in
    let v = version_first spaces c.right c.matches_right in
    record {
      before = a.left;
      operator = b.left;
      between = c.left;
      version = v.version;
      behind = v.behind;
      text =
          a.text ∙ ap (◌++◌ a.left) (b.text ∙ ap (◌++◌ b.left) (c.text ∙ ap (◌++◌ c.left) v.text));
      is_operator = IsOperator-of_match b.left b.matches_left;
      is_version = v.is_version;
      is_blank = (
        match-star_one is_space a.left a.matches_left,
        match-star_one is_space c.left c.matches_left,
        match-star_one is_space v.behind v.matches,
      );
    }

IsBounds-of_Repeats : (s : Bytes) → Repeats (literal (codes ",") bound) s → IsBounds s
IsBounds-of_Repeats s no_more = no_bound
IsBounds-of_Repeats s (one_more t u h r) =
    let m = match-Headed (λ d. d == b',') bound t h in
    let found = m.holds in
    let same : m.byte ≡ b',' = ground arith in
    rw (m.text, same) (comma m.rest u (IsBound-of_match m.rest m.matches) (IsBounds-of_Repeats u r))

pub is_semver_range-IsRange : (s : Bytes) → is_semver_range s ≡ true → IsRange s
unfolding is_semver_range
is_semver_range-IsRange s h =
    let p = match-seq bound (star (literal (codes ",") bound)) s h in
    record {
      first = p.left;
      others = p.right;
      text = p.text;
      is_first = IsBound-of_match p.left p.matches_left;
      are_bounds =
          IsBounds-of_Repeats p.right
            (match-star (literal (codes ",") bound) p.right p.matches_right);
    }
