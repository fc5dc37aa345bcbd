-- ===== src/Plugin/Manifest/Dates.antt =====
-- The parts of a text that is accepted as a date.
use cppup.Base.{
  ℕ, true, ◌||◌, ◌==◌, ◌≡◌, refl, ap, ◌∙◌, ◌⊎◌, inl, inr, arith, ◌∷◌, ◌++◌, Bytes, codes, is_digit,
}
use cppup.Base.Regex.{empty, one, seq, alt, times, literal, regex_match, match-times}
use cppup.Base.Parts.{match-seq, match-empty, match-either, match-Headed, match-Field}
use cppup.Plugin.Manifest.Grammar.{IsOffset, IsDate}
use cppup.Plugin.Manifest.Formats.{digit, is_rfc3339}
use cppup.Plugin.Manifest.Versions.{IsRun-behind}

IsOffset-of_match :
    (t : Bytes)
    → regex_match t (
        seq
          (one (λ c. c == b'+' || c == b'-'))
          (seq (times 2 digit) (literal (codes ":") (times 2 digit))))
      ≡ true
    → IsOffset t
IsOffset-of_match t h =
    let m = match-Headed (λ c. c == b'+' || c == b'-') _ t h in
    let f = match-Field (times 2 digit) b':' (times 2 digit) m.rest m.matches in
    record {
      sign = m.byte;
      hours = f.left;
      minutes = f.right;
      text = m.text ∙ ap (◌∷◌ m.byte) f.text;
      is_sign = sign_of m.byte m.holds;
      is_hours = match-times 2 is_digit f.left f.matches_left;
      is_minutes = match-times 2 is_digit f.right f.matches_right;
    }
  where
    sign_of : (c : ℕ) → (c == b'+' || c == b'-') ≡ true → (c ≡ b'+') ⊎ (c ≡ b'-')
    sign_of c h = ground arith

zone_of :
    (t : Bytes)
    → regex_match t (
        alt (literal (codes "Z") empty) (
          seq
            (one (λ c. c == b'+' || c == b'-'))
            (seq (times 2 digit) (literal (codes ":") (times 2 digit)))))
      ≡ true
    → (t ≡ codes "Z") ⊎ IsOffset t
zone_of t h = elim (match-either _ _ t h) [
  | inl k ↦
      let m = match-Headed (λ d. d == b'Z') empty t k in
      let found = m.holds in
      let same : m.byte ≡ b'Z' = ground arith in
      inl (m.text ∙ (rw (same, match-empty m.rest m.matches) refl))
  | inr k ↦ inr (IsOffset-of_match t k)
]

-- a field in front of the rest, whose parts are known
after_field : (c : ℕ) (a : Bytes) {s t u : Bytes} → s ≡ a ++ (c ∷ t) → t ≡ u → s ≡ a ++ (c ∷ u)
after_field c a h k = h ∙ ap (λ x. a ++ (c ∷ x)) k

pub is_rfc3339-IsDate : (s : Bytes) → is_rfc3339 s ≡ true → IsDate s
unfolding is_rfc3339
is_rfc3339-IsDate s h =
    let year = match-Field (times 4 digit) b'-' _ s h in
    let month = match-Field (times 2 digit) b'-' _ year.right year.matches_right in
    let day = match-Field (times 2 digit) b'T' _ month.right month.matches_right in
    let hour = match-Field (times 2 digit) b':' _ day.right day.matches_right in
    let minute = match-Field (times 2 digit) b':' _ hour.right hour.matches_right in
    let second = match-seq (times 2 digit) _ minute.right minute.matches_right in
    let fraction = match-seq _ _ second.right second.matches_right in
    record {
      year = year.left;
      month = month.left;
      day = day.left;
      hour = hour.left;
      minute = minute.left;
      second = second.left;
      fraction = fraction.left;
      zone = fraction.right;
      text = after_field b'-' year.left year.text (
          after_field b'-' month.left month.text (
            after_field b'T' day.left day.text (
              after_field b':' hour.left hour.text (
                after_field b':' minute.left minute.text
                  (second.text ∙ ap (◌++◌ second.left) fraction.text)))));
      is_year = match-times 4 is_digit year.left year.matches_left;
      is_month = match-times 2 is_digit month.left month.matches_left;
      is_day = match-times 2 is_digit day.left day.matches_left;
      is_hour = match-times 2 is_digit hour.left hour.matches_left;
      is_minute = match-times 2 is_digit minute.left minute.matches_left;
      is_second = match-times 2 is_digit second.left second.matches_left;
      is_fraction = IsRun-behind b'.' is_digit fraction.left fraction.matches_left;
      is_zone = zone_of fraction.right fraction.matches_right;
    }
