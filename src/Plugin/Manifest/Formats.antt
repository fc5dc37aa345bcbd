-- ===== src/Plugin/Manifest/Formats.antt =====
-- The regular expressions of src/core/plugin/manifest.cpp. A whole value is matched, so that `^` and
-- `$` at its ends add nothing.
use cppup.Base.{ℕ, Bool, ◌&&◌, ◌||◌, ◌==◌, leb, is_digit, is_space, Bytes, codes}
use cppup.Base.Regex.{Regex, empty, one, seq, alt, star, literal, plus, maybe, times, regex_match}

abbrev pub is_lower : ℕ → Bool
is_lower c = leb b'a' c && leb c b'z'

abbrev pub is_upper : ℕ → Bool
is_upper c = leb b'A' c && leb c b'Z'

-- [0-9A-Za-z.-]
abbrev pub is_tag : ℕ → Bool
is_tag c = is_digit c || is_upper c || is_lower c || c == b'.' || c == b'-'

-- [a-z0-9_-]
abbrev pub is_name_byte : ℕ → Bool
is_name_byte c = is_lower c || is_digit c || c == b'_' || c == b'-'

-- [a-f0-9]
abbrev pub is_hex : ℕ → Bool
is_hex c = (leb b'a' c && leb c b'f') || is_digit c

abbrev pub digit : Regex
digit = one is_digit

abbrev dot : Regex
dot = one (λ c. c == b'.')

-- \d+\.\d+\.\d+(?:-[0-9A-Za-z.-]+)?(?:\+[0-9A-Za-z.-]+)?, in front of `rest`
abbrev pub version_then : Regex → Regex
version_then rest = seq (plus digit) (
    seq dot (
      seq (plus digit) (
        seq dot (
          seq (plus digit) (
            seq (maybe (literal (codes "-") (plus (one is_tag))))
              (seq (maybe (literal (codes "+") (plus (one is_tag)))) rest))))))

abbrev pub spaces : Regex
spaces = star (one is_space)

-- \s*(?:[<>]=?|[\^~=])?\s* and a version and \s*
abbrev pub bound : Regex
bound = seq spaces (
    seq
      (maybe (
        alt (seq (one (λ c. c == b'<' || c == b'>')) (maybe (literal (codes "=") empty)))
          (one (λ c. c == b'^' || c == b'~' || c == b'='))))
      (seq spaces (version_then spaces)))

unfoldable pub is_semver : Bytes → Bool
is_semver version = regex_match version (version_then empty)

-- behind a comma the \s* are those of `bound`
unfoldable pub is_semver_range : Bytes → Bool
is_semver_range range = regex_match range (seq bound (star (literal (codes ",") bound)))

unfoldable pub is_rfc3339 : Bytes → Bool
is_rfc3339 date_str = regex_match date_str (
    seq (times 4 digit) (
      literal (codes "-") (
        seq (times 2 digit) (
          literal (codes "-") (
            seq (times 2 digit) (
              literal (codes "T") (
                seq (times 2 digit) (
                  literal (codes ":") (
                    seq (times 2 digit) (
                      literal (codes ":") (
                        seq (times 2 digit) (
                          seq (maybe (seq dot (plus digit))) (
                            alt (literal (codes "Z") empty) (
                              seq (one (λ c. c == b'+' || c == b'-')) (
                                seq (times 2 digit)
                                  (literal (codes ":") (times 2 digit)))))))))))))))))

unfoldable pub is_valid_name : Bytes → Bool
is_valid_name name = regex_match name (seq (one is_lower) (star (one is_name_byte)))

unfoldable pub is_valid_build_hash : Bytes → Bool
is_valid_build_hash hash = regex_match hash (literal (codes "sha256:") (times 64 (one is_hex)))
