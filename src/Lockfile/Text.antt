-- ===== src/Lockfile/Text.antt =====
-- lockfile.cpp: quoting, trimming, string arrays and `key = value` lines.
pub mod Trim
pub mod Quote
pub mod Array
pub mod Termination
pub mod Newlines
use cppup.Base.{
  ℕ, zero, suc, ◌+◌, Bool, true, false, not, ◌&&◌, ◌||◌, List, [], ◌∷◌, ◌++◌, Option, none, some,
  ◌==◌, if◌then◌else◌, Bytes, is_empty, length, Outcome, ok, err, ◌>>=◌,
}

-- The messages of `unquote` and `parse_string_array`. The last one stands for no message: it says
-- that the fuel of the model ran out.
pub data TextError : Type 0 where
  expected_quoted_string expected_array element_not_quoted : TextError
  unterminated_string expected_comma out_of_fuel : TextError

abbrev pub quote_mark : ℕ
quote_mark = b'"'

abbrev pub backslash : ℕ
backslash = b'\\'

-- one round of the loop in `quote`
unfoldable pub escape : ℕ → Bytes
escape chr = if chr == backslash || chr == quote_mark then backslash ∷ chr ∷ [] else chr ∷ []

-- the rounds of the loop, and the closing mark
unfoldable pub quote_rest : Bytes → Bytes
quote_rest [] = quote_mark ∷ []
quote_rest (chr ∷ value) = escape chr ++ quote_rest value

unfoldable pub quote : Bytes → Bytes
unfolding quote_rest escape
quote value = quote_mark ∷ quote_rest value

-- value.back(), of a text that begins with `c`
unfoldable pub back : ℕ → Bytes → ℕ
back c [] = c
back c (d ∷ s) = back d s

-- The loop of `unquote` over value[i..]. `i + 1 < value.size()` says that two bytes are left,
-- `i + 2 < value.size()` that three are.
unfoldable pub unquote_loop : Bytes → Bytes
unquote_loop [] = []
unquote_loop (c ∷ []) = []
unquote_loop (c ∷ d ∷ rest) =
    let skipped = d ∷ unquote_loop rest in
    let copied = c ∷ unquote_loop (d ∷ rest) in
    if c == backslash && not (is_empty rest) then skipped else copied

unfoldable pub unquote : Bytes → Outcome TextError Bytes
unfolding unquote_loop back
unquote [] = err expected_quoted_string
unquote (c ∷ []) = err expected_quoted_string
unquote (c ∷ d ∷ rest) =
    if not (c == quote_mark) || not (back d rest == quote_mark)
    then err expected_quoted_string
    else ok (unquote_loop (d ∷ rest))

-- the rounds of the loop behind the first value
unfoldable pub array_rest : List Bytes → Bytes
unfolding quote
array_rest [] = b']' ∷ []
array_rest (v ∷ values) = b',' ∷ b' ' ∷ (quote v ++ array_rest values)

unfoldable pub serialize_string_array : List Bytes → Bytes
unfolding array_rest quote
serialize_string_array [] = b'[' ∷ b']' ∷ []
serialize_string_array (v ∷ values) = b'[' ∷ (quote v ++ array_rest values)

abbrev pub is_blank : ℕ → Bool
is_blank c = c == b' ' || c == b'\t' || c == b'\r'

unfoldable pub trim_front : Bytes → Bytes
trim_front [] = []
trim_front (c ∷ text) = let rest = trim_front text in if is_blank c then rest else c ∷ text

unfoldable pub trim_back : Bytes → Bytes
trim_back [] = []
trim_back (c ∷ text) =
    let rest = trim_back text in if is_blank c && is_empty rest then [] else c ∷ rest

unfoldable pub trim : Bytes → Bytes
unfolding trim_front trim_back
trim text = trim_back (trim_front text)

abbrev pub prepend : Bytes → Option (Bytes × Bytes) → Option (Bytes × Bytes)
prepend s none = none
prepend s (some (a, b)) = some (s ++ a, b)

-- The search for `end`: the text up to the closing mark, which it includes, and what follows.
unfoldable pub closing : Bytes → Option (Bytes × Bytes)
closing [] = none
closing (c ∷ []) = if c == quote_mark then some (c ∷ [], []) else none
closing (c ∷ d ∷ rest) =
    let escaped = prepend (c ∷ d ∷ []) (closing rest) in
    let plain = prepend (c ∷ []) (closing (d ∷ rest)) in
    if c == quote_mark then some (c ∷ [], d ∷ rest) else if c == backslash then escaped else plain

-- the end of a round: nothing is left, or a comma and the next round
unfoldable pub next_element :
    (Bytes → Outcome TextError (List Bytes)) → List Bytes → Bytes → Outcome TextError (List Bytes)
unfolding trim
next_element loop out [] = ok out
next_element loop out (c ∷ value) = if c == b',' then loop (trim value) else err expected_comma

unfoldable pub array_loop : ℕ → Bytes → List Bytes → Outcome TextError (List Bytes)
unfolding closing unquote next_element
array_loop fuel [] out = ok out
array_loop zero (c ∷ value) out = err out_of_fuel
array_loop (suc fuel) (c ∷ value) out =
    if not (c == quote_mark) then err element_not_quoted else elim (closing value) [
      | none ↦ err unterminated_string
      | some (text, rest) ↦ (do
        element ← unquote (c ∷ text)
        next_element (λ v. array_loop fuel v (out ++ element ∷ [])) (out ++ element ∷ [])
            (trim rest))
    ]

-- value without its last byte
unfoldable pub remove_suffix : Bytes → Bytes
remove_suffix [] = []
remove_suffix (c ∷ []) = []
remove_suffix (c ∷ d ∷ s) = c ∷ remove_suffix (d ∷ s)

-- Each round takes a byte at least, so the length is fuel enough.
unfoldable pub parse_string_array : Bytes → Outcome TextError (List Bytes)
unfolding array_loop back trim remove_suffix
parse_string_array [] = err expected_array
parse_string_array (c ∷ []) = err expected_array
parse_string_array (c ∷ d ∷ rest) =
    if not (c == b'[') || not (back d rest == b']')
    then err expected_array
    else (let value = trim (remove_suffix (d ∷ rest)) in array_loop (length value) value [])
