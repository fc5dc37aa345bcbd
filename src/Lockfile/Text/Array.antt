-- ===== src/Lockfile/Text/Array.antt =====
-- `parse_string_array` undoes `serialize_string_array`, and its loop ends.
use cppup.Base.{
  ℕ, zero, suc, ◌≤◌, ◌<◌, false, List, [], ◌∷◌, ◌++◌, ◌≡◌, refl, arith, Bytes, is_empty, ok,
  Outcome, ◌∙◌, ap, append_assoc, append-nil, some, length, length-append,
}
use cppup.Lockfile.Text.{
  quote_mark, escape, quote_rest, quote, array_rest, serialize_string_array, back, TextError,
  trim_back, trim_front, trim, closing, prepend, array_loop, next_element, remove_suffix,
  parse_string_array,
}
use cppup.Lockfile.Text.Trim.{trim_front_solid, trim_back-append, is_empty-append_left}
use cppup.Lockfile.Text.Quote.{is_empty-quote_rest, unquote-quote, trim_back-quote}

closing-escape :
    (c : ℕ) (t : Bytes)
    → is_empty t ≡ false
    → closing (escape c ++ t) ≡ prepend (escape c) (closing t)
unfolding closing escape
closing-escape c [] h = ground arith
closing-escape c (d ∷ t) h = ground arith

closing_mark : (t : Bytes) → closing (quote_mark ∷ t) ≡ some (quote_mark ∷ [], t)
unfolding closing
closing_mark [] = refl
closing_mark (c ∷ t) = refl

closing-quote_rest : (v t : Bytes) → closing (quote_rest v ++ t) ≡ some (quote_rest v, t)
unfolding quote_rest
closing-quote_rest [] t = closing_mark t
closing-quote_rest (c ∷ v) t = rw (append_assoc (escape c) (quote_rest v) t) (
    closing-escape c (quote_rest v ++ t)
      (is_empty-append_left (quote_rest v) t (is_empty-quote_rest v))
    ∙ ap (prepend (escape c)) (closing-quote_rest v t))

-- The array's text behind its first element, without the bracket that ends it.
elements_rest : List Bytes → Bytes
elements_rest [] = []
elements_rest (v ∷ values) = b',' ∷ b' ' ∷ (quote v ++ elements_rest values)

remove_suffix-append :
    (s t : Bytes) → is_empty t ≡ false → remove_suffix (s ++ t) ≡ s ++ remove_suffix t
unfolding remove_suffix
remove_suffix-append [] t h = refl
remove_suffix-append (c ∷ []) [] h = ground arith
remove_suffix-append (c ∷ []) (d ∷ t) h = refl
remove_suffix-append (c ∷ d ∷ s) t h = ap (◌∷◌ c) (remove_suffix-append (d ∷ s) t h)

is_empty-array_rest : (vs : List Bytes) → is_empty (array_rest vs) ≡ false
unfolding array_rest
is_empty-array_rest [] = refl
is_empty-array_rest (v ∷ vs) = refl

remove_suffix-array_rest : (vs : List Bytes) → remove_suffix (array_rest vs) ≡ elements_rest vs
unfolding array_rest elements_rest
remove_suffix-array_rest [] = unfold remove_suffix in refl
remove_suffix-array_rest (v ∷ vs) =
    remove_suffix-append (b',' ∷ b' ' ∷ quote v) (array_rest vs) (is_empty-array_rest vs)
    ∙ ap (λ t. b',' ∷ b' ' ∷ (quote v ++ t)) (remove_suffix-array_rest vs)

trim_back-element :
    (v : Bytes) (vs : List Bytes)
    → trim_back (elements_rest vs) ≡ elements_rest vs
    → trim_back (quote v ++ elements_rest vs) ≡ quote v ++ elements_rest vs
unfolding elements_rest
trim_back-element v [] h = rw (append-nil (quote v)) (trim_back-quote v)
trim_back-element v (w ∷ vs) h = trim_back-append (quote v) (elements_rest (w ∷ vs)) refl h

is_empty-quote : (v t : Bytes) → is_empty (quote v ++ t) ≡ false
unfolding quote
is_empty-quote v t = refl

trim_back-elements_rest : (vs : List Bytes) → trim_back (elements_rest vs) ≡ elements_rest vs
unfolding elements_rest
trim_back-elements_rest [] = unfold trim_back in refl
trim_back-elements_rest (v ∷ vs) =
    trim_back-append (b',' ∷ b' ' ∷ []) (quote v ++ elements_rest vs) (is_empty-quote v _)
      (trim_back-element v vs (trim_back-elements_rest vs))

trim_front-quote : (v t : Bytes) → trim_front (quote v ++ t) ≡ quote v ++ t
unfolding quote
trim_front-quote v t = trim_front_solid quote_mark (quote_rest v ++ t) refl

trim-elements :
    (v : Bytes) (vs : List Bytes) → trim (quote v ++ elements_rest vs) ≡ quote v ++ elements_rest vs
unfolding trim
trim-elements v vs =
    ap trim_back (trim_front-quote v (elements_rest vs))
    ∙ trim_back-element v vs (trim_back-elements_rest vs)

trim-elements_rest : (vs : List Bytes) → trim (elements_rest vs) ≡ elements_rest vs
unfolding trim elements_rest
trim-elements_rest [] = refl
trim-elements_rest (v ∷ vs) = trim_back-elements_rest (v ∷ vs)

array_loop_step :
    (f : ℕ) (v rest : Bytes) (out : List Bytes)
    → array_loop (suc f) (quote v ++ rest) out
      ≡ next_element (λ t. array_loop f t (out ++ v ∷ [])) (out ++ v ∷ []) (trim rest)
unfolding array_loop quote
array_loop_step f v rest out = rw (closing-quote_rest v rest, unquote-quote v)

next_element-elements_rest :
    (loop : Bytes → Outcome TextError (List Bytes)) (out : List Bytes) (w : Bytes) (vs : List Bytes)
    → next_element loop out (elements_rest (w ∷ vs)) ≡ loop (trim (quote w ++ elements_rest vs))
unfolding next_element elements_rest trim
next_element-elements_rest loop out w vs = refl

array_loop-elements :
    (f : ℕ) (v : Bytes) (vs out : List Bytes)
    → length vs < f
    → array_loop f (quote v ++ elements_rest vs) out ≡ ok (out ++ v ∷ vs)
array_loop-elements zero v vs out h = absurd (omega arith)
array_loop-elements (suc f) v [] out h =
    rw (array_loop_step f v _ out, trim-elements_rest [])
      (unfold next_element elements_rest in refl)
array_loop-elements (suc f) v (w ∷ vs) out h =
    rw (array_loop_step f v _ out, trim-elements_rest (w ∷ vs))
      (rw (next_element-elements_rest _ (out ++ v ∷ []) w vs, trim-elements w vs)
        (array_loop-elements f w vs (out ++ v ∷ []) (omega arith)
          ∙ ap ok (append_assoc out (v ∷ []) (w ∷ vs))))

back-append : (c : ℕ) (s t : Bytes) → is_empty t ≡ false → back c (s ++ t) ≡ back c t
unfolding back
back-append c [] t h = refl
back-append c (d ∷ s) [] h = ground arith
back-append c (d ∷ s) (e ∷ t) h = back-append d s (e ∷ t) h

back-array_rest : (c : ℕ) (vs : List Bytes) → back c (array_rest vs) ≡ b']'
unfolding array_rest
back-array_rest c [] = unfold back in refl
back-array_rest c (v ∷ vs) =
    back-append c (b',' ∷ b' ' ∷ quote v) (array_rest vs) (is_empty-array_rest vs)
    ∙ back-array_rest c vs

length-elements_rest : (vs : List Bytes) → length vs ≤ length (elements_rest vs)
unfolding elements_rest
length-elements_rest [] = omega arith
length-elements_rest (v ∷ vs) =
    omega (arith, length-append (quote v) (elements_rest vs), length-elements_rest vs)

enough_fuel : (v : Bytes) (vs : List Bytes) → length vs < length (quote v ++ elements_rest vs)
unfolding quote
enough_fuel v vs =
    omega (arith, length-append (quote_rest v) (elements_rest vs), length-elements_rest vs)

remove_suffix-elements :
    (v : Bytes) (vs : List Bytes)
    → remove_suffix (quote v ++ array_rest vs) ≡ quote v ++ elements_rest vs
remove_suffix-elements v vs =
    remove_suffix-append (quote v) (array_rest vs) (is_empty-array_rest vs)
    ∙ ap (λ t. quote v ++ t) (remove_suffix-array_rest vs)

abbrev array_body : Bytes → Outcome TextError (List Bytes)
array_body value = array_loop (length value) value []

parse_string_array_lem :
    (s : Bytes)
    → is_empty s ≡ false
    → back b'[' s ≡ b']'
    → parse_string_array (b'[' ∷ s) ≡ array_body (trim (remove_suffix s))
unfolding parse_string_array back
parse_string_array_lem [] h e = ground arith
parse_string_array_lem (c ∷ s) h e = rw e

-- What `serialize_string_array` writes, `parse_string_array` reads back, whatever the texts hold.
pub parse_string_array-serialize_string_array :
    (vs : List Bytes) → parse_string_array (serialize_string_array vs) ≡ ok vs
unfolding serialize_string_array
parse_string_array-serialize_string_array [] =
    parse_string_array_lem (b']' ∷ []) refl (unfold back in refl)
    ∙ (unfold remove_suffix trim array_loop in refl)
parse_string_array-serialize_string_array (v ∷ vs) =
    parse_string_array_lem (quote v ++ array_rest vs) (is_empty-quote v (array_rest vs)) (
      back-append b'[' (quote v) (array_rest vs) (is_empty-array_rest vs) ∙ back-array_rest b'[' vs)
    ∙ rw (remove_suffix-elements v vs, trim-elements v vs)
        (array_loop-elements _ v vs [] (enough_fuel v vs))

trim_back-array_rest : (vs : List Bytes) → trim_back (array_rest vs) ≡ array_rest vs
unfolding array_rest
trim_back-array_rest [] = unfold trim_back in refl
trim_back-array_rest (v ∷ vs) =
    trim_back-append (b',' ∷ b' ' ∷ quote v) (array_rest vs) (is_empty-array_rest vs)
      (trim_back-array_rest vs)

-- The text of an array has nothing to trim at its end.
pub trim_back-serialize_string_array :
    (vs : List Bytes) → trim_back (serialize_string_array vs) ≡ serialize_string_array vs
unfolding serialize_string_array
trim_back-serialize_string_array [] = unfold trim_back in refl
trim_back-serialize_string_array (v ∷ vs) =
    trim_back-append (b'[' ∷ quote v) (array_rest vs) (is_empty-array_rest vs)
      (trim_back-array_rest vs)
