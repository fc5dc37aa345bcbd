-- ===== src/Lockfile/Text/Newlines.antt =====
-- Quoting adds no newline, and unquoting gives no byte that was not there.
use cppup.Base.{
  ℕ, List, [], ◌∷◌, ◌++◌, ◌≢◌, arith, Bytes, Lacks, All, All-append, Ensures, Option, some, none,
  inl, inr, ◌==◌, not, if_intro, ◌||◌, Outcome, zero, suc, Option-cases, Ensures-bind,
}
use cppup.Lockfile.Text.{
  escape, quote_rest, quote, array_rest, serialize_string_array, back, unquote_loop, unquote,
  trim_front, trim_back, trim, remove_suffix, closing, prepend, quote_mark, backslash, TextError,
  next_element, array_loop, parse_string_array,
}

abbrev newline : ℕ
newline = b'\n'

escape-Lacks : (c : ℕ) → c ≢ newline → Lacks newline (escape c)
unfolding escape
escape-Lacks c h = ground arith

quote_rest-Lacks : (v : Bytes) → Lacks newline v → Lacks newline (quote_rest v)
unfolding quote_rest
quote_rest-Lacks [] h = omega arith
quote_rest-Lacks (c ∷ v) (hc, hv) =
    All-append _ (escape c) (quote_rest v) (escape-Lacks c hc) (quote_rest-Lacks v hv)

pub quote-Lacks : (v : Bytes) → Lacks newline v → Lacks newline (quote v)
unfolding quote
quote-Lacks v h = (omega arith, quote_rest-Lacks v h)

array_rest-Lacks : (vs : List Bytes) → All (Lacks newline) vs → Lacks newline (array_rest vs)
unfolding array_rest
array_rest-Lacks [] h = omega arith
array_rest-Lacks (v ∷ vs) (hv, h) = (
  omega arith,
  (omega arith, All-append _ (quote v) (array_rest vs) (quote-Lacks v hv) (array_rest-Lacks vs h)),
)

pub serialize_string_array-Lacks :
    (vs : List Bytes) → All (Lacks newline) vs → Lacks newline (serialize_string_array vs)
unfolding serialize_string_array
serialize_string_array-Lacks [] h = omega arith
serialize_string_array-Lacks (v ∷ vs) (hv, h) =
    (omega arith, All-append _ (quote v) (array_rest vs) (quote-Lacks v hv) (array_rest-Lacks vs h))

-- No text that is read out of `s` holds a byte that `s` lacks.
module _ (b : ℕ) where
  unquote_loop-Lacks : (s : Bytes) → Lacks b s → Lacks b (unquote_loop s)
  unfolding unquote_loop
  unquote_loop-Lacks [] h = tt
  unquote_loop-Lacks (c ∷ []) h = tt
  unquote_loop-Lacks (c ∷ d ∷ s) (hc, (hd, h)) =
      ground (arith, unquote_loop-Lacks s h, unquote_loop-Lacks (d ∷ s) (hd, h))

  pub unquote-Lacks : (s : Bytes) → Lacks b s → Ensures (Lacks b) (unquote s)
  unfolding unquote
  unquote-Lacks [] h = tt
  unquote-Lacks (c ∷ []) h = tt
  unquote-Lacks (c ∷ d ∷ s) (hc, h) =
      if_intro (Ensures (Lacks b)) (not (c == quote_mark) || not (back d s == quote_mark)) (λ _. tt)
        (λ _. unquote_loop-Lacks (d ∷ s) h)

  trim_front-Lacks : (s : Bytes) → Lacks b s → Lacks b (trim_front s)
  unfolding trim_front
  trim_front-Lacks [] h = tt
  trim_front-Lacks (c ∷ s) (hc, h) = ground (arith, trim_front-Lacks s h)

  trim_back-Lacks : (s : Bytes) → Lacks b s → Lacks b (trim_back s)
  unfolding trim_back
  trim_back-Lacks [] h = tt
  trim_back-Lacks (c ∷ s) (hc, h) = ground (arith, trim_back-Lacks s h)

  pub trim-Lacks : (s : Bytes) → Lacks b s → Lacks b (trim s)
  unfolding trim
  trim-Lacks s h = trim_back-Lacks (trim_front s) (trim_front-Lacks s h)

  remove_suffix-Lacks : (s : Bytes) → Lacks b s → Lacks b (remove_suffix s)
  unfolding remove_suffix
  remove_suffix-Lacks [] h = tt
  remove_suffix-Lacks (c ∷ []) h = tt
  remove_suffix-Lacks (c ∷ d ∷ s) (hc, h) = (hc, remove_suffix-Lacks (d ∷ s) h)

  abbrev PartsLack : Option (Bytes × Bytes) → Type 0
  PartsLack none = Unit
  PartsLack (some (s, t)) = Lacks b s × Lacks b t

  prepend-Lacks :
      (s : Bytes) (o : Option (Bytes × Bytes)) → Lacks b s → PartsLack o → PartsLack (prepend s o)
  prepend-Lacks s none hs h = tt
  prepend-Lacks s (some (t, u)) hs (ht, hu) = (All-append _ s t hs ht, hu)

  closing-Lacks : (s : Bytes) → Lacks b s → PartsLack (closing s)
  unfolding closing
  closing-Lacks [] h = tt
  closing-Lacks (c ∷ []) h = if_intro PartsLack (c == quote_mark) (λ _. (h, tt)) (λ _. tt)
  closing-Lacks (c ∷ d ∷ s) (hc, (hd, h)) =
      if_intro PartsLack (c == quote_mark) (λ _. ((hc, tt), (hd, h)))
        (λ _.
          if_intro PartsLack (c == backslash)
            (λ _. prepend-Lacks (c ∷ d ∷ []) (closing s) (hc, (hd, tt)) (closing-Lacks s h))
            (λ _.
              prepend-Lacks (c ∷ []) (closing (d ∷ s)) (hc, tt) (closing-Lacks (d ∷ s) (hd, h))))

  abbrev AllLack : List Bytes → Type 0
  AllLack = All (Lacks b)

  next_element-Lacks :
      (loop : Bytes → Outcome TextError (List Bytes)) (out : List Bytes) (s : Bytes)
      → ((t : Bytes) → Lacks b t → Ensures AllLack (loop t))
      → AllLack out
      → Lacks b s
      → Ensures AllLack (next_element loop out s)
  unfolding next_element
  next_element-Lacks loop out [] hl ho h = ho
  next_element-Lacks loop out (c ∷ s) hl ho (hc, h) =
      if_intro (Ensures AllLack) (c == b',') (λ _. hl (trim s) (trim-Lacks s h)) (λ _. tt)

  array_loop-Lacks :
      (f : ℕ) (s : Bytes) (out : List Bytes)
      → Lacks b s
      → AllLack out
      → Ensures AllLack (array_loop f s out)
  unfolding array_loop
  array_loop-Lacks f [] out h ho = ho
  array_loop-Lacks zero (c ∷ s) out h ho = tt
  array_loop-Lacks (suc f) (c ∷ s) out (hc, h) ho =
      if_intro (Ensures AllLack) (not (c == quote_mark)) (λ _. tt)
        (λ _. elim (Option-cases (closing s)) [
          | inl n ↦ rw n tt
          | inr (p, q) ↦ rw q (
              let parts : PartsLack (some p) = rw q at (closing-Lacks s h) in
              Ensures-bind (Lacks b) AllLack (unquote (c ∷ p.0)) _
                (unquote-Lacks (c ∷ p.0) (hc, parts.0))
                (λ v hv.
                  let longer : AllLack (out ++ v ∷ []) = All-append _ out (v ∷ []) ho (hv, tt) in
                  next_element-Lacks _ (out ++ v ∷ []) (trim p.1)
                    (λ t ht. array_loop-Lacks f t (out ++ v ∷ []) ht longer) longer
                    (trim-Lacks p.1 parts.1)))
        ])

  pub parse_string_array-Lacks : (s : Bytes) → Lacks b s → Ensures AllLack (parse_string_array s)
  unfolding parse_string_array
  parse_string_array-Lacks [] h = tt
  parse_string_array-Lacks (c ∷ []) h = tt
  parse_string_array-Lacks (c ∷ d ∷ s) (hc, h) =
      if_intro (Ensures AllLack) (not (c == b'[') || not (back d s == b']')) (λ _. tt)
        (λ _.
          array_loop-Lacks _ (trim (remove_suffix (d ∷ s))) []
            (trim-Lacks (remove_suffix (d ∷ s)) (remove_suffix-Lacks (d ∷ s) h)) tt)
