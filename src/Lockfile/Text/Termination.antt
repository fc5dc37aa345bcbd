-- ===== src/Lockfile/Text/Termination.antt =====
-- The fuel of the loop in `parse_string_array` never runs out.
use cppup.Base.{
  ℕ, zero, suc, ◌≤◌, List, [], ◌∷◌, ◌++◌, ◌≡◌, ◌≢◌, refl, arith, Bytes, err, Outcome, some, none,
  length, Option, ◌<◌, ◌==◌, inl, inr, ap, Bool-cases, Option-cases, bind-ne-err,
}
use cppup.Lockfile.Text.{
  quote_mark, unquote, TextError, trim_back, trim_front, trim, closing, prepend, remove_suffix,
  array_loop, next_element, parse_string_array, out_of_fuel,
}

length-trim_front : (s : Bytes) → length (trim_front s) ≤ length s
unfolding trim_front
length-trim_front [] = omega arith
length-trim_front (c ∷ s) = ground (arith, length-trim_front s)

length-trim_back : (s : Bytes) → length (trim_back s) ≤ length s
unfolding trim_back
length-trim_back [] = omega arith
length-trim_back (c ∷ s) = ground (arith, length-trim_back s)

length-trim : (s : Bytes) → length (trim s) ≤ length s
unfolding trim
length-trim s = omega (arith, length-trim_back (trim_front s), length-trim_front s)

abbrev rest_length : Option (Bytes × Bytes) → ℕ
rest_length none = 0
rest_length (some (a, b)) = length b

rest_length-prepend :
    (t : Bytes) (o : Option (Bytes × Bytes)) → rest_length (prepend t o) ≡ rest_length o
rest_length-prepend t none = refl
rest_length-prepend t (some (a, b)) = refl

closing_le : (s : Bytes) → rest_length (closing s) ≤ length s
unfolding closing
closing_le [] = omega arith
closing_le (c ∷ []) = ground arith
closing_le (c ∷ d ∷ s) = ground (
  arith,
  closing_le s,
  closing_le (d ∷ s),
  rest_length-prepend (c ∷ d ∷ []) (closing s),
  rest_length-prepend (c ∷ []) (closing (d ∷ s)),
)

unquote-ne : (s : Bytes) → unquote s ≢ err out_of_fuel
unfolding unquote
unquote-ne [] h = ground arith
unquote-ne (c ∷ []) h = ground arith
unquote-ne (c ∷ d ∷ s) h = ground arith

next_element-ne :
    (loop : Bytes → Outcome TextError (List Bytes)) (out : List Bytes) (n : ℕ)
    → ((t : Bytes) → length t < n → loop t ≢ err out_of_fuel)
    → (s : Bytes) → length s ≤ n
    → next_element loop out s ≢ err out_of_fuel
unfolding next_element
next_element-ne loop out n h [] le e = ground arith
next_element-ne loop out n h (c ∷ s) le e = ground (arith, h (trim s), length-trim s)

array_loop-ne :
    (f : ℕ) (s : Bytes) (out : List Bytes) → length s ≤ f → array_loop f s out ≢ err out_of_fuel
unfolding array_loop
array_loop-ne f [] out h = λ x. cc
array_loop-ne zero (c ∷ s) out h = λ x. absurd (omega arith)
array_loop-ne (suc f) (c ∷ s) out h = elim (Bool-cases (c == quote_mark)) [
  | inr e ↦ rw e (λ x. cc)
  | inl e ↦ rw e (elim (Option-cases (closing s)) [
    | inl n ↦ rw n (λ x. cc)
    | inr (p, q) ↦ rw q (
        bind-ne-err (unquote (c ∷ p.0)) _ (unquote-ne (c ∷ p.0)) (λ element.
          next_element-ne _ (out ++ element ∷ []) (length s)
            (λ t lt. array_loop-ne f t (out ++ element ∷ []) (omega arith)) (trim p.1)
            (omega (arith, length-trim p.1, closing_le s, ap rest_length q))))
  ])
]

-- The loop over the elements ends for every text: each round takes a byte at least.
pub parse_string_array-total : (s : Bytes) → parse_string_array s ≢ err out_of_fuel
unfolding parse_string_array
parse_string_array-total [] e = ground arith
parse_string_array-total (c ∷ []) e = ground arith
parse_string_array-total (c ∷ d ∷ s) e =
    ground (
      arith,
      array_loop-ne (length (trim (remove_suffix (d ∷ s)))) (trim (remove_suffix (d ∷ s))) [],
    )
