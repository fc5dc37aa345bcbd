-- ===== src/Configuration/Packages/Definitions.antt =====
-- The definitions that `merge_package_information` collects.
use cppup.Base.{
  true, ◌≡◌, refl, sym, ◌∙◌, append-nil, append_assoc, arith, List, [], ◌∷◌, ◌++◌, Option, none,
  some, Bytes, eqb, eqb_iff, eqb_refl, Bool-cases, inl, inr, ◌&&◌, ◌||◌,
}
use cppup.Configuration.Packages.{
  value_of, is_defined, insert_definition, has_pair, Defined, merge_definitions,
}

-- the first of two values
abbrev or_else : Option Bytes → Option Bytes → Option Bytes
or_else none o = o
or_else (some v) o = some v

or_else_known : (o p : Option Bytes) → is_defined o ≡ true → o ≡ or_else o p
or_else_known none p h = absurd (cc)
or_else_known (some v) p h = refl

or_else-none : (o : Option Bytes) → o ≡ or_else o none
or_else-none none = refl
or_else-none (some v) = refl

or_else-some : (o : Option Bytes) (v : Bytes) → is_defined (or_else o (some v)) ≡ true
or_else-some none v = refl
or_else-some (some w) v = refl

value_of-append :
    (n : Bytes) (xs ys : List (Bytes × Bytes))
    → value_of n (xs ++ ys) ≡ or_else (value_of n xs) (value_of n ys)
unfolding value_of
value_of-append n [] ys = refl
value_of-append n ((k, v) ∷ xs) ys = elim (Bool-cases (eqb k n)) [
  | inl e ↦ rw e refl
  | inr e ↦ rw e (value_of-append n xs ys)
]

-- a name that has a value keeps it
value_of-known :
    (n k v : Bytes) (l : List (Bytes × Bytes))
    → is_defined (value_of k l) ≡ true
    → value_of n l ≡ value_of n (l ++ ((k, v) ∷ []))
unfolding value_of
value_of-known n k v l h = elim (Bool-cases (eqb k n)) [
  | inl e ↦
      rw (value_of-append n l ((k, v) ∷ []))
        (or_else_known (value_of n l) _ (rw (sym ((eqb_iff k n).0 e)) h))
  | inr e ↦ rw (value_of-append n l ((k, v) ∷ []), e) (or_else-none (value_of n l))
]

value_of-insert_definition :
    (n k v : Bytes) (l : List (Bytes × Bytes))
    → value_of n (insert_definition k v l) ≡ value_of n (l ++ ((k, v) ∷ []))
unfolding insert_definition
value_of-insert_definition n k v l = elim (Bool-cases (is_defined (value_of k l))) [
  | inl e ↦ rw e (value_of-known n k v l e)
  | inr e ↦ rw e refl
]

-- The names have the values that `given` gives them first, and the pairs that were met are of such
-- names.
pub record IsDefined (given : List (Bytes × Bytes)) (d : Defined) : Type 0 where
  pub values : (n : Bytes) → value_of n d.all_definitions ≡ value_of n given
  pub seen :
      (k v : Bytes)
      → has_pair k v d.seen_definitions ≡ true
      → is_defined (value_of k d.all_definitions) ≡ true

met :
    (k v : Bytes) (given : List (Bytes × Bytes)) (d : Defined)
    → IsDefined given d
    → has_pair k v d.seen_definitions ≡ true
    → IsDefined (given ++ ((k, v) ∷ [])) d
met k v given d h c = record {
  values = λ n. h.values n ∙ value_of-known n k v given (rw (sym (h.values k)) (h.seen k v c));
  seen = h.seen;
}

new :
    (k v : Bytes) (given : List (Bytes × Bytes)) (d : Defined)
    → IsDefined given d
    → IsDefined (given ++ ((k, v) ∷ [])) (record {
      all_definitions = insert_definition k v d.all_definitions;
      seen_definitions = (k, v) ∷ d.seen_definitions;
    })
unfolding has_pair value_of
new k v given d h = record {
  values = λ n.
      rw
        (
          value_of-insert_definition n k v d.all_definitions,
          value_of-append n d.all_definitions ((k, v) ∷ []),
          value_of-append n given ((k, v) ∷ []),
          h.values n,
        )
        refl;
  seen = λ k' v' c.
      rw
        (
          value_of-insert_definition k' k v d.all_definitions,
          value_of-append k' d.all_definitions ((k, v) ∷ []),
        )
        (still k' v' c);
}
  where
    still :
        (k' v' : Bytes)
        → ((eqb k' k && eqb v' v) || has_pair k' v' d.seen_definitions) ≡ true
        → is_defined (or_else (value_of k' d.all_definitions) (value_of k' ((k, v) ∷ []))) ≡ true
    still k' v' c = elim (Bool-cases (eqb k' k)) [
      | inl e ↦ rw ((eqb_iff k' k).0 e, eqb_refl k) (or_else-some _ v)
      | inr e ↦
          let before : is_defined (value_of k' d.all_definitions) ≡ true =
            h.seen k' v' (ground arith) in
          rw
            (sym (or_else_known (value_of k' d.all_definitions) (value_of k' ((k, v) ∷ [])) before))
            before
    ]

pub merge_definitions-IsDefined :
    (definitions given : List (Bytes × Bytes)) (d : Defined)
    → IsDefined given d
    → IsDefined (given ++ definitions) (merge_definitions d definitions)
unfolding merge_definitions
merge_definitions-IsDefined [] given d h = rw (append-nil given) h
merge_definitions-IsDefined ((k, v) ∷ definitions) given d h =
    elim (Bool-cases (has_pair k v d.seen_definitions)) [
      | inl c ↦
          rw (c, sym (append_assoc given ((k, v) ∷ []) definitions))
            (merge_definitions-IsDefined definitions (given ++ ((k, v) ∷ [])) d
              (met k v given d h c))
      | inr c ↦
          rw (c, sym (append_assoc given ((k, v) ∷ []) definitions))
            (merge_definitions-IsDefined definitions (given ++ ((k, v) ∷ [])) _ (new k v given d h))
    ]

pub nothing-IsDefined : IsDefined [] (record { all_definitions = []; seen_definitions = [] })
unfolding has_pair
nothing-IsDefined = record { values = λ n. refl; seen = λ k v c. absurd (cc) }
