-- ===== src/Configuration/CompileCommands/Reading.antt =====
-- How the parts of an entry of compile_commands.json are read as JSON.
use cppup.Base.{
  Bool, true, false, List, [], ◌∷◌, ◌++◌, ◌≡◌, refl, ◌∙◌, Option, none, some, Bytes, codes,
}
use cppup.Configuration.CompileCommands.{json_escape, put_flags}
use cppup.Configuration.CompileCommands.Json.{
  Token, punctuation, text, Mode, between, quoted, tokens, step, prepend, tokens-string,
}

-- a comma and a string for each
abbrev pub listed : List Bytes → List Token → List Token
listed [] rest = rest
listed (s ∷ l) rest = punctuation b',' ∷ text s ∷ listed l rest

-- {"directory": …, "file": …, "arguments": […]}
abbrev pub entry : Bytes → List Bytes → Bytes → Bytes → List Token → List Token
entry compiler flags root source rest =
    punctuation b'{'
    ∷ text (codes "directory")
    ∷ punctuation b':'
    ∷ text root
    ∷ punctuation b','
    ∷ text (codes "file")
    ∷ punctuation b':'
    ∷ text source
    ∷ punctuation b','
    ∷ text (codes "arguments")
    ∷ punctuation b':'
    ∷ punctuation b'['
    ∷ text compiler
    ∷ listed (codes "-c" ∷ flags)
        (punctuation b',' ∷ text source ∷ punctuation b']' ∷ punctuation b'}' ∷ rest)

-- the entries, with a comma in front of all but the first
abbrev pub entries : Bytes → List Bytes → Bytes → Bool → List Bytes → List Token → List Token
entries compiler flags root first [] rest = rest
entries compiler flags root true (source ∷ sources) rest =
    entry compiler flags root source (entries compiler flags root false sources rest)
entries compiler flags root false (source ∷ sources) rest =
    punctuation b','
    ∷ entry compiler flags root source (entries compiler flags root false sources rest)

-- all the sources of the groups
abbrev pub concat : List (List Bytes) → List Bytes
concat [] = []
concat (l ∷ ls) = l ++ concat ls

-- the text is read as the tokens, in front of what is read behind it
pub record Reads (m : Mode) (s : Bytes) (ts : List Token) (r : Option (List Token)) : Type 0 where
  pub reads : tokens m s ≡ prepend ts r

pub string_Reads :
    (t rest : Bytes) (ts : List Token) (r : Option (List Token))
    → Reads between rest ts r
    → Reads (quoted []) (json_escape t ++ (b'"' ∷ rest)) (text t ∷ ts) r
string_Reads t rest ts r h = record { reads = tokens-string t rest ∙ (rw h.reads (twice r)) }
  where
    twice :
        (r : Option (List Token)) → prepend (text t ∷ []) (prepend ts r) ≡ prepend (text t ∷ ts) r
    twice none = refl
    twice (some x) = refl

module _ (rest : Bytes) (ts : List Token) where
  pub comma_Reads :
      (r : Option (List Token))
      → Reads (quoted []) rest ts r
      → Reads between (codes ", \"" ++ rest) (punctuation b',' ∷ ts) r
  unfolding tokens step
  comma_Reads none h = record { reads = rw h.reads refl }
  comma_Reads (some x) h = record { reads = rw h.reads refl }

  pub directory_Reads :
      (r : Option (List Token))
      → Reads (quoted []) rest ts r
      → Reads between
          (codes "  {\n    \"directory\": \"" ++ rest)
          (punctuation b'{' ∷ text (codes "directory") ∷ punctuation b':' ∷ ts)
          r
  unfolding tokens step
  directory_Reads none h = record { reads = rw h.reads refl }
  directory_Reads (some x) h = record { reads = rw h.reads refl }

  pub file_Reads :
      (r : Option (List Token))
      → Reads (quoted []) rest ts r
      → Reads between
          (codes ",\n    \"file\": \"" ++ rest)
          (punctuation b',' ∷ text (codes "file") ∷ punctuation b':' ∷ ts)
          r
  unfolding tokens step
  file_Reads none h = record { reads = rw h.reads refl }
  file_Reads (some x) h = record { reads = rw h.reads refl }

  pub arguments_Reads :
      (r : Option (List Token))
      → Reads (quoted []) rest ts r
      → Reads between
          (codes ",\n    \"arguments\": [\"" ++ rest)
          (punctuation b',' ∷ text (codes "arguments") ∷ punctuation b':' ∷ punctuation b'[' ∷ ts)
          r
  unfolding tokens step
  arguments_Reads none h = record { reads = rw h.reads refl }
  arguments_Reads (some x) h = record { reads = rw h.reads refl }

  pub option_Reads :
      (r : Option (List Token))
      → Reads between rest ts r
      → Reads between (codes ", \"-c\"" ++ rest) (punctuation b',' ∷ text (codes "-c") ∷ ts) r
  unfolding tokens step
  option_Reads none h = record { reads = rw h.reads refl }
  option_Reads (some x) h = record { reads = rw h.reads refl }

  pub close_Reads :
      (r : Option (List Token))
      → Reads between rest ts r
      → Reads between (codes "]\n  }" ++ rest) (punctuation b']' ∷ punctuation b'}' ∷ ts) r
  unfolding tokens step
  close_Reads none h = record { reads = rw h.reads refl }
  close_Reads (some x) h = record { reads = rw h.reads refl }

  pub next_Reads :
      (r : Option (List Token))
      → Reads between rest ts r
      → Reads between (codes ",\n" ++ rest) (punctuation b',' ∷ ts) r
  unfolding tokens step
  next_Reads none h = record { reads = rw h.reads refl }
  next_Reads (some x) h = record { reads = rw h.reads refl }

pub put_flags-Reads :
    (flags : List Bytes) (rest : Bytes) (ts : List Token) (r : Option (List Token))
    → Reads between rest ts r
    → Reads between (put_flags flags rest) (listed flags ts) r
unfolding put_flags
put_flags-Reads [] rest ts r h = h
put_flags-Reads (f ∷ flags) rest ts r h =
    comma_Reads (json_escape f ++ (b'"' ∷ put_flags flags rest)) (text f ∷ listed flags ts) r (
      string_Reads f (put_flags flags rest) (listed flags ts) r (put_flags-Reads flags rest ts r h))
