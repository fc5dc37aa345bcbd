-- ===== src/Configuration/CompileCommands/Tokens.antt =====
-- The text of compile_commands.json, read as JSON.
use cppup.Base.{
  Bool, true, false, ◌&&◌, List, [], ◌∷◌, ◌++◌, map, ◌≡◌, refl, sym, ap, ◌∙◌, append-nil, Option,
  some, Bytes, codes, is_empty, if◌then◌else◌,
}
use mathlib.Core.Path.{subst}
use cppup.Configuration.Build.{BuildConfiguration}
use cppup.Configuration.CompileCommands.{
  BuildOptions, compiler_of, emit_entry, compile_flags_for, emit_sources, emit_groups, groups_of,
  emit_compile_commands, append_common_flags,
}
use cppup.Configuration.CompileCommands.Json.{Token, punctuation, between, tokens, step}
use cppup.Configuration.CompileCommands.Reading.{
  directory_Reads, file_Reads, arguments_Reads, option_Reads, close_Reads, next_Reads, comma_Reads,
  entry, entries, concat, Reads, string_Reads, put_flags-Reads,
}

module _ (compiler root : Bytes) (flags : List Bytes) where
  body_Reads :
      (source rest : Bytes) (ts : List Token) (r : Option (List Token))
      → Reads between rest ts r
      → Reads between
          (emit_entry true compiler root source flags rest)
          (entry compiler flags root source ts)
          r
  unfolding emit_entry
  body_Reads source rest ts r h = directory_Reads _ _ r (
      string_Reads root _ _ r (
        file_Reads _ _ r (
          string_Reads source _ _ r (
            arguments_Reads _ _ r (
              string_Reads compiler _ _ r (
                option_Reads _ _ r (
                  put_flags-Reads flags _ _ r
                    (comma_Reads _ _ r (string_Reads source _ _ r (close_Reads rest ts r h))))))))))

  one_Reads :
      (first : Bool) (source rest : Bytes) (ts : List Token) (r : Option (List Token))
      → Reads between rest ts r
      → Reads between
          (emit_entry first compiler root source flags rest)
          (if first
            then entry compiler flags root source ts
            else punctuation b',' ∷ entry compiler flags root source ts)
          r
  unfolding emit_entry
  one_Reads true source rest ts r h = unfold emit_entry in body_Reads source rest ts r h
  one_Reads false source rest ts r h =
      next_Reads (emit_entry true compiler root source flags rest)
        (entry compiler flags root source ts) r (body_Reads source rest ts r h)

entries-append :
    (compiler : Bytes) (flags : List Bytes) (root : Bytes) (first : Bool) (l m : List Bytes)
    (rest : List Token)
    → entries compiler flags root first (l ++ m) rest
      ≡ entries compiler flags root first l
          (entries compiler flags root (first && is_empty l) m rest)
entries-append compiler flags root true [] m rest = refl
entries-append compiler flags root false [] m rest = refl
entries-append compiler flags root true (x ∷ l) m rest =
    ap (entry compiler flags root x) (entries-append compiler flags root false l m rest)
entries-append compiler flags root false (x ∷ l) m rest =
    ap (λ ts. punctuation b',' ∷ entry compiler flags root x ts)
      (entries-append compiler flags root false l m rest)

module _ (normalize : Bytes → Bytes) (join : Bytes → Bytes → Bytes) where
  -- the normalized paths of the sources
  abbrev pub located : Bytes → List Bytes → List Bytes
  located root = map (λ src. normalize (join root src))

  located-append :
      (root : Bytes) (l m : List Bytes) → located root (l ++ m) ≡ located root l ++ located root m
  located-append root [] m = refl
  located-append root (x ∷ l) m = ap (◌∷◌ (normalize (join root x))) (located-append root l m)

  is_empty-located : (root : Bytes) (l : List Bytes) → is_empty (located root l) ≡ is_empty l
  is_empty-located root [] = refl
  is_empty-located root (x ∷ l) = refl

  module _ (compiler root : Bytes) (flags : List Bytes) where
    emit_sources-Reads :
        (first : Bool) (srcs : List Bytes) (rest : Bytes) (ts : List Token)
        (r : Option (List Token))
        → Reads between rest ts r
        → Reads between
            (emit_sources normalize join compiler root flags first srcs rest)
            (entries compiler flags root first (located root srcs) ts)
            r
    unfolding emit_sources
    emit_sources-Reads first [] rest ts r h = h
    emit_sources-Reads true (src ∷ srcs) rest ts r h =
        one_Reads compiler root flags true (normalize (join root src)) _ _ r
          (emit_sources-Reads false srcs rest ts r h)
    emit_sources-Reads false (src ∷ srcs) rest ts r h =
        one_Reads compiler root flags false (normalize (join root src)) _ _ r
          (emit_sources-Reads false srcs rest ts r h)

    emit_groups-Reads :
        (first : Bool) (groups : List (List Bytes)) (rest : Bytes) (ts : List Token)
        (r : Option (List Token))
        → Reads between rest ts r
        → Reads between
            (emit_groups normalize join compiler root flags first groups rest)
            (entries compiler flags root first (located root (concat groups)) ts)
            r
    unfolding emit_groups
    emit_groups-Reads first [] rest ts r h = h
    emit_groups-Reads first (srcs ∷ groups) rest ts r h =
        subst
          (λ x.
            Reads between
              (emit_sources normalize join compiler root flags first srcs (
                emit_groups normalize join compiler root flags (first && is_empty srcs) groups
                  rest))
              x r)
          (sym (
            ap (λ l. entries compiler flags root first l ts)
              (located-append root srcs (concat groups))
            ∙ (entries-append compiler flags root first (located root srcs)
                  (located root (concat groups)) ts
                ∙ ap
                    (λ b.
                      entries compiler flags root first (located root srcs) (
                        entries compiler flags root (first && b) (located root (concat groups)) ts))
                    (is_empty-located root srcs))))
          (emit_sources-Reads first srcs _ _ r
            (emit_groups-Reads (first && is_empty srcs) groups rest ts r h))

  -- The text of compile_commands.json is JSON: an array with an entry for each source of the
  -- libraries, the binaries and the tests, in this order, which has the root, the path of the source,
  -- and as arguments the compiler, -c, the flags of the build and the path again. Each string is read
  -- as the bytes that it was, by a reader that takes an escaped code point as its bytes in UTF-8 and a
  -- byte from 128 on as it stands.
  pub emit_compile_commands-tokens :
      (config : BuildConfiguration) (project_root : Bytes) (options : BuildOptions)
      → tokens between (emit_compile_commands normalize join config project_root options).1
        ≡ some (
            punctuation b'['
            ∷ entries
                (compiler_of config.toolchain)
                (compile_flags_for normalize join config (normalize project_root) options)
                (normalize project_root)
                true
                (located (normalize project_root) (concat (groups_of config)))
                (punctuation b']' ∷ []))
  unfolding emit_compile_commands tokens step
  emit_compile_commands-tokens config project_root options =
      let root : Bytes = normalize project_root in
      let flags : List Bytes = compile_flags_for normalize join config root options in
      let array : Reads between
          (emit_groups normalize join (compiler_of config.toolchain) root flags true
            (groups_of config) (codes "\n]\n"))
          (entries (compiler_of config.toolchain) flags root true
            (located root (concat (groups_of config))) (punctuation b']' ∷ []))
          (some []) =
        emit_groups-Reads (compiler_of config.toolchain) root flags true (groups_of config)
          (codes "\n]\n") (punctuation b']' ∷ []) (some []) (record { reads = refl }) in
      rw array.reads (ap (λ ts. some (punctuation b'[' ∷ ts)) (append-nil _))

-- The flags that are written are those of the build, but that the include paths are normalized.
pub compile_flags_for-append_common_flags :
    (normalize : Bytes → Bytes) (join : Bytes → Bytes → Bytes) (config : BuildConfiguration)
    (root : Bytes) (options : BuildOptions)
    → compile_flags_for normalize join config root options
      ≡ append_common_flags (λ a b. normalize (join a b)) [] config root options
unfolding compile_flags_for append_common_flags
compile_flags_for-append_common_flags normalize join config root options = refl
