-- ===== src/Tests/RefParser.antt =====
-- The theorems about the ref parsers, at refs that users write.
use cppup.Base.{◌≡◌, refl, ◌∷◌, ◌++◌, Option, some, Bytes, codes, ok, err, is_empty, false, eqb}
use cppup.RefParser.{
  ParsedRef, new_ref, split_git_revision, split_last, split_first, derive_name_from_path_like,
  strip_slashes, last_segment, remove_suffix, ends_with,
}
use cppup.RefParser.Registry.{unclaimed, new_registry, register_parser, parse, claim}
use cppup.RefParser.Registry.Laws.{parse-HasName, parse-register_parser}
use cppup.RefParser.Revisions.{Splits, split_git_revision-Splits}
use cppup.RefParser.Shorthand.{parse_builtin, github_ref, github_shorthand, ssh_user_unclaimed}
use cppup.Tests.Data.{Lacks_of}

Splits-example :
    Splits (codes "https://h/a.git@v1") (split_git_revision (codes "https://h/a.git@v1"))
Splits-example = split_git_revision-Splits (codes "https://h/a.git@v1")

-- claims every ref
abbrev everything : Bytes → Option ParsedRef
everything ref = some (record new_ref { name = ref })

register_parser_example :
    (parse (codes "fmt") (register_parser everything new_registry)).0
    ≡ claim (codes "fmt") (everything (codes "fmt")) (parse (codes "fmt") new_registry).0
register_parser_example = parse-register_parser (codes "fmt") everything new_registry

slash_at : split_first b'/' (codes "fmtlib/fmt") ≡ some (codes "fmtlib", codes "fmt")
unfolding split_first
slash_at = refl

fmt_named : is_empty (derive_name_from_path_like (codes "fmtlib/fmt")) ≡ false
unfolding derive_name_from_path_like strip_slashes last_segment remove_suffix ends_with split_last
    eqb
fmt_named = refl

github_example :
    parse_builtin (codes "github:" ++ (codes "fmtlib/fmt" ++ (b'@' ∷ codes "10.0")))
    ≡ ok (github_ref (codes "fmtlib/fmt") (codes "10.0"))
github_example =
    github_shorthand (codes "fmtlib/fmt") (codes "10.0") slash_at
      (Lacks_of b'@' (codes "10.0") refl) fmt_named

HasName_example : is_empty (github_ref (codes "fmtlib/fmt") (codes "10.0")).name ≡ false
HasName_example = parse-HasName (codes "github:fmtlib/fmt@10.0") new_registry github_example

ssh_example :
    parse_builtin (codes "ssh://git@" ++ codes "host/a.git")
    ≡ err (unclaimed (codes "ssh://git@" ++ codes "host/a.git"))
ssh_example = ssh_user_unclaimed (codes "host/a.git") (Lacks_of b'@' (codes "host/a.git") refl)
