-- ===== src/RefParser/Shorthand.antt =====
-- What the built-in parsers make of the forms of a git ref.
use cppup.Base.{
  false, ◌∷◌, ◌++◌, some, none, ◌≡◌, refl, Bytes, codes, is_empty, starts_with, eqb, Lacks, Outcome,
  ok, err,
}
use cppup.RefParser.{
  ParsedRef, new_ref, split_first, split_revision, split_git_revision, parse_directory,
  looks_like_path, hosted, parse_github_shorthand, parse_gitlab_shorthand, is_git_scheme,
  is_scp_style, git_ref, parse_git_url, parse_http_url, any_bad, parse_registry_name, ends_with,
  derive_name_from_path_like, branch_of,
}
use cppup.RefParser.Registry.{
  RefError, unclaimed, new_registry, ensure_builtins_loaded, try_newest_first, check_name, parse,
  claim,
}
use cppup.RefParser.Revisions.{split_last-append}

-- the built-in parsers, as a fresh registry tries them
abbrev pub parse_builtin : Bytes → Outcome RefError ParsedRef
parse_builtin ref = (parse ref new_registry).0

parse_builtin_lem :
    (ref : Bytes)
    → parse_builtin ref
      ≡ claim ref (parse_directory ref) (
          claim ref (parse_github_shorthand ref) (
            claim ref (parse_gitlab_shorthand ref) (
              claim ref (parse_git_url ref) (
                claim ref
                  (parse_http_url ref)
                  (claim ref (parse_registry_name ref) (err (unclaimed ref)))))))
unfolding parse ensure_builtins_loaded try_newest_first
parse_builtin_lem ref = refl

split_revision-append :
    (base rev : Bytes) → Lacks b'@' rev → split_revision (base ++ (b'@' ∷ rev)) ≡ (base, rev)
unfolding split_revision
split_revision-append base rev h = rw (split_last-append b'@' base rev h)

check_name_lem : (ref : Bytes) (r : ParsedRef) → is_empty r.name ≡ false → check_name ref r ≡ ok r
unfolding check_name
check_name_lem ref r h = rw h

-- the git package of a repository on github.com
abbrev pub github_ref : Bytes → Bytes → ParsedRef
github_ref base rev = record new_ref {
  name = derive_name_from_path_like base;
  source_kind = codes "git";
  git_url = some (codes "https://github.com/" ++ (base ++ codes ".git"));
  git_branch = branch_of rev;
}

hosted_lem :
    (base rev : Bytes) {p : Bytes × Bytes}
    → split_first b'/' base ≡ some p
    → hosted (codes "https://github.com/") (base, rev) ≡ some (github_ref base rev)
unfolding hosted
hosted_lem base rev h = rw (h, hosted) refl

github_no_directory : (s : Bytes) → parse_directory (codes "github:" ++ s) ≡ none
unfolding parse_directory looks_like_path starts_with eqb
github_no_directory s = refl

parse_github_shorthand_lem :
    (s : Bytes)
    → parse_github_shorthand (codes "github:" ++ s)
      ≡ hosted (codes "https://github.com/") (split_revision s)
unfolding parse_github_shorthand starts_with
parse_github_shorthand_lem s = refl

-- `github:owner/repo@rev` is the git package of that repository at that revision, if the revision
-- holds no `@` and the repository gives a name.
pub github_shorthand :
    (base rev : Bytes) {p : Bytes × Bytes}
    → split_first b'/' base ≡ some p
    → Lacks b'@' rev
    → is_empty (derive_name_from_path_like base) ≡ false
    → parse_builtin (codes "github:" ++ (base ++ (b'@' ∷ rev))) ≡ ok (github_ref base rev)
github_shorthand base rev h lacks n =
    let s : Bytes = base ++ (b'@' ∷ rev) in
    rw
      (
        parse_builtin_lem (codes "github:" ++ s),
        github_no_directory s,
        parse_github_shorthand_lem s,
      )
      (rw (split_revision-append base rev lacks, hosted_lem base rev h)
        (check_name_lem (codes "github:" ++ s) (github_ref base rev) n))

ssh_no_others :
    (s : Bytes)
    → (parse_directory (codes "ssh://git@" ++ s) ≡ none)
      × (parse_github_shorthand (codes "ssh://git@" ++ s) ≡ none)
      × (parse_gitlab_shorthand (codes "ssh://git@" ++ s) ≡ none)
      × (parse_http_url (codes "ssh://git@" ++ s) ≡ none)
      × (parse_registry_name (codes "ssh://git@" ++ s) ≡ none)
unfolding parse_directory looks_like_path starts_with eqb parse_github_shorthand
    parse_gitlab_shorthand parse_http_url parse_registry_name any_bad
ssh_no_others s = (refl, refl, refl, refl, refl)

ssh_split :
    (s : Bytes)
    → Lacks b'@' s
    → split_git_revision (codes "ssh://git@" ++ s) ≡ (codes "ssh://git", s)
unfolding split_git_revision starts_with
ssh_split s h = split_revision-append (codes "ssh://git") s h

ssh_no_git : (s : Bytes) → git_ref (codes "ssh://git", s) ≡ none
unfolding git_ref is_git_scheme is_scp_style ends_with starts_with eqb split_first
ssh_no_git s = refl

parse_git_url_ssh : (s : Bytes) → Lacks b'@' s → parse_git_url (codes "ssh://git@" ++ s) ≡ none
unfolding parse_git_url
parse_git_url_ssh s h = rw (ssh_split s h) (ssh_no_git s)

-- An ssh url with the user name `git` and no revision is claimed by no built-in parser: its only
-- `@` is taken for the one in front of a revision.
pub ssh_user_unclaimed :
    (s : Bytes)
    → Lacks b'@' s
    → parse_builtin (codes "ssh://git@" ++ s) ≡ err (unclaimed (codes "ssh://git@" ++ s))
ssh_user_unclaimed s lacks =
    let (d, gh, gl, h, r) = ssh_no_others s in
    rw (parse_builtin_lem (codes "ssh://git@" ++ s), d, gh, gl, parse_git_url_ssh s lacks, h, r)
