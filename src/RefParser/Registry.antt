-- ===== src/RefParser/Registry.antt =====
-- ref_parser.cpp: `RefParserRegistry`. The mutex makes each call one step.
pub mod Laws
use cppup.Base.{
  Bool, true, false, List, [], ◌∷◌, ◌++◌, Option, some, none, if◌then◌else◌, Bytes, is_empty,
  Outcome, ok, err,
}
use cppup.RefParser.{
  ParsedRef, parse_directory, parse_github_shorthand, parse_gitlab_shorthand, parse_git_url,
  parse_http_url, parse_registry_name,
}

abbrev pub ParseFn : Type 0
ParseFn = Bytes → Option ParsedRef

pub record RefParserRegistry : Type 0 where
  pub parsers : List ParseFn
  pub builtins_loaded : Bool

abbrev pub new_registry : RefParserRegistry
new_registry = record { parsers = []; builtins_loaded = false }

pub data RefError : Type 0 where
  empty_name unclaimed : Bytes → RefError

abbrev pub make_builtin_parsers : List ParseFn
make_builtin_parsers =
    parse_registry_name ∷ parse_http_url ∷ parse_git_url ∷ parse_gitlab_shorthand
    ∷ parse_github_shorthand ∷ parse_directory ∷ []

unfoldable pub ensure_builtins_loaded : RefParserRegistry → RefParserRegistry
ensure_builtins_loaded r =
    if r.builtins_loaded
    then r
    else record r { parsers = make_builtin_parsers; builtins_loaded = true }

unfoldable pub register_parser : ParseFn → RefParserRegistry → RefParserRegistry
register_parser parser r =
    let loaded = ensure_builtins_loaded r in
    record loaded { parsers = loaded.parsers ++ parser ∷ [] }

unfoldable pub check_name : Bytes → ParsedRef → Outcome RefError ParsedRef
check_name ref result = if is_empty result.name then err (empty_name ref) else ok result

abbrev pub claim :
    Bytes → Option ParsedRef → Outcome RefError ParsedRef → Outcome RefError ParsedRef
claim ref none later = later
claim ref (some result) later = check_name ref result

-- The loop from `rbegin`, over the vector from its end.
unfoldable pub try_newest_first :
    Bytes → List ParseFn → Outcome RefError ParsedRef → Outcome RefError ParsedRef
try_newest_first ref [] older = older
try_newest_first ref (parser ∷ newer) older =
    try_newest_first ref newer (claim ref (parser ref) older)

-- The result, and the registry with the built-in parsers loaded.
unfoldable pub parse : Bytes → RefParserRegistry → Outcome RefError ParsedRef × RefParserRegistry
parse ref r =
    let loaded = ensure_builtins_loaded r in
    (try_newest_first ref loaded.parsers (err (unclaimed ref)), loaded)
