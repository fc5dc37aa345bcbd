-- ===== src/RefParser/Registry/Laws.antt =====
-- What the registry promises: the newest parser that claims a ref decides.
use cppup.Base.{
  Bool, true, false, List, [], ◌∷◌, ◌++◌, Option, some, none, if◌then◌else◌, ◌≡◌, refl, arith,
  Bytes, is_empty, Outcome, ok, err, Ensures, ensured, Bool-cases, inl, inr,
}
use cppup.RefParser.{ParsedRef}
use cppup.RefParser.Registry.{
  ParseFn, RefParserRegistry, RefError, unclaimed, ensure_builtins_loaded, register_parser,
  check_name, claim, try_newest_first, parse,
}

abbrev HasName : ParsedRef → Type 0
HasName r = is_empty r.name ≡ false

check_name-HasName : (ref : Bytes) (r : ParsedRef) → Ensures HasName (check_name ref r)
unfolding check_name
check_name-HasName ref r = go (is_empty r.name) refl
  where
    go :
        (b : Bool)
        → is_empty r.name ≡ b
        → Ensures HasName (if b then err (RefError.empty_name ref) else ok r)
    go true e = tt
    go false e = e

claim-HasName :
    (ref : Bytes) (o : Option ParsedRef) (later : Outcome RefError ParsedRef)
    → Ensures HasName later
    → Ensures HasName (claim ref o later)
claim-HasName ref none later h = h
claim-HasName ref (some r) later h = check_name-HasName ref r

try-HasName :
    (ref : Bytes) (parsers : List ParseFn) (older : Outcome RefError ParsedRef)
    → Ensures HasName older
    → Ensures HasName (try_newest_first ref parsers older)
unfolding try_newest_first
try-HasName ref [] older h = h
try-HasName ref (p ∷ parsers) older h =
    try-HasName ref parsers _ (claim-HasName ref (p ref) older h)

-- A ref that is accepted has a name, whatever parsers are registered.
pub parse-HasName :
    (ref : Bytes) (r : RefParserRegistry) {result : ParsedRef}
    → (parse ref r).0 ≡ ok result
    → is_empty result.name ≡ false
unfolding parse
parse-HasName ref r h =
    ensured HasName (parse ref r).0
      (try-HasName ref (ensure_builtins_loaded r).parsers (err (unclaimed ref)) tt) h

try-concat :
    (ref : Bytes) (parsers : List ParseFn) (p : ParseFn) (older : Outcome RefError ParsedRef)
    → try_newest_first ref (parsers ++ p ∷ []) older
      ≡ claim ref (p ref) (try_newest_first ref parsers older)
unfolding try_newest_first
try-concat ref [] p older = refl
try-concat ref (q ∷ parsers) p older = try-concat ref parsers p _

loaded-ensure : (r : RefParserRegistry) → (ensure_builtins_loaded r).builtins_loaded ≡ true
unfolding ensure_builtins_loaded
loaded-ensure r = elim (Bool-cases r.builtins_loaded) [
  | inl e ↦ ground arith
  | inr e ↦ ground arith
]

ensure_again : (r : RefParserRegistry) → r.builtins_loaded ≡ true → ensure_builtins_loaded r ≡ r
unfolding ensure_builtins_loaded
ensure_again r h = rw h

-- A parser that is registered goes before those that are there: its claim decides, and where it
-- makes none the registry answers as before.
pub parse-register_parser :
    (ref : Bytes) (p : ParseFn) (r : RefParserRegistry)
    → (parse ref (register_parser p r)).0 ≡ claim ref (p ref) (parse ref r).0
unfolding parse register_parser
parse-register_parser ref p r =
    let loaded = ensure_builtins_loaded r in
    rw (ensure_again (record loaded { parsers = loaded.parsers ++ p ∷ [] }) (loaded-ensure r))
      (try-concat ref loaded.parsers p (err (unclaimed ref)))
