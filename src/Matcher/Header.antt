-- ===== src/Matcher/Header.antt =====
-- internal/matcher/header.go: matching one request header. The header source of a request is a
-- function from a name to its first value; compiling a regexp is the argument `regexp`.
use elchi_shield.Prelude.{
  Bool, true, false, List, [], ◌∷◌, Option, none, some, if◌then◌else◌, not, is_some,
}
use elchi_shield.Strings.{Text, text_eq, is_empty, contains}

abbrev pub HeaderSource : Type 0
HeaderSource = Text → Option Text

-- `config.HeaderMatch`.
pub record HeaderMatch : Type 0 where
  pub name : Text
  pub exact : Text
  pub contains : Text
  pub regex : Text
  pub present : Option Bool

-- `headerKind` with the field that the kind uses.
pub data HeaderTest : Type 0 where
  header_present : Bool → HeaderTest
  header_exact : Text → HeaderTest
  header_contains : Text → HeaderTest
  header_regex : (Text → Bool) → HeaderTest

pub record HeaderMatcher : Type 0 where
  pub name : Text
  pub test : HeaderTest

-- `none` is the error of a regexp that does not compile.
unfoldable pub compile_header :
    (regexp : Text → Option (Text → Bool)) → HeaderMatch → Option HeaderMatcher
compile_header regexp hm =
    if not (is_empty hm.exact)
    then some (record { name = hm.name; test = header_exact hm.exact })
    else if not (is_empty hm.contains)
    then some (record { name = hm.name; test = header_contains hm.contains })
    else if not (is_empty hm.regex)
    then elim (regexp hm.regex) [
      | none ↦ none
      | some re ↦ some (record { name = hm.name; test = header_regex re })
    ]
    else elim hm.present [
      | some b ↦ some (record { name = hm.name; test = header_present b })
      | none ↦ some (record { name = hm.name; test = header_present true })
    ]

unfoldable pub compile_headers :
    (regexp : Text → Option (Text → Bool)) → List HeaderMatch → Option (List HeaderMatcher)
unfolding compile_header
compile_headers regexp [] = some []
compile_headers regexp (hm ∷ hms) =
    let rest = compile_headers regexp hms in
    elim (compile_header regexp hm) [
      | none ↦ none
      | some h ↦ elim rest [ none ↦ none | some hs ↦ some (h ∷ hs) ]
    ]

abbrev bool_eq : Bool → Bool → Bool
bool_eq true b = b
bool_eq false b = not b

-- `ok && test(v)`.
abbrev holds : Option Text → (Text → Bool) → Bool
holds none p = false
holds (some v) p = p v

header_test : HeaderTest → Option Text → Bool
header_test (header_present b) found = bool_eq (is_some found) b
header_test (header_exact value) found = holds found (λ v. text_eq v value)
header_test (header_contains value) found = holds found (λ v. contains v value)
header_test (header_regex re) found = holds found re

-- `Match`.
unfoldable pub header_match : HeaderMatcher → HeaderSource → Bool
unfolding header_test text_eq contains
header_match h src = header_test h.test (src h.name)

unfoldable pub match_all : List HeaderMatcher → HeaderSource → Bool
unfolding header_match
match_all [] src = true
match_all (h ∷ hs) src = if not (header_match h src) then false else match_all hs src
