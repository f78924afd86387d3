-- ===== src/Matcher/Path.antt =====
-- internal/matcher/path.go: exact, regex and prefix matchers, and their precedence. A compiled
-- regexp is the test that `MatchString` makes; compiling one is the argument `regexp`.
use elchi_shield.Prelude.{ℕ, Bool, true, false, [], Option, none, some, length, if◌then◌else◌, not}
use elchi_shield.Strings.{Text, text_eq, is_empty, has_prefix}

pub data PathKind : Type 0 where
  path_any path_prefix path_regex path_exact : PathKind

pub record PathMatcher : Type 0 where
  pub kind : PathKind
  pub value : Text
  pub re : Text → Bool

-- A matcher whose regexp is nil.
abbrev pub plain_path : PathKind → Text → PathMatcher
plain_path kind value = record { kind = kind; value = value; re = λ s. false }

-- `none` is the error of a regexp that does not compile.
unfoldable pub compile_path :
    (regexp : Text → Option (Text → Bool)) (exact prefix regex : Text) → Option PathMatcher
compile_path regexp exact prefix regex =
    if not (is_empty exact)
    then some (plain_path path_exact exact)
    else if not (is_empty regex)
    then elim (regexp regex) [
      | none ↦ none
      | some re ↦ some (record { kind = path_regex; value = []; re = re })
    ]
    else if not (is_empty prefix)
    then some (plain_path path_prefix prefix)
    else some (plain_path path_any [])

path_match_kind : PathKind → PathMatcher → Text → Bool
path_match_kind path_exact p path = text_eq path p.value
path_match_kind path_prefix p path = has_prefix path p.value
path_match_kind path_regex p path = p.re path
path_match_kind path_any p path = true

-- `Match`.
unfoldable pub path_match : PathMatcher → Text → Bool
unfolding path_match_kind text_eq has_prefix
path_match p path = path_match_kind p.kind p path

abbrev pub kind_rank : PathKind → ℕ
kind_rank path_any = 0
kind_rank path_prefix = 1
kind_rank path_regex = 2
kind_rank path_exact = 3

-- `Specificity`.
abbrev pub path_specificity : PathMatcher → ℕ
path_specificity p = kind_rank p.kind

abbrev pub prefix_len_kind : PathKind → Text → ℕ
prefix_len_kind path_prefix value = length value
prefix_len_kind _ value = 0

-- `PrefixLen`.
unfoldable pub prefix_len : PathMatcher → ℕ
prefix_len p = prefix_len_kind p.kind p.value
