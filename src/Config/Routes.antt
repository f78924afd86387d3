-- ===== src/Config/Routes.antt =====
-- internal/config/validate.go: the checks of hosts and of the matches of routes. `regexp` compiles a
-- regular expression, `none` for an error.
use elchi_shield.Prelude.{
  ℕ, ◌+◌, Bool, true, false, ◌&&◌, ◌||◌, not, List, [], ◌∷◌, ◌++◌, Option, is_some, if◌then◌else◌,
  all, drop, ltb, leb, ◌==◌,
}
use elchi_shield.Strings.{
  Text, lit, text_eq, is_empty, set_has, has_prefix, split, to_upper, trim_space,
}
use elchi_shield.Config.{Match}
use elchi_shield.Matcher.Header.{HeaderMatch}

pub data RouteProblem : Type 0 where
  many_paths bad_path_regex : RouteProblem
  unknown_method no_name many_tests bad_regex : ℕ → RouteProblem

abbrev pub report_route : Bool → RouteProblem → List RouteProblem
report_route b p = if b then p ∷ [] else []

-- A byte of `[a-zA-Z0-9_-]`.
unfoldable pub is_label_byte : ℕ → Bool
is_label_byte c =
    (leb 97 c && leb c 122)
    || (leb 65 c && leb c 90)
    || (leb 48 c && leb c 57)
    || c == b'_'
    || c == b'-'

unfoldable pub is_label : Text → Bool
unfolding is_label_byte
is_label t = not (is_empty t) && all is_label_byte t

abbrev pub all_labels : Text × List Text → Bool
all_labels (part, parts) = is_label part && all is_label parts

-- `hostRe`: labels between dots, behind an optional "*.".
unfoldable pub host_re : Text → Bool
unfolding split has_prefix is_label lit
host_re h = all_labels (split (if has_prefix h (lit "*.") then drop 2 h else h) b'.')

-- The check of a host.
unfoldable pub host_valid : Text → Bool
unfolding host_re text_eq lit
host_valid h = text_eq h (lit "*") || host_re h

unfoldable pub known_methods : List Text
unfolding lit
known_methods =
    lit "GET"
    ∷ lit "HEAD"
    ∷ lit "POST"
    ∷ lit "PUT"
    ∷ lit "PATCH"
    ∷ lit "DELETE"
    ∷ lit "OPTIONS"
    ∷ lit "CONNECT"
    ∷ lit "TRACE"
    ∷ []

abbrev count : Bool → ℕ
count true = 1
count false = 0

module _ (regexp : Text → Option (Text → Bool)) where
  abbrev pub bad : Text → Bool
  bad re = not (is_empty re) && not (is_some (regexp re))

  unfoldable pub validate_methods : ℕ → List Text → List RouteProblem
  unfolding set_has known_methods to_upper
  validate_methods i [] = []
  validate_methods i (m ∷ ms) =
      report_route (not (set_has known_methods (to_upper m))) (unknown_method i)
      ++ validate_methods (i + 1) ms

  -- The number of tests that a header match sets.
  unfoldable pub tests_set : HeaderMatch → ℕ
  tests_set h =
      count (not (is_empty h.exact))
      + count (not (is_empty h.contains))
      + count (not (is_empty h.regex))
      + count (is_some h.present)

  -- One round of the loop over the headers.
  unfoldable pub validate_header : ℕ → HeaderMatch → List RouteProblem
  unfolding tests_set trim_space
  validate_header i h =
      report_route (is_empty (trim_space h.name)) (no_name i)
      ++ (report_route (ltb 1 (tests_set h)) (many_tests i)
          ++ report_route (bad h.regex) (bad_regex i))

  unfoldable pub validate_headers : ℕ → List HeaderMatch → List RouteProblem
  unfolding validate_header
  validate_headers i [] = []
  validate_headers i (h ∷ hs) = validate_header i h ++ validate_headers (i + 1) hs

  -- `validateMatch`.
  unfoldable pub validate_match : Match → List RouteProblem
  unfolding validate_methods validate_headers
  validate_match m =
      report_route
        (ltb 1 (
          count (not (is_empty m.path_exact))
          + count (not (is_empty m.path_prefix))
          + count (not (is_empty m.path_regex))))
        many_paths
      ++ (report_route (bad m.path_regex) bad_path_regex
          ++ (validate_methods 0 m.methods ++ validate_headers 0 m.headers))
