-- ===== src/Matcher/Normalize.antt =====
-- internal/matcher/normalize.go, and what it takes from net/url (`PathUnescape`) and path (`Clean`).
pub mod Segments
use elchi_shield.Prelude.{
  ℕ, ◌+◌, ◌-◌, ◌*◌, Bool, false, ◌&&◌, ◌||◌, List, [], ◌∷◌, ◌++◌, Option, none, some, reverse, leb,
  ◌==◌, if◌then◌else◌, not,
}
use elchi_shield.Strings.{Text, lit, text_eq, is_empty, before, split, has_suffix}

-- The value of a hexadecimal digit.
unfoldable pub unhex : ℕ → Option ℕ
unhex c =
    if leb b'0' c && leb c b'9'
    then some (c - b'0')
    else if leb b'a' c && leb c b'f'
    then some (c - b'a' + 10)
    else if leb b'A' c && leb c b'F'
    then some (c - b'A' + 10)
    else none

-- Puts a decoded byte in front of a decoded rest.
abbrev cons_decoded : Option ℕ → Option ℕ → Option Text → Option Text
cons_decoded (some h) (some l) (some s) = some ((h * 16 + l) ∷ s)
cons_decoded _ _ _ = none

-- `url.PathUnescape`: `none` is the error of a malformed escape.
unfoldable pub path_unescape : Text → Option Text
unfolding unhex
path_unescape [] = some []
path_unescape (c ∷ []) = if c == b'%' then none else some (c ∷ [])
path_unescape (c ∷ h ∷ []) = if c == b'%' || h == b'%' then none else some (c ∷ h ∷ [])
path_unescape (c ∷ h ∷ l ∷ s) =
    let plain : Option Text = elim (path_unescape (h ∷ l ∷ s)) [
      | none ↦ none
      | some t ↦ some (c ∷ t)
    ] in
    let escaped = cons_decoded (unhex h) (unhex l) (path_unescape s) in
    if c == b'%' then escaped else plain

-- One part of a path in `path.Clean`: the stack has its top at the head, and `rooted` says that the
-- path begins with a slash.
unfoldable pub clean_step : Bool → List Text → Text → List Text
unfolding text_eq lit
clean_step rooted stack part =
    if is_empty part || text_eq part (lit ".")
    then stack
    else if text_eq part (lit "..")
    then elim stack [
      | [] ↦ if rooted then [] else lit ".." ∷ []
      | top ∷ rest ↦ if text_eq top (lit "..") then lit ".." ∷ top ∷ rest else rest
    ]
    else part ∷ stack

unfoldable pub clean_parts : Bool → List Text → List Text → List Text
unfolding clean_step
clean_parts rooted stack [] = stack
clean_parts rooted stack (part ∷ parts) = clean_parts rooted (clean_step rooted stack part) parts

-- The parts with a slash between each two.
unfoldable pub join_slash : List Text → Text
join_slash [] = []
join_slash (part ∷ []) = part
join_slash (part ∷ other ∷ parts) = part ++ (b'/' ∷ join_slash (other ∷ parts))

abbrev pub is_rooted : Text → Bool
is_rooted [] = false
is_rooted (c ∷ s) = c == b'/'

-- `path.Clean`.
unfoldable pub clean : Text → Text
unfolding clean_parts join_slash split lit
clean p =
    let (part, parts) = split p b'/' in
    let joined = join_slash (reverse (clean_parts (is_rooted p) [] (part ∷ parts))) in
    if is_rooted p then b'/' ∷ joined else if is_empty joined then lit "." else joined

-- Percent-decoding as the source uses it: a malformed path stays as it is.
abbrev pub decoded : Text → Text
decoded p = elim (path_unescape p) [ none ↦ p | some q ↦ q ]

-- The path in front of the query and the fragment.
abbrev pub path_part : Text → Text
path_part raw = before (before raw b'?') b'#'

unfoldable pub ends_with_slash : Text → Bool
unfolding has_suffix lit
ends_with_slash s = has_suffix s (lit "/")

-- The cleaned path, with a trailing slash put back.
unfoldable pub restore_slash : Text → Text → Text
unfolding ends_with_slash
restore_slash p cleaned =
    if ends_with_slash p && not (ends_with_slash cleaned) then cleaned ++ (b'/' ∷ []) else cleaned

unfoldable pub normalize_path : Text → Text
unfolding before path_unescape clean restore_slash text_eq lit
normalize_path raw =
    let p = decoded (path_part raw) in
    let c = clean p in
    let cleaned = if text_eq c (lit ".") then lit "/" else c in
    if is_empty p then raw else restore_slash p cleaned
