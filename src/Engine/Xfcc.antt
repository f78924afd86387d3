-- ===== src/Engine/Xfcc.antt =====
-- internal/engine/xfcc: the engine that authenticates a request by the client certificate that Envoy
-- forwards in a header. `Inspect` returns no error.
pub mod Last
pub mod Quoted
use elchi_shield.Prelude.{
  ℕ, ◌-◌, Bool, true, false, ◌&&◌, ◌||◌, not, List, [], ◌∷◌, ◌++◌, Option, none, some, ltb, ◌==◌,
  if◌then◌else◌, any, map, length, take, drop, get_elem?,
}
use elchi_shield.Prelude.Int.{pos}
use elchi_shield.Strings.{
  Text, lit, text_eq, is_empty, set_has, to_lower, trim_space, cut, contains,
}
use elchi_shield.Decision.{Verdict, no_verdict, block, severity_high, default_block_status}
use elchi_shield.Engine.{Direction, direction_request, direction_response, Request}
use elchi_shield.Transaction.{find_header}

-- `Element`.
pub record Element : Type 0 where
  pub hash : Text
  pub subject : Text
  pub uris : List Text
  pub dnss : List Text

-- Where a scan stands: outside a quote, in one, and behind a backslash in one. The byte behind a
-- backslash is skipped; at the end of the text there is none, and the state no longer matters.
pub data Scan : Type 0 where
  plain quoted escaped : Scan

unfoldable pub advance : Scan → ℕ → Scan
advance plain c = if c == b'"' then quoted else plain
advance quoted c = if c == b'\\' then escaped else if c == b'"' then plain else quoted
advance escaped c = quoted

abbrev pub is_plain : Scan → Bool
is_plain plain = true
is_plain _ = false

-- `splitTop`: never empty, so a first part and the others.
unfoldable pub split_top : Scan → ℕ → Text → Text × List Text
unfolding advance
split_top st sep [] = ([], [])
split_top st sep (c ∷ s) =
    let (part, parts) = split_top (advance st c) sep s in
    if is_plain st && c == sep && not (c == b'"') then ([], part ∷ parts) else (c ∷ part, parts)

-- The loop of `unquote`; the flag is set behind a backslash, which stays at the end.
unfoldable pub unescape : Bool → Text → Text
unescape true [] = b'\\' ∷ []
unescape false [] = []
unescape true (c ∷ s) = c ∷ unescape false s
unescape false (c ∷ s) = let rest = unescape (c == b'\\') s in if c == b'\\' then rest else c ∷ rest

abbrev pub byte_is : Option ℕ → ℕ → Bool
byte_is none c = false
byte_is (some d) c = d == c

-- `unquote`.
unfoldable pub unquote : Text → Text
unfolding unescape contains lit
unquote s =
    let inner = take (length s - 2) (drop 1 s) in
    if ltb (length s) 2
      || not (byte_is (get_elem? s 0) b'"')
      || not (byte_is (get_elem? s (length s - 1)) b'"')
    then s
    else if not (contains inner (lit "\\"))
    then inner
    else unescape false inner

abbrev pub no_element : Element
no_element = record { hash = []; subject = []; uris = []; dnss = [] }

-- The switch on the key of a pair.
unfoldable pub set_pair : Text → Text → Element → Element
unfolding text_eq to_lower lit
set_pair key val cur =
    if text_eq (to_lower key) (lit "hash")
    then record cur { hash = val }
    else if text_eq (to_lower key) (lit "subject")
    then record cur { subject = val }
    else if text_eq (to_lower key) (lit "uri")
    then record cur { uris = cur.uris ++ (val ∷ []) }
    else if text_eq (to_lower key) (lit "dns")
    then record cur { dnss = cur.dnss ++ (val ∷ []) }
    else cur

-- One round of the loop over the pairs.
unfoldable pub read_pair : Element → Text → Element
unfolding set_pair cut trim_space unquote
read_pair cur pair = elim (cut pair b'=') [
  | none ↦ cur
  | some (key, val) ↦ set_pair (trim_space key) (unquote (trim_space val)) cur
]

unfoldable pub read_pairs : Element → List Text → Element
unfolding read_pair
read_pairs cur [] = cur
read_pairs cur (pair ∷ pairs) = read_pairs (read_pair cur pair) pairs

abbrev pub parts_of : Text × List Text → List Text
parts_of (part, parts) = part ∷ parts

-- The element of one entry, as the next `flush` appends it.
unfoldable pub parse_element : Text → Element
unfolding split_top read_pairs
parse_element kv = read_pairs no_element (parts_of (split_top plain b';' kv))

-- `parse`.
unfoldable pub parse : Text → List Element
unfolding split_top parse_element trim_space
parse header =
    if is_empty (trim_space header)
    then []
    else map parse_element (parts_of (split_top plain b',' header))

-- `Engine`.
pub record Engine : Type 0 where
  pub header : Text
  pub require_present : Bool
  pub uris : List Text
  pub dns : List Text
  pub subjects : List Text
  pub hashes : List Text
  pub has_allow : Bool

-- `Config`.
pub record Config : Type 0 where
  pub header_name : Text
  pub require_present : Bool
  pub uris : List Text
  pub dns_names : List Text
  pub subjects : List Text
  pub hashes : List Text

-- `toSet`.
abbrev to_set : List Text → Bool → List Text
to_set items lower = if lower then map to_lower items else items

-- `New`.
unfoldable pub new : Config → Engine
unfolding lit to_lower
new cfg = record {
  header = if is_empty cfg.header_name then lit "x-forwarded-client-cert" else cfg.header_name;
  require_present = cfg.require_present;
  uris = to_set cfg.uris false;
  dns = to_set cfg.dns_names true;
  subjects = to_set cfg.subjects false;
  hashes = to_set cfg.hashes true;
  has_allow =
      not (
        is_empty cfg.uris
        && is_empty cfg.dns_names
        && is_empty cfg.subjects
        && is_empty cfg.hashes);
}

-- `matches`.
unfoldable pub matches : Engine → Element → Bool
unfolding set_has to_lower
matches e el =
    (set_has e.subjects el.subject && not (is_empty el.subject))
    || (set_has e.hashes (to_lower el.hash) && not (is_empty el.hash))
    || any (λ u. set_has e.uris u) el.uris
    || any (λ d. set_has e.dns (to_lower d)) el.dnss

unfoldable pub blocked : Text → Text → Verdict
unfolding lit
blocked rule_id reason = record {
  action = block;
  reason = reason;
  rule_id = rule_id;
  engine = lit "xfcc";
  severity = severity_high;
  status_code = default_block_status;
  score = pos 0;
}

-- Whether the last element, if there is one, is allowed.
unfoldable pub last_matches : Engine → List Element → Bool
unfolding matches
last_matches e [] = false
last_matches e (el ∷ []) = matches e el
last_matches e (el ∷ el' ∷ els) = last_matches e (el' ∷ els)

-- `Inspect` on the value of a header that is there and not blank.
unfoldable pub inspect_value : Engine → Text → Verdict
unfolding parse last_matches blocked lit
inspect_value e hdr =
    if not e.has_allow
    then no_verdict
    else if last_matches e (parse hdr)
    then no_verdict
    else blocked (lit "xfcc.no_match") (lit "client certificate identity not in the allow-list")

abbrev pub missing : Engine → Verdict
unfolding blocked lit
missing e =
    if e.require_present
    then blocked (lit "xfcc.missing") (lit "client certificate (XFCC) required but not present")
    else no_verdict

abbrev pub inspect_header : Engine → Option Text → Verdict
inspect_header e none = missing e
inspect_header e (some hdr) = if is_empty (trim_space hdr) then missing e else inspect_value e hdr

abbrev is_request : Direction → Bool
is_request direction_request = true
is_request direction_response = false

-- `Inspect`.
unfoldable pub inspect : Engine → Request → Verdict
unfolding inspect_value trim_space find_header
inspect e req =
    if not (is_request req.direction)
    then no_verdict
    else inspect_header e (find_header req.headers e.header)
