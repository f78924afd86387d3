-- ===== src/Matcher/Host.antt =====
-- internal/matcher/host.go: matching a request authority.
pub mod Exact
use elchi_shield.Prelude.{
  ℕ, ◌-◌, ◌^◌, Bool, true, false, [], ◌∷◌, Option, none, some, ltb, leb, ◌==◌, if◌then◌else◌,
  length, drop, not,
}
use elchi_shield.Strings.{
  Text, lit, text_eq, is_empty, to_lower, trim_space, has_prefix, contains, equal_fold,
}

-- `exact` is set for exact matches and `suffix` for wildcard matches; "" stands for unset.
pub record Host : Type 0 where
  pub exact : Text
  pub suffix : Text
  pub catch_all : Bool

-- The parts before and after the last `sep`: `strings.LastIndexByte`, and the slices at it.
unfoldable pub cut_last : Text → ℕ → Option (Text × Text)
cut_last [] sep = none
cut_last (c ∷ s) sep = elim (cut_last s sep) [
  | some (a, b) ↦ some (c ∷ a, b)
  | none ↦ if c == sep then some ([], s) else none
]

-- Removes a "user@" or "user:pass@" prefix.
unfoldable pub strip_userinfo : Text → Text
unfolding cut_last
strip_userinfo host = elim (cut_last host b'@') [ none ↦ host | some (a, b) ↦ b ]

-- Removes the last byte if it is a dot.
unfoldable pub drop_dot : Text → Text
drop_dot [] = []
drop_dot (c ∷ []) = if c == b'.' then [] else c ∷ []
drop_dot (c ∷ d ∷ s) = c ∷ drop_dot (d ∷ s)

-- Removes one trailing dot from a host of two or more bytes.
unfoldable pub strip_trailing_dot : Text → Text
unfolding drop_dot
strip_trailing_dot [] = []
strip_trailing_dot (c ∷ []) = c ∷ []
strip_trailing_dot (c ∷ d ∷ s) = c ∷ drop_dot (d ∷ s)

-- Removes ":port": what stands behind the last ':', unless a ']' follows it.
unfoldable pub trim_port : Text → Text
unfolding cut_last lit
trim_port host = elim (cut_last host b':') [
  | none ↦ host
  | some (a, b) ↦ if contains b (lit "]") then host else a
]

-- The host that is compared: the authority without userinfo, port and trailing dot.
abbrev pub bare_host : Text → Text
bare_host host = strip_trailing_dot (trim_port (strip_userinfo host))

unfoldable pub normalize_host : Text → Text
unfolding to_lower strip_trailing_dot trim_port strip_userinfo
normalize_host host = to_lower (bare_host host)

unfoldable pub has_suffix_fold : Text → Text → Bool
unfolding equal_fold
has_suffix_fold s suffix =
    if ltb (length s) (length suffix)
    then false
    else equal_fold (drop (length s - length suffix) s) suffix

-- `none` is the error of an empty pattern or of a bare "*.".
unfoldable pub compile_host : Text → Option Host
unfolding to_lower trim_space text_eq has_prefix strip_trailing_dot lit
compile_host pattern =
    let p = to_lower (trim_space pattern) in
    let rest = strip_trailing_dot (drop 2 p) in
    if is_empty p
    then none
    else if text_eq p (lit "*")
    then some (record { exact = []; suffix = []; catch_all = true })
    else if has_prefix p (lit "*.")
    then (if is_empty rest
        then none
        else some (record { exact = []; suffix = b'.' ∷ rest; catch_all = false }))
    else some (record { exact = strip_trailing_dot p; suffix = []; catch_all = false })

-- `Match`.
unfoldable pub host_match : Host → Text → Bool
unfolding equal_fold has_suffix_fold strip_trailing_dot trim_port strip_userinfo
host_match h host =
    let bare = bare_host host in
    if h.catch_all
    then true
    else if not (is_empty h.exact)
    then equal_fold bare h.exact
    else if leb (length bare) (length h.suffix)
    then false
    else has_suffix_fold bare h.suffix

-- `Exact`.
abbrev pub is_exact : Host → Bool
is_exact h = not (is_empty h.exact)

unfoldable pub host_exact_score : ℕ
host_exact_score = 2 ^ 20

-- `Specificity`.
unfoldable pub host_specificity : Host → ℕ
unfolding host_exact_score
host_specificity h = if is_exact h then host_exact_score else length h.suffix
