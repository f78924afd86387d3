-- ===== src/Matcher/Normalize/Segments.antt =====
-- The segments of a normalised path (internal/matcher/normalize.go).
use elchi_shield.Prelude.{false, ◌≡◌, List, [], ◌∷◌, ◌++◌, All, ◌==◌, ◌⊎◌}
use elchi_shield.Strings.{Text, lit, text_eq, is_empty}

-- A segment that stays where it is: it is not empty, ".", or "..", and holds no slash.
pub record IsPlainSegment (s : Text) : Type 0 where
  pub nonempty : is_empty s ≡ false
  pub not_dot : text_eq s (lit ".") ≡ false
  pub not_dots : text_eq s (lit "..") ≡ false
  pub no_slash : All (λ c. (c == b'/') ≡ false) s

abbrev HasNoSlash : Text → Type 0
HasNoSlash s = All (λ c. (c == b'/') ≡ false) s

AllParts : Text × List Text → Type 0
AllParts (t, ts) = HasNoSlash t × All HasNoSlash ts

-- The segments, each behind a slash.
abbrev pub path_of : List Text → Text
path_of [] = []
path_of (s ∷ segments) = (b'/' ∷ s) ++ path_of segments

-- A slash at the end, or, behind a segment, nothing.
abbrev pub IsTrailing : List Text → Text → Type 0
IsTrailing segments t = (t ≡ b'/' ∷ []) ⊎ ((t ≡ []) × (is_empty segments ≡ false))

abbrev pub Cleaned : Text → Type 0
Cleaned c =
    (segments : List Text) × (trailing : Text) × (c ≡ path_of segments ++ trailing)
    × IsTrailing segments trailing
    × All IsPlainSegment segments
