-- ===== src/Strings.antt =====
-- Go strings as lists of bytes, and the functions of package strings that the program calls, over
-- ASCII: `ToLower`, `ToUpper` and `EqualFold` change or fold the letters A to Z alone, and
-- `TrimSpace` removes the six ASCII spaces.
pub mod Equality
use Prim.Native.Char.{code}
use Prim.Native.String.{String}
use elchi_shield.Prelude.{
  ℕ, ◌+◌, ◌-◌, Bool, true, false, ◌&&◌, ◌||◌, List, [], ◌∷◌, Option, none, some, reverse, leb, ◌==◌,
  if◌then◌else◌, map, All, ◌<◌,
}

abbrev pub Text : Type 0
Text = List ℕ

-- A literal of the source. Shut, so that a label is one term.
unfoldable pub lit : String → Text
lit String.[] = []
lit (String.◌∷◌ c s) = code c ∷ lit s

-- `a == b` on strings.
unfoldable pub text_eq : Text → Text → Bool
text_eq [] [] = true
text_eq [] (d ∷ b) = false
text_eq (c ∷ a) [] = false
text_eq (c ∷ a) (d ∷ b) = c == d && text_eq a b

-- A text for which the functions below are those of package strings.
abbrev pub IsAscii : Text → Type 0
IsAscii s = All (λ c. c < 128) s

abbrev pub is_empty {ℓ} : {A : Type ℓ} → List A → Bool
is_empty [] = true
is_empty (x ∷ xs) = false

-- A lookup in a `map[string]struct{}`, kept as the list of its keys; also `slices.Contains`.
unfoldable pub set_has : List Text → Text → Bool
set_has [] s = false
set_has (t ∷ ts) s = text_eq t s || set_has ts s

unfoldable pub lower_byte : ℕ → ℕ
lower_byte c = if leb 65 c && leb c 90 then c + 32 else c

unfoldable pub upper_byte : ℕ → ℕ
upper_byte c = if leb 97 c && leb c 122 then c - 32 else c

-- `strings.ToLower` of an ASCII text.
unfoldable pub to_lower : Text → Text
unfolding lower_byte
to_lower s = map lower_byte s

-- `strings.ToUpper` of an ASCII text.
unfoldable pub to_upper : Text → Text
unfolding upper_byte
to_upper s = map upper_byte s

-- `strings.EqualFold` of ASCII texts.
unfoldable pub equal_fold : Text → Text → Bool
unfolding text_eq to_lower
equal_fold s t = text_eq (to_lower s) (to_lower t)

unfoldable pub is_space : ℕ → Bool
is_space c = (leb 9 c && leb c 13) || c == 32

unfoldable pub trim_left : Text → Text
unfolding is_space
trim_left [] = []
trim_left (c ∷ s) = if is_space c then trim_left s else c ∷ s

unfoldable pub trim_space : Text → Text
unfolding trim_left
trim_space s = reverse (trim_left (reverse (trim_left s)))

unfoldable pub has_prefix : Text → Text → Bool
has_prefix s [] = true
has_prefix [] (c ∷ p) = false
has_prefix (d ∷ s) (c ∷ p) = d == c && has_prefix s p

unfoldable pub has_suffix : Text → Text → Bool
unfolding has_prefix
has_suffix s p = has_prefix (reverse s) (reverse p)

-- `strings.Contains(s, p)`.
unfoldable pub contains : Text → Text → Bool
unfolding has_prefix
contains [] p = has_prefix [] p
contains (c ∷ s) p = has_prefix (c ∷ s) p || contains s p

-- `strings.Cut(s, sep)` at a separator of one byte: `none` if it is not found.
unfoldable pub cut : Text → ℕ → Option (Text × Text)
cut [] sep = none
cut (c ∷ s) sep =
    if c == sep
    then some ([], s)
    else elim (cut s sep) [ none ↦ none | some (a, b) ↦ some (c ∷ a, b) ]

-- `if i := strings.IndexByte(s, sep); i >= 0 { s = s[:i] }`.
unfoldable pub before : Text → ℕ → Text
before [] sep = []
before (c ∷ s) sep = if c == sep then [] else c ∷ before s sep

-- `strings.Split(s, sep)` at a separator of one byte: never empty, so a first part and the others.
unfoldable pub split : Text → ℕ → Text × List Text
split [] sep = ([], [])
split (c ∷ s) sep =
    let (part, parts) = split s sep in if c == sep then ([], part ∷ parts) else (c ∷ part, parts)
