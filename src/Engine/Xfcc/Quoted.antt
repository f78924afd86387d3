-- ===== src/Engine/Xfcc/Quoted.antt =====
-- A quoted value of the header, read back (internal/engine/xfcc/parse.go).
use elchi_shield.Prelude.{
  ℕ, suc, ◌-◌, Bool, true, false, ◌&&◌, ◌||◌, not, ◌≡◌, refl, sym, ap, ◌∙◌, List, [], ◌∷◌, ◌++◌,
  Option, some, ◌==◌, if◌then◌else◌, if_rule, ltb, reverse, reverse-append, reverse-reverse, arith,
  length, take, drop, get_elem?, length-append,
}
use elchi_shield.Strings.{
  Text, lit, is_space, trim_left, trim_space, contains, has_prefix, cut, text_eq, to_lower,
  lower_byte,
}
use elchi_shield.Engine.Xfcc.{
  Scan, quoted, advance, split_top, unescape, unquote, read_pair, read_pairs, set_pair, no_element,
  parse_element, byte_is,
}

abbrev is_special : ℕ → Bool
is_special c = c == b'"' || c == b'\\'

-- How Envoy writes a value in quotes: a backslash in front of each quote and each backslash.
abbrev pub escape : Text → Text
escape [] = []
escape (c ∷ v) = let rest = escape v in if is_special c then b'\\' ∷ c ∷ rest else c ∷ rest

abbrev pub quote : Text → Text
quote v = b'"' ∷ (escape v ++ (b'"' ∷ []))

not_slash : (c : ℕ) → is_special c ≡ false → (c == b'\\') ≡ false
not_slash c h = ground arith

unescape-escape : (v : Text) → unescape false (escape v) ≡ v
unfolding unescape
unescape-escape [] = refl
unescape-escape (c ∷ v) =
    if_rule (λ (t : Text). unescape false t ≡ c ∷ v) (is_special c)
      (λ special. ap (λ (t : Text). c ∷ t) (unescape-escape v))
      λ other. rw (not_slash c other) (ap (λ (t : Text). c ∷ t) (unescape-escape v))

true_of_not : (a : Bool) → not a ≡ true → a ≡ false
true_of_not a h = ground arith

or_parts : (a b : Bool) → ((a && true) || b) ≡ false → (a ≡ false) × (b ≡ false)
or_parts true b h = absurd cc
or_parts false b h = (refl, h)

-- A text without a backslash stands for itself.
unescape-same : (s : Text) → contains s (lit "\\") ≡ false → unescape false s ≡ s
unfolding unescape contains has_prefix lit
unescape-same [] h = refl
unescape-same (c ∷ s) h =
    let (here, rest) = or_parts (c == b'\\') (contains s (lit "\\")) h in
    rw here (ap (λ (t : Text). c ∷ t) (unescape-same s rest))

quoted_on : (c : ℕ) → is_special c ≡ false → advance quoted c ≡ quoted
unfolding advance
quoted_on c h = ground arith

-- A scan does not cut inside a quoted value.
split_top-quoted :
    (sep : ℕ) (v : Text)
    → split_top quoted sep (escape v ++ (b'"' ∷ [])) ≡ (escape v ++ (b'"' ∷ []), [])
unfolding split_top advance
split_top-quoted sep [] = refl
split_top-quoted sep (c ∷ v) =
    if_rule (λ (t : Text). split_top quoted sep (t ++ (b'"' ∷ [])) ≡ (t ++ (b'"' ∷ []), []))
      (is_special c)
      (λ special. ap (λ (r : Text × List Text). (b'\\' ∷ c ∷ r.0, r.1)) (split_top-quoted sep v))
      λ other.
        ap
          (λ (q : Scan). (
            c ∷ (split_top q sep (escape v ++ (b'"' ∷ []))).0,
            (split_top q sep (escape v ++ (b'"' ∷ []))).1,
          ))
          (quoted_on c other)
        ∙ ap (λ (r : Text × List Text). (c ∷ r.0, r.1)) (split_top-quoted sep v)

trim_space-quote : (v : Text) → trim_space (quote v) ≡ quote v
unfolding trim_space trim_left is_space
trim_space-quote v =
    let back : reverse (quote v) ≡ b'"' ∷ reverse (b'"' ∷ escape v) =
      reverse-append (b'"' ∷ escape v) (b'"' ∷ []) in
    ap (λ (t : Text). reverse (trim_left t)) back
    ∙ ap reverse (sym back)
    ∙ reverse-reverse (quote v)

get-last : (s : Text) (x : ℕ) → get_elem? (s ++ (x ∷ [])) (length s) ≡ some x
get-last [] x = refl
get-last (c ∷ s) x = get-last s x

take-all : (s : Text) (x : ℕ) → take (length s) (s ++ (x ∷ [])) ≡ s
take-all [] x = refl
take-all (c ∷ s) x = ap (λ (t : Text). c ∷ t) (take-all s x)

length-quote : (v : Text) → length (quote v) ≡ suc (suc (length (escape v)))
length-quote v = omega (arith, length-append (escape v) (b'"' ∷ []))

unquote-inner : (v : Text) → take (length (quote v) - 2) (drop 1 (quote v)) ≡ escape v
unquote-inner v =
    ap (λ (n : ℕ). take n (escape v ++ (b'"' ∷ []))) (omega (arith, length-quote v))
    ∙ take-all (escape v) b'"'

unquote-last : (v : Text) → get_elem? (quote v) (length (quote v) - 1) ≡ some b'"'
unquote-last v =
    let place : length (quote v) - 1 ≡ suc (length (escape v)) = omega (arith, length-quote v) in
    ap (get_elem? (quote v)) place ∙ get-last (escape v) b'"'

unquote-long : (v : Text) → ltb (length (quote v)) 2 ≡ false
unquote-long v = let n = length-quote v in ground arith

-- The value that is read from the text between the quotes.
inner_value :
    (v : Text)
    → (if not (contains (escape v) (lit "\\")) then escape v else unescape false (escape v)) ≡ v
inner_value v =
    if_rule (λ (t : Text). t ≡ v) (not (contains (escape v) (lit "\\")))
      (λ h.
        sym (unescape-same (escape v) (true_of_not (contains (escape v) (lit "\\")) h))
        ∙ unescape-escape v)
      λ h. unescape-escape v

unquote-quote : (v : Text) → unquote (quote v) ≡ v
unfolding unquote
unquote-quote v =
    let read : Bool → Option ℕ → Text → Text = λ short last inner.
      if short || false || not (byte_is last b'"')
      then quote v
      else if not (contains inner (lit "\\"))
      then inner
      else unescape false inner in
    ap
      (λ (b : Bool).
        read b (get_elem? (quote v) (length (quote v) - 1))
          (take (length (quote v) - 2) (drop 1 (quote v))))
      (unquote-long v)
    ∙ ap (λ (o : Option ℕ). read false o (take (length (quote v) - 2) (drop 1 (quote v))))
        (unquote-last v)
    ∙ ap (read false (some b'"')) (unquote-inner v)
    ∙ inner_value v

-- A value that Envoy quotes is read back as the subject of its element, whatever bytes it has: no
-- quote, separator or backslash in it ends the value.
pub parse_element-quote :
    (v : Text) → parse_element (lit "Subject=" ++ quote v) ≡ record no_element { subject = v }
unfolding parse_element split_top advance read_pairs read_pair set_pair cut lit text_eq to_lower
    lower_byte
parse_element-quote v =
    ap (λ (r : Text × List Text). read_pairs no_element ((lit "Subject=\"" ++ r.0) ∷ r.1))
      (split_top-quoted b';' v)
    ∙ ap (λ (t : Text). record no_element { subject = unquote t }) (trim_space-quote v)
    ∙ ap (λ (t : Text). record no_element { subject = t }) (unquote-quote v)
