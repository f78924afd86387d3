-- ===== src/Matcher/Host/Exact.antt =====
-- What an exact host matches (internal/matcher/host.go).
use elchi_shield.Prelude.{
  ℕ, Bool, true, false, ◌||◌, not, ◌≡◌, refl, sym, ap, ◌∙◌, [], ◌∷◌, Option, none, some, All, arith,
  if_rule, ◌==◌, reverse, reverse_aux, reverse-reverse, drop, Bool-cases, inl, inr,
}
use elchi_shield.Strings.{
  Text, lit, text_eq, is_empty, to_lower, lower_byte, trim_space, trim_left, is_space, has_prefix,
  equal_fold,
}
use elchi_shield.Matcher.Host.{
  Host, cut_last, strip_userinfo, trim_port, strip_trailing_dot, drop_dot, normalize_host,
  compile_host, host_match, is_exact,
}

-- No byte is a space, a '@' or a ':'.
abbrev pub IsPlain : Text → Type 0
IsPlain h = All (λ c. (is_space c || c == b'@' || c == b':') ≡ false) h

or_neither : (a b c : Bool) → (a || b || c) ≡ false → a ≡ true → ⊥
or_neither a b c h k = ground arith

not_at : (a b c : Bool) → (a || b || c) ≡ false → b ≡ false
not_at a b c h = ground arith

not_colon : (a b c : Bool) → (a || b || c) ≡ false → c ≡ false
not_colon a b c h = ground arith

All-map : (P Q : ℕ → Type 0) → ((c : ℕ) → P c → Q c) → (s : Text) → All P s → All Q s
All-map P Q f [] h = tt
All-map P Q f (c ∷ s) (h, hs) = (f c h, All-map P Q f s hs)

All-reverse_aux : (P : ℕ → Type 0) (s r : Text) → All P s → All P r → All P (reverse_aux s r)
All-reverse_aux P [] r h k = k
All-reverse_aux P (c ∷ s) r (h, hs) k = All-reverse_aux P s (c ∷ r) hs (h, k)

trim_left-plain : (s : Text) → IsPlain s → trim_left s ≡ s
unfolding trim_left
trim_left-plain [] h = refl
trim_left-plain (c ∷ s) (h, hs) =
    if_rule (λ (t : Text). t ≡ c ∷ s) (is_space c)
      (λ k. absurd (or_neither (is_space c) (c == b'@') (c == b':') h k)) λ k. refl

cut_last-absent : (s : Text) (sep : ℕ) → All (λ c. (c == sep) ≡ false) s → cut_last s sep ≡ none
unfolding cut_last
cut_last-absent [] sep h = refl
cut_last-absent (c ∷ s) sep (h, hs) = rw (cut_last-absent s sep hs, h) refl

lower_idem : (c : ℕ) → lower_byte (lower_byte c) ≡ lower_byte c
unfolding lower_byte
lower_idem c = ground arith

lower-dot : (c : ℕ) → (lower_byte c == b'.') ≡ (c == b'.')
unfolding lower_byte
lower-dot c = ground arith

drop_dot-to_lower : (s : Text) → drop_dot (to_lower s) ≡ to_lower (drop_dot s)
unfolding drop_dot to_lower
drop_dot-to_lower [] = refl
drop_dot-to_lower (c ∷ []) = elim (Bool-cases (c == b'.')) [
  | inl dot ↦ rw (lower-dot c, dot) refl
  | inr other ↦ rw (lower-dot c, other) refl
]
drop_dot-to_lower (c ∷ d ∷ s) = ap (λ (t : Text). lower_byte c ∷ t) (drop_dot-to_lower (d ∷ s))

strip-to_lower : (s : Text) → strip_trailing_dot (to_lower s) ≡ to_lower (strip_trailing_dot s)
unfolding strip_trailing_dot to_lower
strip-to_lower [] = refl
strip-to_lower (c ∷ []) = refl
strip-to_lower (c ∷ d ∷ s) = ap (λ (t : Text). lower_byte c ∷ t) (drop_dot-to_lower (d ∷ s))

to_lower_idem : (s : Text) → to_lower (to_lower s) ≡ to_lower s
unfolding to_lower
to_lower_idem [] = refl
to_lower_idem (c ∷ s) = rw (lower_idem c) (ap (λ (t : Text). lower_byte c ∷ t) (to_lower_idem s))

pub trim_space-plain : (s : Text) → IsPlain s → trim_space s ≡ s
unfolding trim_space
trim_space-plain s h =
    ap (λ (t : Text). reverse (trim_left (reverse t))) (trim_left-plain s h)
    ∙ ap reverse (trim_left-plain (reverse s) (All-reverse_aux _ s [] h tt))
    ∙ reverse-reverse s

strip_userinfo-plain : (s : Text) → IsPlain s → strip_userinfo s ≡ s
unfolding strip_userinfo
strip_userinfo-plain s h =
    rw
      (
        strip_userinfo,
        cut_last-absent s b'@' (All-map _ _ (λ c. not_at (is_space c) (c == b'@') (c == b':')) s h),
      )
      refl

trim_port-plain : (s : Text) → IsPlain s → trim_port s ≡ s
unfolding trim_port
trim_port-plain s h =
    rw
      (
        trim_port,
        cut_last-absent s b':'
            (All-map _ _ (λ c. not_colon (is_space c) (c == b'@') (c == b':')) s h),
      )
      refl

normalize_host-plain : (s : Text) → IsPlain s → normalize_host s ≡ to_lower (strip_trailing_dot s)
unfolding normalize_host
normalize_host-plain s h =
    ap (λ (t : Text). to_lower (strip_trailing_dot (trim_port t))) (strip_userinfo-plain s h)
    ∙ ap (λ (t : Text). to_lower (strip_trailing_dot t)) (trim_port-plain s h)

-- What an exact host matches, from the pattern that it was compiled from.
abbrev pub MatchesNormal : Text → Text → Option Host → Type 0
MatchesNormal h host none = Unit
MatchesNormal h host (some ch) =
    is_exact ch ≡ true → host_match ch host ≡ text_eq (normalize_host host) (normalize_host h)

exact-Matches :
    (e host : Text)
    → not (is_empty e) ≡ true
    → host_match (record { exact = e; suffix = []; catch_all = false }) host
      ≡ text_eq (normalize_host host) (to_lower e)
unfolding host_match normalize_host equal_fold
exact-Matches e host h = rw h refl

-- An exact host, compiled from a pattern without spaces, '@' and ':', matches an authority exactly if
-- the two have the same normal form.
pub compile_host-MatchesNormal : (h host : Text) → IsPlain h → MatchesNormal h host (compile_host h)
unfolding compile_host
compile_host-MatchesNormal h host plain =
    let p : Text = to_lower (trim_space h) in
    let normal : to_lower (strip_trailing_dot p) ≡ normalize_host h =
      ap (λ (t : Text). to_lower (strip_trailing_dot (to_lower t))) (trim_space-plain h plain)
      ∙ ap to_lower (strip-to_lower h)
      ∙ to_lower_idem (strip_trailing_dot h)
      ∙ sym (normalize_host-plain h plain) in
    if_rule (MatchesNormal h host) (is_empty p) (λ e. tt)
      λ e.
        if_rule (MatchesNormal h host) (text_eq p (lit "*")) (λ star exact. absurd cc)
          λ named.
            if_rule (MatchesNormal h host) (has_prefix p (lit "*."))
              (λ wild.
                if_rule (MatchesNormal h host) (is_empty (strip_trailing_dot (drop 2 p)))
                  (λ bare. tt) λ rest exact. absurd cc)
              (λ plain_name exact.
                exact-Matches (strip_trailing_dot p) host exact
                ∙ ap (text_eq (normalize_host host)) normal)
