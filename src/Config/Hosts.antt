-- ===== src/Config/Hosts.antt =====
-- What the check of a host guarantees (internal/config/validate.go and internal/matcher/host.go).
use elchi_shield.Prelude.{
  ℕ, Bool, true, false, ◌&&◌, ◌||◌, not, ◌≡◌, refl, sym, ap, ◌∙◌, subst, List, [], ◌∷◌, Option,
  is_some, all, if◌then◌else◌, if_rule, arith, Bool-cases, inl, inr, drop, ◌==◌,
}
use elchi_shield.Strings.{
  Text, lit, text_eq, is_empty, is_space, has_prefix, split, to_lower, lower_byte, trim_space,
}
use elchi_shield.Strings.Equality.{text_eq→≡}
use elchi_shield.Matcher.Host.{Host, compile_host, strip_trailing_dot}
use elchi_shield.Matcher.Host.Exact.{IsPlain, trim_space-plain}
use elchi_shield.Config.Routes.{is_label_byte, is_label, all_labels, host_re, host_valid}

both : (a b : Bool) → (a && b) ≡ true → (a ≡ true) × (b ≡ true)
both true b h = (refl, h)
both false b h = absurd cc

or_right : (a b : Bool) → a ≡ false → (a || b) ≡ true → b ≡ true
or_right a b h k = ground arith

both_true : {a b : Bool} → a ≡ true → b ≡ true → (a && b) ≡ true
both_true {a} {b} h k = ground arith

label_byte_plain : (c : ℕ) → is_label_byte c ≡ true → (is_space c || c == b'@' || c == b':') ≡ false
unfolding is_label_byte is_space
label_byte_plain c h = ground arith

label-IsPlain : (t : Text) → all is_label_byte t ≡ true → IsPlain t
label-IsPlain [] h = tt
label-IsPlain (c ∷ t) h =
    let (here, rest) = both (is_label_byte c) (all is_label_byte t) h in
    (label_byte_plain c here, label-IsPlain t rest)

-- The first part may be cut short by a scan.
abbrev all_parts : Text × List Text → Bool
all_parts (part, parts) = all is_label_byte part && all is_label parts

labels_parts : (r : Text × List Text) → all_labels r ≡ true → all_parts r ≡ true
unfolding is_label
labels_parts (part, parts) e = let a = not (is_empty part) in ground arith

dot_plain : (c : ℕ) → (c == b'.') ≡ true → (is_space c || c == b'@' || c == b':') ≡ false
unfolding is_space
dot_plain c h = ground arith

cons_plain :
    (dot : Bool) (c : ℕ) (part : Text) (parts : List Text)
    → (c == b'.') ≡ dot
    → all_parts (if dot then ([], part ∷ parts) else (c ∷ part, parts)) ≡ true
    → ((is_space c || c == b'@' || c == b':') ≡ false) × (all_parts (part, parts) ≡ true)
cons_plain true c part parts d e = (dot_plain c d, labels_parts (part, parts) e)
cons_plain false c part parts d e =
    let (front, back) = both (is_label_byte c && all is_label_byte part) (all is_label parts) e in
    let (here, rest) = both (is_label_byte c) (all is_label_byte part) front in
    (label_byte_plain c here, both_true rest back)

parts-IsPlain : (h : Text) → all_parts (split h b'.') ≡ true → IsPlain h
unfolding split
parts-IsPlain [] e = tt
parts-IsPlain (c ∷ h) e =
    let (here, rest) = cons_plain (c == b'.') c (split h b'.').0 (split h b'.').1 refl e in
    (here, parts-IsPlain h rest)

strip_nonempty : (c : ℕ) (s : Text) → is_empty (strip_trailing_dot (c ∷ s)) ≡ false
unfolding strip_trailing_dot
strip_nonempty c [] = refl
strip_nonempty c (d ∷ s) = refl

lower-star : (c : ℕ) → (lower_byte c == b'*') ≡ (c == b'*')
unfolding lower_byte
lower-star c = ground arith

lower-dot : (c : ℕ) → (lower_byte c == b'.') ≡ (c == b'.')
unfolding lower_byte
lower-dot c = ground arith

wild-to_lower : (h : Text) → has_prefix (to_lower h) (lit "*.") ≡ has_prefix h (lit "*.")
unfolding has_prefix to_lower lit
wild-to_lower [] = refl
wild-to_lower (c ∷ []) = ap (λ (b : Bool). b && false) (lower-star c)
wild-to_lower (c ∷ d ∷ h) = rw (lower-star c, lower-dot d) refl

labels_nonempty : (h : Text) → all_labels (split h b'.') ≡ true → is_empty h ≡ false
unfolding split is_label
labels_nonempty [] e = absurd cc
labels_nonempty (c ∷ h) e = refl

star_plain : (c : ℕ) → (c == b'*') ≡ true → (is_space c || c == b'@' || c == b':') ≡ false
unfolding is_space
star_plain c h = ground arith

re-IsPlain :
    (wild : Bool) (h : Text)
    → has_prefix h (lit "*.") ≡ wild
    → all_labels (split (if wild then drop 2 h else h) b'.') ≡ true
    → IsPlain h
unfolding has_prefix lit
re-IsPlain false h w e = parts-IsPlain h (labels_parts (split h b'.') e)
re-IsPlain true [] w e = tt
re-IsPlain true (c ∷ []) w e =
    let (star, none_left) = both (c == b'*') false w in (star_plain c star, tt)
re-IsPlain true (c ∷ d ∷ h) w e =
    let (star, rest) = both (c == b'*') (d == b'.' && true) w in
    let (dot, end) = both (d == b'.') true rest in
    (star_plain c star, (dot_plain d dot, parts-IsPlain h (labels_parts (split h b'.') e)))

-- A host that matches the regular expression has only bytes of labels and dots, behind a "*.".
pub host_re-IsPlain : (h : Text) → host_re h ≡ true → IsPlain h
unfolding host_re
host_re-IsPlain h e = re-IsPlain (has_prefix h (lit "*.")) h refl e

-- What stands behind an optional "*." is not empty.
re_nonempty :
    (wild : Bool) (h : Text)
    → has_prefix h (lit "*.") ≡ wild
    → all_labels (split (if wild then drop 2 h else h) b'.') ≡ true
    → (is_empty h ≡ false)
      × (wild ≡ true → is_empty (strip_trailing_dot (drop 2 (to_lower h))) ≡ false)
unfolding has_prefix lit to_lower
re_nonempty false h w e = (labels_nonempty h e, λ k. absurd cc)
re_nonempty true [] w e = absurd cc
re_nonempty true (c ∷ []) w e = let (star, none_left) = both (c == b'*') false w in absurd cc
re_nonempty true (c ∷ d ∷ []) w e = let empty = labels_nonempty [] e in absurd cc
re_nonempty true (c ∷ d ∷ x ∷ h) w e = (refl, λ k. strip_nonempty (lower_byte x) (to_lower h))

is_empty-to_lower : (h : Text) → is_empty (to_lower h) ≡ is_empty h
unfolding to_lower
is_empty-to_lower [] = refl
is_empty-to_lower (c ∷ h) = refl

clash : {X : Type 0} {b : Bool} → b ≡ true → b ≡ false → X
clash h k = absurd cc

host_re-compiles : (h : Text) → host_re h ≡ true → is_some (compile_host h) ≡ true
unfolding compile_host host_re
host_re-compiles h e =
    let p : Text = to_lower (trim_space h) in
    let P : Option Host → Type 0 = λ o. is_some o ≡ true in
    let same : p ≡ to_lower h = ap to_lower (trim_space-plain h (host_re-IsPlain h e)) in
    let (full, behind) = re_nonempty (has_prefix h (lit "*.")) h refl e in
    if_rule P (is_empty p) (λ empty. clash empty (ap is_empty same ∙ is_empty-to_lower h ∙ full))
      λ filled.
        if_rule P (text_eq p (lit "*")) (λ star. refl)
          λ named.
            if_rule P (has_prefix p (lit "*."))
              (λ wild.
                let wild' : has_prefix h (lit "*.") ≡ true =
                  sym (ap (λ (t : Text). has_prefix t (lit "*.")) same ∙ wild-to_lower h) ∙ wild in
                if_rule P (is_empty (strip_trailing_dot (drop 2 p)))
                  (λ bare. clash bare (
                    ap (λ (t : Text). is_empty (strip_trailing_dot (drop 2 t))) same
                    ∙ behind wild'))
                  λ rest. refl)
              λ exact. refl

star-compiles : is_some (compile_host (lit "*")) ≡ true
unfolding compile_host lit
star-compiles = refl

-- A host that passes validation compiles.
pub host_valid-compiles : (h : Text) → host_valid h ≡ true → is_some (compile_host h) ≡ true
unfolding host_valid
host_valid-compiles h e = elim (Bool-cases (text_eq h (lit "*"))) [
  | inl star ↦
      subst (λ (t : Text). is_some (compile_host t) ≡ true) (sym (text_eq→≡ h (lit "*") star))
        star-compiles
  | inr other ↦ host_re-compiles h (or_right (text_eq h (lit "*")) (host_re h) other e)
]
