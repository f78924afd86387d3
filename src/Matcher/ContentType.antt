-- ===== src/Matcher/ContentType.antt =====
-- internal/matcher/contenttype.go: media type patterns, with parameters ignored.
use elchi_shield.Prelude.{Bool, true, ◌&&◌, ◌||◌, List, map, any, none, some, if◌then◌else◌, []}
use elchi_shield.Strings.{Text, lit, text_eq, is_empty, to_lower, trim_space, cut, before}

-- `ctPattern`.
pub record CtPattern : Type 0 where
  pub typ : Text
  pub sub : Text
  pub any_typ : Bool
  pub any_sub : Bool

pub record ContentType : Type 0 where
  pub patterns : List CtPattern

-- The lower-case type and subtype in front of any ';'.
unfoldable pub split_media : Text → Text × Text
unfolding to_lower trim_space cut before
split_media v =
    let w = to_lower (trim_space (before v b';')) in
    elim (cut w b'/') [ none ↦ (w, []) | some (t, s) ↦ (t, s) ]

unfoldable pub compile_ct : Text → CtPattern
unfolding split_media text_eq lit
compile_ct v =
    let (typ, sub) = split_media v in
    record {
      typ = typ;
      sub = sub;
      any_typ = text_eq typ (lit "*");
      any_sub = text_eq sub (lit "*");
    }

unfoldable pub compile_content_types : List Text → ContentType
unfolding compile_ct
compile_content_types values = record { patterns = map compile_ct values }

unfoldable pub ct_matches : Text → Text → CtPattern → Bool
unfolding text_eq
ct_matches typ sub p = (p.any_typ || text_eq p.typ typ) && (p.any_sub || text_eq p.sub sub)

-- `Match`.
unfoldable pub content_type_match : ContentType → Text → Bool
unfolding split_media ct_matches
content_type_match c ct =
    let (typ, sub) = split_media ct in
    if is_empty c.patterns then true else any (ct_matches typ sub) c.patterns
