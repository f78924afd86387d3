-- ===== src/Strings/Equality.antt =====
-- The comparison of texts, and the keys of a set of texts, as equations.
use elchi_shield.Prelude.{Bool, true, false, ◌&&◌, ◌≡◌, refl, [], ◌∷◌, ◌==◌, ==_iff, arith}
use elchi_shield.Strings.{Text, text_eq}

and_left : (a b : Bool) → (a && b) ≡ true → a ≡ true
and_left true b e = refl
and_left false b e = cc

and_right : (a b : Bool) → (a && b) ≡ true → b ≡ true
and_right true b e = e
and_right false b e = cc

pub text_eq→≡ : (a b : Text) → text_eq a b ≡ true → a ≡ b
unfolding text_eq
text_eq→≡ [] [] e = refl
text_eq→≡ [] (y ∷ b) e = cc
text_eq→≡ (x ∷ a) [] e = cc
text_eq→≡ (x ∷ a) (y ∷ b) e =
    let heads : x ≡ y = (==_iff x y).0 (and_left (x == y) (text_eq a b) e) in
    let tails : a ≡ b = text_eq→≡ a b (and_right (x == y) (text_eq a b) e) in cc

pub text_eq_refl : (a : Text) → text_eq a a ≡ true
unfolding text_eq
text_eq_refl [] = refl
text_eq_refl (x ∷ a) = let rest = text_eq_refl a in ground arith

pub text_eq_comm : (a b : Text) → text_eq a b ≡ text_eq b a
unfolding text_eq
text_eq_comm [] [] = refl
text_eq_comm [] (y ∷ b) = refl
text_eq_comm (x ∷ a) [] = refl
text_eq_comm (x ∷ a) (y ∷ b) = let rest = text_eq_comm a b in ground arith
