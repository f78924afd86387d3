-- ===== src/Config/Keys.antt =====
-- The sets of keys that the configuration collects (internal/config/merge.go and policy.go).
use elchi_shield.Prelude.{
  Bool, true, false, ◌||◌, ◌≡◌, refl, sym, ap, subst, ◌∙◌, List, [], ◌∷◌, ◌++◌, if_rule, arith,
}
use elchi_shield.Strings.{Text, text_eq, set_has}
use elchi_shield.Strings.Equality.{text_eq→≡, text_eq_refl}
use elchi_shield.Config.{insert_key, insert_keys}

or_right : (a b : Bool) → (a || b) ≡ ((a || b) || a)
or_right a b = ground arith

pub or_assoc : (a b c : Bool) → ((a || b) || c) ≡ (a || (b || c))
or_assoc a b c = ground arith

set_has-insert :
    (ks : List Text) (c name : Text)
    → set_has (insert_key ks c) name ≡ (set_has ks name || text_eq c name)
unfolding set_has insert_key
set_has-insert [] c name = ground arith
set_has-insert (k ∷ ks) c name =
    if_rule
      (λ (l : List Text). set_has l name ≡ ((text_eq k name || set_has ks name) || text_eq c name))
      (text_eq k c)
      (λ same.
        subst
          (λ (d : Text).
            (text_eq k name || set_has ks name)
            ≡ ((text_eq k name || set_has ks name) || text_eq d name))
          (text_eq→≡ k c same) (or_right (text_eq k name) (set_has ks name)))
      (λ differs.
        ap (λ (b : Bool). text_eq k name || b) (set_has-insert ks c name)
        ∙ sym (or_assoc (text_eq k name) (set_has ks name) (text_eq c name)))

pub set_has-insert_keys :
    (ks cs : List Text) (name : Text)
    → set_has (insert_keys ks cs) name ≡ (set_has ks name || set_has cs name)
unfolding set_has insert_keys
set_has-insert_keys ks [] name = ground arith
set_has-insert_keys ks (c ∷ cs) name =
    set_has-insert_keys (insert_key ks c) cs name
    ∙ ap (λ (b : Bool). b || set_has cs name) (set_has-insert ks c name)
    ∙ or_assoc (set_has ks name) (text_eq c name) (set_has cs name)

or_inner : (a b : Bool) → b ≡ true → (a || b) ≡ true
or_inner a b h = ground arith

or_out : (a b : Bool) → a ≡ false → (a || b) ≡ true → b ≡ true
or_out a b h k = ground arith

-- A key that is there is not inserted again.
insert_key-present : (ks : List Text) (c : Text) → set_has ks c ≡ true → insert_key ks c ≡ ks
unfolding insert_key set_has
insert_key-present [] c h = absurd cc
insert_key-present (k ∷ ks) c h =
    if_rule (λ (l : List Text). l ≡ k ∷ ks) (text_eq k c) (λ same. refl)
      λ differs.
        ap (λ (l : List Text). k ∷ l)
          (insert_key-present ks c (or_out (text_eq k c) (set_has ks c) differs h))

set_has-inserted : (ks : List Text) (c : Text) → set_has (insert_key ks c) c ≡ true
set_has-inserted ks c = set_has-insert ks c c ∙ or_inner (set_has ks c) _ (text_eq_refl c)

or_left : (a b : Bool) → a ≡ true → (a || b) ≡ true
or_left a b h = ground arith

insert_keys-insert_key :
    (s ks : List Text) (c : Text)
    → insert_keys s (insert_key ks c) ≡ insert_key (insert_keys s ks) c
unfolding insert_keys insert_key
insert_keys-insert_key s [] c = refl
insert_keys-insert_key s (k ∷ ks) c =
    if_rule (λ (l : List Text). insert_keys s l ≡ insert_key (insert_keys (insert_key s k) ks) c)
      (text_eq k c)
      (λ same. sym (
        insert_key-present (insert_keys (insert_key s k) ks) c (
          set_has-insert_keys (insert_key s k) ks c
          ∙ or_left (set_has (insert_key s k) c) (set_has ks c) (
              subst (λ (d : Text). set_has (insert_key s k) d ≡ true) (text_eq→≡ k c same)
                (set_has-inserted s k)))))
      λ differs. insert_keys-insert_key (insert_key s k) ks c

insert_keys-insert_keys :
    (s ks cs : List Text) → insert_keys s (insert_keys ks cs) ≡ insert_keys (insert_keys s ks) cs
unfolding insert_keys
insert_keys-insert_keys s ks [] = refl
insert_keys-insert_keys s ks (c ∷ cs) =
    insert_keys-insert_keys s (insert_key ks c) cs
    ∙ ap (λ (l : List Text). insert_keys l cs) (insert_keys-insert_key s ks c)

insert_keys-append : (s a b : List Text) → insert_keys s (a ++ b) ≡ insert_keys (insert_keys s a) b
unfolding insert_keys
insert_keys-append s [] b = refl
insert_keys-append s (c ∷ a) b = insert_keys-append (insert_key s c) a b

-- Inserting a union is inserting both.
pub insert_keys-union :
    (s a b : List Text) → insert_keys s (insert_keys [] (a ++ b)) ≡ insert_keys (insert_keys s a) b
unfolding insert_keys
insert_keys-union s a b = insert_keys-insert_keys s [] (a ++ b) ∙ insert_keys-append s a b
