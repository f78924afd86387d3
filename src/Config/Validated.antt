-- ===== src/Config/Validated.antt =====
-- What validation guarantees of a policy and of what is resolved from it (internal/config/validate.go
-- and policy.go).
use elchi_shield.Prelude.{
  ℕ, ◌+◌, Bool, true, false, ◌||◌, not, ◌≡◌, refl, ap, ◌∙◌, List, [], ◌∷◌, ◌++◌, Option, none, some,
  All, arith,
}
use elchi_shield.Strings.{Text, text_eq, set_has}
use elchi_shield.Strings.Equality.{text_eq_comm}
use elchi_shield.Config.Validate.{
  Field, Problem, report, gather, unknown_stage, duplicate_stage, set_and, known_inspectors,
  validate_names, validate_order,
}

append-nil_left : {A : Type 0} (xs ys : List A) → xs ++ ys ≡ [] → xs ≡ []
append-nil_left [] ys e = refl
append-nil_left (x ∷ xs) ys e = absurd cc

append-nil_right : {A : Type 0} (xs ys : List A) → xs ++ ys ≡ [] → ys ≡ []
append-nil_right [] ys e = e
append-nil_right (x ∷ xs) ys e = absurd cc

pub gather-nil : (pss : List (List Problem)) → gather pss ≡ [] → All (λ ps. ps ≡ []) pss
gather-nil [] e = tt
gather-nil (ps ∷ pss) e =
    (append-nil_left ps (gather pss) e, gather-nil pss (append-nil_right ps (gather pss) e))

pub report-nil : (b : Bool) (p : Problem) → report b p ≡ [] → b ≡ false
report-nil true p e = absurd cc
report-nil false p e = refl

-- What holds of the value of a field, if it is set.
abbrev pub Where : {A : Type 0} → Option A → (A → Type 0) → Type 0
Where none P = Unit
Where (some v) P = P v

pub set_and-Where :
    {A : Type 0} (P : A → Type 0) (test : A → Bool) (o : Option A)
    → ((v : A) → test v ≡ false → P v)
    → set_and o test ≡ false
    → Where o P
set_and-Where P test none f h = tt
set_and-Where P test (some v) f h = f v h

-- A pipeline order of known names, each at most once.
abbrev IsUnique : List Text → Type 0
IsUnique [] = Unit
IsUnique (n ∷ ns) = (set_has ns n ≡ false) × IsUnique ns

abbrev pub IsOrder : List Text → Type 0
IsOrder names = All (λ n. set_has known_inspectors n ≡ true) names × IsUnique names

pub false_of_not : (b : Bool) → not b ≡ false → b ≡ true
false_of_not b h = ground arith

neither : (a b : Bool) → (a || b) ≡ false → (a ≡ false) × (b ≡ false)
neither true b h = absurd cc
neither false b h = (refl, h)

-- No later name is one of the seen.
unseen :
    (n : Text) (seen names : List Text)
    → All (λ m. set_has (n ∷ seen) m ≡ false) names
    → All (λ m. set_has seen m ≡ false) names × (set_has names n ≡ false)
unfolding set_has
unseen n seen [] h = (tt, refl)
unseen n seen (m ∷ names) (h, hs) =
    let (apart, fresh) = neither (text_eq n m) (set_has seen m) h in
    let (later, out) = unseen n seen names hs in
    ((fresh, later), ap (λ (b : Bool). b || set_has names n) (text_eq_comm m n ∙ apart) ∙ out)

validate_names-fresh :
    (field : Field) (i : ℕ) (seen names : List Text)
    → validate_names field i seen names ≡ []
    → IsOrder names × All (λ m. set_has seen m ≡ false) names
unfolding validate_names
validate_names-fresh field i seen [] e = ((tt, tt), tt)
validate_names-fresh field i seen (n ∷ names) e =
    let known_here = report (not (set_has known_inspectors n)) (unknown_stage field i) in
    let new_here = report (set_has seen n) (duplicate_stage field i) in
    let rest = validate_names field (i + 1) (n ∷ seen) names in
    let (k, (d, (r, u))) = gather-nil (known_here ∷ new_here ∷ rest ∷ []) e in
    let ((known, unique), fresh) = validate_names-fresh field (i + 1) (n ∷ seen) names r in
    let (later, out) = unseen n seen names fresh in
    (
      ((false_of_not (set_has known_inspectors n) (report-nil _ _ k), known), (out, unique)),
      (report-nil (set_has seen n) _ d, later),
    )

pub validate_order-IsOrder :
    (field : Field) (names : Option (List Text))
    → validate_order field names ≡ []
    → Where names IsOrder
unfolding validate_names
validate_order-IsOrder field none e = tt
validate_order-IsOrder field (some names) e = (validate_names-fresh field 0 [] names e).0
