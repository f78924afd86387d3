-- ===== src/Stages/Forwarded.antt =====
-- Which X-Forwarded-For entry names the client (internal/pipeline/stages/precheck.go).
use elchi_shield.Prelude.{
  ℕ, zero, suc, ◌-◌, ◌<◌, ◌≤◌, ◌≡◌, refl, ap, ◌∙◌, List, [], ◌∷◌, ◌++◌, Option, none, some, length,
  get_elem?, length-append, ◌==◌, Bool-cases, inl, inr, arith,
}
use elchi_shield.Strings.{Text, split}
use elchi_shield.Stages.PreCheck.{forwarded_entry}

-- All the parts that `split` gives.
abbrev pub parts : Text → ℕ → List Text
parts s sep = (split s sep).0 ∷ (split s sep).1

split-append :
    (a v : Text) (sep : ℕ)
    → split (a ++ (sep ∷ v)) sep ≡ ((split a sep).0, (split a sep).1 ++ parts v sep)
unfolding split
split-append [] v sep = ground arith
split-append (c ∷ a) v sep = elim (Bool-cases (c == sep)) [
  | inl at_sep ↦ rw (at_sep, split-append a v sep) refl
  | inr other ↦ rw (other, split-append a v sep) refl
]

get_elem?-append :
    {A : Type 0} (xs ys : List A) (i : ℕ)
    → length xs ≤ i
    → get_elem? (xs ++ ys) i ≡ get_elem? ys (i - length xs)
get_elem?-append [] ys i h = ap (get_elem? ys) (omega arith)
get_elem?-append (x ∷ xs) ys zero h = absurd (omega (arith, h))
get_elem?-append (x ∷ xs) ys (suc i) h =
    get_elem?-append xs ys i (omega (arith, h)) ∙ ap (get_elem? ys) (omega arith)

abbrev picked : ℕ → Text × List Text → Text
picked hops (t, ts) = elim (get_elem? (t ∷ ts) (length (t ∷ ts) - 1 - hops)) [
  | none ↦ []
  | some x ↦ x
]

-- Whatever a client puts in front of the entries that the trusted proxies append, and a comma, does
-- not change which entry is taken: with more entries than trusted hops, the entry is one of theirs.
pub forwarded_entry-append :
    (hops : ℕ) (spoofed v : Text)
    → hops < length (parts v b',')
    → forwarded_entry hops (spoofed ++ (b',' ∷ v)) ≡ forwarded_entry hops v
unfolding forwarded_entry
forwarded_entry-append hops spoofed v h =
    let ps = parts spoofed b',' in
    let vs = parts v b',' in
    let total = length-append ps vs in
    ap (picked hops) (split-append spoofed v b',')
    ∙ ap (λ (o : Option Text). elim o [ none ↦ [] | some x ↦ x ])
        (get_elem?-append ps vs (length (ps ++ vs) - 1 - hops) (omega (arith, total, h))
          ∙ ap (get_elem? vs) (omega (arith, total, h)))
