-- ===== src/Policy/Compile/Index.antt =====
-- The index of the compiled domains and a scan of all of them (internal/policy/compile.go and
-- resolver.go).
use elchi_shield.Prelude.{
  ℕ, Bool, true, false, ◌≡◌, refl, ap, ◌∙◌, subst, List, [], ◌∷◌, ◌++◌, none, some, any, arith,
  option_rule, if◌then◌else◌, Bool-cases, inl, inr, ltb,
}
use elchi_shield.Strings.{Text, text_eq}
use elchi_shield.Strings.Equality.{text_eq→≡, text_eq_comm}
use elchi_shield.Matcher.Host.{normalize_host}
use elchi_shield.Policy.Resolver.{
  CompiledDomain, Best, beats, score_of, domain_specificity, consider, scan, bucket,
}
use elchi_shield.Policy.Compile.{append_bucket, index_hosts}

test_again :
    (cds m z : List CompiledDomain) (b : Bool)
    → (if b then cds ++ z else m)
      ≡ (if b then (if b then cds else m) ++ z else if b then cds else m)
test_again cds m z true = refl
test_again cds m z false = refl

-- A bucket after a domain has been appended to one.
bucket-append :
    (key k : Text) (cd : CompiledDomain) (m : List (Text × List CompiledDomain))
    → bucket key (append_bucket k cd m)
      ≡ (if text_eq k key then bucket key m ++ (cd ∷ []) else bucket key m)
unfolding bucket append_bucket
bucket-append key k cd [] = refl
bucket-append key k cd ((l, cds) ∷ m) = elim (Bool-cases (text_eq l k)) [
  | inl same ↦ rw same (
      subst
        (λ (t : Text). (if text_eq l key then cds ++ (cd ∷ []) else bucket key m) ≡ (
          if text_eq t key
          then (if text_eq l key then cds else bucket key m) ++ (cd ∷ [])
          else if text_eq l key
          then cds
          else bucket key m))
        (text_eq→≡ l k same) (test_again cds (bucket key m) (cd ∷ []) (text_eq l key)))
  | inr differs ↦ elim (Bool-cases (text_eq l key)) [
    | inl here ↦
        let apart : text_eq k key ≡ false =
          text_eq_comm k key
          ∙ subst (λ (t : Text). text_eq t k ≡ false) (text_eq→≡ l key here) differs in
        rw (differs, here, apart) refl
    | inr away ↦ rw (differs, away) (bucket-append key k cd m)
  ]
]

beats_self : (s : ℕ) → ltb s s ≡ false
beats_self s = ground arith

module _ (host : Text) where
  pub scan-append :
      (xs ys : List CompiledDomain) (best : Best)
      → scan host (xs ++ ys) best ≡ scan host ys (scan host xs best)
  unfolding scan
  scan-append [] ys best = refl
  scan-append (x ∷ xs) ys best = scan-append xs ys (consider host best x)

  -- The choice between the best so far and a domain that matches, made twice.
  choose_twice :
      (best : Best) (cd : CompiledDomain) (s : ℕ)
      → (if beats s (score_of (if beats s (score_of best) then some (cd, s) else best))
          then some (cd, s)
          else if beats s (score_of best)
          then some (cd, s)
          else best)
        ≡ (if beats s (score_of best) then some (cd, s) else best)
  choose_twice best cd s = elim (Bool-cases (beats s (score_of best))) [
    | inl b ↦ rw (b, beats_self s) refl
    | inr b ↦ rw (b, b) refl
  ]

  -- A domain that has been considered changes nothing when it is considered again.
  consider_twice :
      (best : Best) (cd : CompiledDomain)
      → consider host (consider host best cd) cd ≡ consider host best cd
  unfolding consider
  consider_twice best cd =
      option_rule
        (λ (b : Best).
          (elim (domain_specificity cd host) [
            | none ↦ b
            | some s ↦ if beats s (score_of b) then some (cd, s) else b
          ])
          ≡ b)
        (domain_specificity cd host) (λ e. rw e refl) λ s e. rw e (choose_twice best cd s)

  -- A domain whose hosts do not match is passed over.
  pub consider_out :
      (best : Best) (cd : CompiledDomain)
      → domain_specificity cd host ≡ none
      → consider host best cd ≡ best
  unfolding consider
  consider_out best cd e = rw (consider, e) refl

  scan_one : (cd : CompiledDomain) (best : Best) → scan host (cd ∷ []) best ≡ consider host best cd
  unfolding scan
  scan_one cd best = refl

  either_twice :
      (b : Bool) (best : Best) (cd : CompiledDomain)
      → (if b then consider host (consider host best cd) cd else consider host best cd)
        ≡ consider host best cd
  either_twice true best cd = consider_twice best cd
  either_twice false best cd = refl

  -- The scan of a bucket after a domain has been put under each of its hosts.
  pub scan-index_hosts :
      (key : Text) (hs : List Text) (cd : CompiledDomain) (m : List (Text × List CompiledDomain))
      (best : Best)
      → scan host (bucket key (index_hosts hs cd m)) best ≡ (
          if any (λ h. text_eq (normalize_host h) key) hs
          then consider host (scan host (bucket key m) best) cd
          else scan host (bucket key m) best)
  unfolding index_hosts
  scan-index_hosts key [] cd m best = refl
  scan-index_hosts key (h ∷ hs) cd m best =
      scan-index_hosts key hs cd (append_bucket (normalize_host h) cd m) best
      ∙ elim (Bool-cases (text_eq (normalize_host h) key)) [
        | inl here ↦
            let grown : scan host (bucket key (append_bucket (normalize_host h) cd m)) best
                ≡ consider host (scan host (bucket key m) best) cd =
              ap (λ (l : List CompiledDomain). scan host l best)
                (bucket-append key (normalize_host h) cd m
                  ∙ ap (λ (b : Bool). if b then bucket key m ++ (cd ∷ []) else bucket key m) here)
              ∙ scan-append (bucket key m) (cd ∷ []) best
              ∙ scan_one cd _ in
            rw (grown, here)
              (either_twice (any (λ h. text_eq (normalize_host h) key) hs)
                (scan host (bucket key m) best) cd)
        | inr away ↦
            let same : bucket key (append_bucket (normalize_host h) cd m) ≡ bucket key m =
              bucket-append key (normalize_host h) cd m
              ∙ ap (λ (b : Bool). if b then bucket key m ++ (cd ∷ []) else bucket key m) away in
            rw (same, away) refl
      ]
