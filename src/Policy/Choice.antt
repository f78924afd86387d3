-- ===== src/Policy/Choice.antt =====
-- Which domain a request is resolved by (internal/policy/resolver.go).
use elchi_shield.Prelude.{
  ℕ, ◌≤◌, ◌<◌, true, false, ◌≡◌, refl, append-nil, ap, ◌∙◌, sym, subst, List, [], ◌∷◌, ◌++◌, Option,
  none, some, All, arith, if_rule, option_rule, append_assoc,
}
use elchi_shield.Strings.{Text}
use elchi_shield.Matcher.Host.{normalize_host}
use elchi_shield.Policy.Resolver.{
  Input, CompiledDomain, Resolver, Best, beats, score_of, domain_specificity, consider, scan,
  bucket, policy_of, resolve,
}

-- A domain that does not match the host, or by a host of less than, or of at most, the specificity.
abbrev pub IsBelow : Text → ℕ → CompiledDomain → Type 0
IsBelow host n cd = (k : ℕ) → domain_specificity cd host ≡ some k → k < n

abbrev pub IsAtMost : Text → ℕ → CompiledDomain → Type 0
IsAtMost host n cd = (k : ℕ) → domain_specificity cd host ≡ some k → k ≤ n

-- The choice among the candidates: the first of those that match the host most specifically, or none
-- if none matches.
abbrev pub IsChoice : Text → List CompiledDomain → Best → Type 0
IsChoice host cds none = All (λ cd. domain_specificity cd host ≡ none) cds
IsChoice host cds (some (d, s)) =
    (before : List CompiledDomain) × (after : List CompiledDomain) × (cds ≡ before ++ (d ∷ after))
    × (domain_specificity d host ≡ some s)
    × All (IsBelow host s) before
    × All (IsAtMost host s) after

none_ne : {n : ℕ} → Option.none ≡ some n → ⊥
none_ne e = cc

same_score : {m n : ℕ} → Option.some m ≡ some n → m ≡ n
same_score e = cc

beaten :
    {s k : ℕ} (best : Best) {d : CompiledDomain} {t : ℕ}
    → best ≡ some (d, t)
    → beats s (score_of best) ≡ false
    → s ≡ k
    → k ≤ t
beaten {s} none e b q = absurd cc
beaten {s} {k} (some (c, u)) {d} {t} e b q = let same : u ≡ t = cc in ground arith

unbeaten : (s : ℕ) (best : Best) → best ≡ none → beats s (score_of best) ≡ false → ⊥
unbeaten s none e b = cc
unbeaten s (some (c, u)) e b = cc

module _ {A : Type 0} (P : A → Type 0) where
  All-append : (xs ys : List A) → All P xs → All P ys → All P (xs ++ ys)
  All-append [] ys h k = k
  All-append (x ∷ xs) ys (h, hs) k = (h, All-append xs ys hs k)

  All-map : (Q : A → Type 0) → ((x : A) → P x → Q x) → (xs : List A) → All P xs → All Q xs
  All-map Q f [] h = tt
  All-map Q f (x ∷ xs) (h, hs) = (f x h, All-map Q f xs hs)

module _ (host : Text) where
  -- A candidate that does not win is put after the choice.
  pass_over :
      (pre : List CompiledDomain) (best : Best) (cd : CompiledDomain)
      → ((d : CompiledDomain) (s : ℕ) → best ≡ some (d, s) → IsAtMost host s cd)
      → (best ≡ none → domain_specificity cd host ≡ none)
      → IsChoice host pre best
      → IsChoice host (pre ++ (cd ∷ [])) best
  pass_over pre none cd h k c = All-append _ pre (cd ∷ []) c (k refl, tt)
  pass_over pre (some (d, s)) cd h k (before, after, e, m, below, above) = (
    before,
    after ++ (cd ∷ []),
    ap (λ (l : List CompiledDomain). l ++ (cd ∷ [])) e ∙ append_assoc before (d ∷ after) (cd ∷ []),
    m,
    below,
    All-append _ after (cd ∷ []) above (h d s refl, tt),
  )

  -- A candidate that wins has all the others before it.
  win :
      (pre : List CompiledDomain) (best : Best) (cd : CompiledDomain) (s : ℕ)
      → domain_specificity cd host ≡ some s
      → beats s (score_of best) ≡ true
      → IsChoice host pre best
      → IsChoice host (pre ++ (cd ∷ [])) (some (cd, s))
  win pre none cd s m b c = (
    pre,
    [],
    refl,
    m,
    All-map _ (IsBelow host s) (λ d out k e. absurd (none_ne (sym out ∙ e))) pre c,
    tt,
  )
  win pre (some (d, t)) cd s m b (before, after, e, dm, below, above) =
      let less : t < s = ground arith in
      let weaker : (x : CompiledDomain) → IsBelow host t x → IsBelow host s x =
        λ x f k q. omega (arith, f k q, less) in
      let weak : (x : CompiledDomain) → IsAtMost host t x → IsBelow host s x =
        λ x f k q. omega (arith, f k q, less) in
      let chosen : IsBelow host s d = λ k q. omega (arith, same_score (sym dm ∙ q), less) in
      let low : All (IsBelow host s) (before ++ (d ∷ after)) =
        All-append _ before (d ∷ after) (All-map _ (IsBelow host s) weaker before below)
          (chosen, All-map _ (IsBelow host s) weak after above) in
      (pre, [], refl, m, subst (All (IsBelow host s)) (sym e) low, tt)

  consider-IsChoice :
      (pre : List CompiledDomain) (best : Best) (cd : CompiledDomain)
      → IsChoice host pre best
      → IsChoice host (pre ++ (cd ∷ [])) (consider host best cd)
  unfolding consider
  consider-IsChoice pre best cd c =
      option_rule (IsChoice host (pre ++ (cd ∷ []))) (domain_specificity cd host)
        (λ out. pass_over pre best cd (λ d s e k q. absurd (none_ne (sym out ∙ q))) (λ e. out) c)
        λ s m.
          if_rule (IsChoice host (pre ++ (cd ∷ []))) (beats s (score_of best))
            (λ b. win pre best cd s m b c)
            (λ b.
              pass_over pre best cd (λ d t e k q. beaten best e b (same_score (sym m ∙ q)))
                (λ e. absurd (unbeaten s best e b)) c)

  scan-IsChoice :
      (pre cds : List CompiledDomain) (best : Best)
      → IsChoice host pre best
      → IsChoice host (pre ++ cds) (scan host cds best)
  unfolding scan
  scan-IsChoice pre [] best c =
      subst (λ (l : List CompiledDomain). IsChoice host l best) (sym (append-nil pre)) c
  scan-IsChoice pre (cd ∷ cds) best c =
      subst (λ (l : List CompiledDomain). IsChoice host l (scan host cds (consider host best cd)))
        (append_assoc pre (cd ∷ []) cds)
        (scan-IsChoice (pre ++ (cd ∷ [])) cds (consider host best cd)
          (consider-IsChoice pre best cd c))

-- A request is resolved by the domain that matches its host most specifically, the first of those
-- among the domains under its normalised host followed by the domains with a wildcard, and by none
-- exactly if none of these matches.
pub resolve_picks :
    (r : Resolver) (inp : Input)
    → (best : Best) × IsChoice inp.host
        (bucket (normalize_host inp.host) r.exact ++ r.wildcard)
        best
      × (resolve r inp ≡ policy_of inp best)
unfolding resolve
resolve_picks r inp =
    let bs = bucket (normalize_host inp.host) r.exact in
    let first = scan inp.host bs none in
    (
      scan inp.host r.wildcard first,
      scan-IsChoice inp.host bs r.wildcard first (scan-IsChoice inp.host [] bs none tt),
      refl,
    )
