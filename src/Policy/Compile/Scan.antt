-- ===== src/Policy/Compile/Scan.antt =====
-- Resolution through the index and through a scan of all domains (internal/policy/compile.go and
-- resolver.go).
use elchi_shield.Prelude.{
  Bool, true, false, ◌≡◌, refl, sym, ap, ◌∙◌, subst, append-nil, append_assoc, List, [], ◌∷◌, ◌++◌,
  Option, none, some, All, any, if_rule, option_rule, if◌then◌else◌, Bool-cases, inl, inr, map,
}
use elchi_shield.Strings.{Text, IsAscii, text_eq}
use elchi_shield.Config.{PolicySpec, Domain, default_policy, resolve_policy}
use elchi_shield.Config.Merge.{MergedDomain, MergedConfig}
use elchi_shield.Engine.{Set}
use elchi_shield.Matcher.Host.{normalize_host}
use elchi_shield.Matcher.Host.Exact.{IsPlain}
use elchi_shield.Policy.Resolver.{
  Input, CompiledDomain, Resolver, Best, domain_specificity, consider, scan, bucket, policy_of,
  resolve,
}
use elchi_shield.Policy.Compile.{
  compile_hosts, all_exact, index_hosts, index_domain, compile_domain, compile_domains, compile,
  compile_policy, compile_routes, domain_id,
}
use elchi_shield.Matcher.Normalize.{normalize_path}
use elchi_shield.Policy.Compile.Hosts.{
  AreCompiled, HostsCompiled, compile_hosts-HostsCompiled, best_score-unmatched,
}
use elchi_shield.Policy.Compile.Index.{consider_out, scan-append, scan-index_hosts}

-- The domains whose hosts are all exact, and the others.
abbrev pub exacts : List CompiledDomain → List CompiledDomain
exacts [] = []
exacts (cd ∷ cds) = let rest = exacts cds in if all_exact cd.hosts then cd ∷ rest else rest

abbrev pub others : List CompiledDomain → List CompiledDomain
others [] = []
others (cd ∷ cds) = let rest = others cds in if all_exact cd.hosts then rest else cd ∷ rest

exacts-append : (xs ys : List CompiledDomain) → exacts (xs ++ ys) ≡ exacts xs ++ exacts ys
exacts-append [] ys = refl
exacts-append (x ∷ xs) ys = elim (Bool-cases (all_exact x.hosts)) [
  | inl e ↦ rw e (ap (λ (l : List CompiledDomain). x ∷ l) (exacts-append xs ys))
  | inr e ↦ rw e (exacts-append xs ys)
]

others-append : (xs ys : List CompiledDomain) → others (xs ++ ys) ≡ others xs ++ others ys
others-append [] ys = refl
others-append (x ∷ xs) ys = elim (Bool-cases (all_exact x.hosts)) [
  | inl e ↦ rw e (others-append xs ys)
  | inr e ↦ rw e (ap (λ (l : List CompiledDomain). x ∷ l) (others-append xs ys))
]

module _ (host : Text) where
  -- The index gives the choice among the exact domains that a scan gives, and keeps the others.
  abbrev Covers : List CompiledDomain → Resolver → Type 0
  Covers done r =
      (scan host (bucket (normalize_host host) r.exact) none ≡ scan host (exacts done) none)
      × (r.wildcard ≡ others done)

  considered :
      (b : Bool) (best : Best) (cd : CompiledDomain)
      → (b ≡ false → domain_specificity cd host ≡ none)
      → (if b then consider host best cd else best) ≡ consider host best cd
  considered true best cd h = refl
  considered false best cd h = sym (consider_out host best cd (h refl))

  index_exact :
      (done : List CompiledDomain) (hs : List Text) (cd : CompiledDomain) (r : Resolver)
      → All IsPlain hs
      → AreCompiled hs cd.hosts
      → all_exact cd.hosts ≡ true
      → Covers done r
      → Covers (done ++ (cd ∷ [])) (record r { exact = index_hosts hs cd r.exact })
  unfolding domain_specificity scan
  index_exact done hs cd r plain compiled exact (same, rest) =
      let key : Text = normalize_host host in
      let last : exacts (done ++ (cd ∷ [])) ≡ exacts done ++ (cd ∷ []) =
        exacts-append done (cd ∷ [])
        ∙ ap (λ (b : Bool). exacts done ++ (if b then cd ∷ [] else [])) exact in
      (
        scan-index_hosts host key hs cd r.exact none
            ∙ considered (any (λ h. text_eq (normalize_host h) key) hs)
                (scan host (bucket key r.exact) none) cd
                (best_score-unmatched hs cd.hosts host none plain compiled exact)
            ∙ ap (λ (b : Best). consider host b cd) same
            ∙ sym (scan-append host (exacts done) (cd ∷ []) none)
            ∙ ap (λ (l : List CompiledDomain). scan host l none) (sym last),
        rest
            ∙ sym (
                others-append done (cd ∷ [])
                ∙ ap (λ (b : Bool). others done ++ (if b then [] else cd ∷ [])) exact
                ∙ append-nil (others done)),
      )

  index_domain-Covers :
      (done : List CompiledDomain) (hs : List Text) (cd : CompiledDomain) (r : Resolver)
      → All IsPlain hs
      → AreCompiled hs cd.hosts
      → Covers done r
      → Covers (done ++ (cd ∷ [])) (index_domain hs cd r)
  unfolding index_domain
  index_domain-Covers done hs cd r plain compiled (same, rest) =
      if_rule (Covers (done ++ (cd ∷ []))) (all_exact cd.hosts)
        (λ exact. index_exact done hs cd r plain compiled exact (same, rest))
        λ scanned. (
          same
              ∙ ap (λ (l : List CompiledDomain). scan host l none)
                  (sym (
                    exacts-append done (cd ∷ [])
                    ∙ ap (λ (b : Bool). exacts done ++ (if b then cd ∷ [] else [])) scanned
                    ∙ append-nil (exacts done))),
          ap (λ (l : List CompiledDomain). l ++ (cd ∷ [])) rest
              ∙ sym (
                  others-append done (cd ∷ [])
                  ∙ ap (λ (b : Bool). others done ++ (if b then [] else cd ∷ [])) scanned),
        )

module _ {E F : Type 0} (regexp : Text → Option (Text → Bool)) (build : E → Option Set)
    (rate : F) where
  abbrev DomainCompiled : Domain E F → Option CompiledDomain → Type 0
  DomainCompiled d none = Unit
  DomainCompiled d (some cd) = AreCompiled d.hosts cd.hosts

  compile_domain-DomainCompiled :
      (defaults : PolicySpec E F) (d : Domain E F)
      → DomainCompiled d (compile_domain regexp build rate defaults d)
  unfolding compile_domain
  compile_domain-DomainCompiled defaults d =
      option_rule (DomainCompiled d) (compile_hosts d.hosts) (λ e. tt)
        λ hosts e.
          option_rule (DomainCompiled d)
            (compile_policy regexp build rate (domain_id d)
              (resolve_policy (default_policy rate) (defaults ∷ d.policy ∷ [])))
            (λ f. tt)
            λ policy f.
              option_rule (DomainCompiled d)
                (compile_routes regexp build rate defaults d 0 d.routes) (λ g. tt)
                λ routes g. subst (HostsCompiled d.hosts) e (compile_hosts-HostsCompiled d.hosts)

  -- All domains, compiled in their order; `none` if one of them fails.
  abbrev pub compile_all : PolicySpec E F → List (MergedDomain E F) → Option (List CompiledDomain)
  compile_all defaults [] = some []
  compile_all defaults (md ∷ mds) =
      let rest = compile_all defaults mds in
      elim (compile_domain regexp build rate defaults md.domain) [
        | none ↦ none
        | some cd ↦ elim rest [ none ↦ none | some cds ↦ some (cd ∷ cds) ]
      ]

  -- Both fail, or the index covers the domains.
  abbrev Agrees :
      Text → List CompiledDomain → Option (List CompiledDomain) → Option Resolver → Type 0
  Agrees host done none none = Unit
  Agrees host done (some cds) (some r) = Covers host (done ++ cds) r
  Agrees host done _ _ = ⊥

  Agrees-cons :
      (host : Text) (done : List CompiledDomain) (cd : CompiledDomain)
      (o : Option (List CompiledDomain)) (q : Option Resolver)
      → Agrees host (done ++ (cd ∷ [])) o q
      → Agrees host done (elim o [ none ↦ none | some cds ↦ some (cd ∷ cds) ]) q
  Agrees-cons host done cd none none h = tt
  Agrees-cons host done cd none (some r) h = h
  Agrees-cons host done cd (some cds) none h = h
  Agrees-cons host done cd (some cds) (some r) h =
      subst (λ (l : List CompiledDomain). Covers host l r) (append_assoc done (cd ∷ []) cds) h

  compile_domains-Agrees :
      (host : Text) (defaults : PolicySpec E F) (mds : List (MergedDomain E F))
      (done : List CompiledDomain) (r : Resolver)
      → All (λ md. All IsPlain md.domain.hosts) mds
      → Covers host done r
      → Agrees host done
          (compile_all defaults mds)
          (compile_domains regexp build rate defaults mds r)
  unfolding compile_domains
  compile_domains-Agrees host defaults [] done r plain c =
      subst (λ (l : List CompiledDomain). Covers host l r) (sym (append-nil done)) c
  compile_domains-Agrees host defaults (md ∷ mds) done r (plain, others_plain) c =
      elim (compile_domain regexp build rate defaults md.domain)
          as (λ o.
            DomainCompiled md.domain o
            → Agrees host done
                (elim o [
                  | none ↦ none
                  | some cd ↦ elim (compile_all defaults mds) [
                    | none ↦ none
                    | some cds ↦ some (cd ∷ cds)
                  ]
                ])
                (elim o [
                  | none ↦ none
                  | some cd ↦
                      compile_domains regexp build rate defaults mds
                        (index_domain md.domain.hosts cd r)
                ])) [
                  | none ↦ λ h. tt
                  | some cd ↦ λ h. Agrees-cons host done cd (compile_all defaults mds) _ (
                      compile_domains-Agrees host defaults mds (done ++ (cd ∷ []))
                        (index_domain md.domain.hosts cd r) others_plain
                        (index_domain-Covers host done md.domain.hosts cd r plain h c))
                ]
        (compile_domain-DomainCompiled defaults md.domain)

  -- Both fail, or a request is resolved by a scan of the domains, the exact ones first.
  abbrev pub ResolvesBy : Input → Option (List CompiledDomain) → Option Resolver → Type 0
  ResolvesBy inp none none = Unit
  ResolvesBy inp (some cds) (some r) =
      resolve r inp ≡ policy_of inp (scan inp.host (exacts cds ++ others cds) none)
  ResolvesBy inp _ _ = ⊥

  covered_resolve :
      (inp : Input) (cds : List CompiledDomain) (r : Resolver)
      → Covers inp.host cds r
      → resolve r inp ≡ policy_of inp (scan inp.host (exacts cds ++ others cds) none)
  unfolding resolve
  covered_resolve inp cds r (same, rest) = ap (policy_of inp) (
      ap
        (λ (l : List CompiledDomain).
          scan inp.host l (scan inp.host (bucket (normalize_host inp.host) r.exact) none))
        rest
      ∙ ap (scan inp.host (others cds)) same
      ∙ sym (scan-append inp.host (exacts cds) (others cds) none))

  finished :
      (inp : Input) (excludes : List Text) (o : Option (List CompiledDomain)) (q : Option Resolver)
      → Agrees inp.host [] o q
      → ResolvesBy inp o (elim q [ none ↦ none | some r ↦ some (record r { excludes = excludes }) ])
  unfolding resolve
  finished inp excludes none none h = tt
  finished inp excludes none (some r) h = absurd h
  finished inp excludes (some cds) none h = absurd h
  finished inp excludes (some cds) (some r) h = covered_resolve inp cds r h

  -- If the host of the request is ASCII, and so is each configured host, which has no space, no '@' and
  -- no ':', compilation fails exactly if one of the domains
  -- does not compile, and otherwise the resolver answers each request as a scan of all compiled
  -- domains does, those with exact hosts alone before the others: the index is only an optimisation.
  pub compile-ResolvesBy :
      (cfg : MergedConfig E F) (inp : Input)
      → IsAscii inp.host
      → All (λ md. All IsAscii md.domain.hosts) cfg.domains
      → All (λ md. All IsPlain md.domain.hosts) cfg.domains
      → ResolvesBy inp (compile_all cfg.file_defaults cfg.domains) (compile regexp build rate cfg)
  unfolding compile scan bucket
  compile-ResolvesBy cfg inp ascii_host ascii plain =
      finished inp (map normalize_path cfg.excludes) (compile_all cfg.file_defaults cfg.domains) _ (
        compile_domains-Agrees inp.host cfg.file_defaults cfg.domains []
          (record { exact = []; wildcard = []; excludes = [] }) plain (refl, refl))
