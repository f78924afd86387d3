-- ===== src/Policy/Compile/Total.antt =====
-- Compilation of a validated configuration (internal/policy/compile.go and
-- internal/config/validate.go).
use elchi_shield.Prelude.{
  sym, ap, ◌∙◌, ℕ, ◌+◌, Bool, true, false, ◌&&◌, not, ◌≡◌, refl, List, [], ◌∷◌, ◌++◌, Option, none,
  some, is_some, All, if_rule, option_rule, arith,
}
use elchi_shield.Strings.{Text, is_empty}
use elchi_shield.Config.{PolicySpec, Match, Route, Domain, default_policy, resolve_policy}
use elchi_shield.Config.Merge.{MergedDomain, MergedConfig}
use elchi_shield.Config.Hosts.{host_valid-compiles}
use elchi_shield.Config.Routes.{
  host_valid, RouteProblem, report_route, bad, validate_header, validate_headers, validate_match,
}
use elchi_shield.Engine.{Set}
use elchi_shield.Matcher.Host.{compile_host}
use elchi_shield.Matcher.Path.{PathMatcher, compile_path}
use elchi_shield.Matcher.Header.{HeaderMatch, HeaderMatcher, compile_header, compile_headers}
use elchi_shield.Policy.{CompiledPolicy}
use elchi_shield.Policy.Resolver.{CompiledRoute, CompiledDomain, Resolver}
use elchi_shield.Policy.Compile.{
  compile_hosts, compile_policy, compile_route, compile_routes, compile_domain, compile_domains,
  compile, index_domain, route_id, domain_id, engines_of,
}

abbrev Succeeds : {A : Type 0} → Option A → Type 0
Succeeds o = is_some o ≡ true

-- A part that succeeds is not `none`.
succeeded : {A : Type 0} {X : Type 0} (o : Option A) → Succeeds o → o ≡ none → X
succeeded none h e = absurd cc
succeeded (some a) h e = absurd cc

nil_left : (xs ys : List RouteProblem) → xs ++ ys ≡ [] → xs ≡ []
nil_left [] ys e = refl
nil_left (x ∷ xs) ys e = absurd cc

nil_right : (xs ys : List RouteProblem) → xs ++ ys ≡ [] → ys ≡ []
nil_right [] ys e = e
nil_right (x ∷ xs) ys e = absurd cc

unreported : (b : Bool) (p : RouteProblem) → report_route b p ≡ [] → b ≡ false
unreported true p e = absurd cc
unreported false p e = refl

not_empty_some : (a b : Bool) → (not a && not b) ≡ false → not a ≡ true → b ≡ true
not_empty_some a b h k = ground arith

module _ (regexp : Text → Option (Text → Bool)) where
  compiles : (re : Text) → bad regexp re ≡ false → not (is_empty re) ≡ true → Succeeds (regexp re)
  compiles re h k = not_empty_some (is_empty re) (is_some (regexp re)) h k

  path-Succeeds :
      (exact prefix re : Text)
      → bad regexp re ≡ false
      → Succeeds (compile_path regexp exact prefix re)
  unfolding compile_path
  path-Succeeds exact prefix re h =
      let P : Option PathMatcher → Type 0 = λ o. is_some o ≡ true in
      if_rule P (not (is_empty exact)) (λ a. refl)
        λ a.
          if_rule P (not (is_empty re))
            (λ b.
              option_rule P (regexp re) (λ c. succeeded (regexp re) (compiles re h b) c)
                λ f c. refl)
            λ b. if_rule P (not (is_empty prefix)) (λ c. refl) λ c. refl

  header-Succeeds :
      (h : HeaderMatch) → bad regexp h.regex ≡ false → Succeeds (compile_header regexp h)
  unfolding compile_header
  header-Succeeds h k =
      let P : Option HeaderMatcher → Type 0 = λ o. is_some o ≡ true in
      if_rule P (not (is_empty h.exact)) (λ a. refl)
        λ a.
          if_rule P (not (is_empty h.contains)) (λ b. refl)
            λ b.
              if_rule P (not (is_empty h.regex))
                (λ c.
                  option_rule P (regexp h.regex)
                    (λ d. succeeded (regexp h.regex) (compiles h.regex k c) d) λ f d. refl)
                λ c. option_rule P h.present (λ d. refl) λ p d. refl

  headers-Succeeds :
      (i : ℕ) (hs : List HeaderMatch)
      → validate_headers regexp i hs ≡ []
      → Succeeds (compile_headers regexp hs)
  unfolding compile_headers validate_headers validate_header
  headers-Succeeds i [] e = refl
  headers-Succeeds i (h ∷ hs) e =
      let here = nil_left (validate_header regexp i h) (validate_headers regexp (i + 1) hs) e in
      let regex = unreported _ _ (nil_right _ _ (nil_right _ _ here)) in
      let rest =
        headers-Succeeds (i + 1) hs
          (nil_right (validate_header regexp i h) (validate_headers regexp (i + 1) hs) e) in
      option_rule Succeeds (compile_header regexp h)
        (λ c. succeeded (compile_header regexp h) (header-Succeeds h regex) c)
        λ m c.
          option_rule Succeeds (compile_headers regexp hs)
            (λ d. succeeded (compile_headers regexp hs) rest d) λ ms d. refl

  match-Succeeds :
      (m : Match)
      → validate_match regexp m ≡ []
      → Succeeds (compile_path regexp m.path_exact m.path_prefix m.path_regex)
        × Succeeds (compile_headers regexp m.headers)
  unfolding validate_match
  match-Succeeds m e =
      let later = nil_right _ _ e in
      (
        path-Succeeds m.path_exact m.path_prefix m.path_regex (unreported _ _ (nil_left _ _ later)),
        headers-Succeeds 0 m.headers (nil_right _ _ (nil_right _ _ later)),
      )

hosts-Succeed : (hs : List Text) → All (λ h. host_valid h ≡ true) hs → Succeeds (compile_hosts hs)
unfolding compile_hosts
hosts-Succeed [] h = refl
hosts-Succeed (h ∷ hs) (k, ks) =
    option_rule Succeeds (compile_host h)
      (λ c. succeeded (compile_host h) (host_valid-compiles h k) c)
      λ ch c.
        option_rule Succeeds (compile_hosts hs)
          (λ d. succeeded (compile_hosts hs) (hosts-Succeed hs ks) d) λ chs d. refl

and_none : (x a b : Bool) → x ≡ a → x ≡ false → false ≡ (a && b)
and_none x a b h k = ground arith

and_some : (x y a b : Bool) → x ≡ a → x ≡ true → y ≡ b → y ≡ (a && b)
and_some x y a b h k l = ground arith

module _ {E F : Type 0} (regexp : Text → Option (Text → Bool)) (build : E → Option Set)
    (rate : F) where
  -- Whether the engines of a policy, resolved over the defaults, are built.
  abbrev pub builds : List (PolicySpec E F) → Bool
  builds chain =
      is_some (engines_of regexp build rate (resolve_policy (default_policy rate) chain).engines)

  abbrev pub routes_build : PolicySpec E F → Domain E F → List (Route E F) → Bool
  routes_build defaults d [] = true
  routes_build defaults d (rt ∷ rts) =
      builds (defaults ∷ d.policy ∷ rt.policy ∷ []) && routes_build defaults d rts

  -- Whether the engines of each domain and each of its routes are built.
  abbrev pub domains_build : PolicySpec E F → List (MergedDomain E F) → Bool
  domains_build defaults [] = true
  domains_build defaults (md ∷ mds) =
      (builds (defaults ∷ md.domain.policy ∷ [])
        && routes_build defaults md.domain md.domain.routes)
      && domains_build defaults mds

  policy-is_some :
      (id : Text) (chain : List (PolicySpec E F))
      → is_some (compile_policy regexp build rate id (resolve_policy (default_policy rate) chain))
        ≡ builds chain
  unfolding compile_policy
  policy-is_some id chain =
      option_rule (λ (o : Option CompiledPolicy). is_some o ≡ builds chain)
        (engines_of regexp build rate (resolve_policy (default_policy rate) chain).engines)
        (λ c. sym (ap is_some c)) λ es c. sym (ap is_some c)

  abbrev IsValidRoute : Route E F → Type 0
  IsValidRoute rt = validate_match regexp rt.matcher ≡ []

  route-is_some :
      (defaults : PolicySpec E F) (d : Domain E F) (idx : ℕ) (rt : Route E F)
      → IsValidRoute rt
      → is_some (compile_route regexp build rate defaults d idx rt)
        ≡ builds (defaults ∷ d.policy ∷ rt.policy ∷ [])
  unfolding compile_route
  route-is_some defaults d idx rt h =
      let chain = defaults ∷ d.policy ∷ rt.policy ∷ [] in
      let (path, headers) = match-Succeeds regexp rt.matcher h in
      let built = policy-is_some (route_id d idx) chain in
      let P : Option CompiledRoute → Type 0 = λ o. is_some o ≡ builds chain in
      option_rule P
        (compile_path regexp rt.matcher.path_exact rt.matcher.path_prefix rt.matcher.path_regex)
        (λ c. succeeded _ path c)
        λ p c.
          option_rule P (compile_headers regexp rt.matcher.headers) (λ f. succeeded _ headers f)
            λ hs f.
              option_rule P
                (compile_policy regexp build rate (route_id d idx)
                  (resolve_policy (default_policy rate) chain))
                (λ g. sym (ap is_some g) ∙ built) λ q g. sym (ap is_some g) ∙ built

  routes-is_some :
      (defaults : PolicySpec E F) (d : Domain E F) (idx : ℕ) (rts : List (Route E F))
      → All IsValidRoute rts
      → is_some (compile_routes regexp build rate defaults d idx rts) ≡ routes_build defaults d rts
  unfolding compile_routes
  routes-is_some defaults d idx [] h = refl
  routes-is_some defaults d idx (rt ∷ rts) (h, hs) =
      let here = route-is_some defaults d idx rt h in
      let later = routes-is_some defaults d (idx + 1) rts hs in
      let P : Option (List CompiledRoute) → Type 0 =
        λ o. is_some o ≡ routes_build defaults d (rt ∷ rts) in
      option_rule P (compile_route regexp build rate defaults d idx rt)
        (λ c. and_none _ _ _ here (ap is_some c))
        λ r c.
          option_rule P (compile_routes regexp build rate defaults d (idx + 1) rts)
            (λ f. and_some _ _ _ _ here (ap is_some c) (sym (ap is_some f) ∙ later))
            λ rs f. and_some _ _ _ _ here (ap is_some c) (sym (ap is_some f) ∙ later)

  -- A domain whose hosts and routes pass validation.
  abbrev pub IsValidDomain : MergedDomain E F → Type 0
  IsValidDomain md =
      All (λ h. host_valid h ≡ true) md.domain.hosts × All IsValidRoute md.domain.routes

  domain-is_some :
      (defaults : PolicySpec E F) (md : MergedDomain E F)
      → IsValidDomain md
      → is_some (compile_domain regexp build rate defaults md.domain) ≡ (
          builds (defaults ∷ md.domain.policy ∷ [])
          && routes_build defaults md.domain md.domain.routes)
  unfolding compile_domain
  domain-is_some defaults md (hosts, routes) =
      let d : Domain E F = md.domain in
      let chain = defaults ∷ d.policy ∷ [] in
      let here = policy-is_some (domain_id d) chain in
      let later = routes-is_some defaults d 0 d.routes routes in
      let P : Option CompiledDomain → Type 0 =
        λ o. is_some o ≡ (builds chain && routes_build defaults d d.routes) in
      option_rule P (compile_hosts d.hosts) (λ c. succeeded _ (hosts-Succeed d.hosts hosts) c)
        λ hs c.
          option_rule P
            (compile_policy regexp build rate (domain_id d)
              (resolve_policy (default_policy rate) chain))
            (λ f. and_none _ _ _ here (ap is_some f))
            λ p f.
              option_rule P (compile_routes regexp build rate defaults d 0 d.routes)
                (λ g. and_some _ _ _ _ here (ap is_some f) (sym (ap is_some g) ∙ later))
                λ rs g. and_some _ _ _ _ here (ap is_some f) (sym (ap is_some g) ∙ later)

  domains-is_some :
      (defaults : PolicySpec E F) (mds : List (MergedDomain E F)) (r : Resolver)
      → All IsValidDomain mds
      → is_some (compile_domains regexp build rate defaults mds r) ≡ domains_build defaults mds
  unfolding compile_domains
  domains-is_some defaults [] r h = refl
  domains-is_some defaults (md ∷ mds) r (h, hs) =
      let here = domain-is_some defaults md h in
      option_rule (λ (o : Option Resolver). is_some o ≡ domains_build defaults (md ∷ mds))
        (compile_domain regexp build rate defaults md.domain)
        (λ c. and_none _ _ _ here (ap is_some c))
        λ cd c.
          and_some _ _ _ _ here (ap is_some c)
            (domains-is_some defaults mds (index_domain md.domain.hosts cd r) hs)

  -- If validation finds no problem in the hosts of a configuration and in the matches of its routes,
  -- it compiles exactly if the engines of each of its domains and routes can be built.
  pub compile-is_some :
      (cfg : MergedConfig E F)
      → All IsValidDomain cfg.domains
      → is_some (compile regexp build rate cfg) ≡ domains_build cfg.file_defaults cfg.domains
  unfolding compile
  compile-is_some cfg h =
      let start : Resolver = record { exact = []; wildcard = []; excludes = [] } in
      let built = domains-is_some cfg.file_defaults cfg.domains start h in
      option_rule (λ (o : Option Resolver). is_some o ≡ domains_build cfg.file_defaults cfg.domains)
        (compile_domains regexp build rate cfg.file_defaults cfg.domains start)
        (λ c. sym (ap is_some c) ∙ built) λ r c. sym (ap is_some c) ∙ built
