-- ===== src/Policy/Compile.antt =====
-- internal/policy/compile.go: from the merged configuration to the
-- resolver. The stable sort of package sort is an insertion sort: a stable sort by an order gives one
-- result. An error is `none`. The compiler of regular expressions and the builder of engines
-- (engines.go, whose cache shares what one specification builds) are parameters.
pub mod Order
pub mod Index
pub mod Hosts
pub mod Scan
pub mod Total
use elchi_shield.Prelude.{
  ℕ, zero, suc, ◌+◌, ◌/◌, ◌%◌, Bool, true, false, ◌&&◌, List, [], ◌∷◌, ◌++◌, Option, none, some,
  all, ltb, ◌==◌, not, if◌then◌else◌, map,
}
use elchi_shield.Prelude.Int.{ℤ, pos_part}
use elchi_shield.Strings.{Text, lit, text_eq}
use elchi_shield.Config.{
  PolicySpec, ResolvedPolicy, Match, Route, Domain, default_policy, resolve_policy,
}
use elchi_shield.Config.Merge.{MergedDomain, MergedConfig}
use elchi_shield.Engine.{Set}
use elchi_shield.Matcher.Host.{Host, compile_host, is_exact, normalize_host}
use elchi_shield.Matcher.Method.{compile_methods}
use elchi_shield.Matcher.ContentType.{compile_content_types}
use elchi_shield.Matcher.Path.{compile_path, path_specificity, prefix_len}
use elchi_shield.Matcher.Header.{compile_headers}
use elchi_shield.Matcher.Normalize.{normalize_path}
use elchi_shield.Policy.{
  CompiledChecks, CompiledPolicy, Mode, mode_block, mode_detect, mode_shadow, mode_off, FailMode,
  fail_open, fail_close, compile_checks,
}
use elchi_shield.Policy.Resolved.{from_resolved}
use elchi_shield.Policy.Resolver.{CompiledRoute, CompiledDomain, Resolver}

-- The order of `sortRoutes`: whether `a` comes before `b` for being more specific.
unfoldable pub more_specific : CompiledRoute → CompiledRoute → Bool
more_specific a b =
    if not (path_specificity a.path == path_specificity b.path)
    then ltb (path_specificity b.path) (path_specificity a.path)
    else ltb (prefix_len b.path) (prefix_len a.path)

-- Puts a route in front of those that are not more specific than it.
unfoldable pub insert_route : CompiledRoute → List CompiledRoute → List CompiledRoute
unfolding more_specific
insert_route r [] = r ∷ []
insert_route r (q ∷ qs) =
    let rest = insert_route r qs in if more_specific q r then q ∷ rest else r ∷ q ∷ qs

-- `sortRoutes`.
unfoldable pub sort_routes : List CompiledRoute → List CompiledRoute
unfolding insert_route
sort_routes [] = []
sort_routes (r ∷ rs) = insert_route r (sort_routes rs)

-- `strings.Join(hosts, ",")`.
unfoldable pub domain_scope : List Text → Text
domain_scope [] = []
domain_scope (h ∷ []) = h
domain_scope (h ∷ i ∷ hs) = h ++ (b',' ∷ domain_scope (i ∷ hs))

unfoldable pub domain_id : {E F : Type 0} → Domain E F → Text
unfolding domain_scope lit
domain_id d = domain_scope d.hosts ++ lit "|*"

-- `%d` of a number, in front of what follows; `n + 1` rounds are enough.
abbrev digits : ℕ → ℕ → Text → Text
digits zero n rest = rest
digits (suc fuel) n rest =
    let more = digits fuel (n / 10) ((48 + n % 10) ∷ rest) in
    if ltb n 10 then (48 + n) ∷ rest else more

unfoldable pub route_id : {E F : Type 0} → Domain E F → ℕ → Text
unfolding domain_scope lit
route_id d idx = domain_scope d.hosts ++ lit "|route[" ++ digits (idx + 1) idx (lit "]")

unfoldable pub compile_hosts : List Text → Option (List Host)
unfolding compile_host
compile_hosts [] = some []
compile_hosts (h ∷ hs) =
    let rest = compile_hosts hs in
    elim (compile_host h) [
      | none ↦ none
      | some ch ↦ elim rest [ none ↦ none | some chs ↦ some (ch ∷ chs) ]
    ]

abbrev pub all_exact : List Host → Bool
all_exact hosts = all is_exact hosts

-- `r.exact[key] = append(r.exact[key], cd)`.
unfoldable pub append_bucket :
    Text → CompiledDomain → List (Text × List CompiledDomain) → List (Text × List CompiledDomain)
unfolding text_eq
append_bucket key cd [] = (key, cd ∷ []) ∷ []
append_bucket key cd ((k, cds) ∷ m) =
    let rest = append_bucket key cd m in
    if text_eq k key then (k, cds ++ (cd ∷ [])) ∷ m else (k, cds) ∷ rest

unfoldable pub index_hosts :
    List Text
    → CompiledDomain
    → List (Text × List CompiledDomain)
    → List (Text × List CompiledDomain)
unfolding append_bucket normalize_host
index_hosts [] cd m = m
index_hosts (h ∷ hs) cd m = index_hosts hs cd (append_bucket (normalize_host h) cd m)

-- The domain in the exact map, under each of its hosts, or in the list that is scanned.
unfoldable pub index_domain : List Text → CompiledDomain → Resolver → Resolver
unfolding index_hosts
index_domain hosts cd r =
    if all_exact cd.hosts
    then record r { exact = index_hosts hosts cd r.exact }
    else record r { wildcard = r.wildcard ++ (cd ∷ []) }

module _ {E F : Type 0} (regexp : Text → Option (Text → Bool)) (build : E → Option Set)
    (rate : F) where
  -- `engineCache.get`: a nil specification builds no engines.
  abbrev engines_of : Option E → Option Set
  engines_of none = some []
  engines_of (some spec) = build spec

  unfoldable pub compile_policy : Text → ResolvedPolicy E F → Option CompiledPolicy
  unfolding from_resolved
  compile_policy id resolved = elim (engines_of resolved.engines) [
    | none ↦ none
    | some engines ↦ some (record (from_resolved id resolved) { engines = engines })
  ]

  -- One round of the loop over the routes of a domain.
  unfoldable pub compile_route : PolicySpec E F → Domain E F → ℕ → Route E F → Option CompiledRoute
  unfolding compile_path compile_headers compile_methods compile_content_types compile_policy
      route_id resolve_policy default_policy
  compile_route defaults d idx rt =
      elim (compile_path regexp rt.matcher.path_exact rt.matcher.path_prefix
        rt.matcher.path_regex) [
          | none ↦ none
          | some path ↦ elim (compile_headers regexp rt.matcher.headers) [
            | none ↦ none
            | some headers ↦
                elim (compile_policy (route_id d idx)
                  (resolve_policy (default_policy rate) (defaults ∷ d.policy ∷ rt.policy ∷ []))) [
                    | none ↦ none
                    | some policy ↦ some (record {
                      path = path;
                      methods = compile_methods rt.matcher.methods;
                      content_type = compile_content_types rt.matcher.content_type;
                      headers = headers;
                      policy = policy;
                    })
                  ]
          ]
        ]

  unfoldable pub compile_routes :
      PolicySpec E F → Domain E F → ℕ → List (Route E F) → Option (List CompiledRoute)
  unfolding compile_route
  compile_routes defaults d idx [] = some []
  compile_routes defaults d idx (rt ∷ rts) =
      let rest = compile_routes defaults d (idx + 1) rts in
      elim (compile_route defaults d idx rt) [
        | none ↦ none
        | some r ↦ elim rest [ none ↦ none | some rs ↦ some (r ∷ rs) ]
      ]

  unfoldable pub compile_domain : PolicySpec E F → Domain E F → Option CompiledDomain
  unfolding compile_hosts compile_policy compile_routes sort_routes domain_id resolve_policy
      default_policy
  compile_domain defaults d = elim (compile_hosts d.hosts) [
    | none ↦ none
    | some hosts ↦
        elim (compile_policy (domain_id d)
          (resolve_policy (default_policy rate) (defaults ∷ d.policy ∷ []))) [
            | none ↦ none
            | some policy ↦ elim (compile_routes defaults d 0 d.routes) [
              | none ↦ none
              | some routes ↦
                  some
                    (record { hosts = hosts; routes = sort_routes routes; default_policy = policy })
            ]
          ]
  ]

  -- The loop over the domains.
  unfoldable pub compile_domains :
      PolicySpec E F → List (MergedDomain E F) → Resolver → Option Resolver
  unfolding compile_domain index_domain
  compile_domains defaults [] r = some r
  compile_domains defaults (md ∷ mds) r = elim (compile_domain defaults md.domain) [
    | none ↦ none
    | some cd ↦ compile_domains defaults mds (index_domain md.domain.hosts cd r)
  ]

  -- `Compile`.
  unfoldable pub compile : MergedConfig E F → Option Resolver
  unfolding compile_domains normalize_path
  compile cfg =
      elim (compile_domains cfg.file_defaults cfg.domains
        (record { exact = []; wildcard = []; excludes = [] })) [
          | none ↦ none
          | some r ↦ some (record r { excludes = map normalize_path cfg.excludes })
        ]
