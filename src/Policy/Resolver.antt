-- ===== src/Policy/Resolver.antt =====
-- internal/policy/resolver.go: from a request to its most specific policy. A Go map is an
-- association list; the score -1 of a host that no matcher of a domain admits is `none`.
use elchi_shield.Prelude.{
  ℕ, Bool, true, ◌&&◌, List, [], ◌∷◌, Option, none, some, ltb, if◌then◌else◌,
}
use elchi_shield.Strings.{Text, text_eq, set_has}
use elchi_shield.Matcher.Host.{Host, host_match, host_specificity, normalize_host}
use elchi_shield.Matcher.Method.{Methods, methods_match}
use elchi_shield.Matcher.ContentType.{ContentType, content_type_match}
use elchi_shield.Matcher.Path.{PathMatcher, path_match}
use elchi_shield.Matcher.Header.{HeaderSource, HeaderMatcher, match_all}
use elchi_shield.Policy.{CompiledPolicy}

pub record Input : Type 0 where
  pub host : Text
  pub path : Text
  pub method : Text
  pub content_type : Text
  pub headers : HeaderSource

pub record CompiledRoute : Type 0 where
  pub path : PathMatcher
  pub methods : Methods
  pub content_type : ContentType
  pub headers : List HeaderMatcher
  pub policy : CompiledPolicy

pub record CompiledDomain : Type 0 where
  pub hosts : List Host
  pub routes : List CompiledRoute
  pub default_policy : CompiledPolicy

unfoldable pub route_matches : CompiledRoute → Input → Bool
unfolding path_match methods_match content_type_match match_all
route_matches r inp =
    path_match r.path inp.path
    && methods_match r.methods inp.method
    && content_type_match r.content_type inp.content_type
    && match_all r.headers inp.headers

-- `s > best`, where `none` is -1.
abbrev pub beats : ℕ → Option ℕ → Bool
beats s none = true
beats s (some t) = ltb t s

-- The loop of `hostSpecificity`, from the best score so far.
unfoldable pub best_score : List Host → Text → Option ℕ → Option ℕ
unfolding host_match host_specificity
best_score [] host best = best
best_score (h ∷ hs) host best = best_score hs host (
    if host_match h host
    then (if beats (host_specificity h) best then some (host_specificity h) else best)
    else best)

unfoldable pub domain_specificity : CompiledDomain → Text → Option ℕ
unfolding best_score
domain_specificity cd host = best_score cd.hosts host none

-- The buckets of the exact map, the scanned domains, and the paths that bypass inspection.
pub record Resolver : Type 0 where
  pub exact : List (Text × List CompiledDomain)
  pub wildcard : List CompiledDomain
  pub excludes : List Text

-- A lookup in the exact map; a missing key gives no domain.
unfoldable pub bucket : Text → List (Text × List CompiledDomain) → List CompiledDomain
unfolding text_eq
bucket key [] = []
bucket key ((k, doms) ∷ m) = if text_eq k key then doms else bucket key m

-- The variables `best` and `bestScore`.
abbrev pub Best : Type 0
Best = Option (CompiledDomain × ℕ)

abbrev pub score_of : Best → Option ℕ
score_of none = none
score_of (some (d, s)) = some s

-- One round of the loops of `Resolve`.
unfoldable pub consider : Text → Best → CompiledDomain → Best
unfolding domain_specificity
consider host best cd = elim (domain_specificity cd host) [
  | none ↦ best
  | some s ↦ if beats s (score_of best) then some (cd, s) else best
]

unfoldable pub scan : Text → List CompiledDomain → Best → Best
unfolding consider
scan host [] best = best
scan host (cd ∷ cds) best = scan host cds (consider host best cd)

unfoldable pub first_route : Input → List CompiledRoute → CompiledPolicy → CompiledPolicy
unfolding route_matches
first_route inp [] fallback = fallback
first_route inp (r ∷ rs) fallback =
    if route_matches r inp then r.policy else first_route inp rs fallback

abbrev pub policy_of : Input → Best → Option CompiledPolicy
policy_of inp none = none
policy_of inp (some (d, s)) = some (first_route inp d.routes d.default_policy)

-- `Resolve` on a resolver that is not nil.
unfoldable pub resolve : Resolver → Input → Option CompiledPolicy
unfolding bucket scan first_route normalize_host
resolve r inp =
    policy_of inp
      (scan inp.host r.wildcard (scan inp.host (bucket (normalize_host inp.host) r.exact) none))

-- `Excluded` on a resolver that is not nil.
unfoldable pub excluded : Resolver → Text → Bool
unfolding set_has
excluded r path = set_has r.excludes path
