-- ===== src/Tests/Choices.antt =====
-- The choice of a policy, and what the prelude turns away, at concrete inputs.
use elchi_shield.Prelude.{Bool, true, false, ◌≡◌, List, [], ◌∷◌, ◌++◌, In, none}
use elchi_shield.Strings.{Text, lit}
use elchi_shield.Matcher.Host.{Host, normalize_host}
use elchi_shield.Matcher.Path.{PathMatcher, plain_path, path_any, path_prefix}
use elchi_shield.Policy.{CompiledPolicy}
use elchi_shield.Policy.Compile.{sort_routes}
use elchi_shield.Policy.Compile.Order.{Finds, sort_routes-Finds}
use elchi_shield.Policy.Resolver.{
  first_route, CompiledRoute, Input, CompiledDomain, Resolver, Best, bucket, policy_of, resolve,
}
use elchi_shield.Policy.Choice.{IsChoice, resolve_picks}
use elchi_shield.Transaction.{Transaction}
use elchi_shield.Pipeline.{Context}
use elchi_shield.Tests.Fixtures.{blocking_policy, detecting_policy, buffered}

abbrev host_of : Text → Bool → Host
host_of suffix all = record { exact = []; suffix = suffix; catch_all = all }

abbrev domain_of : Host → CompiledDomain
domain_of h = record { hosts = h ∷ []; routes = []; default_policy = detecting_policy }

-- A domain for every host, and one for the hosts that end in ".a".
abbrev two_domains : Resolver
two_domains = record {
  exact = [];
  wildcard = domain_of (host_of [] true) ∷ domain_of (host_of (lit ".a") false) ∷ [];
  excludes = [];
}

abbrev pub an_input : Input
an_input = record {
  host = lit "x.a";
  path = lit "/";
  method = lit "GET";
  content_type = [];
  headers = λ name. none;
}

resolve_picks_example :
    (best : Best) × IsChoice an_input.host
      (bucket (normalize_host an_input.host) two_domains.exact ++ two_domains.wildcard)
      best
    × (resolve two_domains an_input ≡ policy_of an_input best)
resolve_picks_example = resolve_picks two_domains an_input

abbrev without_policy : Transaction
without_policy = record (buffered blocking_policy false) { policy = none }

abbrev prompt : Context
prompt n k = false

abbrev route_of : PathMatcher → CompiledPolicy → CompiledRoute
route_of path policy = record {
  path = path;
  methods = record { set = [] };
  content_type = record { patterns = [] };
  headers = [];
  policy = policy;
}

-- A route for every path, and one for the prefix "/".
abbrev two_routes : List CompiledRoute
two_routes =
    route_of (plain_path path_any []) detecting_policy
    ∷ route_of (plain_path path_prefix (lit "/")) blocking_policy
    ∷ []

sort_routes-Finds_example :
    Finds an_input
      (λ r. In r two_routes)
      two_routes
      detecting_policy
      (first_route an_input (sort_routes two_routes) detecting_policy)
sort_routes-Finds_example = sort_routes-Finds an_input two_routes detecting_policy
