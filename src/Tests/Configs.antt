-- ===== src/Tests/Configs.antt =====
-- Policies, files and domains of a configuration, at concrete inputs.
use elchi_shield.Prelude.{
  Bool, true, false, if◌then◌else◌, arith, ◌||◌, ◌≡◌, refl, List, [], ◌∷◌, ◌++◌, Option, none, some,
  is_some, All,
}
use elchi_shield.Prelude.Int.{pos}
use elchi_shield.Strings.{Text, IsAscii, lit, set_has, text_eq, is_space}
use elchi_shield.Policy.{BodyChecks, DlpSpec}
use elchi_shield.Config.{
  PolicySpec, ResolvedPolicy, Route, Domain, empty_spec, default_policy, resolve_policy, skips,
  apply_specs, apply_spec, derive_dlp, derive_default,
}
use elchi_shield.Config.Resolve.{IsLast, resolve_policy-IsLast}
use elchi_shield.Config.Skips.{skipped_by, resolve_policy-skips}
use elchi_shield.Config.NoSilentCheck.{IsInspected, resolve_policy-IsInspected}
use elchi_shield.Config.Merge.{
  ParsedFile, MergedConfig, MergedDomain, merge, sort_files, empty_config,
}
use elchi_shield.Config.Layers.{defaults_of, resolve_policy-merge}
use elchi_shield.Config.Validate.{validate_spec}
use elchi_shield.Config.Sane.{IsSane, resolve_policy-IsSane}
use elchi_shield.Engine.{Set}
use elchi_shield.Matcher.Host.Exact.{IsPlain}
use elchi_shield.Policy.Resolved.{from_resolved}
use elchi_shield.Policy.Compile.{compile}
use elchi_shield.Config.Duplicates.{validate_merged, host_key}
use elchi_shield.Config.UniqueHosts.{AllApart, hosts_of, validate_merged-AllApart}
use elchi_shield.Config.Routes.{host_valid, validate_match}
use elchi_shield.Policy.Compile.Total.{IsValidDomain, domains_build, compile-is_some}
use elchi_shield.Policy.Compile.Scan.{ResolvesBy, compile_all, compile-ResolvesBy}
use elchi_shield.Stages.Catalog.{build_policy_pipelines}
use elchi_shield.Stages.Orders.{resolve_policy-builds}
use elchi_shield.Tests.Fixtures.{plain_env}
use elchi_shield.Tests.Choices.{an_input}

-- A test of a float64, an engines block and a compiler of regular expressions.
abbrev any_rate : Bool → Bool
any_rate r = r

abbrev no_regexp : Text → Option (Text → Bool)
no_regexp p = none

abbrev build_nothing : Bool → Option Set
build_nothing e = some []

abbrev Sparse : Type 0
Sparse = PolicySpec Bool Bool

abbrev secrets : DlpSpec
secrets = record { direction = lit "request"; block = lit "ssn" ∷ []; redact = [] }

abbrev body_checks_of : BodyChecks
body_checks_of = record { require_json = true; detect_sensitive_data = false; dlp = some secrets }

abbrev detect_spec : Sparse
detect_spec = record empty_spec { mode = some (lit "detect"); skip_checks = lit "waf" ∷ [] }

abbrev body_spec : Sparse
body_spec = record empty_spec {
  timeout = some (pos 5);
  skip_checks = lit "jwt" ∷ [];
  pipeline = some (record {
    request = some (lit "waf_engine" ∷ lit "body_checks" ∷ []);
    response = some (lit "body_checks" ∷ []);
  });
  checks = record { headers = none; body = some body_checks_of };
}

abbrev base_policy : ResolvedPolicy Bool Bool
base_policy = default_policy true

abbrev chain : List Sparse
chain = detect_spec ∷ body_spec ∷ []

resolve_policy-IsLast_example : IsLast base_policy chain (resolve_policy base_policy chain)
resolve_policy-IsLast_example = resolve_policy-IsLast base_policy chain

resolve_policy-skips_example :
    skips (resolve_policy base_policy chain) (lit "jwt")
    ≡ (skips (base_policy) (lit "jwt") || skipped_by chain (lit "jwt"))
resolve_policy-skips_example = resolve_policy-skips base_policy chain (lit "jwt")

chain_body : (resolve_policy base_policy chain).checks.body ≡ some body_checks_of
unfolding resolve_policy apply_specs apply_spec default_policy derive_dlp derive_default
chain_body = refl

resolve_policy-IsInspected_example : IsInspected (resolve_policy base_policy chain) body_checks_of
resolve_policy-IsInspected_example =
    resolve_policy-IsInspected base_policy chain body_checks_of chain_body

abbrev file_of : Text → Sparse → List (Domain Bool Bool) → ParsedFile Bool Bool
file_of name defaults domains = record {
  name = name;
  file = some (record {
    api_version = [];
    kind = [];
    spec = record { defaults = defaults; domains = domains; exclude = [] };
  });
}

abbrev two_files : List (ParsedFile Bool Bool)
two_files = file_of (lit "b") body_spec [] ∷ file_of (lit "a") detect_spec [] ∷ []

resolve_policy-merge_example :
    resolve_policy base_policy ((merge two_files).file_defaults ∷ chain)
    ≡ resolve_policy base_policy (defaults_of (sort_files two_files) ++ chain)
unfolding sort_files lit
resolve_policy-merge_example =
    resolve_policy-merge base_policy two_files chain (tt, ((refl, refl), tt))

detect_valid : validate_spec any_rate detect_spec ≡ []
unfolding validate_spec lit set_has text_eq
detect_valid = refl

body_valid : validate_spec any_rate body_spec ≡ []
unfolding validate_spec lit set_has text_eq
body_valid = refl

resolve_policy-IsSane_example : IsSane any_rate (resolve_policy base_policy chain)
resolve_policy-IsSane_example =
    resolve_policy-IsSane any_rate true chain refl (detect_valid, (body_valid, tt))

resolve_policy-builds_example :
    is_some (
      build_policy_pipelines plain_env (from_resolved (lit "p") (resolve_policy base_policy chain)))
    ≡ true
resolve_policy-builds_example =
    resolve_policy-builds plain_env any_rate true chain (lit "p") refl
      (detect_valid, (body_valid, tt))

abbrev domain_at : List Text → MergedDomain Bool Bool
domain_at hosts = record {
  domain = record { hosts = hosts; policy = detect_spec; routes = [] };
  source = lit "a";
}

abbrev two_hosts : MergedConfig Bool Bool
two_hosts = record empty_config {
  domains = domain_at (lit "*" ∷ []) ∷ domain_at (lit "X.a." ∷ lit "y.a" ∷ []) ∷ [];
}

two_hosts-IsPlain : All (λ md. All IsPlain md.domain.hosts) two_hosts.domains
unfolding lit is_space
two_hosts-IsPlain =
    (((refl, tt), tt), (((refl, (refl, (refl, (refl, tt)))), ((refl, (refl, (refl, tt))), tt)), tt))

host-IsAscii : IsAscii an_input.host
unfolding lit
host-IsAscii = (omega arith, (omega arith, (omega arith, tt)))

domains-IsAscii : All (λ md. All IsAscii md.domain.hosts) two_hosts.domains
unfolding lit
domains-IsAscii = (
  ((omega arith, tt), tt),
  (
    (
      (omega arith, (omega arith, (omega arith, (omega arith, tt)))),
      ((omega arith, (omega arith, (omega arith, tt))), tt),
    ),
    tt,
  ),
)

compile-ResolvesBy_example :
    ResolvesBy no_regexp build_nothing true an_input
      (compile_all no_regexp build_nothing true two_hosts.file_defaults two_hosts.domains)
      (compile no_regexp build_nothing true two_hosts)
compile-ResolvesBy_example =
    compile-ResolvesBy no_regexp build_nothing true two_hosts an_input host-IsAscii domains-IsAscii
      two_hosts-IsPlain

abbrev a_route : Route Bool Bool
a_route = record {
  matcher = record {
    path_exact = [];
    path_prefix = lit "/api";
    path_regex = [];
    methods = lit "get" ∷ [];
    content_type = [];
    headers =
        record { name = lit "x-a"; exact = lit "b"; contains = []; regex = []; present = none }
        ∷ [];
  };
  policy = body_spec;
}

abbrev valid_config : MergedConfig Bool Bool
valid_config = record empty_config {
  domains =
      record {
        domain = record {
          hosts = lit "*.a.b" ∷ lit "c" ∷ [];
          policy = detect_spec;
          routes = a_route ∷ [];
        };
        source = lit "a";
      }
      ∷ [];
}

-- A builder that knows the specification `true` alone.
abbrev build_true : Bool → Option Set
build_true spec = if spec then some [] else none

valid_config-IsValidDomain : All (IsValidDomain no_regexp build_true true) valid_config.domains
unfolding lit host_valid validate_match
valid_config-IsValidDomain = (((refl, (refl, tt)), (refl, tt)), tt)

compile-is_some_example :
    is_some (compile no_regexp build_true true valid_config)
    ≡ domains_build no_regexp build_true true valid_config.file_defaults valid_config.domains
compile-is_some_example =
    compile-is_some no_regexp build_true true valid_config valid_config-IsValidDomain

two_hosts_valid : validate_merged two_hosts ≡ []
unfolding validate_merged host_key lit text_eq
two_hosts_valid = refl

two_hosts-IsAscii : All IsAscii (hosts_of two_hosts.domains)
unfolding lit
two_hosts-IsAscii = (
  (omega arith, tt),
  (
    (omega arith, (omega arith, (omega arith, (omega arith, tt)))),
    ((omega arith, (omega arith, (omega arith, tt))), tt),
  ),
)

validate_merged-AllApart_example : AllApart (hosts_of two_hosts.domains)
validate_merged-AllApart_example =
    validate_merged-AllApart two_hosts two_hosts-IsAscii two_hosts_valid
