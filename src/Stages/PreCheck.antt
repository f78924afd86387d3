-- ===== src/Stages/PreCheck.antt =====
-- internal/pipeline/stages/precheck.go: the request prelude and the header checks.
use elchi_shield.Prelude.{
  ℕ, ◌-◌, Bool, true, false, ◌&&◌, List, [], ◌∷◌, ◌++◌, Option, none, some, ltb, not, length,
  get_elem?, if◌then◌else◌, is_some,
}
use elchi_shield.Prelude.Int.{pos_part}
use elchi_shield.Strings.{Text, lit, is_empty, trim_space, split, equal_fold}
use elchi_shield.Decision.{
  block, Decision, Severity, severity_none, severity_medium, severity_high, default_block_status,
}
use elchi_shield.Engine.{Direction, direction_request, direction_response, Header}
use elchi_shield.Matcher.Host.{normalize_host}
use elchi_shield.Matcher.Normalize.{normalize_path}
use elchi_shield.Policy.{
  CompiledPolicy, mode_off, fail_open, bare_policy, deny_all, is_enforcing, if_enforcing,
  skips_check,
}
use elchi_shield.Policy.Resolver.{Resolver, excluded, resolve}
use elchi_shield.Transaction.{Transaction, header, find_header, policy_id}
use elchi_shield.Pipeline.{StageResult, continue_result, deny_result, skip_remaining_result}
use elchi_shield.Stages.Env.{Env}

-- A stage's step that returns a result and does not panic.
abbrev pub Step : Type 0
Step = Transaction → Transaction × StageResult

-- `denyEngine`.
unfoldable pub deny_engine : Transaction → Text → Text → Text → Severity → StageResult
deny_engine tx engine rule_id reason severity = deny_result (record {
  action = block;
  reason = reason;
  rule_id = rule_id;
  policy_id = policy_id tx;
  engine = engine;
  severity = severity;
  status_code = default_block_status;
})

-- `deny`.
unfoldable pub deny : Transaction → Text → Text → Severity → StageResult
deny tx rule_id reason severity = deny_engine tx (lit "builtin") rule_id reason severity

-- A field that is set already stays; another takes the header's value if there is one.
abbrev pub filled : Text → Option Text → Text
filled [] found = elim found [ none ↦ [] | some v ↦ v ]
filled (c ∷ s) found = c ∷ s

abbrev pub first_found : Option Text → Option Text → Option Text
first_found none b = b
first_found (some a) b = some a

-- The entry of an X-Forwarded-For value that is `hops` positions from the right, or the leftmost.
unfoldable pub forwarded_entry : ℕ → Text → Text
forwarded_entry hops v =
    let (tok, toks) = split v b',' in
    elim (get_elem? (tok ∷ toks) (length (tok ∷ toks) - 1 - hops)) [ none ↦ [] | some t ↦ t ]

-- `canonIP` of a trimmed text.
abbrev canon : Env → Text → Text
canon env s = if is_empty s then [] else env.canon_ip s

-- `clientIP`.
unfoldable pub client_ip : Env → List Header → Text
client_ip env headers =
    let real : Text = elim (find_header headers (lit "x-real-ip")) [
      | none ↦ []
      | some v ↦ canon env (trim_space v)
    ] in
    elim (find_header headers (lit "x-forwarded-for")) [
      | none ↦ real
      | some v ↦
          let ip = canon env (trim_space (forwarded_entry (pos_part env.trusted_hops) v)) in
          if is_empty v then real else if is_empty ip then real else ip
    ]

unfoldable pub init_direction : Direction → Env → Transaction → Transaction
init_direction direction_response env tx = tx
init_direction direction_request env tx = record tx {
  host = filled tx.host (first_found (header tx (lit ":authority")) (header tx (lit "host")));
  path = filled tx.path (header tx (lit ":path"));
  method = filled tx.method (header tx (lit ":method"));
  source_ip = if is_empty tx.source_ip then client_ip env tx.headers else tx.source_ip;
}

-- `contextInit.Process`.
unfoldable pub context_init : Env → Step
context_init env tx =
    let typed = record tx {
      content_type = filled tx.content_type (header tx (lit "content-type"));
    } in
    (init_direction tx.direction env typed, continue_result)

-- `PassThroughPolicy`.
unfoldable pub pass_through_policy : CompiledPolicy
pass_through_policy = bare_policy (lit "exclude") mode_off fail_open

-- The policy of a request in a snapshot whose resolver may be nil.
unfoldable pub resolve_policy : Option Resolver → Transaction → Option CompiledPolicy
resolve_policy none tx = none
resolve_policy (some r) tx =
    let path = normalize_path tx.path in
    if excluded r path
    then some pass_through_policy
    else resolve r (record {
      host = tx.host;
      path = path;
      method = tx.method;
      content_type = tx.content_type;
      headers = find_header tx.headers;
    })

-- `policyResolve.Process`.
unfoldable pub policy_resolve : Step
policy_resolve tx = elim tx.snapshot [
  | none ↦ (tx, continue_result)
  | some snap ↦ (record tx { policy = resolve_policy snap.resolver tx }, continue_result)
]

-- The loops of the header checks: the result of the first violation.
unfoldable pub forbidden_check : Transaction → List Text → Option StageResult
forbidden_check tx [] = none
forbidden_check tx (name ∷ names) =
    if is_some (header tx name)
    then some
        (deny tx (lit "header.forbidden") (lit "forbidden header present: " ++ name) severity_high)
    else forbidden_check tx names

unfoldable pub required_check : Transaction → List Text → Option StageResult
required_check tx [] = none
required_check tx (name ∷ names) =
    if is_some (header tx name)
    then required_check tx names
    else some (
        deny tx (lit "header.required_missing") (lit "required header missing: " ++ name)
          severity_medium)

unfoldable pub oversized_check : Transaction → ℕ → List Header → Option StageResult
oversized_check tx max [] = none
oversized_check tx max (h ∷ hs) =
    if ltb max (length h.value)
    then some (
        deny tx (lit "header.oversized") (lit "header value too large: " ++ h.name) severity_medium)
    else oversized_check tx max hs

-- A check that runs unless it is skipped.
abbrev pub checked : Bool → Option StageResult → Option StageResult
checked true res = res
checked false res = none

abbrev pub or_else : Option StageResult → Option StageResult → Option StageResult
or_else none b = b
or_else (some a) b = some a

abbrev pub or_continue : Option StageResult → StageResult
or_continue none = continue_result
or_continue (some r) = r

unfoldable pub host_check : Transaction → CompiledPolicy → Option StageResult
host_check tx p =
    if p.checks.enforce_valid_host && is_empty (trim_space tx.host)
    then some (deny tx (lit "header.invalid_host") (lit "missing or empty host") severity_high)
    else none

-- The checks of `fastPreChecks.Process`, in order: the first violation wins.
unfoldable pub header_checks : Transaction → CompiledPolicy → Option StageResult
header_checks tx p = or_else (checked (not (skips_check p (lit "host"))) (host_check tx p)) (
    or_else
      (checked (not (skips_check p (lit "forbidden_headers")))
        (forbidden_check tx p.checks.forbidden_headers))
      (or_else
        (checked (not (skips_check p (lit "required_headers")))
          (required_check tx p.checks.required_headers))
        (checked
          (ltb 0 p.checks.max_header_value_bytes && not (skips_check p (lit "oversized_headers")))
          (oversized_check tx p.checks.max_header_value_bytes tx.headers))))

abbrev pub is_request : Direction → Bool
is_request direction_request = true
is_request direction_response = false

-- `fastPreChecks.Process`.
unfoldable pub fast_pre_checks : Step
fast_pre_checks tx =
    if_enforcing tx.policy (tx, continue_result)
      λ p.
        if not (is_request tx.direction)
        then (tx, continue_result)
        else (tx, or_continue (header_checks tx p))

-- Whether :authority and Host are both there and disagree.
unfoldable pub hosts_disagree : List Header → Bool
hosts_disagree headers = elim (find_header headers (lit ":authority")) [
  | none ↦ false
  | some auth ↦ elim (find_header headers (lit "host")) [
    | none ↦ false
    | some host ↦ not (equal_fold (normalize_host auth) (normalize_host host))
  ]
]

unfoldable pub default_deny : Decision
default_deny = record {
  action = block;
  reason = lit "default_deny_no_policy";
  rule_id = [];
  policy_id = [];
  engine = [];
  severity = severity_none;
  status_code = default_block_status;
}

-- The part of `earlyDecision.Process` behind the host check.
unfoldable pub posture_step : Bool → Option CompiledPolicy → Step
posture_step default_allow none tx =
    if default_allow
    then (tx, skip_remaining_result)
    else (record tx { policy = some deny_all }, deny_result default_deny)
posture_step default_allow (some p) tx =
    if is_enforcing p then (tx, continue_result) else (tx, skip_remaining_result)

-- `earlyDecision.Process`.
unfoldable pub early_decision : Bool → Step
early_decision default_allow tx =
    if hosts_disagree tx.headers
    then (
      tx,
      deny tx (lit "header.host_mismatch") (lit "host and :authority disagree") severity_high,
    )
    else posture_step default_allow tx.policy tx
