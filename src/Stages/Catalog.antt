-- ===== src/Stages/Catalog.antt =====
-- internal/pipeline/stages/catalog.go: the stages by name, the fixed preludes, and the pipelines of a
-- policy.
use elchi_shield.Prelude.{Bool, true, false, List, [], ◌∷◌, ◌++◌, Option, none, some, if◌then◌else◌}
use elchi_shield.Strings.{Text, lit, text_eq}
use elchi_shield.Policy.{CompiledPolicy}
use elchi_shield.Transaction.{Transaction}
use elchi_shield.Pipeline.{
  Phase, phase_pre_check, phase_body_gate, phase_body, phase_waf, Stage, StageResult,
}
use elchi_shield.Stages.Env.{Env}
use elchi_shield.Stages.PreCheck.{
  Step, context_init, policy_resolve, fast_pre_checks, early_decision,
}
use elchi_shield.Stages.Body.{body_gate, body_truncation_guard, body_checks}
use elchi_shield.Stages.Decode.{body_content_decode}
use elchi_shield.Stages.Waf.{waf_engine, waf_header_engine}

abbrev returned : Transaction × StageResult → Transaction × Option StageResult
returned (tx, res) = (tx, some res)

-- A stage from a step that reads no context and does not panic.
abbrev pub stage_of : Text → Phase → Step → Stage
stage_of name phase step = record {
  name = name;
  phase = phase;
  process = λ readings tx. returned (step tx);
}

unfoldable pub context_init_stage : Env → Stage
context_init_stage env = stage_of (lit "context_init") phase_pre_check (context_init env)

unfoldable pub policy_resolve_stage : Stage
policy_resolve_stage = stage_of (lit "policy_resolve") phase_pre_check policy_resolve

unfoldable pub early_decision_stage : Env → Stage
early_decision_stage env =
    stage_of (lit "early_decision") phase_pre_check (early_decision env.default_allow)

unfoldable pub fast_pre_checks_stage : Stage
fast_pre_checks_stage = stage_of (lit "fast_pre_checks") phase_pre_check fast_pre_checks

unfoldable pub body_gate_stage : Stage
body_gate_stage = stage_of (lit "body_gate") phase_body_gate body_gate

unfoldable pub body_guard_stage : Stage
body_guard_stage = stage_of (lit "body_truncation_guard") phase_body body_truncation_guard

unfoldable pub body_decode_stage : Env → Stage
body_decode_stage env = stage_of (lit "body_content_decode") phase_body (body_content_decode env)

unfoldable pub body_checks_stage : Env → Stage
body_checks_stage env = stage_of (lit "body_checks") phase_body (body_checks env)

unfoldable pub waf_engine_stage : Stage
waf_engine_stage = record { name = lit "waf_engine"; phase = phase_waf; process = waf_engine }

unfoldable pub waf_header_stage : Stage
waf_header_stage = record {
  name = lit "waf_engine_headers";
  phase = phase_pre_check;
  process = waf_header_engine;
}

-- The map `inspectors`: from a name to a stage that a policy may order.
unfoldable pub inspector : Env → Text → Option Stage
inspector env name =
    if text_eq name (lit "fast_pre_checks")
    then some fast_pre_checks_stage
    else if text_eq name (lit "body_checks")
    then some (body_checks_stage env)
    else if text_eq name (lit "waf_engine")
    then some waf_engine_stage
    else none

-- `RequestPrelude` and `ResponsePrelude`.
unfoldable pub request_prelude : Env → List Stage
request_prelude env = context_init_stage env ∷ policy_resolve_stage ∷ early_decision_stage env ∷ []

unfoldable pub response_prelude : Env → List Stage
response_prelude env = context_init_stage env ∷ []

abbrev pub is_pre_check : Phase → Bool
is_pre_check phase_pre_check = true
is_pre_check _ = false

-- Puts the stages of one name in front of the header and the body stages.
abbrev pub put_stage : Stage → List Stage × List Stage → List Stage × List Stage
put_stage st (header, body) =
    if is_pre_check st.phase then (st ∷ header, body) else (header, st ∷ body)

-- The loop of `split`: `none` is the error of an unknown name.
unfoldable pub partition : Env → List Text → Option (List Stage × List Stage)
partition env [] = some ([], [])
partition env (name ∷ names) = elim (partition env names) [
  | none ↦ none
  | some (header, body) ↦
      if text_eq name (lit "waf_engine")
      then some (waf_header_stage ∷ header, waf_engine_stage ∷ body)
      else elim (inspector env name) [ none ↦ none | some st ↦ some (put_stage st (header, body)) ]
]

-- `split`: the body gate ends the header stages, and the guard and the decoder begin the body's.
unfoldable pub split : Env → List Text → Option (List Stage × List Stage)
split env order = elim (partition env order) [
  | none ↦ none
  | some (header, body) ↦
      some (header ++ (body_gate_stage ∷ []), body_guard_stage ∷ body_decode_stage env ∷ body)
]

unfoldable pub default_pipeline_order : List Text
default_pipeline_order = lit "fast_pre_checks" ∷ lit "body_checks" ∷ lit "waf_engine" ∷ []

abbrev pub order_or_default : Option (List Text) → List Text
order_or_default none = default_pipeline_order
order_or_default (some order) = order

-- `PolicyPipelines`, by their stages.
pub record PolicyPipelines : Type 0 where
  pub request_header : List Stage
  pub request_body : List Stage
  pub response_header : List Stage
  pub response_body : List Stage

abbrev pub paired :
    Option (List Stage × List Stage) → Option (List Stage × List Stage) → Option PolicyPipelines
paired (some (qh, qb)) (some (ph, pb)) =
    some
      (record { request_header = qh; request_body = qb; response_header = ph; response_body = pb })
paired _ _ = none

-- `BuildPolicyPipelines`.
unfoldable pub build_policy_pipelines : Env → CompiledPolicy → Option PolicyPipelines
build_policy_pipelines env p =
    paired (split env (order_or_default p.request_order))
      (split env (order_or_default p.response_order))
