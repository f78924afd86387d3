-- ===== src/Stages/Body.antt =====
-- internal/pipeline/stages/body.go: the body gate, the truncation guard and the body checks.
use elchi_shield.Prelude.{
  Bool, true, false, ◌&&◌, ◌||◌, List, [], ◌∷◌, ◌++◌, Option, none, some, not, if◌then◌else◌,
}
use elchi_shield.Strings.{
  Text, lit, text_eq, is_empty, set_has, to_lower, trim_space, cut, before, has_suffix,
}
use elchi_shield.Decision.{severity_medium, severity_high}
use elchi_shield.Engine.{Direction, direction_request, direction_response, requires_body}
use elchi_shield.Policy.{CompiledPolicy, CompiledDlp, if_enforcing, is_blocking, skips_check}
use elchi_shield.Transaction.{Transaction, mutate_body}
use elchi_shield.Pipeline.{StageResult, continue_result}
use elchi_shield.Stages.Env.{Env, Detector, Match}
use elchi_shield.Stages.PreCheck.{Step, deny_engine, deny}
use elchi_shield.Stages.Redact.{redact_body}

abbrev inspects_body : Direction → CompiledPolicy → Bool
inspects_body direction_request p = p.inspect_request_body
inspects_body direction_response p = p.inspect_response_body

-- `bodyGate.Process`.
unfoldable pub body_gate : Step
body_gate tx =
    if_enforcing tx.policy (tx, continue_result)
      λ p. (
        record tx {
          body_required = inspects_body tx.direction p || requires_body p.engines;
          waf_enabled = requires_body p.engines;
        },
        continue_result,
      )

unfoldable pub too_large : Transaction → StageResult
too_large tx =
    deny_engine tx (lit "body_size") (lit "body.too_large")
      (lit "body exceeded maximum size (truncated; not fully inspected)") severity_medium

-- `bodyTruncationGuard.Process`.
unfoldable pub body_truncation_guard : Step
body_truncation_guard tx =
    if_enforcing tx.policy (tx, continue_result)
      λ p. if tx.body_truncated then (tx, too_large tx) else (tx, continue_result)

-- The media type without parameters in lower case, where `mime.ParseMediaType` refuses the text.
abbrev lenient : Text → Text
lenient ct = to_lower (trim_space (before ct b';'))

unfoldable pub is_json_content_type : Env → Text → Bool
is_json_content_type env ct =
    let media : Text = elim (env.media_type ct) [ none ↦ lenient ct | some m ↦ m ] in
    elim (cut media b'/') [
      | none ↦ false
      | some (typ, sub) ↦ text_eq sub (lit "json") || has_suffix sub (lit "+json")
    ]

-- The JSON check: the result of a violation.
unfoldable pub json_check : Env → Transaction → CompiledPolicy → Option StageResult
json_check env tx p =
    if p.checks.require_json && not (skips_check p (lit "json")) && not (is_empty tx.body)
    then (if not (is_json_content_type env tx.content_type)
        then some (
            deny tx (lit "body.unexpected_content_type")
              (lit "non-JSON content-type on a JSON-only endpoint") severity_medium)
        else if not (env.json_valid tx.body)
        then some (deny tx (lit "body.invalid_json") (lit "body is not valid JSON") severity_medium)
        else none)
    else none

-- The sensitive-data check with the detector that is there.
unfoldable pub scan_check : Detector → Transaction → CompiledPolicy → Option StageResult
scan_check det tx p =
    if p.checks.detect_sensitive_data && not (skips_check p (lit "sensitive_data"))
    then elim (det.scan tx.content_type tx.body) [
      | none ↦ none
      | some kind ↦ some (
          deny_engine tx (lit "dlp") (lit "body.sensitive_data")
            (lit "sensitive data detected: " ++ kind) severity_high)
    ]
    else none

-- `dlpApplies`.
abbrev pub dlp_applies : CompiledDlp → Direction → Bool
dlp_applies dlp direction_request = dlp.on_request
dlp_applies dlp direction_response = dlp.on_response

-- The first match of a kind that blocks.
unfoldable pub blocking_kind : List Text → List Match → Option Text
blocking_kind kinds [] = none
blocking_kind kinds (m ∷ ms) = if set_has kinds m.kind then some m.kind else blocking_kind kinds ms

abbrev pub masked : Bool → Transaction → Text × Bool → Transaction × Option StageResult
masked enforce tx (redacted, false) = (tx, none)
masked true tx (redacted, true) = (mutate_body tx redacted, none)
masked false tx (redacted, true) = (
  tx,
  some (
      deny_engine tx (lit "dlp") (lit "body.dlp_redact_would")
        (lit "would redact sensitive data (observe-only mode)") severity_medium),
)

-- `runDLP`: a result ends the stage.
unfoldable pub run_dlp :
    Detector → CompiledDlp → CompiledPolicy → Transaction → Transaction × Option StageResult
run_dlp det dlp p tx =
    let matches = det.matches tx.body in
    elim (blocking_kind dlp.block matches) [
      | some kind ↦ (
        tx,
        some (
            deny_engine tx (lit "dlp") (lit "body.dlp_block:" ++ kind)
              (lit "blocked sensitive data: " ++ kind) severity_high),
      )
      | none ↦ masked (is_blocking p) tx (redact_body tx.body matches dlp.redact)
    ]

abbrev pub finished : Transaction × Option StageResult → Transaction × StageResult
finished (tx, none) = (tx, continue_result)
finished (tx, some res) = (tx, res)

unfoldable pub dlp_check :
    Detector → CompiledPolicy → Transaction → Transaction × Option StageResult
dlp_check det p tx = elim p.checks.dlp [
  | none ↦ (tx, none)
  | some dlp ↦
      if dlp_applies dlp tx.direction && not (is_empty tx.body)
      then run_dlp det dlp p tx
      else (tx, none)
]

-- The checks of a policy that enforces.
unfoldable pub run_body_checks :
    Env → CompiledPolicy → Transaction → Transaction × Option StageResult
run_body_checks env p tx = elim (json_check env tx p) [
  | some res ↦ (tx, some res)
  | none ↦ elim env.detector [
    | none ↦ (tx, none)
    | some det ↦ elim (scan_check det tx p) [
      | some res ↦ (tx, some res)
      | none ↦ dlp_check det p tx
    ]
  ]
]

-- `bodyChecks.Process`.
unfoldable pub body_checks : Env → Step
body_checks env tx =
    if_enforcing tx.policy (tx, continue_result) λ p. finished (run_body_checks env p tx)
