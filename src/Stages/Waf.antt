-- ===== src/Stages/Waf.antt =====
-- internal/pipeline/stages/waf.go: running the engines of a policy, and the anomaly threshold.
use elchi_shield.Prelude.{Bool, true, ◌&&◌, List, Option, none, some, not, if◌then◌else◌}
use elchi_shield.Prelude.Int.{ℤ, pos, wrap_64, ◌+ℤ◌, ltb_ℤ, leb_ℤ}
use elchi_shield.Strings.{Text, lit, is_empty}
use elchi_shield.Decision.{
  block, Decision, Verdict, severity_medium, default_block_status, blocked, blocking,
}
use elchi_shield.Engine.{Set, Request, Readings, Error, inspect_header_phase, inspect_body_phase}
use elchi_shield.Policy.{CompiledPolicy, if_enforcing}
use elchi_shield.Transaction.{Transaction, policy_id}
use elchi_shield.Pipeline.{StageResult, continue_result, deny_result, fail_result}

abbrev pub Inspect : Type 0
Inspect = Set → Request → Readings → Option (Verdict × List Error)

unfoldable pub engine_request : Transaction → Request
engine_request tx = record {
  direction = tx.direction;
  host = tx.host;
  path = tx.path;
  method = tx.method;
  content_type = tx.content_type;
  source_ip = tx.source_ip;
  body = tx.body;
  headers = tx.headers;
}

unfoldable pub anomaly_block : Text → Decision
anomaly_block policy = record {
  action = block;
  reason = lit "anomaly score crossed threshold";
  rule_id = lit "anomaly.threshold";
  policy_id = policy;
  engine = lit "anomaly";
  severity = severity_medium;
  status_code = default_block_status;
}

-- A positive score is added to the transaction's, an `int` of 64 bits.
unfoldable pub add_anomaly_score : Transaction → ℤ → Transaction
unfolding wrap_64
add_anomaly_score tx score =
    if ltb_ℤ (pos 0) score
    then record tx { anomaly_score = wrap_64 (tx.anomaly_score +ℤ score) }
    else tx

-- Whether a score crosses the threshold for the first time in this direction.
unfoldable pub crosses : ℤ → Transaction → Bool
crosses threshold tx =
    ltb_ℤ (pos 0) threshold && leb_ℤ threshold tx.anomaly_score && not tx.anomaly_denied

-- What becomes of the verdict and the errors.
unfoldable pub settle :
    CompiledPolicy → Transaction → Verdict → List Error → Transaction × StageResult
settle p tx v errs =
    let scored = add_anomaly_score tx v.score in
    if blocking v.action
    then (tx, deny_result (blocked (policy_id tx) v))
    else if not (is_empty errs)
    then (tx, fail_result errs)
    else if crosses p.anomaly_threshold scored
    then (record scored { anomaly_denied = true }, deny_result (anomaly_block (policy_id tx)))
    else (scored, continue_result)

abbrev pub settled :
    CompiledPolicy → Transaction → Option (Verdict × List Error) → Transaction × Option StageResult
settled p tx none = (tx, none)
settled p tx (some (v, errs)) = let (tx', res) = settle p tx v errs in (tx', some res)

-- `runEngines`: `none` is a panic. The request is filled in the transaction.
unfoldable pub run_engines : Inspect → Readings → Transaction → Transaction × Option StageResult
run_engines inspect readings tx =
    if_enforcing tx.policy (tx, some continue_result)
      λ p.
        if is_empty p.engines
        then (tx, some continue_result)
        else let req = engine_request tx in
          settled p (record tx { eng_req = req }) (inspect p.engines req readings)

-- `wafEngine.Process` and `wafHeaderEngine.Process`.
unfoldable pub waf_engine : Readings → Transaction → Transaction × Option StageResult
waf_engine = run_engines inspect_body_phase

unfoldable pub waf_header_engine : Readings → Transaction → Transaction × Option StageResult
waf_header_engine = run_engines inspect_header_phase
