-- ===== src/Stages/Results.antt =====
-- What the stages of a policy may answer (internal/pipeline/stages).
use elchi_shield.Prelude.{
  ℕ, Bool, true, false, ◌≡◌, ◌≢◌, refl, List, [], ◌∷◌, Option, none, some, not, ◌&&◌, ◌||◌, ltb,
  length, ◌-◌, if_rule, option_rule, is_some, subst,
}
use elchi_shield.Prelude.Int.{pos}
use elchi_shield.Strings.{Text, lit, text_eq, is_empty, to_lower, trim_space}
use elchi_shield.Decision.{Verdict, blocking}
use elchi_shield.Engine.{inspect_body_phase, inspect_header_phase, Header, Error, Readings}
use elchi_shield.Policy.{CompiledPolicy, CompiledDlp, is_blocking, if_enforcing_rule, skips_check}
use elchi_shield.Transaction.{Transaction, reserve_body, header, header_count}
use elchi_shield.Pipeline.{StageResult, action_allow, action_deny, recovered, run_stage}
use elchi_shield.Pipeline.Blocking.{NeverAllows}
use elchi_shield.Stages.Env.{Env, Detector}
use elchi_shield.Stages.PreCheck.{
  fast_pre_checks, header_checks, host_check, forbidden_check, required_check, oversized_check,
  checked, or_else, or_continue, is_request, deny, deny_engine,
}
use elchi_shield.Stages.Body.{
  body_gate, body_truncation_guard, too_large, body_checks, run_body_checks, json_check, scan_check,
  dlp_check, run_dlp, masked, finished, is_json_content_type, dlp_applies, blocking_kind,
}
use elchi_shield.Stages.Decode.{
  body_content_decode, decode_found, decode_as, decode_body, decoded_step, charge_decoded,
}
use elchi_shield.Stages.Waf.{
  Inspect, engine_request, run_engines, settle, settled, add_anomaly_score, crosses, waf_engine,
  waf_header_engine,
}
use elchi_shield.Stages.Catalog.{
  fast_pre_checks_stage, body_gate_stage, body_guard_stage, body_decode_stage, body_checks_stage,
  waf_engine_stage, waf_header_stage,
}
use elchi_shield.Stages.Built.{Holds}

abbrev Never : StageResult → Type 0
Never r = r.action ≢ action_allow

abbrev NeverAfter : Transaction × StageResult → Type 0
NeverAfter o = Never o.1

-- A check's violation is a deny.
abbrev Denies : Option StageResult → Type 0
Denies none = Unit
Denies (some r) = r.action ≡ action_deny

deny-Never : (r : StageResult) → r.action ≡ action_deny → Never r
deny-Never r e q = cc

forbidden-Denies : (tx : Transaction) (names : List Text) → Denies (forbidden_check tx names)
unfolding forbidden_check deny deny_engine
forbidden-Denies tx [] = tt
forbidden-Denies tx (name ∷ names) =
    if_rule Denies (is_some (header tx name)) (λ h. refl) (λ h. forbidden-Denies tx names)

required-Denies : (tx : Transaction) (names : List Text) → Denies (required_check tx names)
unfolding required_check deny deny_engine
required-Denies tx [] = tt
required-Denies tx (name ∷ names) =
    if_rule Denies (is_some (header tx name)) (λ h. required-Denies tx names) (λ h. refl)

oversized-Denies :
    (tx : Transaction) (max : ℕ) (hs : List Header) → Denies (oversized_check tx max hs)
unfolding oversized_check deny deny_engine
oversized-Denies tx max [] = tt
oversized-Denies tx max (h ∷ hs) =
    if_rule Denies (ltb max (length h.value)) (λ i. refl) (λ i. oversized-Denies tx max hs)

host-Denies : (tx : Transaction) (p : CompiledPolicy) → Denies (host_check tx p)
unfolding host_check deny deny_engine
host-Denies tx p =
    if_rule Denies (p.checks.enforce_valid_host && is_empty (trim_space tx.host)) (λ h. refl)
      (λ h. tt)

checked-Denies : (b : Bool) (o : Option StageResult) → Denies o → Denies (checked b o)
checked-Denies true o h = h
checked-Denies false o h = tt

or_else-Denies : (a b : Option StageResult) → Denies a → Denies b → Denies (or_else a b)
or_else-Denies none b h k = k
or_else-Denies (some r) b h k = h

header_checks-Denies : (tx : Transaction) (p : CompiledPolicy) → Denies (header_checks tx p)
unfolding header_checks
header_checks-Denies tx p =
    let no_host = not (skips_check p (lit "host")) in
    let no_bad = not (skips_check p (lit "forbidden_headers")) in
    let no_lack = not (skips_check p (lit "required_headers")) in
    let no_big =
      ltb 0 p.checks.max_header_value_bytes && not (skips_check p (lit "oversized_headers")) in
    let bad = forbidden_check tx p.checks.forbidden_headers in
    let lack = required_check tx p.checks.required_headers in
    let big = oversized_check tx p.checks.max_header_value_bytes tx.headers in
    let last = or_else (checked no_lack lack) (checked no_big big) in
    or_else-Denies (checked no_host (host_check tx p)) (or_else (checked no_bad bad) last)
      (checked-Denies no_host (host_check tx p) (host-Denies tx p))
      (or_else-Denies (checked no_bad bad) last
        (checked-Denies no_bad bad (forbidden-Denies tx p.checks.forbidden_headers))
        (or_else-Denies (checked no_lack lack) (checked no_big big)
          (checked-Denies no_lack lack (required-Denies tx p.checks.required_headers))
          (checked-Denies no_big big
            (oversized-Denies tx p.checks.max_header_value_bytes tx.headers))))

or_continue-Never : (o : Option StageResult) → Denies o → Never (or_continue o)
or_continue-Never none h = λ q. cc
or_continue-Never (some r) h = deny-Never r h

finished-Never : (r : Transaction × Option StageResult) → Denies r.1 → NeverAfter (finished r)
finished-Never (tx, none) h = λ q. cc
finished-Never (tx, some r) h = deny-Never r h

dlp-Denies :
    (det : Detector) (dlp : CompiledDlp) (p : CompiledPolicy) (tx : Transaction)
    → Denies (run_dlp det dlp p tx).1
unfolding run_dlp deny_engine
dlp-Denies det dlp p tx =
    option_rule (λ (r : Transaction × Option StageResult). Denies r.1)
      (blocking_kind dlp.block (det.matches tx.body)) (λ h. masked-Denies (is_blocking p) tx _)
      (λ k h. refl)
  where
    masked-Denies : (b : Bool) (t : Transaction) (r : Text × Bool) → Denies (masked b t r).1
    masked-Denies b t (x, false) = tt
    masked-Denies true t (x, true) = tt
    masked-Denies false t (x, true) = refl

dlp_check-Denies :
    (det : Detector) (p : CompiledPolicy) (tx : Transaction) → Denies (dlp_check det p tx).1
unfolding dlp_check
dlp_check-Denies det p tx =
    option_rule (λ (r : Transaction × Option StageResult). Denies r.1) p.checks.dlp (λ h. tt)
      λ dlp h.
        if_rule (λ (r : Transaction × Option StageResult). Denies r.1)
          (dlp_applies dlp tx.direction && not (is_empty tx.body)) (λ i. dlp-Denies det dlp p tx)
          (λ i. tt)

json-Denies : (env : Env) (tx : Transaction) (p : CompiledPolicy) → Denies (json_check env tx p)
unfolding json_check deny deny_engine
json-Denies env tx p =
    if_rule Denies
      (p.checks.require_json && not (skips_check p (lit "json")) && not (is_empty tx.body))
      (λ h.
        if_rule Denies (not (is_json_content_type env tx.content_type)) (λ i. refl)
          λ i. if_rule Denies (not (env.json_valid tx.body)) (λ j. refl) (λ j. tt))
      (λ h. tt)

scan-Denies :
    (det : Detector) (tx : Transaction) (p : CompiledPolicy) → Denies (scan_check det tx p)
unfolding scan_check deny_engine
scan-Denies det tx p =
    if_rule Denies (p.checks.detect_sensitive_data && not (skips_check p (lit "sensitive_data")))
      (λ h. option_rule Denies (det.scan tx.content_type tx.body) (λ i. tt) (λ k i. refl)) (λ h. tt)

body-Denies :
    (env : Env) (p : CompiledPolicy) (tx : Transaction) → Denies (run_body_checks env p tx).1
unfolding run_body_checks
body-Denies env p tx =
    let P : Transaction × Option StageResult → Type 0 = λ r. Denies r.1 in
    let j = json-Denies env tx p in
    option_rule P (json_check env tx p)
      (λ h.
        option_rule P env.detector (λ i. tt)
          λ det i.
            option_rule P (scan_check det tx p) (λ k. dlp_check-Denies det p tx)
              (λ res k. subst Denies k (scan-Denies det tx p)))
      (λ res h. subst Denies h j)

charge-Never : (tx : Transaction) (b : Text) → NeverAfter (charge_decoded tx b)
unfolding charge_decoded deny_engine
charge-Never tx b =
    let extra = length b - length tx.body in
    let r = reserve_body tx (pos extra) in
    if_rule NeverAfter (ltb 0 extra) (λ h. if_rule NeverAfter r.1 (λ i q. cc) (λ i q. cc))
      (λ h q. cc)

step-Never : (tx : Transaction) (enc : Text) (o : Option Text) → NeverAfter (decoded_step tx enc o)
unfolding decoded_step deny_engine
step-Never tx enc none = λ q. cc
step-Never tx enc (some b) = charge-Never tx b

decode-Never : (env : Env) (o : Option Text) (tx : Transaction) → NeverAfter (decode_found env o tx)
unfolding decode_found decode_as deny_engine
decode-Never env none tx = λ q. cc
decode-Never env (some first) tx =
    let enc = to_lower (trim_space first) in
    if_rule NeverAfter (ltb 1 (header_count tx (lit "content-encoding"))) (λ h q. cc)
      λ h.
        if_rule NeverAfter (is_empty enc || text_eq enc (lit "identity")) (λ i q. cc)
          λ i.
            if_rule NeverAfter (is_empty tx.body) (λ j q. cc)
              λ j. step-Never tx enc (decode_body env enc tx.body)

abbrev NeverOr : Transaction × Option StageResult → Type 0
NeverOr (tx, none) = Unit
NeverOr (tx, some r) = Never r

settled-Never :
    (p : CompiledPolicy) (tx : Transaction) (o : Option (Verdict × List Error))
    → NeverOr (settled p tx o)
unfolding settle
settled-Never p tx none = tt
settled-Never p tx (some (v, errs)) =
    if_rule NeverAfter (blocking v.action) (λ h q. cc)
      λ h.
        if_rule NeverAfter (not (is_empty errs)) (λ i q. cc)
          λ i.
            if_rule NeverAfter (crosses p.anomaly_threshold (add_anomaly_score tx v.score))
              (λ j q. cc) (λ j q. cc)

engines-Never :
    (inspect : Inspect) (r : Readings) (tx : Transaction) → NeverOr (run_engines inspect r tx)
unfolding run_engines
engines-Never inspect r tx =
    if_enforcing_rule NeverOr tx.policy (λ q. cc)
      λ p e on.
        if_rule NeverOr (is_empty p.engines) (λ h q. cc)
          (λ h. settled-Never p (record tx { eng_req = engine_request tx }) _)

recovered-Never : (o : Transaction × Option StageResult) → NeverOr o → Never (recovered o.1)
recovered-Never (tx, none) h = λ q. cc
recovered-Never (tx, some r) h = h

-- No stage of a policy allows a request by itself: that is left to the executor.
pub stages-NeverAllows : (env : Env) → Holds NeverAllows env
unfolding run_stage fast_pre_checks_stage body_gate_stage body_guard_stage body_decode_stage
    body_checks_stage waf_engine_stage waf_header_stage waf_engine waf_header_engine fast_pre_checks
    body_gate body_truncation_guard too_large deny_engine body_checks body_content_decode
stages-NeverAllows env = record {
  fast_pre_checks = λ r tx.
      if_enforcing_rule NeverAfter tx.policy (λ q. cc)
        λ p e on.
          if_rule NeverAfter (not (is_request tx.direction)) (λ h q. cc)
            (λ h. or_continue-Never _ (header_checks-Denies tx p));
  body_gate = λ r tx. if_enforcing_rule NeverAfter tx.policy (λ q. cc) (λ p e on q. cc);
  body_guard = λ r tx.
      if_enforcing_rule NeverAfter tx.policy (λ q. cc)
        λ p e on. if_rule NeverAfter tx.body_truncated (λ h q. cc) (λ h q. cc);
  body_decode =
      λ r tx. if_enforcing_rule NeverAfter tx.policy (λ q. cc) (λ p e on. decode-Never env _ tx);
  body_checks = λ r tx.
      if_enforcing_rule NeverAfter tx.policy (λ q. cc)
        λ p e on. finished-Never _ (body-Denies env p tx);
  waf = λ r tx.
      recovered-Never (run_engines inspect_body_phase r tx) (engines-Never inspect_body_phase r tx);
  waf_header = λ r tx.
      recovered-Never (run_engines inspect_header_phase r tx)
        (engines-Never inspect_header_phase r tx);
}
