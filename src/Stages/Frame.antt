-- ===== src/Stages/Frame.antt =====
-- What the stages leave to the server: the flags that order the phases of a stream, and the account
-- with the shared budget (internal/pipeline/stages).
use elchi_shield.Prelude.{
  Bool, true, false, ◌≡◌, refl, List, Option, none, some, not, ◌&&◌, ◌||◌, ltb, if_rule, Bool-cases,
  Option-cases, inl, inr, arith,
}
use elchi_shield.Prelude.Int.{ℤ}
use elchi_shield.Strings.{Text, lit, text_eq, is_empty, to_lower, trim_space}
use elchi_shield.Decision.{Verdict}
use elchi_shield.Engine.{Error, Direction, direction_request, direction_response, Readings}
use elchi_shield.Policy.{CompiledPolicy, CompiledDlp, if_enforcing_rule}
use elchi_shield.Transaction.{Transaction, reserve_body, header_count}
use elchi_shield.ExtProc.Budget.{BodyBudget}
use elchi_shield.Pipeline.{StageResult}
use elchi_shield.Stages.Env.{Env, Detector}
use elchi_shield.Stages.PreCheck.{init_direction, context_init, fast_pre_checks}
use elchi_shield.Stages.Body.{
  body_gate, body_truncation_guard, body_checks, masked, run_dlp, dlp_check, dlp_applies, finished,
  blocking_kind, run_body_checks, json_check, scan_check,
}
use elchi_shield.Stages.Decode.{
  body_content_decode, decode_found, decoded_step, charge_decoded, decode_as, decode_body,
}
use elchi_shield.Stages.Waf.{
  Inspect, engine_request, add_anomaly_score, run_engines, settle, settled,
}

-- The flags that the server keeps and the account with the budget.
abbrev pub flags : Transaction → Direction × Bool × Bool × Bool
flags tx = (tx.direction, tx.request_settled, tx.body_inspected, tx.body_truncated)

abbrev pub account : Transaction → Option BodyBudget × ℤ
account tx = (tx.budget, tx.body_reserved)

-- What the inspectors keep: flags and policy, and the account but for the decoder.
abbrev pub held : Transaction → Direction × Bool × Bool × Bool × Option CompiledPolicy
held tx = (tx.direction, tx.request_settled, tx.body_inspected, tx.body_truncated, tx.policy)

abbrev pub Kept : Transaction → Transaction → Type 0
Kept tx tx' = (held tx' ≡ held tx) × (account tx' ≡ account tx)

pub init_direction-Kept :
    (d : Direction) (env : Env) (tx : Transaction) → Kept tx (init_direction d env tx)
unfolding init_direction
init_direction-Kept direction_request env tx = (refl, refl)
init_direction-Kept direction_response env tx = (refl, refl)

pub context_init-Kept : (env : Env) (tx : Transaction) → Kept tx (context_init env tx).0
unfolding context_init
context_init-Kept env tx = init_direction-Kept tx.direction env _

pub fast_pre_checks-same : (tx : Transaction) → (fast_pre_checks tx).0 ≡ tx
unfolding fast_pre_checks
fast_pre_checks-same tx = ground arith

pub body_gate-Kept : (tx : Transaction) → Kept tx (body_gate tx).0
unfolding body_gate
body_gate-Kept tx = ground arith

pub body_truncation_guard-same : (tx : Transaction) → (body_truncation_guard tx).0 ≡ tx
unfolding body_truncation_guard
body_truncation_guard-same tx =
    if_enforcing_rule (λ (r : Transaction × StageResult). r.0 ≡ tx) tx.policy refl
      λ p e on.
        if_rule (λ (r : Transaction × StageResult). r.0 ≡ tx) tx.body_truncated (λ h. refl)
          (λ h. refl)

pub masked-Kept : (b : Bool) (tx : Transaction) (r : Text × Bool) → Kept tx (masked b tx r).0
masked-Kept b tx (t, false) = (refl, refl)
masked-Kept true tx (t, true) = (refl, refl)
masked-Kept false tx (t, true) = (refl, refl)

pub run_dlp-Kept :
    (det : Detector) (dlp : CompiledDlp) (p : CompiledPolicy) (tx : Transaction)
    → Kept tx (run_dlp det dlp p tx).0
unfolding run_dlp
run_dlp-Kept det dlp p tx = elim (Option-cases (blocking_kind dlp.block (det.matches tx.body))) [
  | inl pass ↦ rw (pass, run_dlp) (masked-Kept _ tx _)
  | inr (k, hit) ↦ rw (hit, run_dlp) (refl, refl)
]

pub dlp_check-Kept :
    (det : Detector) (p : CompiledPolicy) (tx : Transaction) → Kept tx (dlp_check det p tx).0
unfolding dlp_check
dlp_check-Kept det p tx = elim (Option-cases p.checks.dlp) [
  | inl off ↦ rw (off, dlp_check) (refl, refl)
  | inr (dlp, on) ↦
      rw (on, dlp_check)
        (elim (Bool-cases (dlp_applies dlp tx.direction && not (is_empty tx.body))) [
          | inl runs ↦ rw runs (run_dlp-Kept det dlp p tx)
          | inr skips ↦ rw skips (refl, refl)
        ])
]

pub run_body_checks-Kept :
    (env : Env) (p : CompiledPolicy) (tx : Transaction) → Kept tx (run_body_checks env p tx).0
unfolding run_body_checks
run_body_checks-Kept env p tx = elim (Option-cases (json_check env tx p)) [
  | inr (res, bad) ↦ rw (bad, run_body_checks) (refl, refl)
  | inl fine ↦
      rw (fine, run_body_checks)
        (elim (Option-cases env.detector) [
          | inl absent ↦ rw (absent, run_body_checks) (refl, refl)
          | inr (det, there) ↦
              rw (there, run_body_checks)
                (elim (Option-cases (scan_check det tx p)) [
                  | inr (res, bad) ↦ rw (bad, run_body_checks) (refl, refl)
                  | inl clean ↦ rw (clean, run_body_checks) (dlp_check-Kept det p tx)
                ])
        ])
]

pub finished-Kept :
    (tx : Transaction) (r : Transaction × Option StageResult) → Kept tx r.0 → Kept tx (finished r).0
finished-Kept tx (tx', none) h = h
finished-Kept tx (tx', some res) h = h

pub body_checks-Kept : (env : Env) (tx : Transaction) → Kept tx (body_checks env tx).0
unfolding body_checks
body_checks-Kept env tx =
    if_enforcing_rule (λ (r : Transaction × StageResult). Kept tx r.0) tx.policy (refl, refl)
      λ p e on. finished-Kept tx (run_body_checks env p tx) (run_body_checks-Kept env p tx)

pub settle-Kept :
    (p : CompiledPolicy) (tx : Transaction) (v : Verdict) (errs : List Error)
    → Kept tx (settle p tx v errs).0
unfolding settle add_anomaly_score
settle-Kept p tx v errs = (ground arith, ground arith)

pub settled-Kept :
    (p : CompiledPolicy) (tx : Transaction) (o : Option (Verdict × List Error))
    → Kept tx (settled p tx o).0
settled-Kept p tx none = (refl, refl)
settled-Kept p tx (some (v, errs)) = settle-Kept p tx v errs

-- Both engine stages, with any inspection.
pub run_engines-Kept :
    (inspect : Inspect) (r : Readings) (tx : Transaction) → Kept tx (run_engines inspect r tx).0
unfolding run_engines
run_engines-Kept inspect r tx =
    if_enforcing_rule (λ (o : Transaction × Option StageResult). Kept tx o.0) tx.policy (refl, refl)
      λ p e on.
        if_rule (λ (o : Transaction × Option StageResult). Kept tx o.0) (is_empty p.engines)
          (λ h. (refl, refl)) (λ h. settled-Kept p (record tx { eng_req = engine_request tx }) _)

pub charge_decoded-held : (tx : Transaction) (b : Text) → held (charge_decoded tx b).0 ≡ held tx
unfolding charge_decoded reserve_body
charge_decoded-held tx b = ground arith

pub decoded_step-held :
    (tx : Transaction) (enc : Text) (o : Option Text) → held (decoded_step tx enc o).0 ≡ held tx
unfolding decoded_step
decoded_step-held tx enc none = refl
decoded_step-held tx enc (some b) = charge_decoded-held tx b

pub decode_as-held :
    (env : Env) (first : Text) (tx : Transaction) → held (decode_as env first tx).0 ≡ held tx
unfolding decode_as
decode_as-held env first tx =
    let enc = to_lower (trim_space first) in
    if_rule (λ (r : Transaction × StageResult). held r.0 ≡ held tx)
      (ltb 1 (header_count tx (lit "content-encoding"))) (λ h. refl)
      λ h.
        if_rule (λ (r : Transaction × StageResult). held r.0 ≡ held tx)
          (is_empty enc || text_eq enc (lit "identity")) (λ h. refl)
          λ h.
            if_rule (λ (r : Transaction × StageResult). held r.0 ≡ held tx) (is_empty tx.body)
              (λ h. refl) λ h. decoded_step-held tx enc (decode_body env enc tx.body)

pub decode_found-held :
    (env : Env) (o : Option Text) (tx : Transaction) → held (decode_found env o tx).0 ≡ held tx
unfolding decode_found
decode_found-held env none tx = refl
decode_found-held env (some first) tx = decode_as-held env first tx

pub body_content_decode-held :
    (env : Env) (tx : Transaction) → held (body_content_decode env tx).0 ≡ held tx
unfolding body_content_decode
body_content_decode-held env tx =
    if_enforcing_rule (λ (r : Transaction × StageResult). held r.0 ≡ held tx) tx.policy refl
      λ p e on. decode_found-held env _ tx
