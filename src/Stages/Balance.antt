-- ===== src/Stages/Balance.antt =====
-- Every stage keeps the account with the budget (internal/pipeline/stages).
use elchi_shield.Prelude.{
  ℕ, ◌-◌, Bool, true, false, refl, Option, none, some, All, ◌||◌, ltb, if_rule, Option-cases, inl,
  inr, length, ap,
}
use elchi_shield.Prelude.Int.{pos}
use elchi_shield.Strings.{Text, lit, text_eq, is_empty, to_lower, trim_space}
use elchi_shield.Engine.{Readings}
use elchi_shield.Policy.{CompiledPolicy, is_enforcing, if_enforcing_rule}
use elchi_shield.Transaction.{Transaction, reserve_body, header_count}
use elchi_shield.Transaction.Account.{IsBalanced, account-IsBalanced, reserve_body-IsBalanced}
use elchi_shield.Pipeline.{Phase, Stage, StageResult, run_stage}
use elchi_shield.Pipeline.Preserve.{IsStable, StageKeeps}
use elchi_shield.Stages.Env.{Env}
use elchi_shield.Stages.PreCheck.{
  Step, policy_resolve, early_decision, hosts_disagree, posture_step,
}
use elchi_shield.Stages.Decode.{
  body_content_decode, decode_found, decoded_step, charge_decoded, decode_as, decode_body,
}
use elchi_shield.Stages.Waf.{Inspect, run_engines, waf_engine, waf_header_engine}
use elchi_shield.Stages.Catalog.{
  stage_of, context_init_stage, policy_resolve_stage, early_decision_stage, fast_pre_checks_stage,
  body_gate_stage, body_guard_stage, body_decode_stage, body_checks_stage, waf_engine_stage,
  waf_header_stage, request_prelude, response_prelude,
}
use elchi_shield.Stages.Frame.{
  context_init-Kept, fast_pre_checks-same, body_gate-Kept, body_truncation_guard-same,
  body_checks-Kept, run_engines-Kept,
}
use elchi_shield.Stages.Built.{Holds}

module _ (l base : ℕ) where
  abbrev B : Transaction → Type 0
  B tx = IsBalanced l base tx

  pub IsStable-IsBalanced : IsStable B
  IsStable-IsBalanced tx d fs b w v = account-IsBalanced l base refl v

  abbrev pub Balances : Stage → Type 0
  Balances = StageKeeps B IsStable-IsBalanced

  charge_decoded-IsBalanced : (tx : Transaction) (b : Text) → B tx → B (charge_decoded tx b).0
  unfolding charge_decoded
  charge_decoded-IsBalanced tx b v =
      let extra = length b - length tx.body in
      let r = reserve_body tx (pos extra) in
      let after = reserve_body-IsBalanced l base tx extra v in
      if_rule (λ (o : Transaction × StageResult). B o.0) (ltb 0 extra)
        (λ h.
          if_rule (λ (o : Transaction × StageResult). B o.0) r.1
            (λ i. account-IsBalanced l base refl after) (λ i. after))
        (λ h. account-IsBalanced l base refl v)

  decoded_step-IsBalanced :
      (tx : Transaction) (enc : Text) (o : Option Text) → B tx → B (decoded_step tx enc o).0
  unfolding decoded_step
  decoded_step-IsBalanced tx enc none v = v
  decoded_step-IsBalanced tx enc (some b) v = charge_decoded-IsBalanced tx b v

  decode_as-IsBalanced :
      (env : Env) (first : Text) (tx : Transaction) → B tx → B (decode_as env first tx).0
  unfolding decode_as
  decode_as-IsBalanced env first tx v =
      let enc = to_lower (trim_space first) in
      if_rule (λ (r : Transaction × StageResult). B r.0)
        (ltb 1 (header_count tx (lit "content-encoding"))) (λ h. v)
        λ h.
          if_rule (λ (r : Transaction × StageResult). B r.0)
            (is_empty enc || text_eq enc (lit "identity")) (λ h. v)
            λ h.
              if_rule (λ (r : Transaction × StageResult). B r.0) (is_empty tx.body) (λ h. v)
                λ h. decoded_step-IsBalanced tx enc (decode_body env enc tx.body) v

  decode_found-IsBalanced :
      (env : Env) (o : Option Text) (tx : Transaction) → B tx → B (decode_found env o tx).0
  unfolding decode_found
  decode_found-IsBalanced env none tx v = v
  decode_found-IsBalanced env (some first) tx v = decode_as-IsBalanced env first tx v

  body_content_decode-IsBalanced :
      (env : Env) (tx : Transaction) → B tx → B (body_content_decode env tx).0
  unfolding body_content_decode
  body_content_decode-IsBalanced env tx v =
      if_enforcing_rule (λ (r : Transaction × StageResult). B r.0) tx.policy v
        λ p e on. decode_found-IsBalanced env _ tx v

  stage_of-Balances :
      (name : Text) (ph : Phase) (step : Step)
      → ((tx : Transaction) → B tx → B (step tx).0)
      → Balances (stage_of name ph step)
  unfolding run_stage
  stage_of-Balances name ph step h r tx v = h tx v

  engines-Balances :
      (inspect : Inspect) (r : Readings) (tx : Transaction) → B tx → B (run_engines inspect r tx).0
  engines-Balances inspect r tx v = account-IsBalanced l base (run_engines-Kept inspect r tx).1 v

  pub pre_checks-Balances : Balances fast_pre_checks_stage
  unfolding run_stage fast_pre_checks_stage
  pre_checks-Balances r tx v =
      account-IsBalanced l base (ap (λ t. (t.budget, t.body_reserved)) (fast_pre_checks-same tx)) v

  pub guard-Balances : Balances body_guard_stage
  unfolding run_stage body_guard_stage
  guard-Balances r tx v =
      account-IsBalanced l base
        (ap (λ t. (t.budget, t.body_reserved)) (body_truncation_guard-same tx)) v

  pub gate-Balances : Balances body_gate_stage
  unfolding run_stage body_gate_stage
  gate-Balances r tx v = account-IsBalanced l base (body_gate-Kept tx).1 v

  pub checks-Balances : (env : Env) → Balances (body_checks_stage env)
  unfolding run_stage body_checks_stage
  checks-Balances env r tx v = account-IsBalanced l base (body_checks-Kept env tx).1 v

  pub decode-Balances : (env : Env) → Balances (body_decode_stage env)
  unfolding run_stage body_decode_stage
  decode-Balances env r tx v = body_content_decode-IsBalanced env tx v

  pub engine-Balances : Balances waf_engine_stage
  unfolding run_stage waf_engine_stage waf_engine
  engine-Balances r tx v = engines-Balances _ r tx v

  pub header_engine-Balances : Balances waf_header_stage
  unfolding run_stage waf_header_stage waf_header_engine
  header_engine-Balances r tx v = engines-Balances _ r tx v

  context_init-Balances : (env : Env) → Balances (context_init_stage env)
  unfolding run_stage context_init_stage
  context_init-Balances env r tx v = account-IsBalanced l base (context_init-Kept env tx).1 v

  resolve-Balances : Balances policy_resolve_stage
  unfolding run_stage policy_resolve_stage policy_resolve
  resolve-Balances r tx v = elim (Option-cases tx.snapshot) [
    | inl bare ↦ rw (bare, policy_resolve) v
    | inr (snap, pinned) ↦ rw (pinned, policy_resolve) (account-IsBalanced l base refl v)
  ]

  posture-IsBalanced :
      (d : Bool) (o : Option CompiledPolicy) (tx : Transaction) → B tx → B (posture_step d o tx).0
  unfolding posture_step
  posture-IsBalanced true none tx v = v
  posture-IsBalanced false none tx v = account-IsBalanced l base refl v
  posture-IsBalanced d (some p) tx v =
      if_rule (λ (r : Transaction × StageResult). B r.0) (is_enforcing p) (λ h. v) (λ h. v)

  early-Balances : (env : Env) → Balances (early_decision_stage env)
  unfolding run_stage early_decision_stage early_decision
  early-Balances env r tx v =
      if_rule (λ (o : Transaction × StageResult). B o.0) (hosts_disagree tx.headers) (λ h. v)
        λ h. posture-IsBalanced env.default_allow tx.policy tx v

  pub request_prelude-Balances : (env : Env) → All Balances (request_prelude env)
  unfolding request_prelude
  request_prelude-Balances env =
      (context_init-Balances env, (resolve-Balances, (early-Balances env, tt)))

  pub response_prelude-Balances : (env : Env) → All Balances (response_prelude env)
  unfolding response_prelude
  response_prelude-Balances env = (context_init-Balances env, tt)

  pub stages-Balance : (env : Env) → Holds Balances env
  stages-Balance env = record {
    fast_pre_checks = pre_checks-Balances;
    body_gate = gate-Balances;
    body_guard = guard-Balances;
    body_decode = decode-Balances env;
    body_checks = checks-Balances env;
    waf = engine-Balances;
    waf_header = header_engine-Balances;
  }
