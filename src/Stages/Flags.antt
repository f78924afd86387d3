-- ===== src/Stages/Flags.antt =====
-- The flags and the policy of a transaction through a policy's pipelines (internal/pipeline/stages).
use elchi_shield.Prelude.{Bool, ◌≡◌, ◌∙◌, ap, Option}
use elchi_shield.Engine.{Direction}
use elchi_shield.Policy.{CompiledPolicy}
use elchi_shield.Transaction.{Transaction}
use elchi_shield.Pipeline.{Stage, run_stage}
use elchi_shield.Pipeline.Preserve.{IsStable, StageKeeps}
use elchi_shield.Stages.Env.{Env}
use elchi_shield.Stages.Waf.{waf_engine, waf_header_engine}
use elchi_shield.Stages.Catalog.{
  fast_pre_checks_stage, body_gate_stage, body_guard_stage, body_decode_stage, body_checks_stage,
  waf_engine_stage, waf_header_stage,
}
use elchi_shield.Stages.Built.{Holds}
use elchi_shield.Stages.Frame.{
  held, fast_pre_checks-same, body_gate-Kept, body_truncation_guard-same, body_checks-Kept,
  run_engines-Kept, body_content_decode-held,
}

module _ (f : Direction × Bool × Bool × Bool × Option CompiledPolicy) where
  abbrev pub HasFlags : Transaction → Type 0
  HasFlags tx = held tx ≡ f

  pub IsStable-HasFlags : IsStable HasFlags
  IsStable-HasFlags tx d fs b w h = h

  abbrev pub KeepsFlags : Stage → Type 0
  KeepsFlags = StageKeeps HasFlags IsStable-HasFlags

  -- Every inspector keeps the flags, and the policy.
  pub stages-KeepsFlags : (env : Env) → Holds KeepsFlags env
  unfolding run_stage fast_pre_checks_stage body_gate_stage body_guard_stage body_decode_stage
      body_checks_stage waf_engine_stage waf_header_stage waf_engine waf_header_engine
  stages-KeepsFlags env = record {
    fast_pre_checks = λ r tx h. ap held (fast_pre_checks-same tx) ∙ h;
    body_gate = λ r tx h. (body_gate-Kept tx).0 ∙ h;
    body_guard = λ r tx h. ap held (body_truncation_guard-same tx) ∙ h;
    body_decode = λ r tx h. body_content_decode-held env tx ∙ h;
    body_checks = λ r tx h. (body_checks-Kept env tx).0 ∙ h;
    waf = λ r tx h. (run_engines-Kept _ r tx).0 ∙ h;
    waf_header = λ r tx h. (run_engines-Kept _ r tx).0 ∙ h;
  }
