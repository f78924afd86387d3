-- ===== src/Pipeline/Preserve.antt =====
-- What a run keeps of a transaction (internal/pipeline/pipeline.go).
use elchi_shield.Prelude.{Bool, false, List, [], ◌∷◌, Option, none, some, All, Bool-cases, inl, inr}
use elchi_shield.Decision.{Action, shadow, Decision}
use elchi_shield.Engine.{Readings}
use elchi_shield.Transaction.{Transaction}
use elchi_shield.Pipeline.{
  Stage, StageAction, action_continue, action_allow, action_deny, action_shadow_detect,
  action_skip_body, action_skip_remaining, action_error, Pipeline, Context, run_stage,
  record_finding, apply_deny, denied, flow, flow_action, policy_blocks, run,
}
use elchi_shield.Pipeline.Loop.{Continues, Keeps, run_stages_rule}

-- A property that the fields which the executor writes do not touch.
abbrev pub IsStable : (Transaction → Type 0) → Type 0
IsStable P =
    (tx : Transaction) (d : Decision) (fs : List Decision) (b w : Bool)
    → P tx
    → P (record tx { result = d; findings = fs; body_required = b; waf_enabled = w })

module _ (P : Transaction → Type 0) (stable : IsStable P) where
  abbrev At : Transaction → Decision → Type 0
  At tx d = P tx

  record_keeps :
      (tx : Transaction) (d : Option Decision) (final : Decision) (mode : Action)
      → P tx
      → P (record_finding tx d final mode).0
  unfolding record_finding
  record_keeps tx none final mode h = h
  record_keeps tx (some d) final mode h = stable tx tx.result _ tx.body_required tx.waf_enabled h

  deny_keeps :
      (tx : Transaction) (d : Option Decision) (final : Decision)
      → P tx
      → Continues At At (denied (apply_deny tx d final))
  deny_keeps tx d final h = elim (Bool-cases (policy_blocks tx.policy)) [
    | inl on ↦ unfold apply_deny in rw on h
    | inr off ↦ unfold apply_deny in rw off (record_keeps tx d final _ h)
  ]

  flow_keeps :
      (a : StageAction) (d : Option Decision) (tx : Transaction) (final : Decision)
      → P tx
      → Continues At At (flow_action a d tx final)
  unfolding flow_action
  flow_keeps action_continue d tx final h = h
  flow_keeps action_allow d tx final h = h
  flow_keeps action_deny d tx final h = deny_keeps tx d final h
  flow_keeps action_shadow_detect d tx final h = record_keeps tx d final shadow h
  flow_keeps action_skip_body d tx final h = stable tx tx.result tx.findings false false h
  flow_keeps action_skip_remaining d tx final h = h
  flow_keeps action_error d tx final h = h

  abbrev pub StageKeeps : Stage → Type 0
  StageKeeps s = (r : Readings) (tx : Transaction) → P tx → P (run_stage r s tx).0

  All-Keeps : (ss : List Stage) → All StageKeeps ss → All (Keeps At At) ss
  All-Keeps [] h = tt
  All-Keeps (s ∷ ss) (h, hs) =
      ((λ r tx final i. unfold flow in flow_keeps _ _ _ final (h r tx i)), All-Keeps ss hs)

  pub run_keeps :
      (ctx : Context) (p : Pipeline) (tx : Transaction)
      → All StageKeeps p.stages
      → P tx
      → P (run ctx p tx).0
  unfolding run
  run_keeps ctx p tx keep h =
      run_stages_rule At At (λ t d i. stable t d t.findings t.body_required t.waf_enabled i)
        (λ t d i. i) (λ t d i. i) ctx p.stages _ _ (All-Keeps p.stages keep)
        (stable tx _ [] tx.body_required tx.waf_enabled h)
