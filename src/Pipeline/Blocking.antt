-- ===== src/Pipeline/Blocking.antt =====
-- When the executor blocks (internal/pipeline/pipeline.go).
use elchi_shield.Prelude.{
  true, false, ◌≡◌, ◌≢◌, refl, ◌⊎◌, inl, inr, List, [], ◌∷◌, Option, none, some, All, Bool-cases,
  if◌then◌else◌, arith,
}
use elchi_shield.Decision.{Action, detect, shadow, blocking, Decision, is_block}
use elchi_shield.Engine.{Readings}
use elchi_shield.Policy.{CompiledPolicy}
use elchi_shield.Transaction.{Transaction}
use elchi_shield.Pipeline.{
  Stage, StageAction, action_continue, action_allow, action_deny, action_shadow_detect,
  action_skip_body, action_skip_remaining, action_error, record_finding, denied, policy_shadows,
  Pipeline, Context, run_stage, apply_deny, flow, flow_action, policy_blocks, policy_fails_open,
  fail_posture, run,
}
use elchi_shield.Pipeline.Loop.{Continues, Keeps, run_stages_rule}

-- A stage that leaves the terminal allow to the executor, as every stage of the source does.
abbrev pub NeverAllows : Stage → Type 0
NeverAllows s =
    (readings : Readings) (tx : Transaction) → (run_stage readings s tx).1.action ≢ action_allow

-- The policy under which a block is enforced: it blocks, or it fails closed.
abbrev pub MayBlock : Option CompiledPolicy → Type 0
MayBlock p = (policy_blocks p ≡ true) ⊎ (policy_fails_open p ≡ false)

abbrev Quiet : Transaction → Decision → Type 0
Quiet tx final = is_block final ≡ false

abbrev BlocksUnder : Transaction → Decision → Type 0
BlocksUnder tx d = is_block d ≡ true → MayBlock tx.policy

record-Quiet :
    (tx : Transaction) (d : Option Decision) (final : Decision) (mode : Action)
    → blocking mode ≡ false
    → is_block final ≡ false
    → is_block (record_finding tx d final mode).1 ≡ false
unfolding record_finding
record-Quiet tx none final mode m q = ground arith
record-Quiet tx (some d) final mode m q = ground arith

deny-Quiet :
    (tx : Transaction) (d : Option Decision) (final : Decision)
    → is_block final ≡ false
    → Continues Quiet BlocksUnder (denied (apply_deny tx d final))
deny-Quiet tx d final q = elim (Bool-cases (policy_blocks tx.policy)) [
  | inl yes_block ↦ unfold apply_deny in rw yes_block (λ b. inl yes_block)
  | inr not_block ↦
      unfold apply_deny in
      rw not_block (
        record-Quiet tx d final (if policy_shadows tx.policy then shadow else detect) (ground arith)
          q)
]

flow-Quiet :
    (a : StageAction) (d : Option Decision) (tx : Transaction) (final : Decision)
    → a ≢ action_allow
    → is_block final ≡ false
    → Continues Quiet BlocksUnder (flow_action a d tx final)
unfolding flow_action
flow-Quiet action_continue d tx final never q = q
flow-Quiet action_allow d tx final never q = absurd (never refl)
flow-Quiet action_deny d tx final never q = deny-Quiet tx d final q
flow-Quiet action_shadow_detect d tx final never q = record-Quiet tx d final shadow refl q
flow-Quiet action_skip_body d tx final never q = q
flow-Quiet action_skip_remaining d tx final never q = λ b. cc
flow-Quiet action_error d tx final never q = λ b. unfold fail_posture in ground arith

late-Quiet :
    (tx : Transaction) (final : Decision)
    → Quiet tx final
    → BlocksUnder tx (fail_posture tx final true)
unfolding fail_posture
late-Quiet tx final h = λ b. ground arith

All-Keeps : (ss : List Stage) → All NeverAllows ss → All (Keeps Quiet BlocksUnder) ss
All-Keeps [] h = tt
All-Keeps (s ∷ ss) (h, hs) =
    ((λ r tx final q. unfold flow in flow-Quiet _ _ _ final (h r tx) q), All-Keeps ss hs)

-- A run of stages none of which allows by itself ends in a block only under a policy in block mode,
-- or one that fails closed: detect, shadow and off modes that fail open never block.
pub run_blocks :
    (ctx : Context) (p : Pipeline) (tx : Transaction)
    → All NeverAllows p.stages
    → is_block (run ctx p tx).1 ≡ true
    → MayBlock (run ctx p tx).0.policy
unfolding run
run_blocks ctx p tx never =
    run_stages_rule Quiet BlocksUnder (λ t d q. q) (λ t d q b. cc) late-Quiet ctx p.stages _ _
      (All-Keeps p.stages never) refl
