-- ===== src/Pipeline.antt =====
-- internal/pipeline/pipeline.go, action.go, result.go and stage.go: the executor of a chain of
-- stages. A stage is its name, its phase and its step on the transaction, with `none` for a panic;
-- what it did to the transaction before a panic stands. The readings of a context say, for the n-th
-- stage that is run, whether `ctx.Err()` is set before it (at 0) and before each engine inside it.
-- The observer, which only counts, is left out.
pub mod Loop
pub mod Blocking
pub mod Attribution
pub mod Preserve
pub mod Reuse
use elchi_shield.Prelude.{
  ℕ, suc, Bool, true, false, ◌||◌, List, [], ◌∷◌, ◌++◌, Option, none, some, ltb, not, ◌==◌,
  if◌then◌else◌,
}
use elchi_shield.Strings.{Text, lit, is_empty}
use elchi_shield.Decision.{
  Action, allow, block, detect, shadow, Decision, default_block_status, allowed, rank,
  severity_none,
}
use elchi_shield.Engine.{Error, stage_panic, Readings}
use elchi_shield.Policy.{CompiledPolicy, is_blocking, is_shadowing, fails_open}
use elchi_shield.Transaction.{Transaction, policy_id}

pub data Phase : Type 0 where
  phase_pre_check phase_body_gate phase_body phase_waf phase_final phase_audit : Phase

-- The number behind a phase.
abbrev pub phase_rank : Phase → ℕ
phase_rank phase_pre_check = 0
phase_rank phase_body_gate = 1
phase_rank phase_body = 2
phase_rank phase_waf = 3
phase_rank phase_final = 4
phase_rank phase_audit = 5

pub data StageAction : Type 0 where
  action_continue action_allow action_deny action_shadow_detect action_skip_body : StageAction
  action_skip_remaining action_error : StageAction

pub record StageResult : Type 0 where
  pub action : StageAction
  pub decision : Option Decision
  pub err : List Error

abbrev pub continue_result : StageResult
continue_result = record { action = action_continue; decision = none; err = [] }

abbrev pub deny_result : Decision → StageResult
deny_result d = record { action = action_deny; decision = some d; err = [] }

abbrev pub skip_remaining_result : StageResult
skip_remaining_result = record { action = action_skip_remaining; decision = none; err = [] }

abbrev pub fail_result : List Error → StageResult
fail_result err = record { action = action_error; decision = none; err = err }

pub record Stage : Type 0 where
  pub name : Text
  pub phase : Phase
  pub process : Readings → Transaction → Transaction × Option StageResult

pub record Pipeline : Type 0 where
  pub name : Text
  pub stages : List Stage

abbrev pub Context : Type 0
Context = ℕ → Readings

-- The order check of `New`; a nil stage cannot be written.
unfoldable pub in_order : ℕ → List Stage → Bool
in_order prev [] = true
in_order prev (s ∷ ss) =
    if ltb (phase_rank s.phase) prev then false else in_order (phase_rank s.phase) ss

-- `New`: `none` is the error of stages that are out of order.
unfoldable pub new : Text → List Stage → Option Pipeline
unfolding in_order
new name stages = if in_order 0 stages then some (record { name = name; stages = stages }) else none

unfoldable pub new_unordered : Text → List Stage → Pipeline
new_unordered name stages = record { name = name; stages = stages }

gated_phase : Phase → Transaction → Bool
gated_phase phase_body tx = not tx.body_required
gated_phase phase_waf tx = not tx.waf_enabled
gated_phase _ tx = false

unfoldable pub gated : Phase → Transaction → Bool
unfolding gated_phase
gated ph tx = gated_phase ph tx

abbrev pub recovered : Option StageResult → StageResult
recovered none = fail_result (stage_panic ∷ [])
recovered (some r) = r

-- `runStage`: a panic becomes an error.
unfoldable pub run_stage : Readings → Stage → Transaction → Transaction × StageResult
run_stage readings s tx = let (tx', out) = s.process readings tx in (tx', recovered out)

abbrev set_action : Decision → Action → Decision
set_action d mode = elim d.action [ allow ↦ record d { action = mode } | _ ↦ d ]

-- The first finding, or one of a higher severity, gives its attribution as a unit.
unfoldable pub attribute : Decision → Decision → Decision
attribute final f =
    if is_empty final.reason || ltb (rank final.severity) (rank f.severity)
    then record final {
      reason = f.reason;
      rule_id = f.rule_id;
      engine = f.engine;
      severity = f.severity;
    }
    else final

-- `record`: the findings of the transaction, and the running decision.
unfoldable pub record_finding :
    Transaction → Option Decision → Decision → Action → Transaction × Decision
unfolding attribute
record_finding tx none final mode = (tx, set_action final mode)
record_finding tx (some d) final mode = (
  record tx { findings = tx.findings ++ (record d { action = mode } ∷ []) },
  attribute (set_action final mode) d,
)

abbrev status_or_default : Decision → Decision
status_or_default d =
    if d.status_code == 0 then record d { status_code = default_block_status } else d

abbrev pub policy_blocks : Option CompiledPolicy → Bool
policy_blocks none = false
policy_blocks (some p) = is_blocking p

abbrev policy_shadows : Option CompiledPolicy → Bool
policy_shadows none = false
policy_shadows (some p) = is_shadowing p

abbrev bare_block : Text → Text → Decision
bare_block policy reason = record {
  action = block;
  reason = reason;
  rule_id = [];
  policy_id = policy;
  engine = [];
  severity = severity_none;
  status_code = default_block_status;
}

abbrev enforced : Transaction → Option Decision → Decision
enforced tx none = bare_block (policy_id tx) []
enforced tx (some d) = status_or_default d

-- `applyDeny`: the enforced block if there is one, with the transaction and the running decision.
unfoldable pub apply_deny :
    Transaction → Option Decision → Decision → Transaction × Decision × Option Decision
unfolding record_finding
apply_deny tx d final =
    let (tx', final') =
      record_finding tx d final (if policy_shadows tx.policy then shadow else detect) in
    if policy_blocks tx.policy then (tx, final, some (enforced tx d)) else (tx', final', none)

abbrev pub policy_fails_open : Option CompiledPolicy → Bool
policy_fails_open none = true
policy_fails_open (some p) = fails_open p

unfoldable pub fail_posture : Transaction → Decision → Bool → Decision
unfolding lit
fail_posture tx final timed_out =
    if policy_fails_open tx.policy
    then final
    else bare_block (policy_id tx)
        (if timed_out then lit "fail_close_timeout" else lit "fail_close_error")

abbrev or_final : Option Decision → Decision → Decision
or_final none final = final
or_final (some d) final = d

-- What the switch of `Run` does with a result: go on, or stop with a decision.
pub data Flow : Type 0 where
  go : Transaction → Decision → Flow
  stop : Transaction → Decision → Flow

abbrev denied : Transaction × Decision × Option Decision → Flow
denied (tx, final, none) = go tx final
denied (tx, final, some d) = stop tx d

abbrev recorded : Transaction × Decision → Flow
recorded (tx, final) = go tx final

flow_action : StageAction → Option Decision → Transaction → Decision → Flow
flow_action action_continue d tx final = go tx final
flow_action action_allow d tx final = stop tx (or_final d final)
flow_action action_deny d tx final = denied (apply_deny tx d final)
flow_action action_shadow_detect d tx final = recorded (record_finding tx d final shadow)
flow_action action_skip_body d tx final =
    go (record tx { body_required = false; waf_enabled = false }) final
flow_action action_skip_remaining d tx final = stop tx final
flow_action action_error d tx final = stop tx (fail_posture tx final false)

-- The switch of `Run`.
unfoldable pub flow : StageResult → Transaction → Decision → Flow
unfolding flow_action apply_deny record_finding fail_posture
flow res tx final = flow_action res.action res.decision tx final

-- Goes on with the later stages, with the running decision in the transaction, or stops.
abbrev pub resume :
    Flow → (Transaction → Decision → Transaction × Decision) → Transaction × Decision
resume (go tx final) rest = rest (record tx { result = final }) final
resume (stop tx d) rest = (tx, d)

-- The loop of `Run` over the stages, from the running decision.
unfoldable pub run_stages : Context → List Stage → Transaction → Decision → Transaction × Decision
unfolding gated run_stage flow
run_stages ctx [] tx final = (tx, final)
run_stages ctx (s ∷ ss) tx final =
    let skip = run_stages ctx ss tx final in
    let late : Transaction × Decision = (tx, fail_posture tx final true) in
    let (tx', res) = run_stage (λ n. ctx 0 (suc n)) s tx in
    let next = resume (flow res tx' final) (run_stages (λ n. ctx (suc n)) ss) in
    if gated s.phase tx then skip else if ctx 0 0 then late else next

-- `Run`.
unfoldable pub run : Context → Pipeline → Transaction → Transaction × Decision
unfolding run_stages allowed
run ctx p tx =
    let first = allowed (policy_id tx) in
    run_stages ctx p.stages (record tx { result = first; findings = [] }) first
