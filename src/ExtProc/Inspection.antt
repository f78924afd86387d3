-- ===== src/ExtProc/Inspection.antt =====
-- The inspection of a buffered body (internal/server/extproc/processor.go).
use elchi_shield.Prelude.{
  Bool, true, ◌≡◌, refl, [], Option, none, some, All, not, ◌&&◌, ◌||◌, if_rule, option_rule,
  Option-cases, inl, inr, ap, ◌∙◌, subst, arith,
}
use elchi_shield.Decision.{Decision, is_block, allowed}
use elchi_shield.Engine.{Direction, direction_request, direction_response}
use elchi_shield.Policy.{CompiledPolicy, is_enforcing}
use elchi_shield.Pipeline.{Stage, policy_fails_open}
use elchi_shield.Pipeline.Blocking.{NeverAllows, MayBlock, run_blocks}
use elchi_shield.Stages.Results.{stages-NeverAllows}
use elchi_shield.Pipeline.Preserve.{run_keeps}
use elchi_shield.Stages.Catalog.{PolicyPipelines, build_policy_pipelines}
use elchi_shield.Stages.Built.{PolicyHolds, BuiltHolds, build_rule}
use elchi_shield.Stages.Frame.{held}
use elchi_shield.Stages.Flags.{HasFlags, IsStable-HasFlags, KeepsFlags, stages-KeepsFlags}
use elchi_shield.ExtProc.Session.{Session, Processor, Ambient}
use elchi_shield.ExtProc.Recording.{FilterPhase, fail_build_decision}
use elchi_shield.ExtProc.Bodies.{
  inspect_now, inspect_buffered_body, run_inspect, body_stages, body_phase,
}
use elchi_shield.ExtProc.Balance.{finish-latch}

-- The body stages of a policy.
body_stages_rule :
    (Q : Stage → Type 0) (dir : Direction) (pp : PolicyPipelines)
    → PolicyHolds Q pp
    → All Q (body_stages dir pp)
body_stages_rule Q direction_request pp b = b.request_body
body_stages_rule Q direction_response pp b = b.response_body

run_inspect-held :
    (pr : Processor) (amb : Ambient) (dir : Direction) (p : CompiledPolicy) (pp : PolicyPipelines)
    (s : Session)
    → build_policy_pipelines pr.env p ≡ some pp
    → held (run_inspect amb 2 (body_stages dir pp) s).1.tx ≡ held s.tx
unfolding run_inspect
run_inspect-held pr amb dir p pp s built =
    let Q = KeepsFlags (held s.tx) in
    let all =
      subst (BuiltHolds Q) built (build_rule Q pr.env (stages-KeepsFlags (held s.tx) pr.env) p) in
    run_keeps (HasFlags (held s.tx)) (IsStable-HasFlags (held s.tx)) _
      (record { name = []; stages = body_stages dir pp }) s.tx (body_stages_rule Q dir pp all) refl

inspect_now-latch :
    (pr : Processor) (amb : Ambient) (p : CompiledPolicy) (s : Session)
    → (inspect_now pr amb p s).1.tx.body_inspected ≡ true
unfolding inspect_now
inspect_now-latch pr amb p s = elim (Option-cases (build_policy_pipelines pr.env p)) [
  | inl bad ↦ rw (bad, inspect_now) (unfold fail_build_decision in finish-latch pr amb _ _ _)
  | inr (pp, good) ↦
      rw (good, inspect_now)
        (finish-latch pr amb _ _ _
          ∙ ap (λ (h : Direction × Bool × Bool × Bool × Option CompiledPolicy). h.2)
              (run_inspect-held pr amb s.tx.direction p pp _ good))
]

inspected_skips :
    (pr : Processor) (amb : Ambient) (s : Session)
    → s.tx.body_inspected ≡ true
    → inspect_buffered_body pr amb s ≡ (none, s)
unfolding inspect_buffered_body
inspected_skips pr amb s h =
    let Q : Option Decision × Session → Type 0 = λ r. r ≡ (none, s) in
    option_rule Q s.tx.policy (λ bare. refl)
      λ p there.
        if_rule Q (not (is_enforcing p) || s.tx.body_inspected) (λ i. refl)
          (λ i. absurd (ground arith))

inspect_latches :
    (pr : Processor) (amb : Ambient) (s : Session) (d : Decision)
    → (inspect_buffered_body pr amb s).0 ≡ some d
    → (inspect_buffered_body pr amb s).1.tx.body_inspected ≡ true
unfolding inspect_buffered_body
inspect_latches pr amb s d =
    let P : Option Decision × Session → Type 0 = λ r. r.0 ≡ some d → r.1.tx.body_inspected ≡ true in
    elim (Option-cases s.tx.policy) [
      | inl bare ↦ rw (bare, inspect_buffered_body) λ e. cc
      | inr (p, there) ↦
          rw (there, inspect_buffered_body)
            (if_rule P (not (is_enforcing p) || s.tx.body_inspected) (λ i e. cc)
              λ i.
                if_rule P (not s.tx.body_required && not s.tx.waf_enabled) (λ j e. cc)
                  λ j e. inspect_now-latch pr amb p s)
    ]

-- A body that has been inspected is not inspected again until more of it arrives: once the inspection
-- has given a decision, calling it again, in any circumstances, decides and changes nothing.
pub inspect_buffered_body-once :
    (pr : Processor) (amb again : Ambient) (s : Session) (d : Decision)
    → (inspect_buffered_body pr amb s).0 ≡ some d
    → inspect_buffered_body pr again (inspect_buffered_body pr amb s).1
      ≡ (none, (inspect_buffered_body pr amb s).1)
inspect_buffered_body-once pr amb again s d h =
    inspected_skips pr again _ (inspect_latches pr amb s d h)

blocks_too : {c d : Decision} → Option.some c ≡ some d → is_block d ≡ true → is_block c ≡ true
blocks_too e b = cc

run_inspect-MayBlock :
    (pr : Processor) (amb : Ambient) (dir : Direction) (p : CompiledPolicy) (pp : PolicyPipelines)
    (s : Session)
    → build_policy_pipelines pr.env p ≡ some pp
    → is_block (run_inspect amb 2 (body_stages dir pp) s).0 ≡ true
    → MayBlock s.tx.policy
run_inspect-MayBlock pr amb dir p pp s built h =
    let all =
      subst (BuiltHolds NeverAllows) built
        (build_rule NeverAllows pr.env (stages-NeverAllows pr.env) p) in
    let same =
      ap (λ (f : Direction × Bool × Bool × Bool × Option CompiledPolicy). f.4)
        (run_inspect-held pr amb dir p pp s built) in
    subst MayBlock same (
      unfold run_inspect in
      run_blocks _ (record { name = []; stages = body_stages dir pp }) s.tx
        (body_stages_rule NeverAllows dir pp all) (unfold run_inspect in h))

failed-MayBlock :
    (pr : Processor) (amb : Ambient) (ph : FilterPhase) (s : Session)
    → is_block (fail_build_decision pr amb ph s).0 ≡ true
    → MayBlock s.tx.policy
unfolding fail_build_decision allowed
failed-MayBlock pr amb ph s =
    if_rule (λ (d : Decision). is_block d ≡ true → MayBlock s.tx.policy)
      (policy_fails_open s.tx.policy) (λ h b. absurd cc) (λ h b. inr h)

now-MayBlock :
    (pr : Processor) (amb : Ambient) (p : CompiledPolicy) (s : Session) (d : Decision)
    → (inspect_now pr amb p s).0 ≡ some d
    → is_block d ≡ true
    → MayBlock s.tx.policy
unfolding inspect_now
now-MayBlock pr amb p s d =
    let P : Option Decision × Session → Type 0 =
      λ r. r.0 ≡ some d → is_block d ≡ true → MayBlock s.tx.policy in
    let latched = record s { tx = record s.tx { body_inspected = true } } in
    option_rule P (build_policy_pipelines pr.env p)
      (λ bad e b. failed-MayBlock pr amb (body_phase s.tx.direction) latched (blocks_too e b))
      (λ pp good e b. run_inspect-MayBlock pr amb s.tx.direction p pp latched good (blocks_too e b))

-- The inspection of a body, with any policy, stages and engines, blocks only under a policy in block
-- mode or one that fails closed.
pub inspect_buffered_body-MayBlock :
    (pr : Processor) (amb : Ambient) (s : Session) (d : Decision)
    → (inspect_buffered_body pr amb s).0 ≡ some d
    → is_block d ≡ true
    → MayBlock s.tx.policy
unfolding inspect_buffered_body
inspect_buffered_body-MayBlock pr amb s d =
    let P : Option Decision × Session → Type 0 =
      λ r. r.0 ≡ some d → is_block d ≡ true → MayBlock s.tx.policy in
    option_rule P s.tx.policy (λ bare e. absurd cc)
      λ p there.
        if_rule P (not (is_enforcing p) || s.tx.body_inspected) (λ i e. absurd cc)
          λ i.
            if_rule P (not s.tx.body_required && not s.tx.waf_enabled) (λ j e. absurd cc)
              λ j. now-MayBlock pr amb p s d
