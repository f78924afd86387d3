-- ===== src/ExtProc/Recorded.antt =====
-- What recording and inspecting do to a stream's account (internal/server/extproc/processor.go).
use elchi_shield.Prelude.{ℕ, refl, List, [], Option, none, some, All, not, ◌&&◌, ◌||◌, if_rule}
use elchi_shield.Strings.{Text, is_empty}
use elchi_shield.Decision.{Decision}
use elchi_shield.Engine.{Direction, direction_request, direction_response}
use elchi_shield.Policy.{CompiledPolicy, is_enforcing}
use elchi_shield.Transaction.Account.{IsBalanced, account-IsBalanced}
use elchi_shield.Pipeline.{Stage}
use elchi_shield.Pipeline.Preserve.{run_keeps}
use elchi_shield.Stages.Balance.{Balances, IsStable-IsBalanced, stages-Balance}
use elchi_shield.Stages.Catalog.{PolicyPipelines, build_policy_pipelines}
use elchi_shield.Stages.Built.{PolicyHolds, BuiltHolds, build_rule}
use elchi_shield.ExtProc.Session.{Session, Processor, Ambient}
use elchi_shield.ExtProc.Recording.{FilterPhase, finish, fail_build_decision}
use elchi_shield.ExtProc.Bodies.{
  inspect_now, inspect_buffered_body, run_inspect, run_prelude, keep, body_stages,
}
use elchi_shield.ExtProc.Processor.{reopen}
use elchi_shield.ExtProc.Balance.{finish-account}

-- What follows for a stream's policy, if it has one.
pub policy_rule :
    {A : Type 0} (P : A → Type 0) (o : Option CompiledPolicy) {x : A} {f : CompiledPolicy → A}
    → P x
    → ((p : CompiledPolicy) → P (f p))
    → P (elim o [ none ↦ x | some p ↦ f p ])
policy_rule P none h k = h
policy_rule P (some p) h k = k p

module _ (l base : ℕ) where
  abbrev S : Session → Type 0
  S s = IsBalanced l base s.tx

  pub finish-S :
      (pr : Processor) (amb : Ambient) (d : Decision) (ph : FilterPhase) (s : Session)
      → S s
      → S (finish pr amb d ph s)
  finish-S pr amb d ph s v = account-IsBalanced l base (finish-account pr amb d ph s) v

  pub fail_build_decision-S :
      (pr : Processor) (amb : Ambient) (ph : FilterPhase) (s : Session)
      → S s
      → S (fail_build_decision pr amb ph s).1
  unfolding fail_build_decision
  fail_build_decision-S pr amb ph s v = finish-S pr amb _ ph _ v

  pub reopen-S : (chunk : Text) (s : Session) → S s → S (reopen chunk s)
  unfolding reopen
  reopen-S chunk s v =
      if_rule S (not (is_empty chunk) && s.tx.body_inspected)
        (λ h. account-IsBalanced l base refl v) (λ h. v)

  pub run_inspect-S :
      (amb : Ambient) (n : ℕ) (ss : List Stage) (s : Session)
      → All (Balances l base) ss
      → S s
      → S (run_inspect amb n ss s).1
  unfolding run_inspect
  run_inspect-S amb n ss s keep v =
      run_keeps _ (IsStable-IsBalanced l base) _ (record { name = []; stages = ss }) s.tx keep v

  pub run_prelude-S :
      (amb : Ambient) (ss : List Stage) (s : Session)
      → All (Balances l base) ss
      → S s
      → S (run_prelude amb ss s).1
  unfolding run_prelude
  run_prelude-S amb ss s keep v =
      run_keeps _ (IsStable-IsBalanced l base) _ (record { name = []; stages = ss }) s.tx keep v

  pub body_stages-Balances :
      (dir : Direction) (pp : PolicyPipelines)
      → PolicyHolds (Balances l base) pp
      → All (Balances l base) (body_stages dir pp)
  body_stages-Balances direction_request pp b = b.request_body
  body_stages-Balances direction_response pp b = b.response_body

  -- What follows from the pipelines of a policy that could be built, or not.
  pub built_rule :
      {A : Type 0} (P : A → Type 0) (pr : Processor) (p : CompiledPolicy) {x : A}
      {f : PolicyPipelines → A}
      → P x
      → ((pp : PolicyPipelines) → PolicyHolds (Balances l base) pp → P (f pp))
      → P (elim (build_policy_pipelines pr.env p) [ none ↦ x | some pp ↦ f pp ])
  built_rule P pr p {x} {f} h k =
      go (build_policy_pipelines pr.env p)
        (build_rule (Balances l base) pr.env (stages-Balance l base pr.env) p)
    where
      go :
          (o : Option PolicyPipelines)
          → BuiltHolds (Balances l base) o
          → P (elim o [ none ↦ x | some pp ↦ f pp ])
      go none b = h
      go (some pp) b = k pp b

  pub inspect_now-S :
      (pr : Processor) (amb : Ambient) (p : CompiledPolicy) (s : Session)
      → S s
      → S (inspect_now pr amb p s).1
  unfolding inspect_now
  inspect_now-S pr amb p s v =
      built_rule (λ (r : Option Decision × Session). S r.1) pr p
        (fail_build_decision-S pr amb _ _ (account-IsBalanced l base refl v))
        λ pp b. finish-S pr amb _ _ _ (
          run_inspect-S amb 2 _ _ (body_stages-Balances s.tx.direction pp b)
            (account-IsBalanced l base refl v))

  abbrev After : Option Decision × Session → Type 0
  After r = S r.1

  pub inspect_buffered_body-S :
      (pr : Processor) (amb : Ambient) (s : Session) → S s → S (inspect_buffered_body pr amb s).1
  unfolding inspect_buffered_body
  inspect_buffered_body-S pr amb s v = policy_rule After s.tx.policy v λ p.
      if_rule After (not (is_enforcing p) || s.tx.body_inspected) (λ h. v)
        λ h.
          if_rule After (not s.tx.body_required && not s.tx.waf_enabled) (λ h. v)
            λ h. inspect_now-S pr amb p s v
