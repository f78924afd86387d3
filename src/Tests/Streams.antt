-- ===== src/Tests/Streams.antt =====
-- The streams, the budget, the executor and the transaction at concrete inputs.
use elchi_shield.Prelude.{
  true, false, ◌≡◌, ◌≢◌, refl, List, [], ◌∷◌, Option, none, some, arith, subst, ap,
}
use elchi_shield.Prelude.Int.{pos}
use elchi_shield.Strings.{lit, text_eq}
use elchi_shield.Decision.{Decision, block, severity_high, allowed, is_block, blocking}
use elchi_shield.Transaction.{Transaction, append_body, reset, fresh}
use elchi_shield.Pipeline.Reuse.{reset-IsForgotten}
use elchi_shield.Transaction.Body.{IsStored, append_body-IsStored}
use elchi_shield.Transaction.Account.{used}
use elchi_shield.Pipeline.{
  Stage, Pipeline, phase_pre_check, deny_result, run, run_stages, gated, run_stage, flow, Context,
}
use elchi_shield.Pipeline.Blocking.{NeverAllows, MayBlock, run_blocks}
use elchi_shield.Pipeline.Attribution.{IsPlain, IsAttributed, run-IsAttributed}
use elchi_shield.Stages.Catalog.{
  stage_of, PolicyPipelines, build_policy_pipelines, split, partition, inspector,
  default_pipeline_order, fast_pre_checks_stage, waf_header_stage, body_gate_stage,
  body_guard_stage, body_decode_stage, body_checks_stage, waf_engine_stage,
}
use elchi_shield.ExtProc.Budget.{new_body_budget}
use elchi_shield.ExtProc.Budget.Interleaving.{
  System, Step, Reach, IsSound, Reach-IsSound, total_held,
}
use elchi_shield.ExtProc.Session.{Message, Ambient}
use elchi_shield.ExtProc.Bodies.{inspect_buffered_body}
use elchi_shield.ExtProc.Processor.{process}
use elchi_shield.ExtProc.Conservation.{process_conserves}
use elchi_shield.ExtProc.Truncation.{IsCutOff, TurnsAway, truncated_blocks}
use elchi_shield.ExtProc.Inspection.{inspect_buffered_body-once, inspect_buffered_body-MayBlock}
use elchi_shield.Tests.Fixtures.{
  plain_env, blocking_policy, detecting_policy, server, at_ease, pinned, buffered, session_with,
}

append_body-IsStored_example :
    IsStored
      (buffered blocking_policy false)
      (4 ∷ 5 ∷ [])
      4
      (append_body (buffered blocking_policy false) (4 ∷ 5 ∷ []) 4)
append_body-IsStored_example = append_body-IsStored (buffered blocking_policy false) (4 ∷ 5 ∷ []) 4

-- Three bytes are there and four fit, so one is stored.
append_cut : (append_body (buffered blocking_policy false) (4 ∷ 5 ∷ []) 4).1 ≡ 1
unfolding append_body
append_cut = refl

abbrev unhurried : Context
unhurried n k = false

abbrev used_up : Transaction
used_up = record (buffered blocking_policy true) { result = allowed (lit "p") }

reset-IsForgotten_example :
    (reset used_up ≡ record fresh { result = allowed (lit "p") })
    × (run unhurried
          (record { name = []; stages = fast_pre_checks_stage ∷ [] })
          (record (buffered detecting_policy false) { result = used_up.result })
        ≡ run unhurried
            (record { name = []; stages = fast_pre_checks_stage ∷ [] })
            (buffered detecting_policy false))
reset-IsForgotten_example =
    reset-IsForgotten used_up (buffered detecting_policy false) unhurried
      (record { name = []; stages = fast_pre_checks_stage ∷ [] }) used_up.result

abbrev built_pipelines : PolicyPipelines
built_pipelines = record {
  request_header = fast_pre_checks_stage ∷ waf_header_stage ∷ body_gate_stage ∷ [];
  request_body =
      body_guard_stage
      ∷ body_decode_stage plain_env
      ∷ body_checks_stage plain_env
      ∷ waf_engine_stage
      ∷ [];
  response_header = fast_pre_checks_stage ∷ waf_header_stage ∷ body_gate_stage ∷ [];
  response_body =
      body_guard_stage
      ∷ body_decode_stage plain_env
      ∷ body_checks_stage plain_env
      ∷ waf_engine_stage
      ∷ [];
}

built_default : build_policy_pipelines plain_env blocking_policy ≡ some built_pipelines
unfolding build_policy_pipelines split partition inspector default_pipeline_order text_eq lit
    fast_pre_checks_stage body_checks_stage waf_engine_stage
built_default = refl

cut_session-IsCutOff : IsCutOff (session_with blocking_policy true) blocking_policy
cut_session-IsCutOff = record {
  policy = refl;
  mode = refl;
  required = refl;
  truncated = refl;
  inspected = refl;
}

truncated_blocks_example : TurnsAway server at_ease (session_with blocking_policy true)
truncated_blocks_example =
    truncated_blocks server at_ease (session_with blocking_policy true) blocking_policy
      built_pipelines cut_session-IsCutOff built_default refl

inspect_buffered_body-once_example :
    inspect_buffered_body server at_ease
      (inspect_buffered_body server at_ease (session_with blocking_policy true)).1
    ≡ (none, (inspect_buffered_body server at_ease (session_with blocking_policy true)).1)
inspect_buffered_body-once_example =
    inspect_buffered_body-once server at_ease at_ease (session_with blocking_policy true)
      truncated_blocks_example.0 truncated_blocks_example.1

-- Headers that no policy covers, and a body.
abbrev two_messages : List (Ambient × Message)
two_messages =
    (at_ease, Message.request_headers [] [] false)
    ∷ (at_ease, Message.request_body (1 ∷ 2 ∷ []) true)
    ∷ []

process_conserves_example : process server pinned (used 9 4) two_messages ≡ some (used 9 4)
process_conserves_example = process_conserves 9 4 server pinned two_messages (omega arith)

abbrev one_client : System
one_client = record {
  budget = new_body_budget (pos 10);
  clients = record { held = 0; pending = none } ∷ [];
}

one_client-IsSound : IsSound 9 one_client
unfolding new_body_budget total_held
one_client-IsSound = record { limit = refl; exact = refl; capped = omega arith }

abbrev loaded : System
loaded = record one_client { clients = record { held = 0; pending = some (pos 0, 4) } ∷ [] }

loading : Reach one_client loaded
unfolding new_body_budget
loading =
    Reach.next Reach.here (Step.load one_client [] [] (record { held = 0; pending = none }) 4 refl)

Reach-IsSound_example : IsSound 9 loaded
Reach-IsSound_example = Reach-IsSound 9 one_client-IsSound loading

abbrev stern_decision : Decision
stern_decision = record {
  action = block;
  reason = 1 ∷ [];
  rule_id = [];
  policy_id = [];
  engine = [];
  severity = severity_high;
  status_code = 403;
}

abbrev stern_stage : Stage
stern_stage = stage_of [] phase_pre_check λ tx. (tx, deny_result stern_decision)

abbrev stern : Pipeline
stern = record { name = []; stages = stern_stage ∷ [] }

stern-NeverAllows : NeverAllows stern_stage
unfolding run_stage
stern-NeverAllows r tx e = cc

stern_blocks : is_block (run unhurried stern (buffered blocking_policy false)).1 ≡ true
unfolding run run_stages gated run_stage flow
stern_blocks = refl

run_blocks_example : MayBlock (run unhurried stern (buffered blocking_policy false)).0.policy
run_blocks_example =
    run_blocks unhurried stern (buffered blocking_policy false) (stern-NeverAllows, tt) stern_blocks

given : {d : Decision} → Option.some stern_decision ≡ some d → stern_decision ≡ d
given e = cc

stern-IsPlain : IsPlain stern_stage
unfolding run_stage
stern-IsPlain = record {
  findings = λ r tx. refl;
  never_allows = λ r tx e. cc;
  decisions = λ r tx d e.
      subst (λ (x : Decision). (x.reason ≢ []) × (x.action ≡ block)) (given e) ((λ b. cc), refl);
  decided = λ r tx e. absurd cc;
}

stern_notes : is_block (run unhurried stern (buffered detecting_policy false)).1 ≡ false
unfolding run run_stages gated run_stage flow allowed
stern_notes = refl

run-IsAttributed_example :
    IsAttributed
      (run unhurried stern (buffered detecting_policy false)).0.findings
      (run unhurried stern (buffered detecting_policy false)).1
run-IsAttributed_example =
    run-IsAttributed unhurried stern (buffered detecting_policy false) (stern-IsPlain, tt)
      stern_notes

inspect_buffered_body-MayBlock_example : MayBlock (session_with blocking_policy true).tx.policy
inspect_buffered_body-MayBlock_example =
    inspect_buffered_body-MayBlock server at_ease (session_with blocking_policy true)
      truncated_blocks_example.0 truncated_blocks_example.1
      (ap blocking truncated_blocks_example.2.0)
