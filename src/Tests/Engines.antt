-- ===== src/Tests/Engines.antt =====
-- The engines and the executor at concrete inputs.
use elchi_shield.Prelude.{arith, Bool, true, false, ◌≡◌, refl, [], ◌∷◌, none, some, All, any}
use elchi_shield.Prelude.Int.{pos}
use elchi_shield.Decision.{Verdict, no_verdict, block, severity_low, severity_high, rank, blocking}
use elchi_shield.Engine.{
  Set, SecurityEngine, Request, Readings, Answer, verdict, failed, message, direction_request,
  inspect, inspect_loop, worse, add_score,
}
use elchi_shield.Engine.Aggregate.{
  inspect_blocks, inspect_most_severe, inspect_score, blocks, verdict_of, positive_sum, IsWithin,
}

abbrev answering : Answer → SecurityEngine
answering a = record {
  name = [];
  requires_body = false;
  inspects_response = none;
  inspect = λ r. a;
}

abbrev stopping : Verdict
stopping = record no_verdict { action = block; severity = severity_low; score = pos 5 }

abbrev noting : Verdict
noting = record no_verdict { severity = severity_high; score = pos 2 }

abbrev three_engines : Set
three_engines =
    answering (verdict noting) ∷ answering (failed (message [])) ∷ answering (verdict stopping) ∷ []

abbrev a_request : Request
a_request = record {
  direction = direction_request;
  host = [];
  path = [];
  method = [];
  content_type = [];
  source_ip = [];
  body = [];
  headers = [];
}

abbrev all_engines : SecurityEngine → Bool
all_engines e = true

abbrev never_done : Readings
never_done n = false

abbrev joined : Verdict
joined = record stopping { score = pos 7 }

three_run : inspect three_engines a_request never_done all_engines ≡ some (joined, message [] ∷ [])
unfolding inspect inspect_loop worse add_score
three_run = refl

inspect_blocks_example :
    blocking joined.action ≡ any (λ e. blocks (verdict_of all_engines a_request e)) three_engines
inspect_blocks_example =
    inspect_blocks three_engines a_request never_done all_engines joined (message [] ∷ [])
      (λ n. refl) three_run

inspect_most_severe_example :
    All (λ e. IsWithin (rank joined.severity) (verdict_of all_engines a_request e)) three_engines
inspect_most_severe_example =
    inspect_most_severe three_engines a_request never_done all_engines joined (message [] ∷ [])
      (λ n. refl) three_run

inspect_score_example : joined.score ≡ pos (positive_sum all_engines a_request three_engines)
inspect_score_example =
    inspect_score three_engines a_request never_done all_engines joined (message [] ∷ [])
      (λ n. refl) three_run (omega arith)
