-- ===== src/ExtProc/Truncation.antt =====
-- A body that was not buffered whole (internal/server/extproc/processor.go and
-- internal/pipeline/stages/catalog.go).
use elchi_shield.Prelude.{
  Bool, true, false, ◌≡◌, refl, List, [], ◌∷◌, ◌++◌, Option, none, some, option_rule, ap, ◌∙◌,
  subst, sym,
}
use elchi_shield.Strings.{Text, lit}
use elchi_shield.Decision.{Decision, block, allowed}
use elchi_shield.Engine.{Direction, direction_request, direction_response}
use elchi_shield.Policy.{CompiledPolicy, Mode, mode_block}
use elchi_shield.Transaction.{Transaction}
use elchi_shield.Pipeline.{Stage, Context, gated, run_stage, flow, run_stages, run}
use elchi_shield.Stages.Env.{Env}
use elchi_shield.Stages.PreCheck.{deny_engine}
use elchi_shield.Stages.Body.{body_truncation_guard, too_large}
use elchi_shield.Stages.Catalog.{
  body_gate_stage, partition, body_guard_stage, body_decode_stage, split, paired, PolicyPipelines,
  build_policy_pipelines,
}
use elchi_shield.ExtProc.Session.{Session, Processor, Ambient}
use elchi_shield.ExtProc.Bodies.{inspect_now, inspect_buffered_body, run_inspect, body_stages}

-- The stages that begin with the guard and the decoder.
abbrev pub IsGuarded : Env → List Stage → Type 0
IsGuarded env b = (rest : List Stage) × (b ≡ body_guard_stage ∷ body_decode_stage env ∷ rest)

abbrev SplitGuarded : Env → Option (List Stage × List Stage) → Type 0
SplitGuarded env none = Unit
SplitGuarded env (some (header, body)) = IsGuarded env body

split_guarded : (env : Env) (order : List Text) → SplitGuarded env (split env order)
unfolding split
split_guarded env order =
    option_rule (SplitGuarded env) (partition env order) {x = none}
      {f = λ hb.
        some (hb.0 ++ (body_gate_stage ∷ []), body_guard_stage ∷ body_decode_stage env ∷ hb.1)}
      (λ h. tt) λ hb h. (hb.1, refl)

abbrev BuiltGuarded : Env → Option PolicyPipelines → Type 0
BuiltGuarded env none = Unit
BuiltGuarded env (some pp) = IsGuarded env pp.request_body × IsGuarded env pp.response_body

paired_guarded :
    (env : Env) (q r : Option (List Stage × List Stage))
    → SplitGuarded env q
    → SplitGuarded env r
    → BuiltGuarded env (paired q r)
paired_guarded env (some (qh, qb)) (some (ph, pb)) h k = (h, k)
paired_guarded env none r h k = tt
paired_guarded env (some q) none h k = tt

build_guarded : (env : Env) (p : CompiledPolicy) → BuiltGuarded env (build_policy_pipelines env p)
unfolding build_policy_pipelines
build_guarded env p = paired_guarded env _ _ (split_guarded env _) (split_guarded env _)

body_stages-IsGuarded :
    (env : Env) (dir : Direction) (pp : PolicyPipelines)
    → BuiltGuarded env (some pp)
    → IsGuarded env (body_stages dir pp)
body_stages-IsGuarded env direction_request pp (q, r) = q
body_stages-IsGuarded env direction_response pp (q, r) = r

-- The block of a body that is too large.
abbrev pub IsTooLarge : Decision → Type 0
IsTooLarge d = (d.action ≡ block) × (d.rule_id ≡ lit "body.too_large")

abbrev cut_off : Transaction → CompiledPolicy → Transaction
cut_off tx p = record tx {
  policy = some (record p { mode = mode_block });
  body_required = true;
  body_truncated = true;
}

guard_blocks :
    (ctx : Context) (rest : List Stage) (tx : Transaction) (p : CompiledPolicy)
    → ctx 0 0 ≡ false
    → IsTooLarge (run ctx (record { name = []; stages = body_guard_stage ∷ rest }) (cut_off tx p)).1
unfolding run run_stages gated run_stage flow body_guard_stage body_truncation_guard too_large
    deny_engine allowed
guard_blocks ctx rest tx p live = rw live (refl, refl)

-- The inspection of a session decides, and its decision is that block.
abbrev pub TurnsAway : Processor → Ambient → Session → Type 0
TurnsAway pr amb s = (d : Decision) × ((inspect_buffered_body pr amb s).0 ≡ some d) × IsTooLarge d

abbrev at_cut : Session → CompiledPolicy → Session
at_cut s p = record s { tx = record (cut_off s.tx p) { body_inspected = false } }

cut_off_blocks :
    (pr : Processor) (amb : Ambient) (s : Session) (p : CompiledPolicy) (pp : PolicyPipelines)
    → build_policy_pipelines pr.env (record p { mode = mode_block }) ≡ some pp
    → amb.clock 2 p.timeout 0 0 ≡ false
    → TurnsAway pr amb (at_cut s p)
unfolding inspect_buffered_body inspect_now run_inspect
cut_off_blocks pr amb s p pp built live =
    let starts =
      subst (BuiltGuarded pr.env) built (build_guarded pr.env (record p { mode = mode_block })) in
    let (rest, b) = body_stages-IsGuarded pr.env s.tx.direction pp starts in
    rw (built, inspect_now, inspect_buffered_body)
      (let latched = record (cut_off s.tx p) { body_inspected = true } in
        let d =
          (run (amb.clock 2 p.timeout)
            (record { name = []; stages = body_stages s.tx.direction pp }) latched).1 in
        let too_large : IsTooLarge d = rw b (
          guard_blocks (amb.clock 2 p.timeout) (body_decode_stage pr.env ∷ rest)
            (record s.tx { body_inspected = true }) p live) in
        (d, refl, too_large))

-- A session whose policy blocks and whose body, which it is to inspect, was cut off.
pub record IsCutOff (s : Session) (p : CompiledPolicy) : Type 0 where
  pub policy : s.tx.policy ≡ some p
  pub mode : p.mode ≡ mode_block
  pub required : s.tx.body_required ≡ true
  pub truncated : s.tx.body_truncated ≡ true
  pub inspected : s.tx.body_inspected ≡ false

cut_off_eq : {s : Session} {p : CompiledPolicy} → IsCutOff s p → at_cut s p ≡ s
cut_off_eq {s} {p} h =
    let made = λ (o : Option CompiledPolicy) (a b c : Bool). record s {
      tx = record s.tx { policy = o; body_required = a; body_truncated = b; body_inspected = c };
    } in
    let same : Option.some (record p { mode = mode_block }) ≡ s.tx.policy =
      ap (λ (m : Mode). some (record p { mode = m })) (sym h.mode) ∙ sym h.policy in
    ap (λ (o : Option CompiledPolicy). made o true true false) same
    ∙ ap (λ (a : Bool). made s.tx.policy a true false) (sym h.required)
    ∙ ap (λ (b : Bool). made s.tx.policy s.tx.body_required b false) (sym h.truncated)
    ∙ ap (λ (c : Bool). made s.tx.policy s.tx.body_required s.tx.body_truncated c) (sym h.inspected)

-- A body that was not buffered whole never passes as inspected: under a policy in block mode whose
-- pipelines can be built, its inspection, in either direction and with any stages in the policy's
-- order, blocks with the rule of a body too large, unless the context is done at its start.
pub truncated_blocks :
    (pr : Processor) (amb : Ambient) (s : Session) (p : CompiledPolicy) (pp : PolicyPipelines)
    → IsCutOff s p
    → build_policy_pipelines pr.env p ≡ some pp
    → amb.clock 2 p.timeout 0 0 ≡ false
    → TurnsAway pr amb s
truncated_blocks pr amb s p pp h built live =
    let same : record p { mode = mode_block } ≡ p =
      ap (λ (m : Mode). record p { mode = m }) (sym h.mode) in
    subst (TurnsAway pr amb) (cut_off_eq h)
      (cut_off_blocks pr amb s p pp (ap (build_policy_pipelines pr.env) same ∙ built) live)
