-- ===== src/Pipeline/Attribution.antt =====
-- Which finding the running decision is attributed to (internal/pipeline/pipeline.go).
use elchi_shield.Prelude.{
  ℕ, ◌≤◌, Bool, true, false, ◌≡◌, ◌≢◌, refl, ◌⊎◌, inl, inr, List, [], ◌∷◌, ◌++◌, Option, none, some,
  All, Any, Bool-cases, if◌then◌else◌, arith, ◌∙◌, ltb,
}
use elchi_shield.Strings.{Text, is_empty}
use elchi_shield.Decision.{Action, block, detect, shadow, Decision, is_block, rank, allowed}
use elchi_shield.Engine.{Readings}
use elchi_shield.Transaction.{Transaction}
use elchi_shield.Pipeline.{
  Stage, StageAction, action_continue, action_allow, action_deny, action_shadow_detect,
  action_skip_body, action_skip_remaining, action_error, Pipeline, Context, run_stage, attribute,
  set_action, status_or_default, record_finding, apply_deny, denied, flow, flow_action,
  policy_blocks, policy_shadows, policy_fails_open, fail_posture, run,
}
use elchi_shield.Pipeline.Loop.{Continues, Keeps, run_stages_rule}

-- The decision has the finding's attribution, as a unit.
pub record IsFrom (d f : Decision) : Type 0 where
  pub reason : d.reason ≡ f.reason
  pub rule_id : d.rule_id ≡ f.rule_id
  pub engine : d.engine ≡ f.engine
  pub severity : d.severity ≡ f.severity

-- Without findings the decision gives no reason. With findings it has the attribution of one of them,
-- and none is more severe.
abbrev pub IsAttributed : List Decision → Decision → Type 0
IsAttributed fs d =
    ((fs ≡ []) × (d.reason ≡ []))
    ⊎ ((d.reason ≢ []) × Any (IsFrom d) fs × All (λ f. rank f.severity ≤ rank d.severity) fs)

-- A stage that leaves the findings to the executor, does not allow by itself, and whose decisions
-- are blocks with a reason.
pub record IsPlain (s : Stage) : Type 0 where
  pub findings : (r : Readings) (tx : Transaction) → (run_stage r s tx).0.findings ≡ tx.findings
  pub never_allows : (r : Readings) (tx : Transaction) → (run_stage r s tx).1.action ≢ action_allow
  pub decisions :
      (r : Readings) (tx : Transaction) (d : Decision)
      → (run_stage r s tx).1.decision ≡ some d
      → (d.reason ≢ []) × (d.action ≡ block)
  pub decided :
      (r : Readings) (tx : Transaction)
      → (run_stage r s tx).1.decision ≡ none
      → ((run_stage r s tx).1.action ≢ action_deny)
        × ((run_stage r s tx).1.action ≢ action_shadow_detect)

module _ (P : Decision → Type 0) where
  Any-append : (fs : List Decision) (f : Decision) → Any P fs → Any P (fs ++ (f ∷ []))
  Any-append [] f h = absurd h
  Any-append (g ∷ fs) f (inl p) = inl p
  Any-append (g ∷ fs) f (inr a) = inr (Any-append fs f a)

  Any-last : (fs : List Decision) (f : Decision) → P f → Any P (fs ++ (f ∷ []))
  Any-last [] f p = inl p
  Any-last (g ∷ fs) f p = inr (Any-last fs f p)

  All-snoc : (fs : List Decision) (f : Decision) → All P fs → P f → All P (fs ++ (f ∷ []))
  All-snoc [] f h p = (p, tt)
  All-snoc (g ∷ fs) f (q, h) p = (q, All-snoc fs f h p)

All-weaken :
    (m n : ℕ) (fs : List Decision)
    → m ≤ n
    → All (λ f. rank f.severity ≤ m) fs
    → All (λ f. rank f.severity ≤ n) fs
All-weaken m n [] le h = tt
All-weaken m n (f ∷ fs) le (p, h) = (omega (arith, p, le), All-weaken m n fs le h)

IsFrom-trans : {d e f : Decision} → IsFrom d e → IsFrom e f → IsFrom d f
IsFrom-trans p q = record {
  reason = p.reason ∙ q.reason;
  rule_id = p.rule_id ∙ q.rule_id;
  engine = p.engine ∙ q.engine;
  severity = p.severity ∙ q.severity;
}

Any-same :
    (d e : Decision) (fs : List Decision) → IsFrom e d → Any (IsFrom d) fs → Any (IsFrom e) fs
Any-same d e [] same h = absurd h
Any-same d e (f ∷ fs) same (inl p) = inl (IsFrom-trans same p)
Any-same d e (f ∷ fs) same (inr a) = inr (Any-same d e fs same a)

is_empty_ne : (s : Text) → s ≢ [] → is_empty s ≡ false
is_empty_ne [] h = absurd (h refl)
is_empty_ne (c ∷ s) h = refl

set_action-IsFrom : (d : Decision) (mode : Action) → IsFrom (set_action d mode) d
set_action-IsFrom d mode = record {
  reason = ground arith;
  rule_id = ground arith;
  engine = ground arith;
  severity = ground arith;
}

set_action-IsAttributed :
    (fs : List Decision) (d : Decision) (mode : Action)
    → IsAttributed fs d
    → IsAttributed fs (set_action d mode)
set_action-IsAttributed fs d mode (inl (e, blank)) =
    inl (e, (set_action-IsFrom d mode).reason ∙ blank)
set_action-IsAttributed fs d mode (inr (has, one, most)) =
    let same = set_action-IsFrom d mode in
    inr (rw same.reason has, Any-same d _ fs same one, rw same.severity most)

attribute_first : (d f : Decision) → d.reason ≡ [] → IsFrom (attribute d f) f
unfolding attribute
attribute_first d f e =
    rw e (record { reason = refl; rule_id = refl; engine = refl; severity = refl })

attribute_higher :
    (d f : Decision) → ltb (rank d.severity) (rank f.severity) ≡ true → IsFrom (attribute d f) f
unfolding attribute
attribute_higher d f e = record {
  reason = ground arith;
  rule_id = ground arith;
  engine = ground arith;
  severity = ground arith;
}

attribute_kept :
    (d f : Decision)
    → d.reason ≢ []
    → ltb (rank d.severity) (rank f.severity) ≡ false
    → attribute d f ≡ d
unfolding attribute
attribute_kept d f has e = rw (is_empty_ne d.reason has, e)

-- The attribution after one more finding.
attribute-IsAttributed :
    (fs : List Decision) (d f g : Decision)
    → IsFrom f g
    → f.reason ≢ []
    → IsAttributed fs d
    → IsAttributed (fs ++ (g ∷ [])) (attribute d f)
attribute-IsAttributed fs d f g same why (inl (e, blank)) =
    let from = attribute_first d f blank in
    inr (
      rw from.reason why,
      Any-last _ fs g (IsFrom-trans from same),
      rw e (ground (arith, from.severity, same.severity), tt),
    )
attribute-IsAttributed fs d f g same why (inr (has, one, most)) =
    elim (Bool-cases (ltb (rank d.severity) (rank f.severity))) [
      | inl up ↦
          let from = attribute_higher d f up in
          inr (
            rw from.reason why,
            Any-last _ fs g (IsFrom-trans from same),
            rw from.severity (
                All-snoc _ fs g (All-weaken _ _ fs (ground arith) most)
                  (ground (arith, same.severity))),
          )
      | inr keep ↦
          rw (attribute_kept d f has keep)
            (inr (has, Any-append _ fs g one, All-snoc _ fs g most (ground (arith, same.severity))))
    ]

abbrev Attributed : Transaction → Decision → Type 0
Attributed tx d = IsAttributed tx.findings d

abbrev AllowedAttributed : Transaction → Decision → Type 0
AllowedAttributed tx d = is_block d ≡ false → IsAttributed tx.findings d

record_Attributed :
    (tx : Transaction) (d final : Decision) (mode : Action)
    → d.reason ≢ []
    → Attributed tx final
    → Attributed (record_finding tx (some d) final mode).0 (record_finding tx (some d) final mode).1
unfolding record_finding
record_Attributed tx d final mode why h =
    attribute-IsAttributed tx.findings (set_action final mode) d (record d { action = mode })
      (record { reason = refl; rule_id = refl; engine = refl; severity = refl }) why
      (set_action-IsAttributed tx.findings final mode h)

status-block : (d : Decision) → d.action ≡ block → is_block (status_or_default d) ≡ true
status-block d e = ground arith

deny_Attributed :
    (tx : Transaction) (d final : Decision)
    → d.reason ≢ []
    → d.action ≡ block
    → Attributed tx final
    → Continues Attributed AllowedAttributed (denied (apply_deny tx (some d) final))
deny_Attributed tx d final why blk h = elim (Bool-cases (policy_blocks tx.policy)) [
  | inl on ↦ unfold apply_deny in rw on (λ b. absurd (ground (arith, status-block d blk)))
  | inr off ↦
      unfold apply_deny in
      rw off
        (record_Attributed tx d final (if policy_shadows tx.policy then shadow else detect) why h)
]

fail_Attributed :
    (tx : Transaction) (final : Decision) (late : Bool)
    → Attributed tx final
    → AllowedAttributed tx (fail_posture tx final late)
fail_Attributed tx final late h = λ b. elim (Bool-cases (policy_fails_open tx.policy)) [
  | inl open_posture ↦ unfold fail_posture in rw open_posture h
  | inr closed ↦ absurd (unfold fail_posture in ground arith)
]

flow_Attributed :
    (a : StageAction) (d : Option Decision) (tx : Transaction) (final : Decision)
    → a ≢ action_allow
    → ((e : Decision) → d ≡ some e → (e.reason ≢ []) × (e.action ≡ block))
    → (d ≡ none → (a ≢ action_deny) × (a ≢ action_shadow_detect))
    → Attributed tx final
    → Continues Attributed AllowedAttributed (flow_action a d tx final)
unfolding flow_action
flow_Attributed action_continue d tx final never given has h = h
flow_Attributed action_allow d tx final never given has h = absurd (never refl)
flow_Attributed action_deny none tx final never given has h = absurd ((has refl).0 refl)
flow_Attributed action_deny (some d) tx final never given has h =
    deny_Attributed tx d final (given d refl).0 (given d refl).1 h
flow_Attributed action_shadow_detect none tx final never given has h = absurd ((has refl).1 refl)
flow_Attributed action_shadow_detect (some d) tx final never given has h =
    record_Attributed tx d final shadow (given d refl).0 h
flow_Attributed action_skip_body d tx final never given has h = h
flow_Attributed action_skip_remaining d tx final never given has h = λ b. h
flow_Attributed action_error d tx final never given has h = fail_Attributed tx final false h

All-Keeps : (ss : List Stage) → All IsPlain ss → All (Keeps Attributed AllowedAttributed) ss
All-Keeps [] h = tt
All-Keeps (s ∷ ss) (h, hs) = (
  (λ r tx final i.
      unfold flow in
      flow_Attributed _ _ _ final (h.never_allows r tx) (h.decisions r tx) (h.decided r tx)
        (rw (h.findings r tx) i)),
  All-Keeps ss hs,
)

-- A run of plain stages that does not end in a block reports the reason, rule, engine and severity of
-- one of its findings, as a unit, and no finding of the run is more severe; without findings it
-- gives no reason.
pub run-IsAttributed :
    (ctx : Context) (p : Pipeline) (tx : Transaction)
    → All IsPlain p.stages
    → is_block (run ctx p tx).1 ≡ false
    → IsAttributed (run ctx p tx).0.findings (run ctx p tx).1
unfolding run allowed
run-IsAttributed ctx p tx plain =
    run_stages_rule Attributed AllowedAttributed (λ t d i. i) (λ t d i b. i)
      (λ t d i. fail_Attributed t d true i) ctx p.stages _ _ (All-Keeps p.stages plain)
      (inl (refl, refl))
