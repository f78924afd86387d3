-- ===== src/Stages/Built.antt =====
-- A rule for every pipeline of a policy (internal/pipeline/stages/catalog.go).
use elchi_shield.Prelude.{
  List, [], ◌∷◌, ◌++◌, Option, none, some, All, if_rule, Option-cases, inl, inr, subst,
}
use elchi_shield.Strings.{Text, lit, text_eq}
use elchi_shield.Policy.{CompiledPolicy}
use elchi_shield.Pipeline.{Stage}
use elchi_shield.Stages.Env.{Env}
use elchi_shield.Stages.Catalog.{
  fast_pre_checks_stage, body_gate_stage, body_guard_stage, body_decode_stage, body_checks_stage,
  waf_engine_stage, waf_header_stage, inspector, is_pre_check, put_stage, partition, split, paired,
  PolicyPipelines, build_policy_pipelines,
}

-- A property of the stages that a policy's pipelines are made of.
pub record Holds (Q : Stage → Type 0) (env : Env) : Type 0 where
  pub fast_pre_checks : Q fast_pre_checks_stage
  pub body_gate : Q body_gate_stage
  pub body_guard : Q body_guard_stage
  pub body_decode : Q (body_decode_stage env)
  pub body_checks : Q (body_checks_stage env)
  pub waf : Q waf_engine_stage
  pub waf_header : Q waf_header_stage

module _ (Q : Stage → Type 0) where
  All-append : (ss ts : List Stage) → All Q ss → All Q ts → All Q (ss ++ ts)
  All-append [] ts h k = k
  All-append (s ∷ ss) ts (h, hs) k = (h, All-append ss ts hs k)

  -- Both lists of a policy's pipeline, if it is built.
  abbrev BothHold : Option (List Stage × List Stage) → Type 0
  BothHold none = Unit
  BothHold (some (header, body)) = All Q header × All Q body

  put-Both :
      (st : Stage) (hb : List Stage × List Stage)
      → Q st
      → BothHold (some hb)
      → BothHold (some (put_stage st hb))
  put-Both st (header, body) h (hs, bs) =
      if_rule (λ (hb : List Stage × List Stage). BothHold (some hb)) (is_pre_check st.phase)
        (λ i. ((h, hs), bs)) (λ i. (hs, (h, bs)))

  abbrev OneHolds : Option Stage → Type 0
  OneHolds none = Unit
  OneHolds (some st) = Q st

  inspector_rule : (env : Env) → Holds Q env → (name : Text) → OneHolds (inspector env name)
  unfolding inspector
  inspector_rule env facts name =
      if_rule OneHolds (text_eq name (lit "fast_pre_checks")) (λ h. facts.fast_pre_checks)
        λ h.
          if_rule OneHolds (text_eq name (lit "body_checks")) (λ h. facts.body_checks)
            λ h. if_rule OneHolds (text_eq name (lit "waf_engine")) (λ h. facts.waf) λ h. tt

  placed :
      (hb : List Stage × List Stage) (o : Option Stage)
      → OneHolds o
      → BothHold (some hb)
      → BothHold (elim o [ none ↦ none | some st ↦ some (put_stage st hb) ])
  placed hb none one both = tt
  placed hb (some st) one both = put-Both st hb one both

  partition-Both : (env : Env) → Holds Q env → (names : List Text) → BothHold (partition env names)
  unfolding partition
  partition-Both env facts [] = (tt, tt)
  partition-Both env facts (name ∷ names) =
      let ih = partition-Both env facts names in
      elim (Option-cases (partition env names)) [
        | inl bad ↦ rw (bad, partition) tt
        | inr ((header, body), good) ↦
            let both : BothHold (some (header, body)) = subst BothHold good ih in
            rw (good, partition)
              (if_rule BothHold (text_eq name (lit "waf_engine"))
                (λ h. ((facts.waf_header, both.0), (facts.waf, both.1)))
                (λ h.
                  placed (header, body) (inspector env name) (inspector_rule env facts name) both))
      ]

  split-Both : (env : Env) → Holds Q env → (names : List Text) → BothHold (split env names)
  unfolding split
  split-Both env facts names =
      let ih = partition-Both env facts names in
      elim (Option-cases (partition env names)) [
        | inl bad ↦ rw (bad, split) tt
        | inr ((header, body), good) ↦
            let both : BothHold (some (header, body)) = subst BothHold good ih in
            rw (good, split)
              (
                All-append header (body_gate_stage ∷ []) both.0 (facts.body_gate, tt),
                (facts.body_guard, (facts.body_decode, both.1)),
              )
      ]

  -- The four pipelines of a policy.
  pub record PolicyHolds (pp : PolicyPipelines) : Type 0 where
    pub request_header : All Q pp.request_header
    pub request_body : All Q pp.request_body
    pub response_header : All Q pp.response_header
    pub response_body : All Q pp.response_body

  abbrev pub BuiltHolds : Option PolicyPipelines → Type 0
  BuiltHolds none = Unit
  BuiltHolds (some pp) = PolicyHolds pp

  paired-Built :
      (q r : Option (List Stage × List Stage)) → BothHold q → BothHold r → BuiltHolds (paired q r)
  paired-Built (some (qh, qb)) (some (ph, pb)) (a, b) (c, d) = record {
    request_header = a;
    request_body = b;
    response_header = c;
    response_body = d;
  }
  paired-Built none r h k = tt
  paired-Built (some q) none h k = tt

  pub build_rule :
      (env : Env) → Holds Q env → (p : CompiledPolicy) → BuiltHolds (build_policy_pipelines env p)
  unfolding build_policy_pipelines
  build_rule env facts p = paired-Built _ _ (split-Both env facts _) (split-Both env facts _)
