-- ===== src/ExtProc/Recording.antt =====
-- internal/server/extproc/processor.go: what is recorded of a decision.
use elchi_shield.Prelude.{
  Bool, true, false, ◌&&◌, List, [], ◌∷◌, Option, none, some, ◌==◌, not, length, if◌then◌else◌,
}
use elchi_shield.Strings.{Text, lit, is_empty, before}
use elchi_shield.Decision.{
  Action, continue, allow, block, Decision, severity_none, default_block_status, allowed,
}
use elchi_shield.Transaction.{Transaction, Snapshot, policy_id}
use elchi_shield.Pipeline.{policy_fails_open}
use elchi_shield.ExtProc.Session.{
  Event, decided, body_bytes, phase_findings, audited, extproc_error, Session, Processor, Ambient,
  emit,
}

-- The parts of a text before and after its first "::", by `indexDoubleColon`.
unfoldable pub cut_double_colon : Text → Option (Text × Text)
cut_double_colon [] = none
cut_double_colon (c ∷ []) = none
cut_double_colon (c ∷ d ∷ s) =
    let rest : Option (Text × Text) = elim (cut_double_colon (d ∷ s)) [
      | none ↦ none
      | some (a, b) ↦ some (c ∷ a, b)
    ] in
    if c == b':' && d == b':' then some ([], s) else rest

-- `parseNodeID`: the listener, the project and the address of `listener::project::ip`.
unfoldable pub parse_node_id : Text → Text × Text × Text
parse_node_id s = elim (cut_double_colon s) [
  | none ↦ ([], [], [])
  | some (listener, rest) ↦ elim (cut_double_colon rest) [
    | none ↦ (listener, rest, [])
    | some (project, ip) ↦ (listener, project, ip)
  ]
]

-- `stripQuery`.
unfoldable pub strip_query : Text → Text
strip_query path = before path b'?'

abbrev version_of : Option Snapshot → Text
version_of none = []
version_of (some s) = s.version

abbrev or_text : Text → Text → Text
or_text [] b = b
or_text (c ∷ a) b = c ∷ a

-- The event of `emitEvent`.
unfoldable pub event_of : Processor → Transaction → Text → Decision → Event
event_of pr tx phase d =
    let (listener, project, ip) = parse_node_id tx.node_id in
    record {
      instance = pr.instance_id;
      node_id = or_text tx.node_id tx.listener_id;
      project_id = project;
      listener = or_text listener tx.listener_id;
      request_id = tx.request_id;
      phase = phase;
      direction = tx.direction;
      decision = d;
      host = tx.host;
      path = strip_query tx.path;
      method = tx.method;
      config_version = version_of tx.snapshot;
    }

-- The loop of `emitAudit` over the findings.
unfoldable pub emit_findings : Processor → Text → List Decision → Session → Session
emit_findings pr phase [] s = s
emit_findings pr phase (f ∷ fs) s =
    emit_findings pr phase fs (emit s (audited (event_of pr s.tx phase f)))

abbrev pub is_finding : Action → Bool
is_finding allow = false
is_finding continue = false
is_finding _ = true

-- `emitAudit`.
unfoldable pub emit_audit : Processor → Ambient → Decision → Text → Session → Session
emit_audit pr amb d phase s =
    if not pr.auditing
    then s
    else if not (is_empty s.tx.findings)
    then emit_findings pr phase s.tx.findings s
    else if is_finding d.action
    then emit s (audited (event_of pr s.tx phase d))
    else if amb.sampled
    then emit s (audited (event_of pr s.tx phase d))
    else s

-- The phases of a transaction. `finish` settles the request in those whose name begins with
-- "request".
pub data FilterPhase : Type 0 where
  at_request_headers at_request_body at_response_headers at_response_body : FilterPhase

unfoldable pub phase_name : FilterPhase → Text
phase_name at_request_headers = lit "request_headers"
phase_name at_request_body = lit "request_body"
phase_name at_response_headers = lit "response_headers"
phase_name at_response_body = lit "response_body"

abbrev pub settle : FilterPhase → Transaction → Transaction
settle at_request_headers tx = record tx { request_settled = true }
settle at_request_body tx = record tx { request_settled = true }
settle _ tx = tx

-- `finish`.
unfoldable pub finish : Processor → Ambient → Decision → FilterPhase → Session → Session
finish pr amb d phase s =
    let settled = record s { tx = settle phase s.tx } in
    let logged = emit settled (decided (phase_name phase) d) in
    let counted =
      if logged.tx.body_required
      then emit logged (body_bytes (length logged.tx.body))
      else logged in
    emit_audit pr amb d (phase_name phase) counted

-- `emitPhaseFindings`.
unfoldable pub emit_phase_findings :
    Processor → Ambient → Decision → FilterPhase → Session → Session
emit_phase_findings pr amb d phase s =
    emit_audit pr amb d (phase_name phase) (emit s (phase_findings d))

unfoldable pub build_failed : Text → Decision
build_failed policy = record {
  action = block;
  reason = lit "pipeline_build_failed";
  rule_id = [];
  policy_id = policy;
  engine = [];
  severity = severity_none;
  status_code = default_block_status;
}

-- `failBuildDecision`.
unfoldable pub fail_build_decision :
    Processor → Ambient → FilterPhase → Session → Decision × Session
fail_build_decision pr amb phase s =
    let counted = emit s (extproc_error (lit "build")) in
    let d =
      if policy_fails_open s.tx.policy
      then allowed (policy_id s.tx)
      else build_failed (policy_id s.tx) in
    (d, finish pr amb d phase counted)
