-- ===== src/ExtProc/Processor.antt =====
-- internal/server/extproc/processor.go: the handlers of a stream, one for each message, and the
-- stream itself.
use elchi_shield.Prelude.{
  Bool, true, false, ◌&&◌, ◌||◌, List, [], ◌∷◌, Option, none, some, not, if◌then◌else◌,
}
use elchi_shield.Strings.{Text, lit, is_empty}
use elchi_shield.Decision.{Action, detect, shadow, Decision, is_block}
use elchi_shield.Engine.{direction_request, direction_response}
use elchi_shield.Policy.{CompiledPolicy, is_enforcing, mutates_body}
use elchi_shield.Transaction.{Transaction, Snapshot, header, begin_response, fresh}
use elchi_shield.Stages.Catalog.{request_prelude, response_prelude, build_policy_pipelines}
use elchi_shield.ExtProc.Budget.{BodyBudget}
use elchi_shield.ExtProc.Session.{
  RawHeader, Message, Response, immediate_response, removed_headers, mode_buffer_response_body,
  request_headers_continue, request_body_continue, request_trailers_continue,
  response_headers_continue, response_body_continue, response_trailers_continue,
  request_body_mutation, response_body_mutation, body_mutation, Session, Processor, Ambient, emit,
}
use elchi_shield.ExtProc.Recording.{
  FilterPhase, at_request_headers, at_response_headers, finish, emit_phase_findings,
  fail_build_decision,
}
use elchi_shield.ExtProc.Bodies.{
  load_headers, request_mode, released, buffer_body, run_inspect, run_prelude, decided_by,
  inspect_buffered_body,
}

-- The block of a decision, or else the given response.
abbrev pub block_or : Response → Option Decision × Session → Response × Session
block_or r (none, s) = (r, s)
block_or r (some d, s) = if is_block d then (immediate_response d, s) else (r, s)

abbrev pub is_recorded : Action → Bool
is_recorded detect = true
is_recorded shadow = true
is_recorded _ = false

-- The end of a headers handler once the inspection of the headers has not blocked: a body phase may
-- follow. `buffer` asks for the body, and `done` is the answer when no body will come.
unfoldable pub after_headers :
    Processor
    → Ambient
    → FilterPhase
    → Bool
    → Response
    → Response
    → Decision × Session
    → Response × Session
after_headers pr amb phase end_of_stream buffer done (d, s) =
    let emitted = if is_recorded d.action then emit_phase_findings pr amb d phase s else s in
    let ended = block_or done (inspect_buffered_body pr amb emitted) in
    let terminal = finish pr amb d phase s in
    if is_block d
    then (immediate_response d, terminal)
    else if s.tx.body_required || s.tx.waf_enabled
    then (if end_of_stream then ended else (buffer, emitted))
    else (done, terminal)

-- `failBuild` in a headers phase.
abbrev pub fail_build : Processor → Ambient → FilterPhase → Response → Session → Response × Session
fail_build pr amb phase cont s = block_or cont (decided_by (fail_build_decision pr amb phase s))

-- `onRequestHeaders` behind the prelude.
unfoldable pub after_request_prelude :
    Processor → Ambient → Bool → Decision × Session → Response × Session
after_request_prelude pr amb end_of_stream (d, s) =
    let settled = finish pr amb d at_request_headers s in
    let allowed : Response × Session =
      (request_headers_continue (request_mode s.tx.policy false), settled) in
    let inspected = λ (p : CompiledPolicy).
      let out : Response × Session = elim (build_policy_pipelines pr.env p) [
        | none ↦ fail_build pr amb at_request_headers (request_headers_continue none) s
        | some pp ↦
            after_headers pr amb at_request_headers end_of_stream
              (request_headers_continue (request_mode s.tx.policy true))
              (request_headers_continue (request_mode s.tx.policy false))
              (run_inspect amb 1 pp.request_header s)
      ] in
      out in
    if is_block d then (immediate_response d, settled) else elim s.tx.policy [
      | none ↦ allowed
      | some p ↦ if is_enforcing p then inspected p else allowed
    ]

-- The request id: Envoy's, else the one that is there, else a new one.
unfoldable pub adopt_request_id : Ambient → Transaction → Transaction
adopt_request_id amb tx =
    let minted =
      if is_empty tx.request_id then record tx { request_id = amb.new_request_id } else tx in
    elim (header tx (lit "x-request-id")) [
      | none ↦ minted
      | some rid ↦ if is_empty rid then minted else record tx { request_id = rid }
    ]

-- `onRequestHeaders`.
unfoldable pub on_request_headers :
    Processor → Ambient → List RawHeader → Bool → Session → Response × Session
on_request_headers pr amb headers end_of_stream s =
    let loaded = record s.tx { direction = direction_request; headers = load_headers headers } in
    let begun = record s { tx = adopt_request_id amb loaded } in
    if s.tx.request_settled
    then (request_headers_continue none, s)
    else after_request_prelude pr amb end_of_stream (run_prelude amb (request_prelude pr.env) begun)

-- A chunk that arrives after the inspection opens it again.
unfoldable pub reopen : Text → Session → Session
reopen chunk s =
    if not (is_empty chunk) && s.tx.body_inspected
    then record s { tx = record s.tx { body_inspected = false } }
    else s

-- The answer to a body that has been inspected: a block, the mutated body, or the given response.
abbrev pub body_answer :
    (Text → List Text → Response) → Response → Option Decision × Session → Response × Session
body_answer mutation cont (d, s) =
    let forwarded : Response × Session =
      if s.tx.body_mutated
      then (mutation s.tx.body removed_headers, emit s body_mutation)
      else (cont, s) in
    elim d [
      | none ↦ forwarded
      | some e ↦ if is_block e then (immediate_response e, s) else forwarded
    ]

-- `onRequestBody`.
unfoldable pub on_request_body : Processor → Ambient → Text → Bool → Session → Response × Session
on_request_body pr amb chunk end_of_stream s = elim s.tx.policy [
  | none ↦ (request_body_continue, s)
  | some p ↦
      let buffered = buffer_body pr direction_request chunk (reopen chunk s) in
      if not end_of_stream && not (mutates_body (some p) false)
      then (request_body_continue, buffered)
      else body_answer request_body_mutation request_body_continue
          (inspect_buffered_body pr amb buffered)
]

-- `onRequestTrailers`.
unfoldable pub on_request_trailers : Processor → Ambient → Session → Response × Session
on_request_trailers pr amb s = block_or request_trailers_continue (inspect_buffered_body pr amb s)

-- `onResponseHeaders` behind the prelude.
unfoldable pub after_response_prelude :
    Processor → Ambient → Bool → Decision × Session → Response × Session
after_response_prelude pr amb end_of_stream (d, s) =
    let allowed : Response × Session =
      (response_headers_continue none, finish pr amb d at_response_headers s) in
    elim s.tx.policy [
      | none ↦ allowed
      | some p ↦
          let inspected : Response × Session = elim (build_policy_pipelines pr.env p) [
            | none ↦ fail_build pr amb at_response_headers (response_headers_continue none) s
            | some pp ↦
                after_headers pr amb at_response_headers end_of_stream
                  (response_headers_continue (some mode_buffer_response_body))
                  (response_headers_continue none) (run_inspect amb 1 pp.response_header s)
          ] in
          if is_enforcing p then inspected else allowed
    ]

-- `onResponseHeaders`.
unfoldable pub on_response_headers :
    Processor → Ambient → List RawHeader → Bool → Session → Response × Session
on_response_headers pr amb headers end_of_stream s =
    let tx = record (begin_response s.tx) { headers = load_headers headers } in
    after_response_prelude pr amb end_of_stream
      (run_prelude amb (response_prelude pr.env) (record s { tx = tx }))

-- `onResponseBody`.
unfoldable pub on_response_body : Processor → Ambient → Text → Bool → Session → Response × Session
on_response_body pr amb chunk end_of_stream s = elim s.tx.policy [
  | none ↦ (response_body_continue, s)
  | some p ↦
      let buffered = buffer_body pr direction_response chunk (reopen chunk s) in
      if not end_of_stream && not (mutates_body (some p) true)
      then (response_body_continue, buffered)
      else body_answer response_body_mutation response_body_continue
          (inspect_buffered_body pr amb buffered)
]

-- `onResponseTrailers`.
unfoldable pub on_response_trailers : Processor → Ambient → Session → Response × Session
on_response_trailers pr amb s = block_or response_trailers_continue (inspect_buffered_body pr amb s)

abbrev pub answered : Response × Session → Option Response × Session
answered (r, s) = (some r, s)

-- `handle`.
unfoldable pub handle : Processor → Ambient → Message → Session → Option Response × Session
handle pr amb (Message.request_headers attribute headers eos) s =
    answered (
      on_request_headers pr amb headers eos (record s { tx = record s.tx { node_id = attribute } }))
handle pr amb (Message.request_body chunk eos) s = answered (on_request_body pr amb chunk eos s)
handle pr amb Message.request_trailers s = answered (on_request_trailers pr amb s)
handle pr amb (Message.response_headers headers eos) s =
    answered (on_response_headers pr amb headers eos s)
handle pr amb (Message.response_body chunk eos) s = answered (on_response_body pr amb chunk eos s)
handle pr amb Message.response_trailers s = answered (on_response_trailers pr amb s)
handle pr amb Message.unknown s = (none, s)

-- The loop of `Process` over the messages of a stream: the session at its end.
unfoldable pub serve : Processor → List (Ambient × Message) → Session → Session
serve pr [] s = s
serve pr ((amb, m) ∷ ms) s = serve pr ms (handle pr amb m s).1

-- The session with which `Process` begins, on the shared budget and the pinned snapshot.
unfoldable pub open_stream : Processor → Snapshot → BodyBudget → Session
open_stream pr snap budget = record {
  tx = record fresh { budget = some budget; snapshot = some snap; listener_id = pr.listener_id };
  effects = [];
}

-- `Process`: the shared budget once the stream has ended and its reservation is released.
unfoldable pub process :
    Processor → Snapshot → BodyBudget → List (Ambient × Message) → Option BodyBudget
process pr snap budget ms =
    let s = serve pr ms (open_stream pr snap budget) in released s.tx.budget s.tx.body_reserved
