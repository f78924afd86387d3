-- ===== src/ExtProc/Bodies.antt =====
-- internal/server/extproc/processor.go: what the handlers share, and how a body is buffered and
-- inspected.
use elchi_shield.Prelude.{
  ℕ, Bool, true, ◌&&◌, ◌||◌, List, [], ◌∷◌, Option, none, some, ltb, not, length, take,
  if◌then◌else◌,
}
use elchi_shield.Prelude.Int.{ℤ, pos, pos_part, ◌+ℤ◌, ◌-ℤ◌, ltb_ℤ}
use elchi_shield.Strings.{Text, lit, is_empty}
use elchi_shield.Decision.{Decision}
use elchi_shield.Engine.{Direction, direction_request, direction_response, Header}
use elchi_shield.Policy.{CompiledPolicy, is_enforcing, needs_response_inspection}
use elchi_shield.Transaction.{Transaction, append_body}
use elchi_shield.Pipeline.{Stage, run}
use elchi_shield.Stages.Catalog.{PolicyPipelines, build_policy_pipelines}
use elchi_shield.ExtProc.Budget.{BodyBudget, acquire, release}
use elchi_shield.ExtProc.Session.{
  RawHeader, ModeOverride, mode_skip_response, mode_buffer_body, mode_buffer_body_skip_response,
  body_budget_reject, Session, Processor, Ambient, emit,
}
use elchi_shield.ExtProc.Recording.{
  FilterPhase, at_request_body, at_response_body, finish, fail_build_decision,
}

abbrev header_value : RawHeader → Text
header_value h = if is_empty h.value then h.raw_value else h.value

-- `loadHeaders`.
unfoldable pub load_headers : List RawHeader → List Header
load_headers [] = []
load_headers (h ∷ hs) = record { name = h.key; value = header_value h } ∷ load_headers hs

-- `requestMode`.
unfoldable pub request_mode : Option CompiledPolicy → Bool → Option ModeOverride
request_mode p need_body =
    if need_body
    then (if needs_response_inspection p
        then some mode_buffer_body
        else some mode_buffer_body_skip_response)
    else if needs_response_inspection p
    then none
    else some mode_skip_response

abbrev limit_or : ℕ → ℕ → ℕ
limit_or policy fallback = if ltb 0 policy then policy else fallback

-- `bodyLimit`.
unfoldable pub body_limit : Processor → Option CompiledPolicy → Direction → ℕ
body_limit pr none dir = pr.max_body
body_limit pr (some p) direction_request = limit_or p.max_request_body_bytes pr.max_body
body_limit pr (some p) direction_response = limit_or p.max_response_body_bytes pr.max_body

-- `Acquire` and `Release` on a budget that may be nil.
abbrev pub acquired : Option BodyBudget → ℤ → ℤ × Option BodyBudget
acquired none n = (n, none)
acquired (some b) n = let (grant, b') = acquire b n in (grant, some b')

abbrev pub released : Option BodyBudget → ℤ → Option BodyBudget
released none n = none
released (some b) n = some (release b n)

abbrev pub truncated_by : Text → Session → Session
truncated_by reason s =
    emit (record s { tx = record s.tx { body_truncated = true } }) (body_budget_reject reason)

-- The bytes that the budget granted go into the buffer, and what the cap rejects goes back.
unfoldable pub store_granted : Processor → Direction → Text → ℤ → Session → Session
store_granted pr dir chunk grant s =
    let (tx, stored, truncated) =
      append_body s.tx (take (pos_part grant) chunk) (body_limit pr s.tx.policy dir) in
    let charged = record tx { body_reserved = tx.body_reserved +ℤ pos stored } in
    let back =
      if ltb_ℤ (pos stored) grant
      then record charged { budget = released charged.budget (grant -ℤ pos stored) }
      else charged in
    let kept = record s { tx = back } in
    if truncated then truncated_by (lit "per_request_cap") kept else kept

-- `appendBody`.
unfoldable pub buffer_body : Processor → Direction → Text → Session → Session
buffer_body pr dir chunk s =
    let (grant, budget) = acquired s.tx.budget (pos (length chunk)) in
    let paid = record s { tx = record s.tx { budget = budget } } in
    let stored = if ltb_ℤ (pos 0) grant then store_granted pr dir chunk grant paid else paid in
    if is_empty chunk
    then s
    else if ltb_ℤ grant (pos (length chunk))
    then truncated_by (lit "inflight_budget") stored
    else stored

abbrev pub timeout_of : Option CompiledPolicy → ℕ
timeout_of none = 0
timeout_of (some p) = p.timeout

abbrev pub keep : Session → Transaction × Decision → Decision × Session
keep s (tx, d) = (d, record s { tx = tx })

-- `runInspect`, as the n-th pipeline run of the call.
unfoldable pub run_inspect : Ambient → ℕ → List Stage → Session → Decision × Session
run_inspect amb n stages s =
    keep s (run (amb.clock n (timeout_of s.tx.policy)) (record { name = []; stages = stages }) s.tx)

-- A prelude's run, with the stream's own context.
unfoldable pub run_prelude : Ambient → List Stage → Session → Decision × Session
run_prelude amb stages s = keep s (run (amb.clock 0 0) (record { name = []; stages = stages }) s.tx)

abbrev pub body_phase : Direction → FilterPhase
body_phase direction_request = at_request_body
body_phase direction_response = at_response_body

abbrev pub body_stages : Direction → PolicyPipelines → List Stage
body_stages direction_request pp = pp.request_body
body_stages direction_response pp = pp.response_body

abbrev pub decided_by : Decision × Session → Option Decision × Session
decided_by (d, s) = (some d, s)

abbrev pub finished :
    Processor → Ambient → FilterPhase → Decision × Session → Option Decision × Session
finished pr amb phase (d, s) = (some d, finish pr amb d phase s)

-- The inspection of `inspectBufferedBody`, behind its guards.
unfoldable pub inspect_now :
    Processor → Ambient → CompiledPolicy → Session → Option Decision × Session
inspect_now pr amb p s =
    let latched = record s { tx = record s.tx { body_inspected = true } } in
    let phase = body_phase s.tx.direction in
    elim (build_policy_pipelines pr.env p) [
      | none ↦ decided_by (fail_build_decision pr amb phase latched)
      | some pp ↦ finished pr amb phase (run_inspect amb 2 (body_stages s.tx.direction pp) latched)
    ]

-- `inspectBufferedBody`: no decision if there is nothing to inspect.
unfoldable pub inspect_buffered_body : Processor → Ambient → Session → Option Decision × Session
inspect_buffered_body pr amb s = elim s.tx.policy [
  | none ↦ (none, s)
  | some p ↦
      if not (is_enforcing p) || s.tx.body_inspected
      then (none, s)
      else if not s.tx.body_required && not s.tx.waf_enabled
      then (none, s)
      else inspect_now pr amb p s
]
