-- ===== src/ExtProc/Session.antt =====
-- internal/server/extproc/processor.go: the messages, the responses and what a stream keeps. Logs and
-- metrics are a list of effects; the shared immutable responses are constructors.
use elchi_shield.Prelude.{ℕ, Bool, List, [], ◌∷◌, ◌++◌, Option, ◌==◌, if◌then◌else◌}
use elchi_shield.Strings.{Text, lit}
use elchi_shield.Decision.{Decision, default_block_status}
use elchi_shield.Engine.{Direction}
use elchi_shield.Pipeline.{Context}
use elchi_shield.Transaction.{Transaction}
use elchi_shield.Stages.Env.{Env}

-- A header of an Envoy `HeaderMap`.
pub record RawHeader : Type 0 where
  pub key : Text
  pub value : Text
  pub raw_value : Text

-- `ProcessingRequest`; the headers of a nil map are the empty list, and `attribute` is the first
-- attribute value that is not empty, or "".
pub data Message : Type 0 where
  request_headers : (attribute : Text) → List RawHeader → (end_of_stream : Bool) → Message
  request_body : Text → (end_of_stream : Bool) → Message
  request_trailers : Message
  response_headers : List RawHeader → (end_of_stream : Bool) → Message
  response_body : Text → (end_of_stream : Bool) → Message
  response_trailers : Message
  unknown : Message

-- The shared mode overrides.
pub data ModeOverride : Type 0 where
  mode_skip_response mode_buffer_body mode_buffer_body_skip_response : ModeOverride
  mode_buffer_response_body : ModeOverride

-- `ProcessingResponse`.
pub data Response : Type 0 where
  immediate : (status : ℕ) → (details : Text) → (headers : List (Text × Text)) → Response
  request_headers_continue : Option ModeOverride → Response
  request_body_continue : Response
  request_trailers_continue : Response
  response_headers_continue : Option ModeOverride → Response
  response_body_continue : Response
  response_trailers_continue : Response
  request_body_mutation : Text → (removed : List Text) → Response
  response_body_mutation : Text → (removed : List Text) → Response

-- `audit.Event` without its time; `config_version` is the pinned snapshot's.
pub record Event : Type 0 where
  pub instance : Text
  pub node_id : Text
  pub project_id : Text
  pub listener : Text
  pub request_id : Text
  pub phase : Text
  pub direction : Direction
  pub decision : Decision
  pub host : Text
  pub path : Text
  pub method : Text
  pub config_version : Text

-- What a handler does besides its response: `decided` is the log line and `RecordDecision` of
-- `finish`, and the others are the calls of the metrics and of the auditor.
pub data Effect : Type 0 where
  decided : (phase : Text) → Decision → Effect
  body_bytes : ℕ → Effect
  phase_findings : Decision → Effect
  audited : Event → Effect
  body_budget_reject : (reason : Text) → Effect
  body_mutation : Effect
  extproc_error : (kind : Text) → Effect

-- A stream: its transaction, and its effects in order.
pub record Session : Type 0 where
  pub tx : Transaction
  pub effects : List Effect

-- `Processor`, with whether it has an auditor.
pub record Processor : Type 0 where
  pub env : Env
  pub auditing : Bool
  pub instance_id : Text
  pub listener_id : Text
  pub max_body : ℕ

-- What a call finds outside: the context of its n-th pipeline run under a timeout (0 for none), a new
-- random request id, and whether `audit.Sample` takes an allowed request.
pub record Ambient : Type 0 where
  pub clock : ℕ → ℕ → Context
  pub new_request_id : Text
  pub sampled : Bool

abbrev pub emit : Session → Effect → Session
emit s e = record s { effects = s.effects ++ (e ∷ []) }

-- `blockHeaders`.
unfoldable pub block_headers : ℕ → List (Text × Text)
unfolding lit
block_headers code =
    if code == 429
    then (lit "x-elchi-shield", lit "blocked") ∷ (lit "Retry-After", lit "1") ∷ []
    else (lit "x-elchi-shield", lit "blocked") ∷ []

-- `immediateResponse`.
unfoldable pub immediate_response : Decision → Response
unfolding block_headers
immediate_response d =
    let code = if d.status_code == 0 then default_block_status else d.status_code in
    immediate code d.reason (block_headers code)

-- The headers that `bodyMutationCommon` removes.
unfoldable pub removed_headers : List Text
unfolding lit
removed_headers = lit "content-encoding" ∷ lit "content-length" ∷ []
