-- ===== src/Tests/Fixtures.antt =====
-- The data of the tests: an environment, policies, transactions and a server.
use elchi_shield.Prelude.{Bool, true, false, [], ◌∷◌, none, some}
use elchi_shield.Prelude.Int.{pos}
use elchi_shield.Policy.{CompiledPolicy, bare_policy, mode_block, mode_detect, fail_open}
use elchi_shield.Policy.Resolver.{Resolver}
use elchi_shield.Transaction.{Transaction, Snapshot, no_decision, no_request}
use elchi_shield.Engine.{direction_request}
use elchi_shield.Stages.Env.{Env}
use elchi_shield.ExtProc.Session.{Processor, Ambient, Session}

abbrev pub plain_env : Env
plain_env = record {
  canon_ip = λ s. s;
  json_valid = λ s. true;
  media_type = λ s. none;
  gzip = λ s. none;
  zlib = λ s. none;
  flate = λ s. record { bytes = s; clean_end = true };
  default_allow = false;
  detector = none;
  trusted_hops = pos 0;
}

abbrev pub blocking_policy : CompiledPolicy
blocking_policy = record (bare_policy [] mode_block fail_open) { inspect_request_body = true }

abbrev pub detecting_policy : CompiledPolicy
detecting_policy = bare_policy [] mode_detect fail_open

abbrev pub empty_resolver : Resolver
empty_resolver = record { exact = []; wildcard = []; excludes = [] }

abbrev pub server : Processor
server = record {
  env = plain_env;
  auditing = true;
  instance_id = [];
  listener_id = [];
  max_body = 4;
}

abbrev pub at_ease : Ambient
at_ease = record { clock = λ run timeout n k. false; new_request_id = 7 ∷ []; sampled = false }

abbrev pub pinned : Snapshot
pinned = record { version = []; resolver = some empty_resolver }

-- A transaction with a policy and a body of three bytes.
abbrev pub buffered : CompiledPolicy → Bool → Transaction
buffered p cut = record {
  request_id = [];
  direction = direction_request;
  snapshot = none;
  listener_id = [];
  node_id = [];
  host = [];
  path = [];
  method = [];
  content_type = [];
  source_ip = [];
  headers = [];
  policy = some p;
  body_required = true;
  waf_enabled = false;
  body_truncated = cut;
  body_inspected = false;
  request_settled = false;
  body_mutated = false;
  anomaly_score = pos 0;
  anomaly_denied = false;
  body_reserved = pos 0;
  budget = none;
  body = 1 ∷ 2 ∷ 3 ∷ [];
  result = no_decision;
  findings = [];
  eng_req = no_request;
}

abbrev pub session_with : CompiledPolicy → Bool → Session
session_with p cut = record { tx = buffered p cut; effects = [] }
