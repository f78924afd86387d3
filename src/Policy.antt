-- ===== src/Policy.antt =====
-- internal/policy/policy.go: the policy that the request path reads. The mode and fail mode are
-- those that `Valid` admits; a nil pointer is `none`, a nil engine set is the empty one. The cached
-- pipelines (`compiled`) are a function of the policy, and are built where they are used.
pub mod Resolver
pub mod Resolved
pub mod Compile
pub mod Choice
use elchi_shield.Prelude.{
  ℕ, Bool, true, false, ◌&&◌, ◌||◌, List, [], Option, none, some, ◌==◌, ltb, not, if◌then◌else◌,
  ◌≡◌, refl, inl, inr, Bool-cases,
}
use elchi_shield.Prelude.Int.{ℤ, pos}
use elchi_shield.Strings.{Text, lit, is_empty, set_has, text_eq}
use elchi_shield.Engine.{Set, inspects_response}

-- `config.Mode`.
pub data Mode : Type 0 where
  mode_block mode_detect mode_shadow mode_off : Mode

-- `config.FailMode`.
pub data FailMode : Type 0 where
  fail_open fail_close : FailMode

pub record CompiledDlp : Type 0 where
  pub on_request : Bool
  pub on_response : Bool
  pub block : List Text
  pub redact : List Text

pub record CompiledChecks : Type 0 where
  pub forbidden_headers : List Text
  pub required_headers : List Text
  pub max_header_value_bytes : ℕ
  pub enforce_valid_host : Bool
  pub require_json : Bool
  pub detect_sensitive_data : Bool
  pub dlp : Option CompiledDlp

pub record CompiledPolicy : Type 0 where
  pub id : Text
  pub mode : Mode
  pub fail_mode : FailMode
  pub inspect_request_body : Bool
  pub inspect_response_body : Bool
  pub max_request_body_bytes : ℕ
  pub max_response_body_bytes : ℕ
  pub timeout : ℕ
  pub anomaly_threshold : ℤ
  pub checks : CompiledChecks
  pub engines : Set
  pub request_order : Option (List Text)
  pub response_order : Option (List Text)
  pub skip_checks : List Text

-- `config.DLPSpec`.
pub record DlpSpec : Type 0 where
  pub direction : Text
  pub block : List Text
  pub redact : List Text

-- `config.HeaderChecks`.
pub record HeaderChecks : Type 0 where
  pub forbidden : List Text
  pub required : List Text
  pub max_header_value_bytes : ℕ
  pub enforce_valid_host : Bool

-- `config.BodyChecks`.
pub record BodyChecks : Type 0 where
  pub require_json : Bool
  pub detect_sensitive_data : Bool
  pub dlp : Option DlpSpec

-- `config.Checks`.
pub record Checks : Type 0 where
  pub headers : Option HeaderChecks
  pub body : Option BodyChecks

abbrev pub no_checks : CompiledChecks
no_checks = record {
  forbidden_headers = [];
  required_headers = [];
  max_header_value_bytes = 0;
  enforce_valid_host = false;
  require_json = false;
  detect_sensitive_data = false;
  dlp = none;
}

unfoldable pub compile_dlp : DlpSpec → CompiledDlp
unfolding text_eq lit
compile_dlp d = record {
  on_request = text_eq d.direction (lit "request") || text_eq d.direction (lit "both");
  on_response =
      is_empty d.direction
      || text_eq d.direction (lit "response")
      || text_eq d.direction (lit "both");
  block = d.block;
  redact = d.redact;
}

abbrev with_headers : Option HeaderChecks → CompiledChecks → CompiledChecks
with_headers none out = out
with_headers (some h) out = record out {
  forbidden_headers = h.forbidden;
  required_headers = h.required;
  max_header_value_bytes = h.max_header_value_bytes;
  enforce_valid_host = h.enforce_valid_host;
}

abbrev map_dlp : Option DlpSpec → Option CompiledDlp
map_dlp none = none
map_dlp (some d) = some (compile_dlp d)

abbrev with_body : Option BodyChecks → CompiledChecks → CompiledChecks
with_body none out = out
with_body (some b) out = record out {
  require_json = b.require_json;
  detect_sensitive_data = b.detect_sensitive_data;
  dlp = map_dlp b.dlp;
}

unfoldable pub compile_checks : Checks → CompiledChecks
unfolding compile_dlp
compile_checks c = with_body c.body (with_headers c.headers no_checks)

-- A policy of which only the name, mode and fail mode are set.
abbrev pub bare_policy : Text → Mode → FailMode → CompiledPolicy
bare_policy id mode fail_mode = record {
  id = id;
  mode = mode;
  fail_mode = fail_mode;
  inspect_request_body = false;
  inspect_response_body = false;
  max_request_body_bytes = 0;
  max_response_body_bytes = 0;
  timeout = 0;
  anomaly_threshold = pos 0;
  checks = no_checks;
  engines = [];
  request_order = none;
  response_order = none;
  skip_checks = [];
}

unfoldable pub deny_all : CompiledPolicy
unfolding lit
deny_all = bare_policy (lit "__deny_all__") mode_block fail_close

abbrev is_mode_block : Mode → Bool
is_mode_block mode_block = true
is_mode_block _ = false

abbrev is_mode_off : Mode → Bool
is_mode_off mode_off = true
is_mode_off _ = false

abbrev is_mode_shadow : Mode → Bool
is_mode_shadow mode_shadow = true
is_mode_shadow _ = false

abbrev is_fail_open : FailMode → Bool
is_fail_open fail_open = true
is_fail_open fail_close = false

-- `Blocking`.
abbrev pub is_blocking : CompiledPolicy → Bool
is_blocking p = is_mode_block p.mode

-- `Enforcing`.
abbrev pub is_enforcing : CompiledPolicy → Bool
is_enforcing p = not (is_mode_off p.mode)

-- A step that `p == nil || !p.Enforcing()` passes over.
abbrev pub if_enforcing : {A : Type 0} → Option CompiledPolicy → A → (CompiledPolicy → A) → A
if_enforcing none off on = off
if_enforcing (some p) off on = if is_enforcing p then on p else off

-- `Shadowing`.
abbrev pub is_shadowing : CompiledPolicy → Bool
is_shadowing p = is_mode_shadow p.mode

-- `FailOpen`.
abbrev pub fails_open : CompiledPolicy → Bool
fails_open p = is_fail_open p.fail_mode

unfoldable pub skips_check : CompiledPolicy → Text → Bool
unfolding set_has
skips_check p name = set_has p.skip_checks name

abbrev dlp_on_response : Option CompiledDlp → Bool
dlp_on_response none = false
dlp_on_response (some d) = d.on_response

unfoldable pub needs_response_inspection : Option CompiledPolicy → Bool
unfolding inspects_response
needs_response_inspection none = false
needs_response_inspection (some p) =
    if not (is_enforcing p)
    then false
    else if p.inspect_response_body
    then true
    else if dlp_on_response p.checks.dlp
    then true
    else inspects_response p.engines

abbrev dlp_mutates : Option CompiledDlp → Bool → Bool
dlp_mutates none on_response = false
dlp_mutates (some d) on_response =
    if is_empty d.redact then false else if on_response then d.on_response else d.on_request

unfoldable pub mutates_body : Option CompiledPolicy → Bool → Bool
mutates_body none on_response = false
mutates_body (some p) on_response = dlp_mutates p.checks.dlp on_response

-- What holds of both ways holds of the step.
pub if_enforcing_rule :
    {A : Type 0} (P : A → Type 0) (o : Option CompiledPolicy) {off : A} {on : CompiledPolicy → A}
    → P off
    → ((p : CompiledPolicy) → o ≡ some p → is_enforcing p ≡ true → P (on p))
    → P (if_enforcing o off on)
if_enforcing_rule P none h k = h
if_enforcing_rule P (some p) h k = elim (Bool-cases (is_enforcing p)) [
  | inl yes_enforcing ↦ rw yes_enforcing (k p refl yes_enforcing)
  | inr skips ↦ rw skips h
]
