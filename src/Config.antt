-- ===== src/Config.antt =====
-- internal/config/types.go, policy.go and merge.go: the configuration files, the resolution of a
-- chain of policies, and the merge of the files. `E` is the type of the engines block, which these
-- functions only pass on, and `F` that of a float64. A nil pointer or slice is `none`; lengths and
-- durations are int64 values that no computation changes here.
pub mod Resolve
pub mod Keys
pub mod Skips
pub mod NoSilentCheck
pub mod Layers
pub mod Merge
pub mod Validate
pub mod Routes
pub mod Duplicates
pub mod UniqueHosts
pub mod Hosts
pub mod Validated
pub mod Sane
use elchi_shield.Prelude.{
  Bool, true, false, ◌&&◌, ◌||◌, not, List, [], ◌∷◌, Option, none, some, if◌then◌else◌, ◌^◌, ◌*◌,
}
use elchi_shield.Prelude.Int.{ℤ, pos}
use elchi_shield.Strings.{Text, lit, text_eq, set_has}
use elchi_shield.Policy.{HeaderChecks, BodyChecks, DlpSpec, Checks}
use elchi_shield.Matcher.Header.{HeaderMatch}

pub record PipelineSpec : Type 0 where
  pub request : Option (List Text)
  pub response : Option (List Text)

-- A sparse policy.
pub record PolicySpec (E F : Type 0) : Type 0 where
  pub mode : Option Text
  pub fail_mode : Option Text
  pub inspect_request_body : Option Bool
  pub inspect_response_body : Option Bool
  pub max_request_body_bytes : Option ℤ
  pub max_response_body_bytes : Option ℤ
  pub max_header_bytes : Option ℤ
  pub timeout : Option ℤ
  pub log_level : Option Text
  pub sampling_rate : Option F
  pub anomaly_threshold : Option ℤ
  pub skip_checks : List Text
  pub pipeline : Option PipelineSpec
  pub checks : Checks
  pub engines : Option E

pub record ResolvedPolicy (E F : Type 0) : Type 0 where
  pub mode : Text
  pub fail_mode : Text
  pub inspect_request_body : Bool
  pub inspect_response_body : Bool
  pub max_request_body_bytes : ℤ
  pub max_response_body_bytes : ℤ
  pub max_header_bytes : ℤ
  pub timeout : ℤ
  pub log_level : Text
  pub sampling_rate : F
  pub anomaly_threshold : ℤ
  pub skip_checks : List Text
  pub request_order : Option (List Text)
  pub response_order : Option (List Text)
  pub checks : Checks
  pub engines : Option E

pub record Match : Type 0 where
  pub path_exact : Text
  pub path_prefix : Text
  pub path_regex : Text
  pub methods : List Text
  pub content_type : List Text
  pub headers : List HeaderMatch

pub record Route (E F : Type 0) : Type 0 where
  pub matcher : Match
  pub policy : PolicySpec E F

pub record Domain (E F : Type 0) : Type 0 where
  pub hosts : List Text
  pub policy : PolicySpec E F
  pub routes : List (Route E F)

pub record Spec (E F : Type 0) : Type 0 where
  pub defaults : PolicySpec E F
  pub domains : List (Domain E F)
  pub exclude : List Text

pub record File (E F : Type 0) : Type 0 where
  pub api_version : Text
  pub kind : Text
  pub spec : Spec E F

-- The built-in baseline; `rate` is the float64 0.05.
unfoldable pub default_policy : {E F : Type 0} → F → ResolvedPolicy E F
unfolding lit
default_policy rate = record {
  mode = lit "block";
  fail_mode = lit "fail_open";
  inspect_request_body = false;
  inspect_response_body = false;
  max_request_body_bytes = pos (2 ^ 20);
  max_response_body_bytes = pos 0;
  max_header_bytes = pos (8 * 2 ^ 10);
  timeout = pos (50 * 10 ^ 6);
  log_level = lit "info";
  sampling_rate = rate;
  anomaly_threshold = pos 0;
  skip_checks = [];
  request_order = none;
  response_order = none;
  checks = record { headers = none; body = none };
  engines = none;
}

-- The zero value of `PolicySpec`.
abbrev pub empty_spec : {E F : Type 0} → PolicySpec E F
empty_spec = record {
  mode = none;
  fail_mode = none;
  inspect_request_body = none;
  inspect_response_body = none;
  max_request_body_bytes = none;
  max_response_body_bytes = none;
  max_header_bytes = none;
  timeout = none;
  log_level = none;
  sampling_rate = none;
  anomaly_threshold = none;
  skip_checks = [];
  pipeline = none;
  checks = record { headers = none; body = none };
  engines = none;
}

-- `if v != nil { out = *v }`.
abbrev pub set_to : {A : Type 0} → Option A → A → A
set_to none out = out
set_to (some v) out = v

-- `if v != nil { out = v }`.
abbrev pub set_over : {A : Type 0} → Option A → Option A → Option A
set_over none out = out
set_over (some v) out = some v

-- `set[c] = struct{}{}`, and `if _, ok := seen[s]; !ok`: the keys in the order of their insertion.
-- Go leaves the order of a map open; the keys are read as a set.
unfoldable pub insert_key : List Text → Text → List Text
unfolding text_eq
insert_key [] c = c ∷ []
insert_key (k ∷ ks) c = let rest = insert_key ks c in if text_eq k c then k ∷ ks else k ∷ rest

unfoldable pub insert_keys : List Text → List Text → List Text
unfolding insert_key
insert_keys ks [] = ks
insert_keys ks (c ∷ cs) = insert_keys (insert_key ks c) cs

abbrev pub request_of : Option PipelineSpec → Option (List Text)
request_of none = none
request_of (some p) = p.request

abbrev pub response_of : Option PipelineSpec → Option (List Text)
response_of none = none
response_of (some p) = p.response

-- One round of the loop of `Resolve`; the set `skip` is kept in the policy.
unfoldable pub apply_spec :
    {E F : Type 0} → ResolvedPolicy E F → PolicySpec E F → ResolvedPolicy E F
unfolding insert_keys
apply_spec out s = record {
  mode = set_to s.mode out.mode;
  fail_mode = set_to s.fail_mode out.fail_mode;
  inspect_request_body = set_to s.inspect_request_body out.inspect_request_body;
  inspect_response_body = set_to s.inspect_response_body out.inspect_response_body;
  max_request_body_bytes = set_to s.max_request_body_bytes out.max_request_body_bytes;
  max_response_body_bytes = set_to s.max_response_body_bytes out.max_response_body_bytes;
  max_header_bytes = set_to s.max_header_bytes out.max_header_bytes;
  timeout = set_to s.timeout out.timeout;
  log_level = set_to s.log_level out.log_level;
  sampling_rate = set_to s.sampling_rate out.sampling_rate;
  anomaly_threshold = set_to s.anomaly_threshold out.anomaly_threshold;
  skip_checks = insert_keys out.skip_checks s.skip_checks;
  request_order = set_over (request_of s.pipeline) out.request_order;
  response_order = set_over (response_of s.pipeline) out.response_order;
  checks = record {
    headers = set_over s.checks.headers out.checks.headers;
    body = set_over s.checks.body out.checks.body;
  };
  engines = set_over s.engines out.engines;
}

unfoldable pub apply_specs :
    {E F : Type 0} → ResolvedPolicy E F → List (PolicySpec E F) → ResolvedPolicy E F
unfolding apply_spec
apply_specs out [] = out
apply_specs out (s ∷ specs) = apply_specs (apply_spec out s) specs

-- The directions that a DLP block asks for: "request" and "both", and all but "request".
unfoldable pub dlp_request : Option DlpSpec → Bool
unfolding text_eq lit
dlp_request none = false
dlp_request (some d) = text_eq d.direction (lit "request") || text_eq d.direction (lit "both")

unfoldable pub dlp_response : Option DlpSpec → Bool
unfolding text_eq lit
dlp_response none = false
dlp_response (some d) = not (text_eq d.direction (lit "request"))

abbrev pub dlp_of : Option BodyChecks → Option DlpSpec
dlp_of none = none
dlp_of (some b) = b.dlp

abbrev pub wants_body : Option BodyChecks → Bool
wants_body none = false
wants_body (some b) = b.require_json || b.detect_sensitive_data

-- The switch on the DLP direction at the end of `Resolve`.
unfoldable pub derive_dlp : {E F : Type 0} → ResolvedPolicy E F → ResolvedPolicy E F
unfolding dlp_request dlp_response
derive_dlp out = record out {
  inspect_request_body = out.inspect_request_body || dlp_request (dlp_of out.checks.body);
  inspect_response_body = out.inspect_response_body || dlp_response (dlp_of out.checks.body);
}

-- The default of the checks that name no direction.
unfoldable pub derive_default : {E F : Type 0} → ResolvedPolicy E F → ResolvedPolicy E F
derive_default out =
    if wants_body out.checks.body && not out.inspect_request_body && not out.inspect_response_body
    then record out { inspect_request_body = true }
    else out

-- `Resolve`.
unfoldable pub resolve_policy :
    {E F : Type 0} → ResolvedPolicy E F → List (PolicySpec E F) → ResolvedPolicy E F
unfolding apply_specs derive_dlp derive_default insert_keys
resolve_policy base specs =
    derive_default (
      derive_dlp
        (apply_specs (record base { skip_checks = insert_keys [] base.skip_checks }) specs))

-- `SkipsCheck`.
unfoldable pub skips : {E F : Type 0} → ResolvedPolicy E F → Text → Bool
unfolding set_has
skips p name = set_has p.skip_checks name
