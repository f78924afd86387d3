-- ===== src/Config/Validate.antt =====
-- internal/config/validate.go: the checks of a sparse policy, the engines block aside. An error is
-- the field that it is reported for, with its kind; `valid_rate` is the test that a float64 is finite
-- and within [0, 1].
use elchi_shield.Prelude.{
  ℕ, ◌+◌, ◌^◌, Bool, true, false, ◌&&◌, ◌||◌, not, List, [], ◌∷◌, ◌++◌, Option, none, some,
  if◌then◌else◌,
}
use elchi_shield.Prelude.Int.{ℤ, pos, ltb_ℤ, leb_ℤ}
use elchi_shield.Strings.{Text, lit, text_eq, set_has, to_lower}
use elchi_shield.Config.{PipelineSpec, PolicySpec}

pub data Field : Type 0 where
  mode_field fail_mode_field sampling_rate_field max_request_field max_response_field : Field
  max_header_field timeout_field anomaly_field log_level_field : Field
  inspect_request_field inspect_response_field request_order_field response_order_field : Field

pub data Problem : Type 0 where
  invalid : Field → Problem
  negative : Field → Problem
  above_ceiling : Field → Problem
  off_mode : Field → Problem
  zero_budget : Field → Problem
  unknown_stage duplicate_stage : Field → ℕ → Problem
  omitted_stage : Field → Text → Problem

-- `if b { add(...) }`.
abbrev pub report : Bool → Problem → List Problem
report b p = if b then p ∷ [] else []

-- The problems of a list of checks, each appended to those before it.
abbrev pub gather : List (List Problem) → List Problem
gather [] = []
gather (ps ∷ pss) = ps ++ gather pss

-- `Mode.Valid` and `FailMode.Valid`.
unfoldable pub mode_valid : Text → Bool
unfolding text_eq lit
mode_valid m =
    text_eq m (lit "block")
    || text_eq m (lit "detect")
    || text_eq m (lit "shadow")
    || text_eq m (lit "off")

unfoldable pub fail_mode_valid : Text → Bool
unfolding text_eq lit
fail_mode_valid m = text_eq m (lit "fail_open") || text_eq m (lit "fail_close")

unfoldable pub known_log_levels : List Text
unfolding lit
known_log_levels = lit "debug" ∷ lit "info" ∷ lit "warn" ∷ lit "warning" ∷ lit "error" ∷ []

unfoldable pub known_inspectors : List Text
unfolding lit
known_inspectors = lit "fast_pre_checks" ∷ lit "body_checks" ∷ lit "waf_engine" ∷ []

unfoldable pub max_sane_body_bytes : ℤ
max_sane_body_bytes = pos (2 ^ 30)

-- A test on a field that is set.
abbrev pub set_and : {A : Type 0} → Option A → (A → Bool) → Bool
set_and none test = false
set_and (some v) test = test v

-- `checkNonNeg`.
unfoldable pub check_non_neg : Field → Option ℤ → List Problem
check_non_neg field v = report (set_and v (λ n. ltb_ℤ n (pos 0))) (negative field)

-- `checkCeiling`.
unfoldable pub check_ceiling : Field → Option ℤ → List Problem
unfolding max_sane_body_bytes
check_ceiling field v = report (set_and v (λ n. ltb_ℤ max_sane_body_bytes n)) (above_ceiling field)

-- The checks of the single fields.
unfoldable pub scalar_checks : {E F : Type 0} → (F → Bool) → PolicySpec E F → List (List Problem)
unfolding mode_valid fail_mode_valid check_non_neg check_ceiling set_has to_lower known_log_levels
scalar_checks valid_rate s =
    report (set_and s.mode (λ m. not (mode_valid m))) (invalid mode_field)
    ∷ report (set_and s.fail_mode (λ m. not (fail_mode_valid m))) (invalid fail_mode_field)
    ∷ report (set_and s.sampling_rate (λ r. not (valid_rate r))) (invalid sampling_rate_field)
    ∷ check_non_neg max_request_field s.max_request_body_bytes
    ∷ check_non_neg max_response_field s.max_response_body_bytes
    ∷ check_non_neg max_header_field s.max_header_bytes
    ∷ check_ceiling max_request_field s.max_request_body_bytes
    ∷ check_ceiling max_response_field s.max_response_body_bytes
    ∷ report (set_and s.timeout (λ t. leb_ℤ t (pos 0))) (negative timeout_field)
    ∷ report (set_and s.anomaly_threshold (λ n. ltb_ℤ n (pos 0))) (negative anomaly_field)
    ∷ report (set_and s.log_level (λ l. not (set_has known_log_levels (to_lower l))))
        (invalid log_level_field)
    ∷ []

unfoldable pub validate_scalars : {E F : Type 0} → (F → Bool) → PolicySpec E F → List Problem
unfolding scalar_checks
validate_scalars valid_rate s = gather (scalar_checks valid_rate s)

abbrev is_set_true : Option Bool → Bool
is_set_true v = set_and v (λ b. b)

abbrev is_set_zero : Option ℤ → Bool
is_set_zero v = set_and v (λ n. leb_ℤ n (pos 0) && leb_ℤ (pos 0) n)

-- The combinations that can do nothing.
unfoldable pub validate_combinations : {E F : Type 0} → PolicySpec E F → List Problem
unfolding text_eq lit
validate_combinations s =
    (if set_and s.mode (λ m. text_eq m (lit "off"))
      then report (is_set_true s.inspect_request_body) (off_mode inspect_request_field)
        ++ report (is_set_true s.inspect_response_body) (off_mode inspect_response_field)
      else [])
    ++ report (is_set_true s.inspect_request_body && is_set_zero s.max_request_body_bytes)
        (zero_budget inspect_request_field)
    ++ report (is_set_true s.inspect_response_body && is_set_zero s.max_response_body_bytes)
        (zero_budget inspect_response_field)

-- The loop of `validateOrder`, at place `i` and with the names seen so far.
unfoldable pub validate_names : Field → ℕ → List Text → List Text → List Problem
unfolding set_has known_inspectors
validate_names field i seen [] = []
validate_names field i seen (n ∷ names) =
    let rest = validate_names field (i + 1) (n ∷ seen) names in
    gather (
      report (not (set_has known_inspectors n)) (unknown_stage field i)
      ∷ report (set_has seen n) (duplicate_stage field i)
      ∷ rest
      ∷ [])

abbrev names_of : Option (List Text) → List Text
names_of none = []
names_of (some names) = names

-- `validateOrder`.
abbrev pub validate_order : Field → Option (List Text) → List Problem
validate_order field names = validate_names field 0 [] (names_of names)

abbrev is_set {ℓ} : {A : Type ℓ} → Option A → Bool
is_set none = false
is_set (some a) = true

-- The slice `required`.
unfoldable pub required_stages : {E F : Type 0} → PolicySpec E F → List Text
unfolding lit
required_stages s =
    (if is_set s.checks.headers then lit "fast_pre_checks" ∷ [] else [])
    ++ (if is_set s.checks.body then lit "body_checks" ∷ [] else [])
    ++ (if is_set s.engines then lit "waf_engine" ∷ [] else [])

-- The loop of `checkComplete` over the required names.
unfoldable pub check_required : Field → Text → List Text → List Text → List Problem
unfolding text_eq set_has
check_required field request_only names [] = []
check_required field request_only names (r ∷ rs) =
    report (not (text_eq r request_only) && not (set_has names r)) (omitted_stage field r)
    ++ check_required field request_only names rs

-- `checkComplete`.
abbrev pub check_complete : Field → Option (List Text) → Text → List Text → List Problem
check_complete field none request_only required = []
check_complete field (some names) request_only required =
    check_required field request_only names required

-- The checks of the pipeline orders.
unfoldable pub pipeline_checks : PipelineSpec → List Text → List (List Problem)
unfolding validate_names check_required lit
pipeline_checks p required =
    validate_order request_order_field p.request
    ∷ validate_order response_order_field p.response
    ∷ check_complete request_order_field p.request [] required
    ∷ check_complete response_order_field p.response (lit "fast_pre_checks") required
    ∷ []

unfoldable pub validate_pipeline : Option PipelineSpec → List Text → List Problem
unfolding pipeline_checks
validate_pipeline none required = []
validate_pipeline (some p) required = gather (pipeline_checks p required)

-- `validateSpec`, up to the DLP and the engines block.
abbrev pub spec_checks : {E F : Type 0} → (F → Bool) → PolicySpec E F → List (List Problem)
spec_checks valid_rate s =
    validate_scalars valid_rate s
    ∷ validate_combinations s
    ∷ validate_pipeline s.pipeline (required_stages s)
    ∷ []

unfoldable pub validate_spec : {E F : Type 0} → (F → Bool) → PolicySpec E F → List Problem
unfolding validate_scalars validate_combinations validate_pipeline required_stages
validate_spec valid_rate s = gather (spec_checks valid_rate s)
