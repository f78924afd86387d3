-- ===== src/Config/Sane.antt =====
-- The fields of validated policies, and of what is resolved from them (internal/config/validate.go
-- and policy.go).
use elchi_shield.Prelude.{
  Bool, true, false, ◌&&◌, not, ◌≡◌, refl, List, [], ◌∷◌, Option, none, some, All, arith, if_rule,
}
use elchi_shield.Prelude.Int.{ℤ, pos, ◌≤ℤ◌, ltb_ℤ, leb_ℤ}
use elchi_shield.Strings.{Text, lit, set_has, to_lower}
use elchi_shield.Config.{
  PipelineSpec, PolicySpec, ResolvedPolicy, set_to, set_over, request_of, response_of, apply_spec,
  apply_specs, derive_dlp, derive_default, default_policy, resolve_policy, insert_keys, wants_body,
}
use elchi_shield.Config.Validate.{
  Problem, report, set_and, mode_valid, fail_mode_valid, known_log_levels, max_sane_body_bytes,
  check_non_neg, check_ceiling, validate_scalars, validate_pipeline, pipeline_checks, scalar_checks,
  spec_checks, request_order_field, response_order_field, validate_spec, required_stages,
}
use elchi_shield.Config.Validated.{
  gather-nil, report-nil, Where, set_and-Where, IsOrder, false_of_not, validate_order-IsOrder,
}

abbrev IsSize : ℤ → Type 0
IsSize n = (pos 0 ≤ℤ n) × (n ≤ℤ max_sane_body_bytes)

not_negative : (n : ℤ) → ltb_ℤ n (pos 0) ≡ false → pos 0 ≤ℤ n
not_negative n h = ground arith

not_above : (n : ℤ) → ltb_ℤ max_sane_body_bytes n ≡ false → n ≤ℤ max_sane_body_bytes
not_above n h = ground arith

positive : (n : ℤ) → leb_ℤ n (pos 0) ≡ false → pos 1 ≤ℤ n
positive n h = ground arith

both-Where :
    (o : Option ℤ)
    → Where o (λ n. pos 0 ≤ℤ n)
    → Where o (λ n. n ≤ℤ max_sane_body_bytes)
    → Where o IsSize
both-Where none h k = tt
both-Where (some n) h k = (h, k)

set_to-keeps :
    {A : Type 0} (P : A → Type 0) (o : Option A) (a : A) → Where o P → P a → P (set_to o a)
set_to-keeps P none a h k = k
set_to-keeps P (some v) a h k = h

set_over-keeps :
    {A : Type 0} (P : A → Type 0) (o a : Option A) → Where o P → Where a P → Where (set_over o a) P
set_over-keeps P none a h k = k
set_over-keeps P (some v) a h k = h

abbrev IsLogLevel : Text → Type 0
IsLogLevel l = set_has known_log_levels (to_lower l) ≡ true

-- A length that is checked not to be negative, or not to be above the ceiling.
least :
    (o : Option ℤ) (problem : Problem)
    → report (set_and o (λ n. ltb_ℤ n (pos 0))) problem ≡ []
    → Where o (λ n. pos 0 ≤ℤ n)
least o problem e =
    set_and-Where (λ n. pos 0 ≤ℤ n) (λ n. ltb_ℤ n (pos 0)) o not_negative
      (report-nil (set_and o (λ n. ltb_ℤ n (pos 0))) problem e)

most :
    (o : Option ℤ) (problem : Problem)
    → report (set_and o (λ n. ltb_ℤ max_sane_body_bytes n)) problem ≡ []
    → Where o (λ n. n ≤ℤ max_sane_body_bytes)
most o problem e =
    set_and-Where (λ n. n ≤ℤ max_sane_body_bytes) (λ n. ltb_ℤ max_sane_body_bytes n) o not_above
      (report-nil (set_and o (λ n. ltb_ℤ max_sane_body_bytes n)) problem e)

above_zero :
    (o : Option ℤ) (problem : Problem)
    → report (set_and o (λ n. leb_ℤ n (pos 0))) problem ≡ []
    → Where o (λ n. pos 1 ≤ℤ n)
above_zero o problem e =
    set_and-Where (λ n. pos 1 ≤ℤ n) (λ n. leb_ℤ n (pos 0)) o positive
      (report-nil (set_and o (λ n. leb_ℤ n (pos 0))) problem e)

-- A field that is checked by a test.
checked :
    {A : Type 0} (test : A → Bool) (o : Option A) (problem : Problem)
    → report (set_and o (λ a. not (test a))) problem ≡ []
    → Where o (λ a. test a ≡ true)
checked test o problem e =
    set_and-Where (λ a. test a ≡ true) (λ a. not (test a)) o (λ a. false_of_not (test a))
      (report-nil (set_and o (λ a. not (test a))) problem e)

pipeline_orders :
    (pipeline : Option PipelineSpec) (required : List Text)
    → validate_pipeline pipeline required ≡ []
    → Where (request_of pipeline) IsOrder × Where (response_of pipeline) IsOrder
unfolding validate_pipeline pipeline_checks
pipeline_orders none required e = (tt, tt)
pipeline_orders (some p) required e =
    let (rq, (rs, others)) = gather-nil (pipeline_checks p required) e in
    (
      validate_order-IsOrder request_order_field p.request rq,
      validate_order-IsOrder response_order_field p.response rs,
    )

module _ {E F : Type 0} (valid_rate : F → Bool) where
  -- A policy whose modes and log level are known, whose sampling rate is valid, whose body limits
  -- are between 0 and the ceiling, whose header limit and anomaly threshold are not negative, whose
  -- timeout is positive, and whose pipeline orders name known stages, each at most once.
  abbrev pub IsSane : ResolvedPolicy E F → Type 0
  IsSane p =
      (mode_valid p.mode ≡ true)
      × (fail_mode_valid p.fail_mode ≡ true)
      × (valid_rate p.sampling_rate ≡ true)
      × IsSize p.max_request_body_bytes
      × IsSize p.max_response_body_bytes
      × (pos 0 ≤ℤ p.max_header_bytes)
      × (pos 1 ≤ℤ p.timeout)
      × (pos 0 ≤ℤ p.anomaly_threshold)
      × IsLogLevel p.log_level
      × Where p.request_order IsOrder
      × Where p.response_order IsOrder

  -- The same of the fields that a sparse policy sets.
  abbrev IsSaneSpec : PolicySpec E F → Type 0
  IsSaneSpec s =
      Where s.mode (λ m. mode_valid m ≡ true)
      × Where s.fail_mode (λ m. fail_mode_valid m ≡ true)
      × Where s.sampling_rate (λ r. valid_rate r ≡ true)
      × Where s.max_request_body_bytes IsSize
      × Where s.max_response_body_bytes IsSize
      × Where s.max_header_bytes (λ n. pos 0 ≤ℤ n)
      × Where s.timeout (λ n. pos 1 ≤ℤ n)
      × Where s.anomaly_threshold (λ n. pos 0 ≤ℤ n)
      × Where s.log_level IsLogLevel
      × Where (request_of s.pipeline) IsOrder
      × Where (response_of s.pipeline) IsOrder

  -- A policy in which validation finds no problem.
  validate_spec-IsSaneSpec : (s : PolicySpec E F) → validate_spec valid_rate s ≡ [] → IsSaneSpec s
  unfolding validate_spec validate_scalars check_non_neg check_ceiling
  validate_spec-IsSaneSpec s e =
      let (scalars, (combinations, (pipeline, u))) = gather-nil (spec_checks valid_rate s) e in
      let (m, (f, (r, (nq, (ns, (nh, (cq, (cs, (t, (a, (l, u'))))))))))) =
        gather-nil (scalar_checks valid_rate s) scalars in
      let (rq, rs) = pipeline_orders s.pipeline (required_stages s) pipeline in
      (
        checked mode_valid s.mode _ m,
        checked fail_mode_valid s.fail_mode _ f,
        checked valid_rate s.sampling_rate _ r,
        both-Where s.max_request_body_bytes (least s.max_request_body_bytes _ nq)
            (most s.max_request_body_bytes _ cq),
        both-Where s.max_response_body_bytes (least s.max_response_body_bytes _ ns)
            (most s.max_response_body_bytes _ cs),
        least s.max_header_bytes _ nh,
        above_zero s.timeout _ t,
        least s.anomaly_threshold _ a,
        checked (λ l. set_has known_log_levels (to_lower l)) s.log_level _ l,
        rq,
        rs,
      )

  apply_spec-IsSane :
      (p : ResolvedPolicy E F) (s : PolicySpec E F)
      → IsSane p
      → IsSaneSpec s
      → IsSane (apply_spec p s)
  unfolding apply_spec
  apply_spec-IsSane p s (m, f, r, q, rs, h, t, a, l, qo, so)
        (m', f', r', q', rs', h', t', a', l', qo', so') =
      (
        set_to-keeps (λ m. mode_valid m ≡ true) s.mode p.mode m' m,
        set_to-keeps (λ m. fail_mode_valid m ≡ true) s.fail_mode p.fail_mode f' f,
        set_to-keeps (λ r. valid_rate r ≡ true) s.sampling_rate p.sampling_rate r' r,
        set_to-keeps IsSize s.max_request_body_bytes p.max_request_body_bytes q' q,
        set_to-keeps IsSize s.max_response_body_bytes p.max_response_body_bytes rs' rs,
        set_to-keeps (λ n. pos 0 ≤ℤ n) s.max_header_bytes p.max_header_bytes h' h,
        set_to-keeps (λ n. pos 1 ≤ℤ n) s.timeout p.timeout t' t,
        set_to-keeps (λ n. pos 0 ≤ℤ n) s.anomaly_threshold p.anomaly_threshold a' a,
        set_to-keeps IsLogLevel s.log_level p.log_level l' l,
        set_over-keeps IsOrder (request_of s.pipeline) p.request_order qo' qo,
        set_over-keeps IsOrder (response_of s.pipeline) p.response_order so' so,
      )

  apply_specs-IsSane :
      (p : ResolvedPolicy E F) (specs : List (PolicySpec E F))
      → IsSane p
      → All (λ s. validate_spec valid_rate s ≡ []) specs
      → IsSane (apply_specs p specs)
  unfolding apply_specs
  apply_specs-IsSane p [] h hs = h
  apply_specs-IsSane p (s ∷ specs) h (e, es) =
      apply_specs-IsSane (apply_spec p s) specs
        (apply_spec-IsSane p s h (validate_spec-IsSaneSpec s e)) es

  -- A policy resolved from the built-in defaults and policies in which validation finds no problem
  -- is sane: its modes and log level are known, its sampling rate is valid, its body limits are
  -- between 0 and 2^30, its header limit and anomaly threshold are not negative, its timeout is
  -- positive, and its pipeline orders name known stages, each at most once.
  pub resolve_policy-IsSane :
      (rate : F) (specs : List (PolicySpec E F))
      → valid_rate rate ≡ true
      → All (λ s. validate_spec valid_rate s ≡ []) specs
      → IsSane (resolve_policy (default_policy rate) specs)
  unfolding resolve_policy derive_dlp derive_default default_policy insert_keys mode_valid
      fail_mode_valid max_sane_body_bytes set_has known_log_levels to_lower lit
  resolve_policy-IsSane rate specs h hs =
      let merged : ResolvedPolicy E F = apply_specs (default_policy rate) specs in
      let base : IsSane (default_policy rate) = (
        refl,
        refl,
        h,
        (omega arith, omega arith),
        (omega arith, omega arith),
        omega arith,
        omega arith,
        omega arith,
        refl,
        tt,
        tt,
      ) in
      let sane : IsSane merged = apply_specs-IsSane (default_policy rate) specs base hs in
      if_rule IsSane
        (wants_body (derive_dlp merged).checks.body
          && not (derive_dlp merged).inspect_request_body
          && not (derive_dlp merged).inspect_response_body)
        (λ h. sane) λ h. sane
