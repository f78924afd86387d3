-- ===== src/Config/Resolve.antt =====
-- What the resolution of a chain of policies gives (internal/config/policy.go).
use elchi_shield.Prelude.{
  Bool, true, false, ◌&&◌, ◌||◌, not, ◌≡◌, refl, sym, ap, subst, ◌∙◌, List, [], ◌∷◌, Option, none,
  some, if_rule,
}
use elchi_shield.Config.{
  PolicySpec, ResolvedPolicy, set_to, set_over, insert_keys, request_of, response_of, apply_spec,
  apply_specs, dlp_of, dlp_request, dlp_response, wants_body, derive_dlp, derive_default,
  resolve_policy,
}

-- The value of the last member of a list that sets one.
abbrev pub last_set : {S A : Type 0} → (S → Option A) → List S → Option A
last_set f [] = none
last_set f (s ∷ ss) = set_over (last_set f ss) (f s)

pub set_to_over :
    {A : Type 0} (x y : Option A) (z : A) → set_to (set_over x y) z ≡ set_to x (set_to y z)
set_to_over none y z = refl
set_to_over (some v) y z = refl

pub set_over_assoc :
    {A : Type 0} (x y z : Option A) → set_over (set_over x y) z ≡ set_over x (set_over y z)
set_over_assoc none y z = refl
set_over_assoc (some v) y z = refl

or_assoc : (a b c : Bool) → ((a || b) || c) ≡ (a || (b || c))
or_assoc true b c = refl
or_assoc false b c = refl

module _ {E F : Type 0} where
  -- A field that a round sets is that of the last policy that sets it.
  pub last_wins :
      {A : Type 0} (get : ResolvedPolicy E F → A) (f : PolicySpec E F → Option A)
      → ((p : ResolvedPolicy E F) (s : PolicySpec E F)
          → get (apply_spec p s) ≡ set_to (f s) (get p))
      → (p : ResolvedPolicy E F) (specs : List (PolicySpec E F))
      → get (apply_specs p specs) ≡ set_to (last_set f specs) (get p)
  unfolding apply_specs
  last_wins get f h p [] = refl
  last_wins get f h p (s ∷ specs) =
      last_wins get f h (apply_spec p s) specs
      ∙ ap (set_to (last_set f specs)) (h p s)
      ∙ sym (set_to_over (last_set f specs) (f s) (get p))

  last_over :
      {A : Type 0} (get : ResolvedPolicy E F → Option A) (f : PolicySpec E F → Option A)
      → ((p : ResolvedPolicy E F) (s : PolicySpec E F)
          → get (apply_spec p s) ≡ set_over (f s) (get p))
      → (p : ResolvedPolicy E F) (specs : List (PolicySpec E F))
      → get (apply_specs p specs) ≡ set_over (last_set f specs) (get p)
  unfolding apply_specs
  last_over get f h p [] = refl
  last_over get f h p (s ∷ specs) =
      last_over get f h (apply_spec p s) specs
      ∙ ap (set_over (last_set f specs)) (h p s)
      ∙ sym (set_over_assoc (last_set f specs) (f s) (get p))

  -- The derived flags are the only fields that the end of `Resolve` changes.
  abbrev SameBut : ResolvedPolicy E F → ResolvedPolicy E F → Type 0
  SameBut p q = p ≡ record q {
    inspect_request_body = p.inspect_request_body;
    inspect_response_body = p.inspect_response_body;
  }

  derive_same : (p : ResolvedPolicy E F) → SameBut (derive_default (derive_dlp p)) p
  unfolding derive_default derive_dlp
  derive_same p =
      if_rule (λ (q : ResolvedPolicy E F). SameBut q p)
        (wants_body p.checks.body
          && not (p.inspect_request_body || dlp_request (dlp_of p.checks.body))
          && not (p.inspect_response_body || dlp_response (dlp_of p.checks.body)))
        (λ h. refl) λ h. refl

  -- Each field but the set of skipped checks and the derived flags is that of the last policy that
  -- sets it, and that of the base if none does.
  abbrev pub IsLast : ResolvedPolicy E F → List (PolicySpec E F) → ResolvedPolicy E F → Type 0
  IsLast base specs p =
      (p.mode ≡ set_to (last_set (λ s. s.mode) specs) base.mode)
      × (p.fail_mode ≡ set_to (last_set (λ s. s.fail_mode) specs) base.fail_mode)
      × (p.max_request_body_bytes
          ≡ set_to (last_set (λ s. s.max_request_body_bytes) specs) base.max_request_body_bytes)
      × (p.max_response_body_bytes
          ≡ set_to (last_set (λ s. s.max_response_body_bytes) specs) base.max_response_body_bytes)
      × (p.max_header_bytes
          ≡ set_to (last_set (λ s. s.max_header_bytes) specs) base.max_header_bytes)
      × (p.timeout ≡ set_to (last_set (λ s. s.timeout) specs) base.timeout)
      × (p.log_level ≡ set_to (last_set (λ s. s.log_level) specs) base.log_level)
      × (p.sampling_rate ≡ set_to (last_set (λ s. s.sampling_rate) specs) base.sampling_rate)
      × (p.anomaly_threshold
          ≡ set_to (last_set (λ s. s.anomaly_threshold) specs) base.anomaly_threshold)
      × (p.request_order
          ≡ set_over (last_set (λ s. request_of s.pipeline) specs) base.request_order)
      × (p.response_order
          ≡ set_over (last_set (λ s. response_of s.pipeline) specs) base.response_order)
      × (p.checks.headers ≡ set_over (last_set (λ s. s.checks.headers) specs) base.checks.headers)
      × (p.checks.body ≡ set_over (last_set (λ s. s.checks.body) specs) base.checks.body)
      × (p.engines ≡ set_over (last_set (λ s. s.engines) specs) base.engines)

  apply_specs-IsLast :
      (base : ResolvedPolicy E F) (specs : List (PolicySpec E F))
      → IsLast base specs (apply_specs base specs)
  unfolding apply_spec
  apply_specs-IsLast base specs = (
    last_wins (λ p. p.mode) (λ s. s.mode) (λ p s. refl) base specs,
    last_wins (λ p. p.fail_mode) (λ s. s.fail_mode) (λ p s. refl) base specs,
    last_wins (λ p. p.max_request_body_bytes) (λ s. s.max_request_body_bytes) (λ p s. refl) base
        specs,
    last_wins (λ p. p.max_response_body_bytes) (λ s. s.max_response_body_bytes) (λ p s. refl) base
        specs,
    last_wins (λ p. p.max_header_bytes) (λ s. s.max_header_bytes) (λ p s. refl) base specs,
    last_wins (λ p. p.timeout) (λ s. s.timeout) (λ p s. refl) base specs,
    last_wins (λ p. p.log_level) (λ s. s.log_level) (λ p s. refl) base specs,
    last_wins (λ p. p.sampling_rate) (λ s. s.sampling_rate) (λ p s. refl) base specs,
    last_wins (λ p. p.anomaly_threshold) (λ s. s.anomaly_threshold) (λ p s. refl) base specs,
    last_over (λ p. p.request_order) (λ s. request_of s.pipeline) (λ p s. refl) base specs,
    last_over (λ p. p.response_order) (λ s. response_of s.pipeline) (λ p s. refl) base specs,
    last_over (λ p. p.checks.headers) (λ s. s.checks.headers) (λ p s. refl) base specs,
    last_over (λ p. p.checks.body) (λ s. s.checks.body) (λ p s. refl) base specs,
    last_over (λ p. p.engines) (λ s. s.engines) (λ p s. refl) base specs,
  )

  -- In a resolved policy, the mode, the fail mode, the size limits, the timeout, the log level, the
  -- sampling rate, the anomaly threshold, the two pipeline orders, the two blocks of checks and the
  -- engines are each those of the last policy of the chain that sets them, and those of the base if
  -- none does.
  pub resolve_policy-IsLast :
      (base : ResolvedPolicy E F) (specs : List (PolicySpec E F))
      → IsLast base specs (resolve_policy base specs)
  unfolding resolve_policy
  resolve_policy-IsLast base specs =
      let start : ResolvedPolicy E F = record base {
        skip_checks = insert_keys [] base.skip_checks;
      } in
      subst (IsLast base specs) (sym (derive_same (apply_specs start specs)))
        (apply_specs-IsLast start specs)
