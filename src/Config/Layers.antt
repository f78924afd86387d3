-- ===== src/Config/Layers.antt =====
-- The merged defaults of several files and the chain of their defaults (internal/config/merge.go and
-- policy.go).
use elchi_shield.Prelude.{
  true, ◌≡◌, refl, ap, ◌∙◌, if◌then◌else◌, List, [], ◌∷◌, ◌++◌, Option, none, some, is_some, All,
}
use elchi_shield.Strings.{Text, is_empty}
use elchi_shield.Config.{
  PipelineSpec, PolicySpec, ResolvedPolicy, set_over, insert_keys, request_of, response_of,
  apply_spec, apply_specs, resolve_policy, empty_spec, derive_dlp, derive_default,
}
use elchi_shield.Config.Resolve.{set_to_over, set_over_assoc}
use elchi_shield.Config.Keys.{insert_keys-union}
use elchi_shield.Config.Merge.{
  union_strings, overlay_spec, ParsedFile, MergedConfig, merge_file, add_file, merge_files, merge,
  sort_files, empty_config,
}

-- No pipeline, or an order for both directions.
abbrev pub IsWhole : Option PipelineSpec → Type 0
IsWhole none = Unit
IsWhole (some p) = (is_some p.request ≡ true) × (is_some p.response ≡ true)

set_over-covers :
    {A : Type 0} (x : Option A) (y z : Option A)
    → is_some x ≡ true
    → set_over x z ≡ set_over x (set_over y z)
set_over-covers none y z h = absurd cc
set_over-covers (some v) y z h = refl

request-over :
    (o p : Option PipelineSpec) (z : Option (List Text))
    → IsWhole o
    → set_over (request_of (set_over o p)) z ≡ set_over (request_of o) (set_over (request_of p) z)
request-over none p z h = refl
request-over (some o) p z (h, k) = set_over-covers o.request (request_of p) z h

response-over :
    (o p : Option PipelineSpec) (z : Option (List Text))
    → IsWhole o
    → set_over (response_of (set_over o p)) z
      ≡ set_over (response_of o) (set_over (response_of p) z)
response-over none p z h = refl
response-over (some o) p z (h, k) = set_over-covers o.response (response_of p) z k

module _ {E F : Type 0} where
  skips-over :
      (p : ResolvedPolicy E F) (a b : PolicySpec E F)
      → insert_keys p.skip_checks (overlay_spec a b).skip_checks
        ≡ insert_keys (insert_keys p.skip_checks a.skip_checks) b.skip_checks
  unfolding overlay_spec union_strings
  skips-over p a b =
      elim b.skip_checks
        as (λ bs.
          insert_keys p.skip_checks
            (if is_empty bs then a.skip_checks else insert_keys [] (a.skip_checks ++ bs))
          ≡ insert_keys (insert_keys p.skip_checks a.skip_checks) bs) [
            | [] ↦ refl
            | c ∷ cs ↦ insert_keys-union p.skip_checks a.skip_checks (c ∷ cs)
          ]

  -- One policy over another is the two in a row.
  apply_spec-overlay :
      (p : ResolvedPolicy E F) (a b : PolicySpec E F)
      → IsWhole b.pipeline
      → apply_spec p (overlay_spec a b) ≡ apply_spec (apply_spec p a) b
  unfolding apply_spec overlay_spec
  apply_spec-overlay p a b h = λ i. record {
    mode = set_to_over b.mode a.mode p.mode i;
    fail_mode = set_to_over b.fail_mode a.fail_mode p.fail_mode i;
    inspect_request_body =
        set_to_over b.inspect_request_body a.inspect_request_body p.inspect_request_body i;
    inspect_response_body =
        set_to_over b.inspect_response_body a.inspect_response_body p.inspect_response_body i;
    max_request_body_bytes =
        set_to_over b.max_request_body_bytes a.max_request_body_bytes p.max_request_body_bytes i;
    max_response_body_bytes =
        set_to_over b.max_response_body_bytes a.max_response_body_bytes p.max_response_body_bytes i;
    max_header_bytes = set_to_over b.max_header_bytes a.max_header_bytes p.max_header_bytes i;
    timeout = set_to_over b.timeout a.timeout p.timeout i;
    log_level = set_to_over b.log_level a.log_level p.log_level i;
    sampling_rate = set_to_over b.sampling_rate a.sampling_rate p.sampling_rate i;
    anomaly_threshold = set_to_over b.anomaly_threshold a.anomaly_threshold p.anomaly_threshold i;
    skip_checks = skips-over p a b i;
    request_order = request-over b.pipeline a.pipeline p.request_order h i;
    response_order = response-over b.pipeline a.pipeline p.response_order h i;
    checks = record {
      headers = set_over_assoc b.checks.headers a.checks.headers p.checks.headers i;
      body = set_over_assoc b.checks.body a.checks.body p.checks.body i;
    };
    engines = set_over_assoc b.engines a.engines p.engines i;
  }

  apply_spec-empty : (p : ResolvedPolicy E F) → apply_spec p empty_spec ≡ p
  unfolding apply_spec insert_keys
  apply_spec-empty p = refl

  -- The defaults of the files, merged.
  abbrev overlays : PolicySpec E F → List (PolicySpec E F) → PolicySpec E F
  overlays s [] = s
  overlays s (t ∷ ts) = overlays (overlay_spec s t) ts

  apply_specs-overlays :
      (p : ResolvedPolicy E F) (s : PolicySpec E F) (ts rest : List (PolicySpec E F))
      → All (λ t. IsWhole t.pipeline) ts
      → apply_specs p (overlays s ts ∷ rest) ≡ apply_specs p (s ∷ ts ++ rest)
  unfolding apply_specs
  apply_specs-overlays p s [] rest h = refl
  apply_specs-overlays p s (t ∷ ts) rest (h, hs) =
      apply_specs-overlays p (overlay_spec s t) ts rest hs
      ∙ ap (λ (q : ResolvedPolicy E F). apply_specs q (ts ++ rest)) (apply_spec-overlay p s t h)

  -- The files with contents, and their defaults.
  abbrev pub defaults_of : List (ParsedFile E F) → List (PolicySpec E F)
  defaults_of [] = []
  defaults_of (pf ∷ pfs) = elim pf.file [
    | none ↦ defaults_of pfs
    | some f ↦ f.spec.defaults ∷ defaults_of pfs
  ]

  merge_files-defaults :
      (out : MergedConfig E F) (pfs : List (ParsedFile E F))
      → (merge_files out pfs).file_defaults ≡ overlays out.file_defaults (defaults_of pfs)
  unfolding merge_files merge_file add_file
  merge_files-defaults out [] = refl
  merge_files-defaults out (pf ∷ pfs) =
      elim pf.file
        as (λ o.
          (merge_files (elim o [ none ↦ out | some f ↦ add_file out pf.name f ]) pfs).file_defaults
          ≡ overlays out.file_defaults
              (elim o [ none ↦ defaults_of pfs | some f ↦ f.spec.defaults ∷ defaults_of pfs ])) [
                | none ↦ merge_files-defaults out pfs
                | some f ↦ merge_files-defaults (add_file out pf.name f) pfs
              ]

  -- If each file's defaults have no pipeline or an order for both directions, a policy resolved from
  -- the merged defaults is the one resolved from the defaults of all files, in the order of their
  -- names.
  pub resolve_policy-merge :
      (base : ResolvedPolicy E F) (files : List (ParsedFile E F)) (rest : List (PolicySpec E F))
      → All (λ t. IsWhole t.pipeline) (defaults_of (sort_files files))
      → resolve_policy base ((merge files).file_defaults ∷ rest)
        ≡ resolve_policy base (defaults_of (sort_files files) ++ rest)
  unfolding resolve_policy merge apply_specs
  resolve_policy-merge base files rest h =
      let start : ResolvedPolicy E F = record base {
        skip_checks = insert_keys [] base.skip_checks;
      } in
      let ds : List (PolicySpec E F) = defaults_of (sort_files files) in
      ap (λ (q : ResolvedPolicy E F). derive_default (derive_dlp q))
        (ap (λ (s : PolicySpec E F). apply_specs start (s ∷ rest))
            (merge_files-defaults empty_config (sort_files files))
          ∙ apply_specs-overlays start empty_spec ds rest h)
