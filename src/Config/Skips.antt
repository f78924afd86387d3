-- ===== src/Config/Skips.antt =====
-- The skipped checks of a resolved policy (internal/config/policy.go).
use elchi_shield.Prelude.{
  Bool, ◌&&◌, ◌||◌, not, ◌≡◌, refl, ap, ◌∙◌, List, [], ◌∷◌, if_rule, any, arith,
}
use elchi_shield.Strings.{Text, set_has}
use elchi_shield.Config.{
  PolicySpec, ResolvedPolicy, insert_keys, apply_spec, apply_specs, wants_body, derive_dlp,
  derive_default, resolve_policy, skips,
}
use elchi_shield.Config.Keys.{set_has-insert_keys, or_assoc}

module _ {E F : Type 0} where
  -- One of the policies skips the check.
  abbrev pub skipped_by : List (PolicySpec E F) → Text → Bool
  skipped_by specs name = any (λ s. set_has s.skip_checks name) specs

  apply_specs-skips :
      (p : ResolvedPolicy E F) (specs : List (PolicySpec E F)) (name : Text)
      → set_has (apply_specs p specs).skip_checks name
        ≡ (set_has p.skip_checks name || skipped_by specs name)
  unfolding apply_specs apply_spec
  apply_specs-skips p [] name = ground arith
  apply_specs-skips p (s ∷ specs) name =
      apply_specs-skips (apply_spec p s) specs name
      ∙ ap (λ (b : Bool). b || skipped_by specs name)
          (set_has-insert_keys p.skip_checks s.skip_checks name)
      ∙ or_assoc (set_has p.skip_checks name) (set_has s.skip_checks name) (skipped_by specs name)

  derive_default-skips : (p : ResolvedPolicy E F) → (derive_default p).skip_checks ≡ p.skip_checks
  unfolding derive_default
  derive_default-skips p =
      if_rule (λ (q : ResolvedPolicy E F). q.skip_checks ≡ p.skip_checks)
        (wants_body p.checks.body && not p.inspect_request_body && not p.inspect_response_body)
        (λ h. refl) λ h. refl

  -- A resolved policy skips a check exactly if the base or some policy of the chain does.
  pub resolve_policy-skips :
      (base : ResolvedPolicy E F) (specs : List (PolicySpec E F)) (name : Text)
      → skips (resolve_policy base specs) name ≡ (skips base name || skipped_by specs name)
  unfolding resolve_policy skips derive_dlp
  resolve_policy-skips base specs name =
      let start : ResolvedPolicy E F = record base {
        skip_checks = insert_keys [] base.skip_checks;
      } in
      ap (λ (l : List Text). set_has l name)
        (derive_default-skips (derive_dlp (apply_specs start specs)))
      ∙ apply_specs-skips start specs name
      ∙ ap (λ (b : Bool). b || skipped_by specs name) (set_has-insert_keys [] base.skip_checks name)
