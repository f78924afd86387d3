-- ===== src/Stages/Orders.antt =====
-- The pipelines of a validated policy (internal/pipeline/stages/catalog.go, with internal/config and
-- FromResolved of internal/policy/policy.go).
use elchi_shield.Prelude.{
  Bool, true, false, ◌||◌, ◌≡◌, refl, ◌∙◌, List, [], ◌∷◌, Option, none, some, is_some, All, if_rule,
  option_rule, arith,
}
use elchi_shield.Strings.{Text, lit, text_eq, set_has}
use elchi_shield.Strings.Equality.{text_eq_comm}
use elchi_shield.Config.{PolicySpec, default_policy, resolve_policy}
use elchi_shield.Config.Validate.{known_inspectors, validate_spec}
use elchi_shield.Config.Validated.{IsOrder, Where}
use elchi_shield.Config.Sane.{resolve_policy-IsSane}
use elchi_shield.Policy.Resolved.{from_resolved}
use elchi_shield.Pipeline.{Stage}
use elchi_shield.Stages.Env.{Env}
use elchi_shield.Stages.Catalog.{
  inspector, partition, split, paired, order_or_default, default_pipeline_order,
  build_policy_pipelines,
}

some_not_none : {A : Type 0} (o : Option A) → o ≡ none → is_some o ≡ true → ⊥
some_not_none none e h = absurd cc
some_not_none (some a) e h = absurd cc

neither_known :
    (a b c : Bool) → (a || (b || (c || false))) ≡ true → a ≡ false → b ≡ false → c ≡ false → ⊥
neither_known a b c h p q r = ground arith

both_some :
    (o q : Option (List Stage × List Stage))
    → is_some o ≡ true
    → is_some q ≡ true
    → is_some (paired o q) ≡ true
both_some none q h k = absurd cc
both_some (some a) none h k = absurd cc
both_some (some a) (some b) h k = refl

abbrev AllKnown : List Text → Type 0
AllKnown names = All (λ n. set_has known_inspectors n ≡ true) names

module _ (env : Env) where
  inspector-known :
      (n : Text) → set_has known_inspectors n ≡ true → is_some (inspector env n) ≡ true
  unfolding inspector set_has known_inspectors
  inspector-known n h =
      let P : Option Stage → Type 0 = λ o. is_some o ≡ true in
      if_rule P (text_eq n (lit "fast_pre_checks")) (λ p. refl)
        λ p.
          if_rule P (text_eq n (lit "body_checks")) (λ q. refl)
            λ q.
              if_rule P (text_eq n (lit "waf_engine")) (λ r. refl)
                λ r. absurd (
                  neither_known (text_eq (lit "fast_pre_checks") n) (text_eq (lit "body_checks") n)
                    (text_eq (lit "waf_engine") n) h (text_eq_comm (lit "fast_pre_checks") n ∙ p)
                    (text_eq_comm (lit "body_checks") n ∙ q)
                    (text_eq_comm (lit "waf_engine") n ∙ r))

  abbrev Splits : Option (List Stage × List Stage) → Type 0
  Splits o = is_some o ≡ true

  partition-known : (names : List Text) → AllKnown names → Splits (partition env names)
  unfolding partition
  partition-known [] h = refl
  partition-known (n ∷ names) (h, hs) =
      option_rule Splits (partition env names)
        (λ e. absurd (some_not_none (partition env names) e (partition-known names hs)))
        λ hb e.
          if_rule Splits (text_eq n (lit "waf_engine")) (λ w. refl)
            λ w.
              option_rule Splits (inspector env n)
                (λ f. absurd (some_not_none (inspector env n) f (inspector-known n h))) λ st f. refl

  split-known : (names : List Text) → AllKnown names → Splits (split env names)
  unfolding split
  split-known names h =
      option_rule Splits (partition env names)
        (λ e. absurd (some_not_none (partition env names) e (partition-known names h))) λ hb e. refl

  split-order :
      (order : Option (List Text))
      → Where order IsOrder
      → Splits (split env (order_or_default order))
  unfolding default_pipeline_order known_inspectors set_has text_eq lit
  split-order none h = split-known default_pipeline_order (refl, (refl, (refl, tt)))
  split-order (some names) (h, unique) = split-known names h

  -- The pipelines of a policy that is resolved from the built-in defaults and policies in which
  -- validation finds no problem are built without an error.
  pub resolve_policy-builds :
      {E F : Type 0} (valid_rate : F → Bool) (rate : F) (specs : List (PolicySpec E F)) (id : Text)
      → valid_rate rate ≡ true
      → All (λ s. validate_spec valid_rate s ≡ []) specs
      → is_some (
          build_policy_pipelines env
            (from_resolved id (resolve_policy (default_policy rate) specs)))
        ≡ true
  unfolding build_policy_pipelines from_resolved
  resolve_policy-builds valid_rate rate specs id h hs =
      let p = resolve_policy (default_policy rate) specs in
      let (m, f, r, q, s, b, t, a, l, qo, so) = resolve_policy-IsSane valid_rate rate specs h hs in
      both_some (split env (order_or_default p.request_order))
        (split env (order_or_default p.response_order)) (split-order p.request_order qo)
        (split-order p.response_order so)
