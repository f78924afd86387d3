-- ===== src/Config/NoSilentCheck.antt =====
-- A body check that a policy configures has its body inspected (internal/config/policy.go, with
-- compileDLP of internal/policy/policy.go).
use elchi_shield.Prelude.{
  Bool, true, false, ◌&&◌, ◌||◌, not, ◌≡◌, refl, ap, ◌∙◌, List, [], Option, none, some, if_rule,
  Bool-cases, inl, inr, subst, arith,
}
use elchi_shield.Strings.{Text, lit, text_eq, is_empty}
use elchi_shield.Strings.Equality.{text_eq→≡}
use elchi_shield.Policy.{BodyChecks, DlpSpec, compile_dlp}
use elchi_shield.Config.{
  PolicySpec, ResolvedPolicy, apply_specs, dlp_of, dlp_request, dlp_response, wants_body,
  derive_dlp, derive_default, resolve_policy, insert_keys,
}

on_request-derived : (d : DlpSpec) → (compile_dlp d).on_request ≡ true → dlp_request (some d) ≡ true
unfolding compile_dlp dlp_request
on_request-derived d h = h

-- What DLP does not run on under "request" is the response alone.
on_response-derived :
    (d : DlpSpec) → (compile_dlp d).on_response ≡ true → dlp_response (some d) ≡ true
unfolding compile_dlp dlp_response text_eq lit
on_response-derived d h = elim (Bool-cases (text_eq d.direction (lit "request"))) [
  | inl only ↦
      let direction : d.direction ≡ lit "request" = text_eq→≡ d.direction (lit "request") only in
      let h' : (is_empty (lit "request")
            || text_eq (lit "request") (lit "response")
            || text_eq (lit "request") (lit "both"))
          ≡ true =
        subst
          (λ (t : Text).
            (is_empty t || text_eq t (lit "response") || text_eq t (lit "both")) ≡ true)
          direction h in
      absurd cc
  | inr other ↦ ap not other
]

or_snd : (a b : Bool) → b ≡ true → (a || b) ≡ true
or_snd a b h = ground arith

unasked : (w r q : Bool) → (w && not r && not q) ≡ false → w ≡ true → (r || q) ≡ true
unasked w r q h k = ground arith

-- Whether the DLP of a policy is compiled to run on requests, and on responses.
abbrev runs_on_request : Option DlpSpec → Bool
runs_on_request none = false
runs_on_request (some d) = (compile_dlp d).on_request

abbrev runs_on_response : Option DlpSpec → Bool
runs_on_response none = false
runs_on_response (some d) = (compile_dlp d).on_response

runs_on_request-derived : (o : Option DlpSpec) → runs_on_request o ≡ true → dlp_request o ≡ true
runs_on_request-derived none h = absurd cc
runs_on_request-derived (some d) h = on_request-derived d h

runs_on_response-derived : (o : Option DlpSpec) → runs_on_response o ≡ true → dlp_response o ≡ true
runs_on_response-derived none h = absurd cc
runs_on_response-derived (some d) h = on_response-derived d h

abbrev implies : Bool → Bool → Bool
implies a b = not a || b

implies_lem : (a b : Bool) → (a ≡ true → b ≡ true) → implies a b ≡ true
implies_lem true b h = h refl
implies_lem false b h = refl

module _ {E F : Type 0} where
  -- The switch on the direction of DLP.
  abbrev DlpInspected : ResolvedPolicy E F → Type 0
  DlpInspected p =
      (dlp_request (dlp_of p.checks.body) ≡ true → p.inspect_request_body ≡ true)
      × (dlp_response (dlp_of p.checks.body) ≡ true → p.inspect_response_body ≡ true)

  abbrev BodyInspected : ResolvedPolicy E F → Type 0
  BodyInspected p =
      wants_body p.checks.body ≡ true → (p.inspect_request_body || p.inspect_response_body) ≡ true

  derive_dlp-DlpInspected : (p : ResolvedPolicy E F) → DlpInspected (derive_dlp p)
  unfolding derive_dlp
  derive_dlp-DlpInspected p = (or_snd p.inspect_request_body _, or_snd p.inspect_response_body _)

  derive_default-both :
      (p : ResolvedPolicy E F)
      → DlpInspected p
      → DlpInspected (derive_default p) × BodyInspected (derive_default p)
  unfolding derive_default
  derive_default-both p (rq, rs) =
      if_rule (λ (q : ResolvedPolicy E F). DlpInspected q × BodyInspected q)
        (wants_body p.checks.body && not p.inspect_request_body && not p.inspect_response_body)
        (λ h. ((λ k. refl, rs), λ k. refl))
        (λ h. (
          (rq, rs),
          unasked (wants_body p.checks.body) p.inspect_request_body p.inspect_response_body h,
        ))

  -- Each of the body checks has an inspected body: DLP those of the directions that it is compiled to
  -- run on, and the checks of JSON and of sensitive data at least one.
  abbrev pub IsInspected : ResolvedPolicy E F → BodyChecks → Type 0
  IsInspected p b =
      (implies (runs_on_request b.dlp) p.inspect_request_body ≡ true)
      × (implies (runs_on_response b.dlp) p.inspect_response_body ≡ true)
      × (implies (b.require_json || b.detect_sensitive_data)
            (p.inspect_request_body || p.inspect_response_body)
          ≡ true)

  both-IsInspected :
      (p : ResolvedPolicy E F) (b : BodyChecks)
      → p.checks.body ≡ some b
      → DlpInspected p
      → BodyInspected p
      → IsInspected p b
  both-IsInspected p b e (rq, rs) body = (
    implies_lem (runs_on_request b.dlp) p.inspect_request_body (λ h. rq (
        ap (λ (o : Option BodyChecks). dlp_request (dlp_of o)) e
        ∙ runs_on_request-derived b.dlp h)),
    implies_lem (runs_on_response b.dlp) p.inspect_response_body (λ h. rs (
        ap (λ (o : Option BodyChecks). dlp_response (dlp_of o)) e
        ∙ runs_on_response-derived b.dlp h)),
    implies_lem (b.require_json || b.detect_sensitive_data)
        (p.inspect_request_body || p.inspect_response_body) (λ h. body (ap wants_body e ∙ h)),
  )

  -- No body check of a resolved policy is a silent no-op: a direction that its DLP block is compiled
  -- to run on is inspected, and a policy with the JSON or the sensitive data check inspects the body
  -- of the request or of the response.
  pub resolve_policy-IsInspected :
      (base : ResolvedPolicy E F) (specs : List (PolicySpec E F)) (b : BodyChecks)
      → (resolve_policy base specs).checks.body ≡ some b
      → IsInspected (resolve_policy base specs) b
  unfolding resolve_policy
  resolve_policy-IsInspected base specs b e =
      let merged : ResolvedPolicy E F =
        apply_specs (record base { skip_checks = insert_keys [] base.skip_checks }) specs in
      let (dlp, body) = derive_default-both (derive_dlp merged) (derive_dlp-DlpInspected merged) in
      both-IsInspected (derive_default (derive_dlp merged)) b e dlp body
