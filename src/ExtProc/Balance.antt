-- ===== src/ExtProc/Balance.antt =====
-- The account of a stream with the budget through the handlers (internal/server/extproc/processor.go).
use elchi_shield.Prelude.{
  ℕ, ◌+◌, ◌-◌, ◌≤◌, false, ◌≡◌, refl, List, [], ◌∷◌, Option, some, not, suc, if◌then◌else◌, if_rule,
  length, take, ap, ◌∙◌, sym, arith, length-take,
}
use elchi_shield.Prelude.Int.{ℤ, pos, ltb_ℤ, ◌+ℤ◌, ◌-ℤ◌}
use elchi_shield.Strings.{Text, is_empty}
use elchi_shield.Decision.{Decision}
use elchi_shield.Engine.{Direction}
use elchi_shield.Transaction.{Transaction, append_body}
use elchi_shield.Transaction.Body.{append_body-IsStored}
use elchi_shield.Transaction.Account.{
  IsBalanced, account, owns, account-IsBalanced, held_budget, held_bytes, used, acquire_grant,
}
use elchi_shield.ExtProc.Budget.{BodyBudget, release}
use elchi_shield.ExtProc.Budget.Interleaving.{release_pos, add_pos}
use elchi_shield.ExtProc.Session.{emit, decided, Session, Processor, Ambient}
use elchi_shield.ExtProc.Recording.{
  FilterPhase, at_request_headers, at_request_body, at_response_headers, at_response_body,
  phase_name, is_finding, settle, finish, emit_audit, emit_findings,
}
use elchi_shield.ExtProc.Bodies.{store_granted, buffer_body, body_limit, released, acquired}

emit_findings-same :
    (pr : Processor) (ph : Text) (fs : List Decision) (s : Session)
    → (emit_findings pr ph fs s).tx ≡ s.tx
unfolding emit_findings
emit_findings-same pr ph [] s = refl
emit_findings-same pr ph (f ∷ fs) s = emit_findings-same pr ph fs _

pub emit_audit-same :
    (pr : Processor) (amb : Ambient) (d : Decision) (ph : Text) (s : Session)
    → (emit_audit pr amb d ph s).tx ≡ s.tx
unfolding emit_audit
emit_audit-same pr amb d ph s =
    let P : Session → Type 0 = λ t. t.tx ≡ s.tx in
    if_rule P (not pr.auditing) (λ h. refl)
      λ h.
        if_rule P (not (is_empty s.tx.findings)) (λ h. emit_findings-same pr ph s.tx.findings s)
          λ h.
            if_rule P (is_finding d.action) (λ h. refl)
              λ h. if_rule P amb.sampled (λ h. refl) λ h. refl

settle-account : (ph : FilterPhase) (tx : Transaction) → account (settle ph tx) ≡ account tx
settle-account at_request_headers tx = refl
settle-account at_request_body tx = refl
settle-account at_response_headers tx = refl
settle-account at_response_body tx = refl

pub finish-account :
    (pr : Processor) (amb : Ambient) (d : Decision) (ph : FilterPhase) (s : Session)
    → account (finish pr amb d ph s).tx ≡ account s.tx
unfolding finish
finish-account pr amb d ph s =
    let settled = record s { tx = settle ph s.tx } in
    let logged = emit settled (decided (phase_name ph) d) in
    ap account (emit_audit-same pr amb d _ _)
    ∙ if_rule (λ (t : Session). account t.tx ≡ account s.tx) logged.tx.body_required
        (λ h. settle-account ph s.tx) (λ h. settle-account ph s.tx)

settle-latch :
    (ph : FilterPhase) (tx : Transaction) → (settle ph tx).body_inspected ≡ tx.body_inspected
settle-latch at_request_headers tx = refl
settle-latch at_request_body tx = refl
settle-latch at_response_headers tx = refl
settle-latch at_response_body tx = refl

pub finish-latch :
    (pr : Processor) (amb : Ambient) (d : Decision) (ph : FilterPhase) (s : Session)
    → (finish pr amb d ph s).tx.body_inspected ≡ s.tx.body_inspected
unfolding finish
finish-latch pr amb d ph s =
    let settled = record s { tx = settle ph s.tx } in
    let logged = emit settled (decided (phase_name ph) d) in
    ap (λ (t : Transaction). t.body_inspected) (emit_audit-same pr amb d _ _)
    ∙ if_rule (λ (t : Session). t.tx.body_inspected ≡ s.tx.body_inspected) logged.tx.body_required
        (λ h. settle-latch ph s.tx) (λ h. settle-latch ph s.tx)

append_body-account :
    (tx : Transaction) (c : Text) (max : ℕ) → account (append_body tx c max).0 ≡ account tx
unfolding append_body
append_body-account tx c max = ground arith

sub_pos : (g k : ℕ) → k ≤ g → pos g -ℤ pos k ≡ pos (g - k)
sub_pos g k h = ground arith

-- The account once `k` of the bytes granted are stored, with what came back.
abbrev paid : Option BodyBudget → ℤ → ℕ → Option BodyBudget × ℤ
paid b r k = (b, r +ℤ pos k)

-- The grant `g` becomes the `k` bytes that are stored, and the rest goes back.
refunded :
    (l base r g k : ℕ)
    → k ≤ g
    → paid (some (release (used l (base + (r + g))) (pos g -ℤ pos k))) (pos r) k
      ≡ owns l (base + (r + k)) (r + k)
refunded l base r g k h =
    rw (sub_pos g k h, release_pos l (base + (r + g)) (g - k) (omega arith), add_pos r k)
      (ap (λ (u : ℕ). owns l u (r + k)) (omega arith))

kept_all :
    (l base r g k : ℕ)
    → k ≤ g
    → ltb_ℤ (pos k) (pos g) ≡ false
    → paid (some (used l (base + (r + g)))) (pos r) k ≡ owns l (base + (r + k)) (r + k)
kept_all l base r g k h full =
    let all : k ≡ g = ground arith in
    rw (add_pos r k) (ap (λ (j : ℕ). owns l (base + (r + j)) (r + k)) (sym all))

abbrev charged : Option BodyBudget → ℤ → Option BodyBudget × ℤ
charged b r = (b, r)

owns_eq : {l u w r : ℕ} {h : ℤ} → u ≡ w → h ≡ pos r → charged (some (used l u)) h ≡ owns l w r
owns_eq p q = cc

module _ (l base : ℕ) where
  abbrev S : Session → Type 0
  S s = IsBalanced l base s.tx

  store_granted-S :
      (pr : Processor) (dir : Direction) (chunk : Text) (s : Session) (r g : ℕ)
      → account s.tx ≡ owns l (base + (r + g)) r
      → base + (r + g) ≤ suc l
      → S (store_granted pr dir chunk (pos g) s)
  unfolding store_granted
  store_granted-S pr dir chunk s r g e fits =
      let out = append_body s.tx (take g chunk) (body_limit pr s.tx.policy dir) in
      let same = append_body-account s.tx (take g chunk) (body_limit pr s.tx.policy dir) ∙ e in
      let within : out.1 ≤ g = omega (
        arith,
        length-take g chunk,
        (append_body-IsStored s.tx (take g chunk) (body_limit pr s.tx.policy dir)).within,
      ) in
      let grown = record (out.0) { body_reserved = out.0.body_reserved +ℤ pos out.1 } in
      let back : IsBalanced l base (
          if ltb_ℤ (pos out.1) (pos g)
          then record grown { budget = released grown.budget (pos g -ℤ pos out.1) }
          else grown) =
        if_rule (IsBalanced l base) (ltb_ℤ (pos out.1) (pos g))
          (λ h. record {
            reserved = r + out.1;
            capped = omega (arith, within, fits);
            holds =
                ap
                  (λ (a : Option BodyBudget × ℤ).
                    (released a.0 (pos g -ℤ pos out.1), a.1 +ℤ pos out.1))
                  same
                ∙ refunded l base r g out.1 within;
          })
          (λ h. record {
            reserved = r + out.1;
            capped = omega (arith, within, fits);
            holds =
                ap (λ (a : Option BodyBudget × ℤ). (a.0, a.1 +ℤ pos out.1)) same
                ∙ kept_all l base r g out.1 within h;
          }) in
      if_rule S out.2 (λ h. account-IsBalanced l base refl back)
        (λ h. account-IsBalanced l base refl back)

  pub buffer_body-IsBalanced :
      (pr : Processor) (dir : Direction) (chunk : Text) (s : Session)
      → S s
      → S (buffer_body pr dir chunk s)
  unfolding buffer_body
  buffer_body-IsBalanced pr dir chunk s v =
      let (g, grant, small, fits) = acquire_grant l (base + v.reserved) (length chunk) v.capped in
      let got : acquired s.tx.budget (pos (length chunk))
          ≡ (pos g, some (used l (base + v.reserved + g))) =
        rw (held_budget v, acquired) (rw grant refl) in
      if_rule S (is_empty chunk) (λ h. v)
        λ h. rw got (
          let paid_for = record s {
            tx = record s.tx { budget = some (used l (base + v.reserved + g)) };
          } in
          let stored : S (
              if ltb_ℤ (pos 0) (pos g)
              then store_granted pr dir chunk (pos g) paid_for
              else paid_for) =
            if_rule S (ltb_ℤ (pos 0) (pos g))
              (λ i.
                store_granted-S pr dir chunk paid_for v.reserved g
                  (owns_eq (omega arith) (held_bytes v)) (omega (arith, fits)))
              (λ i.
                let none_granted : g ≡ 0 = ground arith in
                record {
                  reserved = v.reserved;
                  capped = v.capped;
                  holds = owns_eq (omega (arith, none_granted)) (held_bytes v);
                }) in
          if_rule S (ltb_ℤ (pos g) (pos (length chunk)))
            (λ i. account-IsBalanced l base refl stored) (λ i. stored))
