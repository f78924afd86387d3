-- ===== src/ExtProc/Conservation.antt =====
-- What a whole stream does to the shared budget (internal/server/extproc/processor.go).
use elchi_shield.Prelude.{
  ℕ, suc, ◌+◌, ◌≤◌, Bool, true, false, ◌≡◌, refl, List, [], ◌∷◌, Option, none, some, not, ◌&&◌,
  ◌||◌, if◌then◌else◌, if_rule, Option-cases, inl, inr, ap, ◌∙◌, arith,
}
use elchi_shield.Strings.{Text, lit, is_empty}
use elchi_shield.Decision.{Decision, is_block}
use elchi_shield.Engine.{direction_request, direction_response}
use elchi_shield.Policy.{is_enforcing, mutates_body}
use elchi_shield.Transaction.{Transaction, Snapshot, header, fresh}
use elchi_shield.Transaction.Account.{
  IsBalanced, account, account-IsBalanced, held_budget, held_bytes, used, owns,
  begin_response-IsBalanced,
}
use elchi_shield.Stages.Balance.{request_prelude-Balances, response_prelude-Balances}
use elchi_shield.ExtProc.Budget.Interleaving.{release_pos}
use elchi_shield.ExtProc.Session.{
  request_body_mutation, request_body_continue, response_body_mutation, response_body_continue,
  request_trailers_continue, response_trailers_continue, Session, Processor, Ambient, Message,
  Response, RawHeader,
}
use elchi_shield.ExtProc.Recording.{FilterPhase, emit_phase_findings, fail_build_decision}
use elchi_shield.ExtProc.Bodies.{inspect_buffered_body, buffer_body, decided_by}
use elchi_shield.ExtProc.Processor.{
  after_headers, is_recorded, block_or, body_answer, reopen, on_request_body, on_response_body,
  on_request_headers, on_response_headers, after_request_prelude, after_response_prelude,
  adopt_request_id, handle, serve, open_stream, process, fail_build, on_request_trailers,
  on_response_trailers,
}
use elchi_shield.ExtProc.Balance.{buffer_body-IsBalanced, emit_audit-same}
use elchi_shield.ExtProc.Recorded.{
  policy_rule, finish-S, fail_build_decision-S, reopen-S, run_inspect-S, run_prelude-S, built_rule,
  inspect_buffered_body-S,
}

module _ (l base : ℕ) where
  abbrev S : Session → Type 0
  S s = IsBalanced l base s.tx

  abbrev Answers : Response × Session → Type 0
  Answers r = S r.1

  block_or-S : (r : Response) (o : Option Decision × Session) → S o.1 → Answers (block_or r o)
  block_or-S r (none, s) v = v
  block_or-S r (some d, s) v = if_rule Answers (is_block d) (λ h. v) (λ h. v)

  body_answer-S :
      (mutation : Text → List Text → Response) (cont : Response) (o : Option Decision × Session)
      → S o.1
      → Answers (body_answer mutation cont o)
  body_answer-S mutation cont (none, s) v = if_rule Answers s.tx.body_mutated (λ h. v) (λ h. v)
  body_answer-S mutation cont (some d, s) v =
      if_rule Answers (is_block d) (λ h. v) λ h. if_rule Answers s.tx.body_mutated (λ h. v) (λ h. v)

  after_headers-S :
      (pr : Processor) (amb : Ambient) (ph : FilterPhase) (eos : Bool) (buffer done : Response)
      (o : Decision × Session)
      → S o.1
      → Answers (after_headers pr amb ph eos buffer done o)
  unfolding after_headers
  after_headers-S pr amb ph eos buffer done (d, s) v =
      let emitted : S (if is_recorded d.action then emit_phase_findings pr amb d ph s else s) =
        if_rule S (is_recorded d.action)
          (λ h.
            unfold emit_phase_findings in
            account-IsBalanced l base (ap account (emit_audit-same pr amb d _ _)) v)
          (λ h. v) in
      let terminal = finish-S l base pr amb d ph s v in
      if_rule Answers (is_block d) (λ h. terminal)
        λ h.
          if_rule Answers (s.tx.body_required || s.tx.waf_enabled)
            (λ i.
              if_rule Answers eos
                (λ j. block_or-S done _ (inspect_buffered_body-S l base pr amb _ emitted))
                (λ j. emitted))
            (λ i. terminal)

  fail_build-S :
      (pr : Processor) (amb : Ambient) (ph : FilterPhase) (cont : Response) (s : Session)
      → S s
      → Answers (fail_build pr amb ph cont s)
  fail_build-S pr amb ph cont s v =
      block_or-S cont (decided_by (fail_build_decision pr amb ph s))
        (fail_build_decision-S l base pr amb ph s v)

  after_request_prelude-S :
      (pr : Processor) (amb : Ambient) (eos : Bool) (o : Decision × Session)
      → S o.1
      → Answers (after_request_prelude pr amb eos o)
  unfolding after_request_prelude
  after_request_prelude-S pr amb eos (d, s) v =
      let settled = finish-S l base pr amb d _ s v in
      if_rule Answers (is_block d) (λ h. settled)
        λ h. policy_rule Answers s.tx.policy settled λ p.
          if_rule Answers (is_enforcing p)
            (λ i. built_rule l base Answers pr p (fail_build-S pr amb _ _ s v) λ pp b.
              after_headers-S pr amb _ eos _ _ _
                (run_inspect-S l base amb 1 _ s b.request_header v))
            (λ i. settled)

  after_response_prelude-S :
      (pr : Processor) (amb : Ambient) (eos : Bool) (o : Decision × Session)
      → S o.1
      → Answers (after_response_prelude pr amb eos o)
  unfolding after_response_prelude
  after_response_prelude-S pr amb eos (d, s) v =
      let settled = finish-S l base pr amb d _ s v in
      policy_rule Answers s.tx.policy settled λ p.
        if_rule Answers (is_enforcing p)
          (λ i. built_rule l base Answers pr p (fail_build-S pr amb _ _ s v) λ pp b.
            after_headers-S pr amb _ eos _ _ _ (run_inspect-S l base amb 1 _ s b.response_header v))
          (λ i. settled)

  adopt-S :
      (amb : Ambient) (tx : Transaction)
      → IsBalanced l base tx
      → IsBalanced l base (adopt_request_id amb tx)
  unfolding adopt_request_id
  adopt-S amb tx v =
      let minted : IsBalanced l base
          (if is_empty tx.request_id then record tx { request_id = amb.new_request_id } else tx) =
        if_rule (IsBalanced l base) (is_empty tx.request_id) (λ h. account-IsBalanced l base refl v)
          (λ h. v) in
      elim (Option-cases (header tx (lit "x-request-id"))) [
        | inl absent ↦ rw (absent, adopt_request_id) minted
        | inr (rid, there) ↦
            rw (there, adopt_request_id)
              (if_rule (IsBalanced l base) (is_empty rid) (λ h. minted)
                (λ h. account-IsBalanced l base refl v))
      ]

  on_request_headers-S :
      (pr : Processor) (amb : Ambient) (hs : List RawHeader) (eos : Bool) (s : Session)
      → S s
      → Answers (on_request_headers pr amb hs eos s)
  unfolding on_request_headers
  on_request_headers-S pr amb hs eos s v =
      if_rule Answers s.tx.request_settled (λ h. v)
        λ h. after_request_prelude-S pr amb eos _ (
          run_prelude-S l base amb _ _ (request_prelude-Balances l base pr.env)
            (adopt-S amb _ (account-IsBalanced l base refl v)))

  on_response_headers-S :
      (pr : Processor) (amb : Ambient) (hs : List RawHeader) (eos : Bool) (s : Session)
      → S s
      → Answers (on_response_headers pr amb hs eos s)
  unfolding on_response_headers
  on_response_headers-S pr amb hs eos s v = after_response_prelude-S pr amb eos _ (
      run_prelude-S l base amb _ _ (response_prelude-Balances l base pr.env)
        (account-IsBalanced l base refl (begin_response-IsBalanced l base s.tx v)))

  on_request_body-S :
      (pr : Processor) (amb : Ambient) (c : Text) (eos : Bool) (s : Session)
      → S s
      → Answers (on_request_body pr amb c eos s)
  unfolding on_request_body
  on_request_body-S pr amb c eos s v = policy_rule Answers s.tx.policy v λ p.
      let buffered =
        buffer_body-IsBalanced l base pr direction_request c _ (reopen-S l base c s v) in
      if_rule Answers (not eos && not (mutates_body (some p) false)) (λ h. buffered)
        λ h.
          body_answer-S request_body_mutation request_body_continue
            (inspect_buffered_body pr amb (buffer_body pr direction_request c (reopen c s)))
            (inspect_buffered_body-S l base pr amb _ buffered)

  on_response_body-S :
      (pr : Processor) (amb : Ambient) (c : Text) (eos : Bool) (s : Session)
      → S s
      → Answers (on_response_body pr amb c eos s)
  unfolding on_response_body
  on_response_body-S pr amb c eos s v = policy_rule Answers s.tx.policy v λ p.
      let buffered =
        buffer_body-IsBalanced l base pr direction_response c _ (reopen-S l base c s v) in
      if_rule Answers (not eos && not (mutates_body (some p) true)) (λ h. buffered)
        λ h.
          body_answer-S response_body_mutation response_body_continue
            (inspect_buffered_body pr amb (buffer_body pr direction_response c (reopen c s)))
            (inspect_buffered_body-S l base pr amb _ buffered)

  -- Every message leaves the account balanced: what the stream holds is what it has recorded.
  pub handle-IsBalanced :
      (pr : Processor) (amb : Ambient) (m : Message) (s : Session)
      → IsBalanced l base s.tx
      → IsBalanced l base (handle pr amb m s).1.tx
  unfolding handle on_request_trailers on_response_trailers
  handle-IsBalanced pr amb (Message.request_headers a hs eos) s v =
      on_request_headers-S pr amb hs eos _ (account-IsBalanced l base refl v)
  handle-IsBalanced pr amb (Message.request_body c eos) s v = on_request_body-S pr amb c eos s v
  handle-IsBalanced pr amb Message.request_trailers s v =
      block_or-S request_trailers_continue (inspect_buffered_body pr amb s)
        (inspect_buffered_body-S l base pr amb s v)
  handle-IsBalanced pr amb (Message.response_headers hs eos) s v =
      on_response_headers-S pr amb hs eos s v
  handle-IsBalanced pr amb (Message.response_body c eos) s v = on_response_body-S pr amb c eos s v
  handle-IsBalanced pr amb Message.response_trailers s v =
      block_or-S response_trailers_continue (inspect_buffered_body pr amb s)
        (inspect_buffered_body-S l base pr amb s v)
  handle-IsBalanced pr amb Message.unknown s v = v

  serve-S : (pr : Processor) (ms : List (Ambient × Message)) (s : Session) → S s → S (serve pr ms s)
  unfolding serve
  serve-S pr [] s v = v
  serve-S pr ((amb, m) ∷ ms) s v = serve-S pr ms _ (handle-IsBalanced pr amb m s v)

-- A stream leaves the shared budget as it found it, whatever messages it serves, whatever policy it
-- resolves and whatever the engines answer: with a limit that is set, and `base` bytes within it in
-- use by other streams, exactly `base` bytes are in use once the stream has ended.
pub process_conserves :
    (l base : ℕ) (pr : Processor) (snap : Snapshot) (ms : List (Ambient × Message))
    → base ≤ suc l
    → process pr snap (used l base) ms ≡ some (used l base)
unfolding process open_stream
process_conserves l base pr snap ms h =
    let v = serve-S l base pr ms (open_stream pr snap (used l base)) (record {
      reserved = 0;
      capped = omega (arith, h);
      holds = unfold fresh in ap (λ (u : ℕ). owns l u 0) (omega arith);
    }) in
    rw (held_budget v, held_bytes v)
      (ap some
        (release_pos l (base + v.reserved) v.reserved (omega arith) ∙ ap (used l) (omega arith)))
