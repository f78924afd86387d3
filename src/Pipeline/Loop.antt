-- ===== src/Pipeline/Loop.antt =====
-- The invariant rule of the executor's loop (internal/pipeline/pipeline.go).
use elchi_shield.Prelude.{suc, true, List, [], ◌∷◌, All, Bool-cases, inl, inr}
use elchi_shield.Decision.{Decision}
use elchi_shield.Engine.{Readings}
use elchi_shield.Transaction.{Transaction}
use elchi_shield.Pipeline.{
  Stage, Context, Flow, go, stop, gated, run_stage, flow, fail_posture, resume, run_stages,
}

module _ (I Post : Transaction → Decision → Type 0) where
  -- The invariant where the loop goes on, the postcondition where it stops.
  abbrev pub Continues : Flow → Type 0
  Continues (go tx final) = I tx final
  Continues (stop tx d) = Post tx d

  -- A stage that the loop may run.
  abbrev pub Keeps : Stage → Type 0
  Keeps s =
      (readings : Readings) (tx : Transaction) (final : Decision)
      → I tx final
      → Continues (flow (run_stage readings s tx).1 (run_stage readings s tx).0 final)

  -- The invariant does not look at the copy of the running decision.
  abbrev pub IsBlind : Type 0
  IsBlind = (tx : Transaction) (d : Decision) → I tx d → I (record tx { result = d }) d

  resumed :
      IsBlind
      → (f : Flow) (rest : Transaction → Decision → Transaction × Decision) → Continues f
      → ((tx : Transaction) (d : Decision) → I tx d → Post (rest tx d).0 (rest tx d).1)
      → Post (resume f rest).0 (resume f rest).1
  resumed blind (go tx final) rest h k = k _ final (blind tx final h)
  resumed blind (stop tx d) rest h k = h

  pub run_stages_rule :
      IsBlind
      → ((tx : Transaction) (final : Decision) → I tx final → Post tx final)
      → ((tx : Transaction) (final : Decision) → I tx final → Post tx (fail_posture tx final true))
      → (ctx : Context) (ss : List Stage) (tx : Transaction) (final : Decision) → All Keeps ss
      → I tx final
      → Post (run_stages ctx ss tx final).0 (run_stages ctx ss tx final).1
  unfolding run_stages
  run_stages_rule blind finish late ctx [] tx final keep h = finish tx final h
  run_stages_rule blind finish late ctx (s ∷ ss) tx final (keep, keeps) h =
      let ih = λ (c : Context) (t : Transaction) (d : Decision) (i : I t d).
        run_stages_rule blind finish late c ss t d keeps i in
      elim (Bool-cases (gated s.phase tx)) [
        | inl off ↦ rw off (ih ctx tx final h)
        | inr on ↦ elim (Bool-cases (ctx 0 0)) [
          | inl done ↦ rw (on, done) (late tx final h)
          | inr live ↦ rw (on, live) (resumed blind _ _ (keep _ tx final h) (ih (λ n. ctx (suc n))))
        ]
      ]
