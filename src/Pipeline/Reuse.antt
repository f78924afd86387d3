-- ===== src/Pipeline/Reuse.antt =====
-- Runs over a transaction from the pool (internal/pipeline/transaction.go and pipeline.go).
use elchi_shield.Prelude.{◌≡◌, refl}
use elchi_shield.Decision.{Decision}
use elchi_shield.Transaction.{Transaction, fresh, reset}
use elchi_shield.Pipeline.{Pipeline, Context, run}

-- What a new use sees of the last one: after a reset the decision of the last run alone is left, and
-- no run depends on the decision that it finds.
pub reset-IsForgotten :
    (tx next : Transaction) (ctx : Context) (p : Pipeline) (old : Decision)
    → (reset tx ≡ record fresh { result = tx.result })
      × (run ctx p (record next { result = old }) ≡ run ctx p next)
unfolding reset fresh run
reset-IsForgotten tx next ctx p old = (refl, refl)
