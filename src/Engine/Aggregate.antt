-- ===== src/Engine/Aggregate.antt =====
-- How a set of engines answers: when it blocks, with which severity, and with what score.
use elchi_shield.Prelude.{
  ◌++◌, ap, ◌∙◌, ℕ, suc, ◌+◌, ◌≤◌, ◌<◌, ◌%◌, ◌^◌, if_rule, Bool, true, false, ◌||◌, ◌≡◌, refl, inl,
  inr, List, [], ◌∷◌, Option, none, some, Option-cases, arith, All, any,
}
use elchi_shield.Prelude.Int.{ℤ, ◌+ℤ◌, pos, negsuc, pos_part, ltb_ℤ, wrap_64}
use elchi_shield.Decision.{Verdict, blocking, rank}
use elchi_shield.Engine.{
  Set, SecurityEngine, Request, Readings, Error, Answer, verdict, failed, panicked, Tally, no_tally,
  worse, add_score, inspect_loop, inspect,
}

-- The verdict of an engine that is wanted and answers with one.
abbrev given : Bool → Answer → Option Verdict
given true (verdict v) = some v
given _ _ = none

abbrev pub verdict_of : (SecurityEngine → Bool) → Request → SecurityEngine → Option Verdict
verdict_of want req e = given (want e) (e.inspect req)

abbrev pub blocks : Option Verdict → Bool
blocks none = false
blocks (some v) = blocking v.action

abbrev pub positive : Option Verdict → ℕ
positive none = 0
positive (some v) = pos_part v.score

-- The positive scores of the wanted engines.
abbrev pub positive_sum : (SecurityEngine → Bool) → Request → Set → ℕ
positive_sum want req [] = 0
positive_sum want req (e ∷ s) = positive (verdict_of want req e) + positive_sum want req s

-- Not a block, or a block of at most the given rank.
abbrev pub IsWithin : ℕ → Option Verdict → Type 0
IsWithin n none = Unit
IsWithin n (some v) = blocking v.action ≡ true → rank v.severity ≤ n

-- The context is never done.
abbrev pub IsLive : Readings → Type 0
IsLive ctx = (n : ℕ) → ctx n ≡ false

worse-blocks :
    (a v : Verdict) → blocking (worse a v).action ≡ (blocking v.action || blocking a.action)
unfolding worse
worse-blocks a v = ground arith

worse-rank :
    (a v : Verdict)
    → blocking a.action ≡ true
    → (rank a.severity ≤ rank (worse a v).severity) × (blocking (worse a v).action ≡ true)
unfolding worse
worse-rank a v h = ground arith

worse-IsWithin :
    (a v : Verdict) → blocking v.action ≡ true → rank v.severity ≤ rank (worse a v).severity
unfolding worse
worse-IsWithin a v h = ground arith

wrap-small : (n : ℕ) → n < 2 ^ 63 → wrap_64 (pos n) ≡ pos n
unfolding wrap_64
wrap-small n h = let same : n % 2 ^ 64 ≡ n = omega (arith, h) in rw same (ground (arith, h))

-- Adding two positive numbers.
add_score-pos :
    (n : ℕ) (z : ℤ) → pos_part z + n < 2 ^ 63 → add_score (pos n) z ≡ pos (pos_part z + n)
unfolding add_score
add_score-pos n (pos k) h =
    if_rule (λ (t : ℤ). t ≡ pos (k + n)) (ltb_ℤ (pos 0) (pos k))
      (λ p.
        let sum : pos n +ℤ pos k ≡ pos (k + n) = ground arith in
        ap wrap_64 sum ∙ wrap-small (k + n) h)
      (λ p. ground arith)
add_score-pos n (negsuc k) h = ground arith

-- What a round of the loop does to the tally: `none` is a panic.
abbrev advance : Bool → Answer → Tally → Option Tally
advance false a t = some t
advance true (verdict v) t =
    some (record t { worst = worse t.worst v; total = add_score t.total v.score })
advance true (failed err) t = some (record t { errs = t.errs ++ (err ∷ []) })
advance true panicked t = none

module _ (want : SecurityEngine → Bool) (req : Request) where
  -- A round of the loop on a live context, taken apart.
  loop_cons :
      (e : SecurityEngine) (s : Set) (ctx : Readings) (t u : Tally) (w : Bool) (a : Answer)
      → want e ≡ w
      → e.inspect req ≡ a
      → IsLive ctx
      → inspect_loop want req ctx (e ∷ s) t ≡ some u
      → (t' : Tally) × (ctx' : Readings) × (advance w a t ≡ some t')
        × IsLive ctx'
        × (inspect_loop want req ctx' s t' ≡ some u)
  unfolding inspect_loop
  loop_cons e s ctx t u false a p q live h = (t, ctx, refl, live, ground arith)
  loop_cons e s ctx t u true (verdict v) p q live h =
      (_, (λ n. ctx (suc n)), refl, (λ n. live (suc n)), ground (arith, live 0))
  loop_cons e s ctx t u true (failed err) p q live h =
      (_, (λ n. ctx (suc n)), refl, (λ n. live (suc n)), ground (arith, live 0))
  loop_cons e s ctx t u true panicked p q live h = absurd (ground (arith, live 0))

  advance-blocks :
      (w : Bool) (a : Answer) (t t' : Tally)
      → advance w a t ≡ some t'
      → blocking t'.worst.action ≡ (blocks (given w a) || blocking t.worst.action)
  advance-blocks false a t t' h = ground arith
  advance-blocks true (verdict v) t t' h = ground (arith, worse-blocks t.worst v)
  advance-blocks true (failed err) t t' h = ground arith
  advance-blocks true panicked t t' h = cc

  loop_blocks :
      (s : Set) (ctx : Readings) (t u : Tally)
      → IsLive ctx
      → inspect_loop want req ctx s t ≡ some u
      → blocking u.worst.action
        ≡ (blocking t.worst.action || any (λ e. blocks (verdict_of want req e)) s)
  loop_blocks [] ctx t u live h = unfold inspect_loop in ground arith
  loop_blocks (e ∷ s) ctx t u live h =
      let (t', ctx', moved, live', rest) = loop_cons e s ctx t u _ _ refl refl live h in
      ground (arith, loop_blocks s ctx' t' u live' rest, advance-blocks _ _ t t' moved)

  advance-total :
      (w : Bool) (a : Answer) (t t' : Tally) (n : ℕ)
      → advance w a t ≡ some t'
      → t.total ≡ pos n
      → positive (given w a) + n < 2 ^ 63
      → t'.total ≡ pos (positive (given w a) + n)
  advance-total false a t t' n h p small = ground arith
  advance-total true (verdict v) t t' n h p small = ground (arith, add_score-pos n v.score small)
  advance-total true (failed err) t t' n h p small = ground arith
  advance-total true panicked t t' n h p small = cc

  loop_total :
      (s : Set) (ctx : Readings) (t u : Tally) (n : ℕ)
      → IsLive ctx
      → inspect_loop want req ctx s t ≡ some u
      → t.total ≡ pos n
      → n + positive_sum want req s < 2 ^ 63
      → u.total ≡ pos (n + positive_sum want req s)
  loop_total [] ctx t u n live h p small = unfold inspect_loop in ground arith
  loop_total (e ∷ s) ctx t u n live h p small =
      let (t', ctx', moved, live', rest) = loop_cons e s ctx t u _ _ refl refl live h in
      ground (
        arith,
        loop_total s ctx' t' u (positive (verdict_of want req e) + n) live' rest
            (advance-total _ _ t t' n moved p (omega (arith, small))) (omega (arith, small)),
      )

  advance-rank :
      (w : Bool) (a : Answer) (t t' : Tally)
      → advance w a t ≡ some t'
      → blocking t.worst.action ≡ true
      → (rank t.worst.severity ≤ rank t'.worst.severity) × (blocking t'.worst.action ≡ true)
  advance-rank false a t t' h b = ground arith
  advance-rank true (verdict v) t t' h b = ground (arith, worse-rank t.worst v b)
  advance-rank true (failed err) t t' h b = ground arith
  advance-rank true panicked t t' h b = cc

  loop_rank :
      (s : Set) (ctx : Readings) (t u : Tally)
      → IsLive ctx
      → inspect_loop want req ctx s t ≡ some u
      → blocking t.worst.action ≡ true
      → rank t.worst.severity ≤ rank u.worst.severity
  loop_rank [] ctx t u live h b = unfold inspect_loop in ground arith
  loop_rank (e ∷ s) ctx t u live h b =
      let (t', ctx', moved, live', rest) = loop_cons e s ctx t u _ _ refl refl live h in
      let (le, b') = advance-rank _ _ t t' moved b in
      omega (arith, le, loop_rank s ctx' t' u live' rest b')

  advance-IsWithin :
      (w : Bool) (a : Answer) (t t' : Tally) (n : ℕ)
      → advance w a t ≡ some t'
      → (blocking t'.worst.action ≡ true → rank t'.worst.severity ≤ n)
      → IsWithin n (given w a)
  advance-IsWithin false a t t' n h k = tt
  advance-IsWithin true (verdict v) t t' n h k =
      λ b. ground (arith, worse-IsWithin t.worst v b, worse-blocks t.worst v)
  advance-IsWithin true (failed err) t t' n h k = tt
  advance-IsWithin true panicked t t' n h k = tt

  loop_All :
      (s : Set) (ctx : Readings) (t u : Tally)
      → IsLive ctx
      → inspect_loop want req ctx s t ≡ some u
      → All (λ e. IsWithin (rank u.worst.severity) (verdict_of want req e)) s
  loop_All [] ctx t u live h = tt
  loop_All (e ∷ s) ctx t u live h =
      let (t', ctx', moved, live', rest) = loop_cons e s ctx t u _ _ refl refl live h in
      (
        advance-IsWithin _ _ t t' _ moved (loop_rank s ctx' t' u live' rest),
        loop_All s ctx' t' u live' rest,
      )

inspect_run :
    (s : Set) (req : Request) (ctx : Readings) (want : SecurityEngine → Bool) (v : Verdict)
    (errs : List Error)
    → inspect s req ctx want ≡ some (v, errs)
    → (u : Tally) × (inspect_loop want req ctx s no_tally ≡ some u)
      × (v ≡ record u.worst { score = u.total })
unfolding inspect
inspect_run s req ctx want v errs h =
    elim (Option-cases (unfold inspect in inspect_loop want req ctx s no_tally)) [
      | inl stopped ↦ absurd (ground arith)
      | inr (u, ran) ↦ (u, ran, ground arith)
    ]

-- While the context is not done and no engine panics, the set blocks exactly if one of the engines
-- that the phase asks for answers with a block: no other verdict, score or error masks it.
pub inspect_blocks :
    (s : Set) (req : Request) (ctx : Readings) (want : SecurityEngine → Bool) (v : Verdict)
    (errs : List Error)
    → IsLive ctx
    → inspect s req ctx want ≡ some (v, errs)
    → blocking v.action ≡ any (λ e. blocks (verdict_of want req e)) s
inspect_blocks s req ctx want v errs live h =
    let (u, ran, same) = inspect_run s req ctx want v errs h in
    ground (arith, loop_blocks want req s ctx no_tally u live ran)

-- While the context is not done and no engine panics, the verdict is at least as severe as every block
-- that an engine of the phase answers with.
pub inspect_most_severe :
    (s : Set) (req : Request) (ctx : Readings) (want : SecurityEngine → Bool) (v : Verdict)
    (errs : List Error)
    → IsLive ctx
    → inspect s req ctx want ≡ some (v, errs)
    → All (λ e. IsWithin (rank v.severity) (verdict_of want req e)) s
inspect_most_severe s req ctx want v errs live h =
    let (u, ran, same) = inspect_run s req ctx want v errs h in
    rw same (loop_All want req s ctx no_tally u live ran)

-- While the context is not done and no engine panics, the score is the sum of the positive scores of
-- the engines of the phase, if that sum is an `int` of 64 bits: a negative score takes nothing away.
pub inspect_score :
    (s : Set) (req : Request) (ctx : Readings) (want : SecurityEngine → Bool) (v : Verdict)
    (errs : List Error)
    → IsLive ctx
    → inspect s req ctx want ≡ some (v, errs)
    → positive_sum want req s < 2 ^ 63
    → v.score ≡ pos (positive_sum want req s)
inspect_score s req ctx want v errs live h small =
    let (u, ran, same) = inspect_run s req ctx want v errs h in
    rw same (
      loop_total want req s ctx no_tally u 0 live ran refl (omega (arith, small))
      ∙ ap pos (omega arith))
