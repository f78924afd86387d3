-- ===== src/Engine.antt =====
-- internal/engine/engine.go: the contract of a security engine and the set that runs several.
-- An engine is its name, its needs and its answer to a request; `panicked` is a panic, which passes
-- through the set to the stage's recover. The readings of the context say whether `ctx.Err()` is
-- set before the n-th engine that the phase asks for. A nil set is the empty one.
pub mod Aggregate
pub mod Xfcc
pub mod RateLimit
use elchi_shield.Prelude.{
  ℕ, suc, Bool, true, false, ◌&&◌, ◌||◌, List, [], ◌∷◌, ◌++◌, Option, none, some, leb, ltb, not,
  any, if◌then◌else◌,
}
use elchi_shield.Prelude.Int.{ℤ, pos, ◌+ℤ◌, ltb_ℤ, wrap_64}
use elchi_shield.Strings.{Text}
use elchi_shield.Decision.{Verdict, no_verdict, blocking, rank}

pub data Direction : Type 0 where
  direction_request direction_response : Direction

-- `pipeline.Header`.
pub record Header : Type 0 where
  pub name : Text
  pub value : Text

pub record Request : Type 0 where
  pub direction : Direction
  pub host : Text
  pub path : Text
  pub method : Text
  pub content_type : Text
  pub source_ip : Text
  pub body : Text
  pub headers : List Header

pub data Error : Type 0 where
  deadline : Error
  stage_panic : Error
  message : Text → Error

-- What a call of `Inspect` does.
pub data Answer : Type 0 where
  verdict : Verdict → Answer
  failed : Error → Answer
  panicked : Answer

-- `SecurityEngine`; `inspects_response` is `none` if the engine is no `ResponseInspector`.
pub record SecurityEngine : Type 0 where
  pub name : Text
  pub requires_body : Bool
  pub inspects_response : Option Bool
  pub inspect : Request → Answer

abbrev pub Set : Type 0
Set = List SecurityEngine

abbrev pub Readings : Type 0
Readings = ℕ → Bool

-- `RequiresBody` of a set.
unfoldable pub requires_body : Set → Bool
requires_body s = any (λ e. e.requires_body) s

abbrev or_false : Option Bool → Bool
or_false none = false
or_false (some b) = b

-- `InspectsResponse` of a set.
unfoldable pub inspects_response : Set → Bool
inspects_response s = any (λ e. or_false e.inspects_response) s

-- `HasHeaderEngines`.
unfoldable pub has_header_engines : Set → Bool
has_header_engines s = any (λ e. not e.requires_body) s

-- The switch that keeps the worse of two verdicts.
unfoldable pub worse : Verdict → Verdict → Verdict
worse worst v =
    if blocking v.action && not (blocking worst.action)
    then v
    else if blocking v.action
        && blocking worst.action
        && leb (rank worst.severity) (rank v.severity)
    then v
    else if not (blocking v.action)
        && not (blocking worst.action)
        && ltb (rank worst.severity) (rank v.severity)
    then v
    else worst

-- Only a positive score counts. The total is an `int` of 64 bits, which wraps around.
unfoldable pub add_score : ℤ → ℤ → ℤ
unfolding wrap_64
add_score total score = if ltb_ℤ (pos 0) score then wrap_64 (total +ℤ score) else total

-- The variables of the loop of `inspect`.
pub record Tally : Type 0 where
  pub worst : Verdict
  pub total : ℤ
  pub errs : List Error

abbrev pub no_tally : Tally
no_tally = record { worst = no_verdict; total = pos 0; errs = [] }

-- The loop of `inspect` over the engines that `want` lets through: `none` is a panic.
unfoldable pub inspect_loop :
    (SecurityEngine → Bool) → Request → Readings → Set → Tally → Option Tally
unfolding worse add_score
inspect_loop want req ctx [] t = some t
inspect_loop want req ctx (e ∷ es) t =
    let skip = inspect_loop want req ctx es t in
    let late : Option Tally = some (record t { errs = t.errs ++ (deadline ∷ []) }) in
    let next = λ (u : Tally). inspect_loop want req (λ n. ctx (suc n)) es u in
    let run : Option Tally = elim (e.inspect req) [
      | verdict v ↦ next (record t { worst = worse t.worst v; total = add_score t.total v.score })
      | failed err ↦ next (record t { errs = t.errs ++ (err ∷ []) })
      | panicked ↦ none
    ] in
    if not (want e) then skip else if ctx 0 then late else run

-- The verdict with the total as its score, and the errors.
abbrev pub inspected : Option Tally → Option (Verdict × List Error)
inspected none = none
inspected (some t) = some (record t.worst { score = t.total }, t.errs)

-- `inspect`: `none` is a panic, and no error is the empty list.
unfoldable pub inspect :
    Set → Request → Readings → (SecurityEngine → Bool) → Option (Verdict × List Error)
unfolding inspect_loop
inspect s req ctx want = inspected (inspect_loop want req ctx s no_tally)

unfoldable pub inspect_header_phase : Set → Request → Readings → Option (Verdict × List Error)
unfolding inspect
inspect_header_phase s req ctx = inspect s req ctx (λ e. not e.requires_body)

unfoldable pub inspect_body_phase : Set → Request → Readings → Option (Verdict × List Error)
unfolding inspect
inspect_body_phase s req ctx = inspect s req ctx (λ e. e.requires_body)
