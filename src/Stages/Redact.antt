-- ===== src/Stages/Redact.antt =====
-- The redaction of internal/pipeline/stages/body.go: `redactBody` and `mask`.
use elchi_shield.Prelude.{
  ℕ, suc, ◌+◌, ◌-◌, Bool, true, false, ◌&&◌, List, [], ◌∷◌, ◌++◌, leb, ltb, not, take, drop,
  if◌then◌else◌,
}
use elchi_shield.Strings.{Text, lit, text_eq, set_has}
use elchi_shield.Stages.Env.{Match}

abbrev pub is_digit : ℕ → Bool
is_digit c = leb b'0' c && leb c b'9'

unfoldable pub count_digits : Text → ℕ
count_digits [] = 0
count_digits (c ∷ s) = let n = count_digits s in if is_digit c then suc n else n

-- The masking loop, with the digits seen so far. The source's `seen > digits-4`, whose right side may
-- be negative, is `digits < seen + 4`.
unfoldable pub mask_digits : ℕ → ℕ → Text → Text
mask_digits digits seen [] = []
mask_digits digits seen (c ∷ s) =
    if is_digit c
    then (if ltb digits (seen + 1 + 4) then c else b'*') ∷ mask_digits digits (seen + 1) s
    else c ∷ mask_digits digits seen s

unfoldable pub mask : Text → Text → Text
unfolding count_digits mask_digits text_eq lit
mask orig kind =
    if text_eq kind (lit "credit_card")
    then mask_digits (count_digits orig) 0 orig
    else lit "[REDACTED:" ++ kind ++ lit "]"

-- `body[a:b]`.
abbrev pub slice : Text → ℕ → ℕ → Text
slice body a b = take (b - a) (drop a body)

-- The variables of the loop of `redactBody`.
pub record Redaction : Type 0 where
  pub out : Text
  pub last : ℕ
  pub changed : Bool

-- One round of the loop.
unfoldable pub redact_step : Text → List Text → Redaction → Match → Redaction
unfolding mask set_has
redact_step body redact r m =
    if not (set_has redact m.kind)
    then r
    else if ltb m.start r.last
    then (if ltb r.last m.end
        then record {
          out = r.out ++ mask (slice body r.last m.end) m.kind;
          last = m.end;
          changed = true;
        }
        else r)
    else record {
      out = r.out ++ (slice body r.last m.start ++ mask (slice body m.start m.end) m.kind);
      last = m.end;
      changed = true;
    }

unfoldable pub redact_loop : Text → List Text → List Match → Redaction → Redaction
unfolding redact_step
redact_loop body redact [] r = r
redact_loop body redact (m ∷ ms) r = redact_loop body redact ms (redact_step body redact r m)

abbrev pub redact_start : Redaction
redact_start = record { out = []; last = 0; changed = false }

-- `redactBody`: the new body, and whether a match was masked.
unfoldable pub redact_body : Text → List Match → List Text → Text × Bool
unfolding redact_loop
redact_body body matches redact =
    let r = redact_loop body redact matches redact_start in
    if r.changed then (r.out ++ drop r.last body, true) else (body, false)
