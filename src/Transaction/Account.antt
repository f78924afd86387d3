-- ===== src/Transaction/Account.antt =====
-- The account of one stream with the shared budget (internal/pipeline/transaction.go).
use elchi_shield.Prelude.{
  ℕ, zero, suc, ◌+◌, ◌-◌, ◌≤◌, Bool, ◌≡◌, ap, ◌∙◌, min, Option, some, arith, leb, if_rule,
}
use elchi_shield.Prelude.Int.{ℤ, pos, leb_ℤ}
use elchi_shield.Transaction.{Transaction, reserve_body, begin_response}
use elchi_shield.ExtProc.Budget.{BodyBudget, grant_at, acquire}
use elchi_shield.ExtProc.Budget.Interleaving.{release_pos}

abbrev pub account : Transaction → Option BodyBudget × ℤ
account tx = (tx.budget, tx.body_reserved)

-- A budget with a limit, of which `u` bytes are in use.
abbrev pub used : ℕ → ℕ → BodyBudget
used l u = record { limit = pos (suc l); in_use = pos u }

-- The account of a stream that holds `r` bytes of such a budget.
abbrev pub owns : ℕ → ℕ → ℕ → Option BodyBudget × ℤ
owns l u r = (some (used l u), pos r)

-- The stream holds `reserved` bytes of a budget of whose bytes the other streams hold `base`.
pub record IsBalanced (l base : ℕ) (tx : Transaction) : Type 0 where
  pub reserved : ℕ
  pub capped : base + reserved ≤ suc l
  pub holds : account tx ≡ owns l (base + reserved) reserved

pub account-IsBalanced :
    (l base : ℕ) {tx tx' : Transaction}
    → account tx' ≡ account tx
    → IsBalanced l base tx
    → IsBalanced l base tx'
account-IsBalanced l base same v = record {
  reserved = v.reserved;
  capped = v.capped;
  holds = same ∙ v.holds;
}

pub acquire_grant :
    (l u n : ℕ)
    → u ≤ suc l
    → (g : ℕ) × (acquire (used l u) (pos n) ≡ (pos g, used l (u + g))) × (g ≤ n) × (u + g ≤ suc l)
unfolding acquire grant_at
acquire_grant l u zero h = (0, ground arith, omega arith, omega arith)
acquire_grant l u (suc n) h = (min (suc n) (suc l - u), ground arith, omega arith, omega arith)

pub held_budget :
    {l base : ℕ} {tx : Transaction} (v : IsBalanced l base tx)
    → tx.budget ≡ some (used l (base + v.reserved))
held_budget v = ap (λ (a : Option BodyBudget × ℤ). a.0) v.holds

pub held_bytes :
    {l base : ℕ} {tx : Transaction} (v : IsBalanced l base tx) → tx.body_reserved ≡ pos v.reserved
held_bytes v = ap (λ (a : Option BodyBudget × ℤ). a.1) v.holds

pub reserve_body-IsBalanced :
    (l base : ℕ) (tx : Transaction) (n : ℕ)
    → IsBalanced l base tx
    → IsBalanced l base (reserve_body tx (pos n)).0
unfolding reserve_body
reserve_body-IsBalanced l base tx n v =
    let (g, grant, small, fits) = acquire_grant l (base + v.reserved) n v.capped in
    rw (held_budget v, reserve_body)
      (rw grant (
        if_rule (λ (r : Transaction × Bool). IsBalanced l base r.0) (leb (n + 0) 0) (λ h. v)
          λ h. record {
            reserved = v.reserved + g;
            capped = omega (arith, fits);
            holds = rw (held_bytes v) (ground arith);
          }))

pub begin_response-IsBalanced :
    (l base : ℕ) (tx : Transaction) → IsBalanced l base tx → IsBalanced l base (begin_response tx)
unfolding begin_response
begin_response-IsBalanced l base tx v =
    rw (held_budget v, begin_response)
      (if_rule (IsBalanced l base) (leb_ℤ tx.body_reserved (pos 0))
        (λ h. record { reserved = v.reserved; capped = v.capped; holds = v.holds })
        (λ h. record {
          reserved = 0;
          capped = omega (arith, v.capped);
          holds = rw (held_bytes v) (
              ap (λ (b : BodyBudget). (some b, pos 0))
                (release_pos l (base + v.reserved) v.reserved (omega arith)
                  ∙ ap (used l) (omega arith)));
        }))
