-- ===== src/ExtProc/Budget.antt =====
-- internal/server/extproc/budget.go: the shared bound on buffered body bytes, as one atomic call
-- each. int64 values are integers: with a limit set, no reachable value leaves the range.
pub mod Interleaving
use elchi_shield.Prelude.{ℕ, Bool, ◌||◌, if◌then◌else◌}
use elchi_shield.Prelude.Int.{ℤ, pos, ◌+ℤ◌, ◌-ℤ◌, leb_ℤ, min_ℤ}

pub record BodyBudget : Type 0 where
  pub limit : ℤ
  pub in_use : ℤ

unfoldable pub new_body_budget : ℤ → BodyBudget
new_body_budget limit = record { limit = limit; in_use = pos 0 }

-- What a round of the loop of `Acquire` grants for `n` bytes when it has loaded `cur`.
unfoldable pub grant_at : ℤ → ℤ → ℤ → ℤ
grant_at limit cur n = if leb_ℤ (limit -ℤ cur) (pos 0) then pos 0 else min_ℤ n (limit -ℤ cur)

-- `Acquire`: the bytes granted, and the budget after it.
unfoldable pub acquire : BodyBudget → ℤ → ℤ × BodyBudget
unfolding grant_at
acquire b n =
    let grant = grant_at b.limit b.in_use n in
    if leb_ℤ b.limit (pos 0) || leb_ℤ n (pos 0)
    then (n, b)
    else (grant, record b { in_use = b.in_use +ℤ grant })

unfoldable pub release : BodyBudget → ℤ → BodyBudget
release b n =
    if leb_ℤ b.limit (pos 0) || leb_ℤ n (pos 0) then b else record b { in_use = b.in_use -ℤ n }
