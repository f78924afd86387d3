-- ===== src/ExtProc/Budget/Interleaving.antt =====
-- The budget under concurrency (internal/server/extproc/budget.go): the streams' atomic loads, swaps
-- and additions, in any order.
use elchi_shield.Prelude.{
  ℕ, suc, ◌+◌, ◌-◌, ◌≤◌, ◌≡◌, ◌≢◌, refl, ap, List, [], ◌∷◌, ◌++◌, Option, none, some, arith, ◌∙◌,
}
use elchi_shield.Prelude.Int.{ℤ, pos, pos_part, ◌+ℤ◌}
use elchi_shield.ExtProc.Budget.{BodyBudget, grant_at, release}

-- A stream: the bytes that it holds, and the value that it has loaded in a pending `Acquire` with the
-- bytes that it asked for.
pub record Client : Type 0 where
  pub held : ℕ
  pub pending : Option (ℤ × ℕ)

pub record System : Type 0 where
  pub budget : BodyBudget
  pub clients : List Client

unfoldable pub total_held : List Client → ℕ
total_held [] = 0
total_held (c ∷ cs) = c.held + total_held cs

-- One atomic instruction of one stream: the load of `Acquire`, its swap that succeeds, its swap that
-- fails (the loop loads anew), and the addition of `Release` for bytes that the stream holds.
pub data Step : System → System → Type 0 where
  load :
      (s : System) (before after : List Client) (c : Client) (n : ℕ)
      → s.clients ≡ before ++ (c ∷ after)
      → Step s (record s {
        clients = before ++ (record c { pending = some (s.budget.in_use, n) } ∷ after);
      })
  swap :
      (s : System) (before after : List Client) (c : Client) (cur : ℤ) (n : ℕ)
      → s.clients ≡ before ++ (c ∷ after)
      → c.pending ≡ some (cur, n)
      → cur ≡ s.budget.in_use
      → Step s (record {
        budget = record (s.budget) { in_use = cur +ℤ grant_at s.budget.limit cur (pos n) };
        clients =
            before
            ++ (record {
              held = c.held + pos_part (grant_at s.budget.limit cur (pos n));
              pending = none;
            }
                ∷ after);
      })
  retry :
      (s : System) (before after : List Client) (c : Client) (cur : ℤ) (n : ℕ)
      → s.clients ≡ before ++ (c ∷ after)
      → c.pending ≡ some (cur, n)
      → cur ≢ s.budget.in_use
      → Step s (record s {
        clients = before ++ (record c { pending = some (s.budget.in_use, n) } ∷ after);
      })
  give_back :
      (s : System) (before after : List Client) (c : Client) (m : ℕ)
      → s.clients ≡ before ++ (c ∷ after)
      → m ≤ c.held
      → Step s (record {
        budget = release s.budget (pos m);
        clients = before ++ (record c { held = c.held - m } ∷ after);
      })

pub data Reach (s : System) : System → Type 0 where
  here : Reach s s
  next : {t u : System} → Reach s t → Step t u → Reach s u

-- The bytes in use are those that the streams hold, and they keep to a limit that is set.
pub record IsSound (l : ℕ) (s : System) : Type 0 where
  pub limit : s.budget.limit ≡ pos (suc l)
  pub exact : s.budget.in_use ≡ pos (total_held s.clients)
  pub capped : total_held s.clients ≤ suc l

total_held-append :
    (before after : List Client) (c : Client)
    → total_held (before ++ (c ∷ after)) ≡ c.held + (total_held before + total_held after)
unfolding total_held
total_held-append [] after c = omega arith
total_held-append (d ∷ before) after c = omega (arith, total_held-append before after c)

grant_at_bounds :
    (l n u : ℕ)
    → u ≤ suc l
    → (g : ℕ) × (grant_at (pos (suc l)) (pos u) (pos n) ≡ pos g) × (g ≤ n) × (u + g ≤ suc l)
unfolding grant_at
grant_at_bounds l n u h =
    (pos_part (grant_at (pos (suc l)) (pos u) (pos n)), ground arith, ground arith, ground arith)

-- What the streams hold, apart from one of them.
total_eq :
    {cs : List Client} (before after : List Client) (c : Client)
    → cs ≡ before ++ (c ∷ after)
    → total_held cs ≡ c.held + (total_held before + total_held after)
total_eq before after c e = ap total_held e ∙ total_held-append before after c

pending_IsSound :
    (l : ℕ) (s : System) (before after : List Client) (c d : Client)
    → s.clients ≡ before ++ (c ∷ after)
    → c.held ≡ d.held
    → IsSound l s
    → IsSound l (record s { clients = before ++ (d ∷ after) })
pending_IsSound l s before after c d e same v =
    let kept : total_held (before ++ (d ∷ after)) ≡ total_held s.clients =
      omega (arith, total_held-append before after d, total_eq before after c e, same) in
    record { limit = v.limit; exact = rw kept v.exact; capped = rw kept v.capped }

pub release_pos :
    (l u m : ℕ)
    → m ≤ u
    → release (record { limit = pos (suc l); in_use = pos u }) (pos m)
      ≡ record { limit = pos (suc l); in_use = pos (u - m) }
unfolding release
release_pos l u m h = ground arith

pub add_pos : (a b : ℕ) → pos a +ℤ pos b ≡ pos (a + b)
add_pos a b = ground arith

-- Every atomic instruction of every stream keeps the budget sound.
pub Step-IsSound : (l : ℕ) {s t : System} → Step s t → IsSound l s → IsSound l t
Step-IsSound l (load s before after c n e) v = pending_IsSound l s before after c _ e refl v
Step-IsSound l (retry s before after c cur n e p q) v =
    pending_IsSound l s before after c _ e refl v
Step-IsSound l (swap s before after c cur n e p q) v =
    let total = total_eq before after c e in
    let (g, is_g, small, fits) = grant_at_bounds l n (total_held s.clients) v.capped in
    let granted : grant_at s.budget.limit cur (pos n) ≡ pos g = rw (v.limit, q, v.exact) is_g in
    let after_total =
      total_held-append before after (record { held = c.held + g; pending = none }) in
    rw granted (record {
      limit = v.limit;
      exact = rw (q, v.exact) (add_pos _ _ ∙ ap pos (omega (arith, total, after_total)));
      capped = omega (arith, total, after_total, fits);
    })
Step-IsSound l (give_back s before after c m e p) v =
    let total = total_eq before after c e in
    let after_total = total_held-append before after (record c { held = c.held - m }) in
    let freed : release s.budget (pos m)
        ≡ record { limit = pos (suc l); in_use = pos (total_held s.clients - m) } =
      rw (v.limit, v.exact) (release_pos l (total_held s.clients) m (omega (arith, total, p))) in
    rw freed (record {
      limit = refl;
      exact = ap pos (omega (arith, total, after_total, p));
      capped = omega (arith, total, after_total, v.capped);
    })

-- In every interleaving of any number of streams, from a state where this holds and a limit is set,
-- the bytes in use never pass the limit, and are exactly those that the streams hold.
pub Reach-IsSound : (l : ℕ) {s t : System} → IsSound l s → Reach s t → IsSound l t
Reach-IsSound l v here = v
Reach-IsSound l v (next r st) = Step-IsSound l st (Reach-IsSound l v r)
