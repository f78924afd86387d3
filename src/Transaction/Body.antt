-- ===== src/Transaction/Body.antt =====
-- Body buffering (internal/pipeline/transaction.go).
use elchi_shield.Prelude.{
  ℕ, ◌+◌, ◌-◌, ◌≤◌, ◌<◌, Bool, true, false, ◌≡◌, refl, List, [], ◌∷◌, ◌++◌, length, take, arith,
  length-append, length-take, append-nil, ap, Bool-cases, sym, leb, ltb, inl, inr,
}
use elchi_shield.Strings.{Text}
use elchi_shield.Transaction.{Transaction, is_nonempty, append_body}

-- What `append_body` promises: the bytes stored are the first of the chunk, they never take the body
-- past the cap, and it reports truncation exactly when it left bytes out.
pub record IsStored (tx : Transaction) (chunk : Text) (max : ℕ) (out : Transaction × ℕ × Bool)
    : Type 0 where
  pub body : out.0.body ≡ tx.body ++ take out.1 chunk
  pub capped : length tx.body ≤ max → length out.0.body ≤ max
  pub within : out.1 ≤ length chunk
  pub full : out.2 ≡ false → out.1 ≡ length chunk
  pub short : out.2 ≡ true → out.1 < length chunk

take-all : {A : Type 0} (xs : List A) → take (length xs) xs ≡ xs
take-all [] = refl
take-all (x ∷ xs) = ap (λ ys. x ∷ ys) (take-all xs)

nonempty_false : (s : Text) → is_nonempty s ≡ false → length s ≡ 0
nonempty_false [] h = refl
nonempty_false (c ∷ s) h = cc

nonempty_true : (s : Text) → is_nonempty s ≡ true → 0 < length s
nonempty_true [] h = cc
nonempty_true (c ∷ s) h = omega arith

module _ (tx : Transaction) (chunk : Text) (max : ℕ) where
  stored_body :
      (append_body tx chunk max).0.body ≡ tx.body ++ take (append_body tx chunk max).1 chunk
  unfolding append_body
  stored_body = elim (Bool-cases (leb max (length tx.body))) [
    | inl past ↦ rw past (sym (append-nil tx.body))
    | inr room ↦ elim (Bool-cases (ltb (max - length tx.body) (length chunk))) [
      | inl over ↦ rw (room, over)
      | inr fits ↦ rw (room, fits, take-all chunk)
    ]
  ]

  stored_full : (append_body tx chunk max).2 ≡ false → (append_body tx chunk max).1 ≡ length chunk
  unfolding append_body
  stored_full h = ground (arith, nonempty_false chunk)

  stored_short : (append_body tx chunk max).2 ≡ true → (append_body tx chunk max).1 < length chunk
  unfolding append_body
  stored_short h = ground (arith, nonempty_true chunk)

  stored_within : (append_body tx chunk max).1 ≤ length chunk
  unfolding append_body
  stored_within = ground arith

  stored_capped : length tx.body ≤ max → length tx.body + (append_body tx chunk max).1 ≤ max
  unfolding append_body
  stored_capped h = ground arith

-- On every branch, appending to the body keeps to the cap and reports what it left out.
pub append_body-IsStored :
    (tx : Transaction) (chunk : Text) (max : ℕ) → IsStored tx chunk max (append_body tx chunk max)
append_body-IsStored tx chunk max = record {
  body = stored_body tx chunk max;
  capped = λ h. rw (stored_body tx chunk max) (
      omega (
        arith,
        length-append tx.body (take (append_body tx chunk max).1 chunk),
        length-take (append_body tx chunk max).1 chunk,
        stored_capped tx chunk max h,
      ));
  within = stored_within tx chunk max;
  full = stored_full tx chunk max;
  short = stored_short tx chunk max;
}
