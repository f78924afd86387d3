-- ===== src/Runtime/Pins.antt =====
-- The streams that hold a snapshot, and the invariant of the retirer (internal/runtime and
-- cmd/elchi-shield/main.go).
use elchi_shield.Prelude.{
  ℕ, zero, suc, ◌+◌, ◌≤◌, ◌<◌, ◌≡◌, ◌≢◌, sym, ap, subst, Bool, true, false, List, [], ◌∷◌, some,
  All, In, ◌==◌, if◌then◌else◌, get_elem?, arith, inl, inr,
}
use elchi_shield.Prelude.Int.{ℤ, pos, ◌+ℤ◌, ◌-ℤ◌}
use elchi_shield.Runtime.Retire.{
  snapshot_retire_grace, Phase, idle, has_loaded, pinned, System, set_at,
}

-- The stream neither holds the snapshot nor is about to.
abbrev pub IsFree : ℕ → Phase → Type 0
IsFree k idle = Unit
IsFree k (has_loaded j t) = j ≢ k
IsFree k (pinned j) = j ≢ k

abbrev pub pin : ℕ → Phase → ℕ
pin k idle = 0
pin k (has_loaded j t) = 0
pin k (pinned j) = if k == j then 1 else 0

unfoldable pub pins : ℕ → List Phase → ℕ
pins k [] = 0
pins k (p ∷ ps) = pin k p + pins k ps

-- A load that began before each retirement of its snapshot, within the grace.
abbrev pub IsTimely : System → Phase → Type 0
IsTimely s idle = Unit
IsTimely s (has_loaded k t) =
    (t ≤ s.now)
    × (s.now < t + snapshot_retire_grace)
    × All (λ it. it.snap ≡ k → t ≤ it.at) s.retired
IsTimely s (pinned k) = Unit

pub record Inv (s : System) : Type 0 where
  pub counted : (k : ℕ) → s.refs k ≡ pos (pins k s.streams)
  pub timely : All (IsTimely s) s.streams
  pub replaced : All (λ it. it.snap < s.current) s.retired
  pub closed_replaced : All (λ k. k < s.current) s.closed
  pub closed_free : All (λ k. All (IsFree k) s.streams) s.closed

module _ {A : Type 0} (P : A → Type 0) where
  pub All-weaken : (Q : A → Type 0) → ((a : A) → P a → Q a) → (xs : List A) → All P xs → All Q xs
  All-weaken Q f [] h = tt
  All-weaken Q f (x ∷ xs) (h, hs) = (f x h, All-weaken Q f xs hs)

  pub All-In : (a : A) (xs : List A) → In a xs → All P xs → P a
  All-In a [] i h = absurd i
  All-In a (x ∷ xs) (inl e) (h, hs) = subst P (sym e) h
  All-In a (x ∷ xs) (inr i) (h, hs) = All-In a xs i hs

module _ (P : Phase → Type 0) where
  pub All-set_at : (i : ℕ) (q : Phase) (ps : List Phase) → P q → All P ps → All P (set_at i q ps)
  All-set_at i q [] h hs = tt
  All-set_at zero q (p ∷ ps) h (k, ks) = (h, ks)
  All-set_at (suc i) q (p ∷ ps) h (k, ks) = (k, All-set_at i q ps h ks)

  pub All-get : (i : ℕ) (p : Phase) (ps : List Phase) → get_elem? ps i ≡ some p → All P ps → P p
  All-get i p [] e hs = absurd cc
  All-get zero p (q ∷ ps) e (h, hs) = let same : q ≡ p = cc in subst P same h
  All-get (suc i) p (q ∷ ps) e (h, hs) = All-get i p ps e hs

pub pins-set_at :
    (k i : ℕ) (p q : Phase) (ps : List Phase)
    → get_elem? ps i ≡ some p
    → pins k (set_at i q ps) + pin k p ≡ pins k ps + pin k q
unfolding pins
pins-set_at k i p q [] e = absurd cc
pins-set_at k zero p q (r ∷ ps) e =
    let same : r ≡ p = cc in
    subst (λ (x : Phase). (pin k q + pins k ps) + pin k p ≡ (pin k x + pins k ps) + pin k q)
      (sym same) (omega arith)
pins-set_at k (suc i) p q (r ∷ ps) e = omega (arith, pins-set_at k i p q ps e)

pub All-both :
    {A : Type 0} (P Q R : A → Type 0)
    → ((a : A) → P a → Q a → R a)
    → (xs : List A) → All P xs
    → All Q xs
    → All R xs
All-both P Q R f [] h k = tt
All-both P Q R f (x ∷ xs) (h, hs) (k, ks) = (f x h k, All-both P Q R f xs hs ks)

counted_more :
    (b : Bool) (n m : ℕ)
    → m + 0 ≡ n + (if b then 1 else 0)
    → (if b then pos n +ℤ pos 1 else pos n) ≡ pos m
counted_more true n m f = ground arith
counted_more false n m f = ap pos (omega (arith, f))

counted_less :
    (b : Bool) (n m : ℕ)
    → m + (if b then 1 else 0) ≡ n + 0
    → (if b then pos n -ℤ pos 1 else pos n) ≡ pos m
counted_less true n m f = ground arith
counted_less false n m f = ap pos (omega (arith, f))

-- The count after one more, or one less, pin of a snapshot.
pub one_more :
    (j k n m : ℕ) (r : ℤ)
    → r ≡ pos n
    → m + 0 ≡ n + (if j == k then 1 else 0)
    → (if j == k then r +ℤ pos 1 else r) ≡ pos m
one_more j k n m r e f =
    subst (λ (x : ℤ). (if j == k then x +ℤ pos 1 else x) ≡ pos m) (sym e)
      (counted_more (j == k) n m f)

pub one_less :
    (j k n m : ℕ) (r : ℤ)
    → r ≡ pos n
    → m + (if j == k then 1 else 0) ≡ n + 0
    → (if j == k then r -ℤ pos 1 else r) ≡ pos m
one_less j k n m r e f =
    subst (λ (x : ℤ). (if j == k then x -ℤ pos 1 else x) ≡ pos m) (sym e)
      (counted_less (j == k) n m f)
