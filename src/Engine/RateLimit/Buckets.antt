-- ===== src/Engine/RateLimit/Buckets.antt =====
-- The buckets of a shard (internal/engine/ratelimit).
use elchi_shield.Prelude.{
  ℕ, suc, ◌+◌, ◌≤◌, Bool, true, false, ◌≡◌, refl, sym, ap, ◌∙◌, subst, [], ◌∷◌, Option, none, some,
  All, if◌then◌else◌, if_rule, arith, Bool-cases, inl, inr, ◌⊎◌, length,
}
use elchi_shield.Strings.{Text, text_eq}
use elchi_shield.Strings.Equality.{text_eq→≡, text_eq_comm}
use elchi_shield.Engine.RateLimit.{
  Floats, Limiter, Bucket, Shard, find_bucket, put_bucket, is_idle, evict, make_room, is_full,
}

module _ {Num : Type 0} where
  -- No entry has the key; and each key stands once.
  abbrev pub Fresh : Text → Shard Num → Type 0
  Fresh key s = All (λ kb. text_eq kb.0 key ≡ false) s

  abbrev pub IsUnique : Shard Num → Type 0
  IsUnique [] = Unit
  IsUnique ((k, b) ∷ s) = Fresh k s × IsUnique s

  pub find-Fresh : (key : Text) (s : Shard Num) → Fresh key s → find_bucket key s ≡ none
  unfolding find_bucket
  find-Fresh key [] h = refl
  find-Fresh key ((k, b) ∷ s) (h, hs) = rw h (find-Fresh key s hs)

  pub find-put_other :
      (key other : Text) (b : Bucket Num) (s : Shard Num)
      → text_eq key other ≡ false
      → find_bucket other (put_bucket key b s) ≡ find_bucket other s
  unfolding find_bucket put_bucket
  find-put_other key other b [] h = rw h refl
  find-put_other key other b ((k, c) ∷ s) h = elim (Bool-cases (text_eq k key)) [
    | inl same ↦
        let apart : text_eq k other ≡ false =
          subst (λ (t : Text). text_eq t other ≡ false) (sym (text_eq→≡ k key same)) h in
        rw (same, apart) refl
    | inr differs ↦ rw differs (
        ap (λ (o : Option (Bucket Num)). if text_eq k other then some c else o)
          (find-put_other key other b s h))
  ]

  put-Fresh :
      (key k : Text) (b : Bucket Num) (s : Shard Num)
      → text_eq key k ≡ false
      → Fresh k s
      → Fresh k (put_bucket key b s)
  unfolding put_bucket
  put-Fresh key k b [] h hs = (h, tt)
  put-Fresh key k b ((l, c) ∷ s) h (f, fs) =
      if_rule (Fresh k) (text_eq l key) (λ e. (f, fs)) λ e. (f, put-Fresh key k b s h fs)

  pub put-IsUnique :
      (key : Text) (b : Bucket Num) (s : Shard Num) → IsUnique s → IsUnique (put_bucket key b s)
  unfolding put_bucket
  put-IsUnique key b [] u = (tt, tt)
  put-IsUnique key b ((k, c) ∷ s) (f, u) =
      if_rule IsUnique (text_eq k key) (λ e. (f, u))
        λ e. (put-Fresh key k b s (text_eq_comm key k ∙ e) f, put-IsUnique key b s u)

  -- Putting a bucket adds at most one entry, and none for a key that is there.
  pub length-put :
      (key : Text) (b : Bucket Num) (s : Shard Num) → length (put_bucket key b s) ≤ length s + 1
  unfolding put_bucket
  length-put key b [] = omega arith
  length-put key b ((k, c) ∷ s) =
      if_rule (λ (l : Shard Num). length l ≤ suc (length s) + 1) (text_eq k key) (λ e. omega arith)
        λ e. omega (arith, length-put key b s)

  pub length-put_known :
      (key : Text) (b c : Bucket Num) (s : Shard Num)
      → find_bucket key s ≡ some c
      → length (put_bucket key b s) ≡ length s
  unfolding put_bucket find_bucket
  length-put_known key b c [] h = absurd cc
  length-put_known key b c ((k, d) ∷ s) h = elim (Bool-cases (text_eq k key)) [
    | inl same ↦ rw same refl
    | inr other ↦ rw other (ap suc (length-put_known key b c s (later (text_eq k key) other h)))
  ]
    where
      later :
          (t : Bool)
          → t ≡ false
          → (if t then some d else find_bucket key s) ≡ some c
          → find_bucket key s ≡ some c
      later true e f = absurd cc
      later false e f = f

module _ {Num : Type 0} (fl : Floats Num) (e : Limiter Num) (now : ℕ) where
  All-evict : (P : Text × Bucket Num → Type 0) (s : Shard Num) → All P s → All P (evict fl e now s)
  unfolding evict
  All-evict P [] h = tt
  All-evict P ((k, b) ∷ s) (h, hs) =
      if_rule (All P) (is_idle fl e now b) (λ x. All-evict P s hs) λ x. (h, All-evict P s hs)

  evict-IsUnique : (s : Shard Num) → IsUnique s → IsUnique (evict fl e now s)
  unfolding evict
  evict-IsUnique [] u = tt
  evict-IsUnique ((k, b) ∷ s) (f, u) =
      if_rule IsUnique (is_idle fl e now b) (λ x. evict-IsUnique s u)
        λ x. (All-evict _ s f, evict-IsUnique s u)

  length-evict : (s : Shard Num) → length (evict fl e now s) ≤ length s
  unfolding evict
  length-evict [] = omega arith
  length-evict ((k, b) ∷ s) =
      if_rule (λ (l : Shard Num). length l ≤ suc (length s)) (is_idle fl e now b)
        (λ x. omega (arith, length-evict s)) λ x. omega (arith, length-evict s)

  -- What an eviction does to what is found: nothing, or an idle bucket is gone.
  abbrev pub IsKept : Option (Bucket Num) → Option (Bucket Num) → Type 0
  IsKept before after =
      (after ≡ before)
      ⊎ ((b : Bucket Num) × (before ≡ some b) × (after ≡ none) × (is_idle fl e now b ≡ true))

  pub find-evict :
      (key : Text) (s : Shard Num)
      → IsUnique s
      → IsKept (find_bucket key s) (find_bucket key (evict fl e now s))
  unfolding evict find_bucket
  find-evict key [] u = inl refl
  find-evict key ((k, b) ∷ s) (f, u) =
      if_rule (λ (l : Shard Num). IsKept (find_bucket key ((k, b) ∷ s)) (find_bucket key l))
        (is_idle fl e now b)
        (λ idle.
          if_rule (λ (o : Option (Bucket Num)). IsKept o (find_bucket key (evict fl e now s)))
            (text_eq k key)
            (λ same.
              let gone : Fresh key (evict fl e now s) =
                All-evict _ s (subst (λ (t : Text). Fresh t s) (text_eq→≡ k key same) f) in
              inr (b, refl, find-Fresh key (evict fl e now s) gone, idle))
            λ other. find-evict key s u)
        λ busy. elim (Bool-cases (text_eq k key)) [
          | inl same ↦ rw same (inl refl)
          | inr other ↦ rw other (find-evict key s u)
        ]

  -- The room that is made.
  pub make_room-IsUnique : (s : Shard Num) → IsUnique s → IsUnique (make_room fl e now s)
  unfolding make_room
  make_room-IsUnique s u = if_rule IsUnique (is_full s) (λ x. evict-IsUnique s u) λ x. u

  pub length-make_room : (s : Shard Num) → length (make_room fl e now s) ≤ length s
  unfolding make_room
  length-make_room s =
      if_rule (λ (l : Shard Num). length l ≤ length s) (is_full s) (λ x. length-evict s)
        λ x. omega arith
