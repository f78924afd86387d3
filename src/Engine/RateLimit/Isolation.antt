-- ===== src/Engine/RateLimit/Isolation.antt =====
-- What the calls for other keys do to the bucket of a key, and how many buckets a shard holds
-- (internal/engine/ratelimit).
use elchi_shield.Prelude.{
  ℕ, ◌+◌, ◌≤◌, Bool, true, false, ◌≡◌, List, [], ◌∷◌, none, some, if_rule, option_rule, arith, ◌⊎◌,
  length, leb,
}
use elchi_shield.Prelude.Int.{pos, ◌-ℤ◌}
use elchi_shield.Strings.{Text}
use elchi_shield.Engine.RateLimit.{
  Floats, Limiter, Bucket, Shard, max_keys_per_shard, find_bucket, put_bucket, is_full, make_room,
  allow_new, allow_known, allow,
}
use elchi_shield.Engine.RateLimit.Buckets.{
  IsUnique, put-IsUnique, length-put, length-put_known, make_room-IsUnique, length-make_room,
}

-- Each key has one bucket at most, and the shard holds no more than its cap.
abbrev pub IsSound : {Num : Type 0} → Shard Num → Type 0
IsSound s = IsUnique s × (length s ≤ max_keys_per_shard)

module _ {Num : Type 0} (fl : Floats Num) (e : Limiter Num) where
  -- The bucket of another key after a call for `key`: as it was, or, if `key` had none and the shard was
  -- full, gone because it had had the time to fill up.
  abbrev pub IsSpared : ℕ → Text → Shard Num → Text → Shard Num → Type 0
  IsSpared now key s other s' =
      (find_bucket other s' ≡ find_bucket other s)
      ⊎ ((b : Bucket Num) × (find_bucket key s ≡ none)
          × (max_keys_per_shard ≤ length s)
          × (find_bucket other s ≡ some b)
          × (find_bucket other s' ≡ none)
          × (fl.at_most (fl.div e.burst e.rps) (fl.seconds (pos now -ℤ pos b.last)) ≡ true))

  free_room : (n m : ℕ) → leb m n ≡ false → n + 1 ≤ m
  free_room n m h = ground arith

  allow-IsSound :
      (now : ℕ) (key : Text) (s : Shard Num) → IsSound s → IsSound (allow fl e now key s).1
  unfolding allow allow_new allow_known
  allow-IsSound now key s (u, small) =
      let P = λ (r : Bool × Shard Num). IsSound r.1 in
      let room = make_room fl e now s in
      option_rule P (find_bucket key s)
        (λ absent.
          let u' = make_room-IsUnique fl e now s u in
          if_rule P (is_full room) (λ h. (u', omega (arith, length-make_room fl e now s, small)))
            λ h. (
              put-IsUnique key _ room u',
              omega (arith, length-put key _ room, free_room (length room) max_keys_per_shard h),
            ))
        λ b found.
          let keeps : (c : Bucket Num) → IsSound (put_bucket key c s) =
            λ c. (put-IsUnique key c s u, omega (arith, length-put_known key c b s found, small)) in
          if_rule P (fl.at_most _ _) (λ h. keeps _) λ h. keeps _

  -- The shard after calls of `allow`, each with its time and its key.
  abbrev pub after_calls : List (ℕ × Text) → Shard Num → Shard Num
  after_calls [] s = s
  after_calls ((now, key) ∷ calls) s = after_calls calls (allow fl e now key s).1

  IsSound-after_calls :
      (calls : List (ℕ × Text)) (s : Shard Num) → IsSound s → IsSound (after_calls calls s)
  IsSound-after_calls [] s h = h
  IsSound-after_calls ((now, key) ∷ calls) s h =
      IsSound-after_calls calls (allow fl e now key s).1 (allow-IsSound now key s h)

  -- Whatever the calls, in whatever order and with whatever clock, a shard that was empty holds one
  -- bucket at most for each key, and no more buckets than its cap.
  pub after_calls-IsSound : (calls : List (ℕ × Text)) → IsSound (after_calls calls [])
  after_calls-IsSound calls = IsSound-after_calls calls [] (tt, omega arith)
