-- ===== src/Tests/Limits.antt =====
-- A rate limiter, at concrete calls.
use elchi_shield.Prelude.{ℕ, ◌+◌, ◌-◌, ◌*◌, ◌/◌, ltb, leb, ◌≡◌, refl, true, false, [], ◌∷◌}
use elchi_shield.Prelude.Int.{pos_part}
use elchi_shield.Strings.{lit, text_eq}
use elchi_shield.Engine.RateLimit.{
  Floats, Limiter, Shard, key_ip, find_bucket, put_bucket, refill, allow_known, allow,
}
use elchi_shield.Engine.RateLimit.Isolation.{IsSound, after_calls, after_calls-IsSound}

-- Thousandths, rounded down, for the floating point numbers; a second has a thousand nanoseconds.
abbrev thousandths : Floats ℕ
thousandths = record {
  add = λ a b. a + b;
  sub = λ a b. a - b;
  mul = λ a b. a * b / 1000;
  div = λ a b. a * 1000 / b;
  less = ltb;
  at_most = leb;
  of_int = λ z. pos_part z * 1000;
  seconds = pos_part;
}

-- One token per second, and a burst of one.
abbrev one_per_second : Limiter ℕ
one_per_second = record { key = key_ip; header = []; rps = 1000; burst = 1000 }

abbrev one_limited : Shard ℕ
one_limited = (lit "a", record { tokens = 0; last = 5 }) ∷ []

-- A token is spent, the next call is denied, and a second later one is let through.
denied_again : (allow thousandths one_per_second 7 (lit "a") one_limited).0 ≡ false
unfolding lit text_eq find_bucket refill put_bucket allow_known allow
denied_again = refl

refilled : (allow thousandths one_per_second 1005 (lit "a") one_limited).0 ≡ true
unfolding lit text_eq find_bucket refill put_bucket allow_known allow
refilled = refl

after_calls-IsSound_example :
    IsSound (after_calls thousandths one_per_second ((5, lit "a") ∷ (7, lit "b") ∷ []) [])
after_calls-IsSound_example =
    after_calls-IsSound thousandths one_per_second ((5, lit "a") ∷ (7, lit "b") ∷ [])
