-- ===== src/Engine/RateLimit.antt =====
-- internal/engine/ratelimit: the token bucket engine. A key always falls into the same shard, whose
-- lock makes each call of `allow` one step, so one shard is modelled. Times are nanoseconds. The
-- arithmetic of float64 and `Duration.Seconds` are the argument `fl`, and `split_host_port` is that of
-- package net.
pub mod Buckets
pub mod Isolation
use elchi_shield.Prelude.{
  ℕ, Bool, true, false, ◌||◌, reverse, List, [], ◌∷◌, Option, none, some, leb, ◌==◌, if◌then◌else◌,
  length,
}
use elchi_shield.Prelude.Int.{ℤ, pos, ◌-ℤ◌}
use elchi_shield.Strings.{Text, lit, text_eq, is_empty, to_lower, trim_space}
use elchi_shield.Decision.{Verdict, no_verdict, block, severity_low}
use elchi_shield.Engine.{Direction, direction_request, direction_response, Request}
use elchi_shield.Transaction.{find_header}

-- Arithmetic on float64 numbers; `less` is `<` and `at_most` is `<=`, both false on a NaN.
pub record Floats (Num : Type 0) : Type 0 where
  pub add : Num → Num → Num
  pub sub : Num → Num → Num
  pub mul : Num → Num → Num
  pub div : Num → Num → Num
  pub less : Num → Num → Bool
  pub at_most : Num → Num → Bool
  pub of_int : ℤ → Num
  pub seconds : ℤ → Num

-- `KeySource`.
pub data KeySource : Type 0 where
  key_ip key_host key_header : KeySource

-- `Config`, without its clock; the burst is 0 for the default.
pub record Config (Num : Type 0) : Type 0 where
  pub requests_per_second : Num
  pub burst : ℤ
  pub key : KeySource
  pub header : Text

-- `Engine`.
pub record Limiter (Num : Type 0) : Type 0 where
  pub key : KeySource
  pub header : Text
  pub rps : Num
  pub burst : Num

unfoldable pub max_keys_per_shard : ℕ
max_keys_per_shard = 16384

unfoldable pub unkeyed_bucket : Text
unfolding lit
unkeyed_bucket = 0 ∷ lit "__unkeyed__"

pub record Bucket (Num : Type 0) : Type 0 where
  pub tokens : Num
  pub last : ℕ

-- The map of a shard: a key stands in it once.
abbrev pub Shard : Type 0 → Type 0
Shard Num = List (Text × Bucket Num)

abbrev pub is_full : {Num : Type 0} → Shard Num → Bool
is_full s = leb max_keys_per_shard (length s)

unfoldable pub find_bucket : {Num : Type 0} → Text → Shard Num → Option (Bucket Num)
unfolding text_eq
find_bucket key [] = none
find_bucket key ((k, b) ∷ s) = if text_eq k key then some b else find_bucket key s

unfoldable pub put_bucket : {Num : Type 0} → Text → Bucket Num → Shard Num → Shard Num
unfolding text_eq
put_bucket key b [] = (key, b) ∷ []
put_bucket key b ((k, c) ∷ s) =
    let rest = put_bucket key b s in if text_eq k key then (k, b) ∷ s else (k, c) ∷ rest

module _ {Num : Type 0} (fl : Floats Num) where
  abbrev one_token : Num
  one_token = fl.of_int (pos 1)

  -- The tokens of a full bucket.
  unfoldable pub burst_of : Config Num → Num
  burst_of cfg =
      let given = fl.of_int cfg.burst in
      let rps = cfg.requests_per_second in
      if fl.at_most given (fl.of_int (pos 0))
      then (if fl.less rps one_token then one_token else rps)
      else given

  -- `New`; `none` is the error of a rate that is not positive.
  unfoldable pub new_limiter : Config Num → Option (Limiter Num)
  unfolding burst_of
  new_limiter cfg =
      if fl.at_most cfg.requests_per_second (fl.of_int (pos 0))
      then none
      else some (record {
        key = cfg.key;
        header = cfg.header;
        rps = cfg.requests_per_second;
        burst = burst_of cfg;
      })

  -- The seconds since a bucket was last refilled.
  abbrev pub elapsed : ℕ → Bucket Num → Num
  elapsed now b = fl.seconds (pos now -ℤ pos b.last)

  -- A bucket that has had the time to fill up.
  unfoldable pub is_idle : Limiter Num → ℕ → Bucket Num → Bool
  is_idle e now b = fl.at_most (fl.div e.burst e.rps) (elapsed now b)

  -- The loop that deletes the idle buckets.
  unfoldable pub evict : Limiter Num → ℕ → Shard Num → Shard Num
  unfolding is_idle
  evict e now [] = []
  evict e now ((k, b) ∷ s) =
      let rest = evict e now s in if is_idle e now b then rest else (k, b) ∷ rest

  -- The refill.
  unfoldable pub refill : Limiter Num → ℕ → Bucket Num → Bucket Num
  refill e now b =
      let tokens = fl.add b.tokens (fl.mul (elapsed now b) e.rps) in
      if fl.less (fl.of_int (pos 0)) (elapsed now b)
      then record { tokens = if fl.less e.burst tokens then e.burst else tokens; last = now }
      else b

  -- Room for a new key.
  unfoldable pub make_room : Limiter Num → ℕ → Shard Num → Shard Num
  unfolding evict max_keys_per_shard
  make_room e now s = if is_full s then evict e now s else s

  -- `allow` on a key that the shard does not hold.
  unfoldable pub allow_new : Limiter Num → ℕ → Text → Shard Num → Bool × Shard Num
  unfolding make_room put_bucket
  allow_new e now key s =
      let room = make_room e now s in
      if is_full room
      then (true, room)
      else (true, put_bucket key (record { tokens = fl.sub e.burst one_token; last = now }) room)

  -- `allow` on a key that the shard holds.
  unfoldable pub allow_known : Limiter Num → ℕ → Text → Bucket Num → Shard Num → Bool × Shard Num
  unfolding refill put_bucket
  allow_known e now key b s =
      let full = refill e now b in
      if fl.at_most one_token full.tokens
      then (true, put_bucket key (record full { tokens = fl.sub full.tokens one_token }) s)
      else (false, put_bucket key full s)

  -- `allow`.
  unfoldable pub allow : Limiter Num → ℕ → Text → Shard Num → Bool × Shard Num
  unfolding find_bucket allow_new allow_known
  allow e now key s = elim (find_bucket key s) [
    | none ↦ allow_new e now key s
    | some b ↦ allow_known e now key b s
  ]

abbrev or_empty : Option Text → Text
or_empty none = []
or_empty (some v) = v

-- `strings.Trim(h, "[]")`, by a side.
unfoldable pub trim_brackets : Text → Text
trim_brackets [] = []
trim_brackets (c ∷ s) = if (c == b'[') || (c == b']') then trim_brackets s else c ∷ s

-- `canonHost`.
unfoldable pub canon_host : (Text → Option Text) → Text → Text
unfolding trim_space to_lower trim_brackets
canon_host split_host_port h =
    let t = trim_space h in
    let host : Text = elim (split_host_port t) [ none ↦ t | some host ↦ host ] in
    to_lower (reverse (trim_brackets (reverse (trim_brackets host))))

-- `key`.
unfoldable pub key_of :
    {Num : Type 0} → (Text → Option Text) → KeySource → Limiter Num → Request → Text
unfolding canon_host find_header
key_of split_host_port key_host e req = canon_host split_host_port req.host
key_of split_host_port key_header e req = or_empty (find_header req.headers e.header)
key_of split_host_port key_ip e req = req.source_ip

unfoldable pub exceeded : Verdict
unfolding lit
exceeded = record {
  action = block;
  reason = lit "rate limit exceeded";
  rule_id = lit "ratelimit.exceeded";
  engine = lit "ratelimit";
  severity = severity_low;
  status_code = 429;
  score = pos 0;
}

abbrev or_unkeyed : Text → Text
or_unkeyed key = if is_empty key then unkeyed_bucket else key

abbrev limit_verdict : Bool → Verdict
limit_verdict true = no_verdict
limit_verdict false = exceeded

-- `Inspect` of a request and of a response, with the shard that it leaves.
unfoldable pub inspect_rate :
    {Num : Type 0}
    → Floats Num
    → (Text → Option Text)
    → Limiter Num
    → ℕ
    → Direction
    → Request
    → Shard Num
    → Verdict × Shard Num
unfolding allow key_of unkeyed_bucket exceeded
inspect_rate fl split_host_port e now direction_response req s = (no_verdict, s)
inspect_rate fl split_host_port e now direction_request req s =
    let (ok, s') = allow fl e now (or_unkeyed (key_of split_host_port e.key e req)) s in
    (limit_verdict ok, s')
