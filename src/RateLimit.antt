-- ===== src/RateLimit.antt =====
-- TokenBucket of src/core/rate_limiter.py.
-- Times are nanoseconds of the monotonic clock, and tokens are counted in parts of 1 / (60 * 10 ^ 9)
-- of a token: a nanosecond refills `refill_per_minute` parts. So the arithmetic is exact, where the
-- source has floats. The lock makes `consume` one step.
pub mod Bounds
mod Examples
use sentinai_project.Common.{
  ℕ, ◌+◌, ◌-◌, ◌*◌, min, Bool, true, false, List, [], ◌∷◌, leb, if◌then◌else◌,
}

-- The parts of one token.
abbrev pub token : ℕ
token = 60_000_000_000

pub record TokenBucket : Type 0 where
  pub capacity : ℕ
  pub tokens : ℕ
  pub refill_per_minute : ℕ
  pub last_refill : ℕ

-- TokenBucket(capacity, refill_per_minute), at a time.
pub new_bucket : ℕ → ℕ → ℕ → TokenBucket
new_bucket capacity refill_per_minute now = record {
  capacity = capacity;
  tokens = capacity * token;
  refill_per_minute = refill_per_minute;
  last_refill = now;
}

unfoldable pub refill : ℕ → TokenBucket → TokenBucket
refill now b = record b {
  tokens = min (b.capacity * token) (b.tokens + b.refill_per_minute * (now - b.last_refill));
  last_refill = now;
}

unfoldable pub take_token : TokenBucket → TokenBucket × Bool
take_token b =
    if leb token b.tokens then (record b { tokens = b.tokens - token }, true) else (b, false)

unfoldable pub consume : ℕ → TokenBucket → TokenBucket × Bool
unfolding refill take_token
consume now b = take_token (refill now b)

-- The calls at a list of times: the bucket, and how many were granted.
pub consume_all : List ℕ → TokenBucket → TokenBucket × ℕ
consume_all [] b = (b, 0)
consume_all (now ∷ times) b =
    let (b', granted) = consume now b in
    let (b'', count) = consume_all times b' in (b'', (if granted then 1 else 0) + count)
