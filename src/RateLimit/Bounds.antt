-- ===== src/RateLimit/Bounds.antt =====
-- How many calls a token bucket grants.
use sentinai_project.Common.{ℕ, ◌+◌, ◌-◌, ◌*◌, ◌≤◌, List, [], ◌∷◌, ◌≡◌, arith, if◌then◌else◌, ap}
use sentinai_project.RateLimit.{TokenBucket, token, new_bucket, consume, consume_all}

-- The clock is monotonic: each call is not before the last one.
abbrev pub InOrder : ℕ → List ℕ → Type 0
InOrder last [] = Unit
InOrder last (now ∷ times) = (last ≤ now) × InOrder now times

-- The time of the last call.
abbrev pub last_of : ℕ → List ℕ → ℕ
last_of last [] = last
last_of last (now ∷ times) = last_of now times

pub record IsFull (b : TokenBucket) : Type 0 where
  pub capped : b.tokens ≤ b.capacity * token

consume-IsFull : (now : ℕ) (b : TokenBucket) → IsFull (consume now b).0
unfolding consume
consume-IsFull now b = ground arith

consume_keeps :
    (now : ℕ) (b : TokenBucket)
    → ((consume now b).0.refill_per_minute ≡ b.refill_per_minute)
      × ((consume now b).0.last_refill ≡ now)
      × ((consume now b).0.capacity ≡ b.capacity)
unfolding consume
consume_keeps now b = ground arith

-- What is granted and what is left come out of what was there and what was refilled.
consume_budget :
    (now : ℕ) (b : TokenBucket)
    → b.last_refill ≤ now
    → (if (consume now b).1 then 1 else 0) * token
        + (consume now b).0.tokens
        + b.refill_per_minute * b.last_refill
      ≤ b.tokens + b.refill_per_minute * now
unfolding consume
consume_budget now b h =
    let split : now ≡ b.last_refill + (now - b.last_refill) = omega arith in
    ground (arith, ap (λ t. b.refill_per_minute * t) split)

-- For calls at times in order, none before the last refill, the tokens granted are at most those
-- in the bucket at the start and those that the time until the last call refills.
pub consume_all-budget :
    (times : List ℕ) (b : TokenBucket)
    → InOrder b.last_refill times
    → (consume_all times b).1 * token + b.refill_per_minute * b.last_refill
      ≤ b.tokens + b.refill_per_minute * last_of b.last_refill times
unfolding consume_all
consume_all-budget [] b h = omega arith
consume_all-budget (now ∷ times) b h =
    let keeps = consume_keeps now b in
    let rest = consume_all-budget times (consume now b).0 (rw keeps.1 h.1) in
    let rest' = rw (keeps.0, keeps.1) at rest in omega (arith, rest', consume_budget now b h.0)

-- A new bucket grants at most its capacity and what the time since then refills.
pub new_bucket-budget :
    (capacity rate start : ℕ) (times : List ℕ)
    → InOrder start times
    → (consume_all times (new_bucket capacity rate start)).1 * token + rate * start
      ≤ capacity * token + rate * last_of start times
unfolding new_bucket
new_bucket-budget capacity rate start times h =
    consume_all-budget times (new_bucket capacity rate start) h
