-- ===== src/RateLimit/Examples.antt =====
-- A bucket of one token that refills one a minute.
use sentinai_project.Common.{◌+◌, ◌*◌, ◌≤◌, [], ◌∷◌, arith}
use sentinai_project.RateLimit.{TokenBucket, token, consume_all}
use sentinai_project.RateLimit.Bounds.{consume_all-budget, last_of}

abbrev one : TokenBucket
one = record { capacity = 1; tokens = token; refill_per_minute = 1; last_refill = 5 }

consume_all-budget_example :
    (consume_all (5 ∷ 6 ∷ 60_000_000_005 ∷ []) one).1 * token + 1 * 5
    ≤ token + 1 * last_of 5 (5 ∷ 6 ∷ 60_000_000_005 ∷ [])
consume_all-budget_example = consume_all-budget (5 ∷ 6 ∷ 60_000_000_005 ∷ []) one (omega arith)
