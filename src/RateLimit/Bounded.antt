-- ===== src/RateLimit/Bounded.antt =====
-- How many calls the bucket lets through.
use open_weights.Base.{ℕ, ◌+◌, List, [], ◌∷◌, ltb, if◌then◌else◌}
use open_weights.RateLimit.{set_keys, key_ttl_ms, lua}

-- Calls on one bucket that a call left at `count` milli-tokens at the time `last_ms` of the client and
-- `redis_ms` of Redis; each comes `d.0` ms of the client's clock and `d.1` ms of Redis after the one
-- before. The number of calls that are allowed, and the count at the end.
abbrev pub allowed_from : ℕ → ℕ → ℕ → ℕ → ℕ → List (ℕ × ℕ) → ℕ × ℕ
allowed_from capacity refill_mt count last_ms redis_ms [] = (0, count)
allowed_from capacity refill_mt count last_ms redis_ms ((d, e) ∷ ds) =
    let (allowed, remaining_mt, _) =
      lua (set_keys count last_ms redis_ms) capacity refill_mt (last_ms + d) (redis_ms + e) in
    let (more, left) =
      allowed_from capacity refill_mt remaining_mt (last_ms + d) (redis_ms + e) ds in
    (allowed + more, left)

-- The client's time that passes.
abbrev pub elapsed : List (ℕ × ℕ) → ℕ
elapsed [] = 0
elapsed ((d, e) ∷ ds) = d + elapsed ds

-- How many calls come after the keys have expired: more than an hour after the one before.
abbrev pub expiries : List (ℕ × ℕ) → ℕ
expiries [] = 0
expiries ((d, e) ∷ ds) = (if ltb key_ttl_ms e then 1 else 0) + expiries ds
