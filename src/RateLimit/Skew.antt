-- ===== src/RateLimit/Skew.antt =====
-- What a clock that is late does to a bucket.
use open_weights.Base.{ℕ, ◌+◌, ◌-◌, ◌*◌, ◌/◌, ◌≤◌, ◌≡◌, arith, some}
use open_weights.RateLimit.{Bucket, lua}

-- An empty bucket at time `t`, whose keys have not expired, refuses a second call at `t`. But one
-- refused call from a clock that reads 0 moves the bucket's time back to 0, and then the same call at
-- `t` finds the bucket full, if a full refill takes no longer than `t`: it is allowed and leaves all
-- but one token. So a skew grants up to the whole capacity, not one extra call.
pub lua_skew_refills :
    (capacity refill_mt t redis_ms left : ℕ)
    → 1 ≤ capacity
    → capacity * 1000 ≤ t * refill_mt / 1000
    → let empty : Bucket = record { count = some 0; ts = some t; expires_at = redis_ms + left } in
      let (late, _, moved) = lua empty capacity refill_mt 0 redis_ms in
      ((lua empty capacity refill_mt t redis_ms).0 ≡ 0)
      × (late ≡ 0)
      × ((lua moved capacity refill_mt t redis_ms).0 ≡ 1)
      × ((lua moved capacity refill_mt t redis_ms).1 ≡ capacity * 1000 - 1000)
unfolding lua
lua_skew_refills capacity refill_mt t redis_ms left one full =
    let e : t - t ≡ 0 = omega arith in (ground arith, ground arith, ground arith, ground arith)
