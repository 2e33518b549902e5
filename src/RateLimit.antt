-- ===== src/RateLimit.antt =====
-- cas/crates/openweights-cas-core/src/rate_limit.rs with its script scripts/rate_limit.lua. A refill
-- rate, an `f64` in the source, is a fraction here, and what is computed with it is exact.
pub mod Bounded
pub mod Skew
mod Tests
use open_weights.Base.{
  ℕ, ◌+◌, ◌-◌, ◌*◌, ◌/◌, min, max, Option, none, some, Bool, true, false, ltb, ◌==◌, if◌then◌else◌,
}

pub data RateLimitClass : Type 0 where
  upload download admin : RateLimitClass

abbrev pub same_class : RateLimitClass → RateLimitClass → Bool
same_class upload upload = true
same_class download download = true
same_class admin admin = true
same_class _ _ = false

-- Requests for each number of seconds: `100.0 / 60.0` is `(100, 60)`.
abbrev pub Rate : Type 0
Rate = ℕ × ℕ

pub record RateLimitDefaults : Type 0 where
  pub upload_capacity : ℕ
  pub upload_refill_per_sec : Rate
  pub download_capacity : ℕ
  pub download_refill_per_sec : Rate
  pub admin_capacity : ℕ
  pub admin_refill_per_sec : Rate

abbrev pub defaults : RateLimitDefaults
defaults = record {
  upload_capacity = 100;
  upload_refill_per_sec = (100, 60);
  download_capacity = 100;
  download_refill_per_sec = (100, 60);
  admin_capacity = 600;
  admin_refill_per_sec = (600, 60);
}

unfoldable pub for_class : RateLimitDefaults → RateLimitClass → ℕ × Rate
for_class d upload = (d.upload_capacity, d.upload_refill_per_sec)
for_class d download = (d.download_capacity, d.download_refill_per_sec)
for_class d admin = (d.admin_capacity, d.admin_refill_per_sec)

-- The two keys of a bucket: milli-tokens left, and the time of the last refill in ms. The script writes
-- both with the same expiry, so that they live until one time of the Redis clock, in ms.
pub record Bucket : Type 0 where
  pub count : Option ℕ
  pub ts : Option ℕ
  pub expires_at : ℕ

-- `EX 3600`
abbrev pub key_ttl_ms : ℕ
key_ttl_ms = 3600000

-- What `GET` finds of the keys at the time `redis_ms` of the Redis clock.
unfoldable pub live_keys : Bucket → ℕ → Option ℕ × Option ℕ
live_keys b redis_ms = if ltb b.expires_at redis_ms then (none, none) else (b.count, b.ts)

abbrev pub unwrap_or : ℕ → Option ℕ → ℕ
unwrap_or d none = d
unwrap_or d (some x) = x

-- The script up to its test: the refilled count, in milli-tokens, from what `GET` finds.
unfoldable pub refilled : Option ℕ × Option ℕ → ℕ → ℕ → ℕ → ℕ
refilled (count, ts) capacity refill_mt now_ms =
    let capacity_mt = capacity * 1000 in
    let count_mt = unwrap_or capacity_mt count in
    let last_ms = unwrap_or now_ms ts in
    min (count_mt + (now_ms - last_ms) * refill_mt / 1000) capacity_mt

-- Both keys as `SET … EX 3600` leaves them.
abbrev pub set_keys : ℕ → ℕ → ℕ → Bucket
set_keys count_mt now_ms redis_ms = record {
  count = some count_mt;
  ts = some now_ms;
  expires_at = redis_ms + key_ttl_ms;
}

-- The reply `{ allowed, remaining_mt }` and the keys afterwards. On ℕ `now_ms - last_ms` is the
-- script's `elapsed_ms` after its clamp. The client sends `now_ms`; the expiry goes by `redis_ms`.
unfoldable pub lua : Bucket → ℕ → ℕ → ℕ → ℕ → ℕ × ℕ × Bucket
unfolding refilled live_keys
lua b capacity refill_mt now_ms redis_ms =
    let refilled_mt = refilled (live_keys b redis_ms) capacity refill_mt now_ms in
    if ltb refilled_mt 1000
    then (0, refilled_mt, set_keys refilled_mt now_ms redis_ms)
    else (1, refilled_mt - 1000, set_keys (refilled_mt - 1000) now_ms redis_ms)

-- `(refill_per_sec * 1000.0) as i64`
unfoldable pub refill_milli_per_sec : Rate → ℕ
refill_milli_per_sec rate = rate.0 * 1000 / rate.1

-- `ceil((1000 - remaining_mt) / (refill_per_sec * 1000))`, at least 1; 60 without a refill.
unfoldable pub retry_after_secs : ℕ → Rate → ℕ
retry_after_secs remaining_mt rate =
    if rate.0 == 0
    then 60
    else let denominator = rate.0 * 1000 in
      max (((1000 - remaining_mt) * rate.1 + (denominator - 1)) / denominator) 1

-- `check` on the bucket of its class and key: the `Retry-After` of a denial, and the bucket.
unfoldable pub check_bucket :
    RateLimitDefaults → RateLimitClass → Bucket → ℕ → ℕ → Option ℕ × Bucket
unfolding for_class lua refill_milli_per_sec retry_after_secs
check_bucket d class b now_ms redis_ms =
    let (capacity, rate) = for_class d class in
    let (allowed, remaining_mt, b') = lua b capacity (refill_milli_per_sec rate) now_ms redis_ms in
    if allowed == 1 then (none, b') else (some (retry_after_secs remaining_mt rate), b')
