-- ===== src/RateLimit/Tests.antt =====
-- Runs of a bucket of 2 tokens that gets one token back each second.
use open_weights.Base.{ℕ, ◌+◌, ◌*◌, ◌-◌, ◌≡◌, refl, arith, some, List, [], ◌∷◌}
use open_weights.RateLimit.{Bucket, lua}
use open_weights.RateLimit.Bounded.{allowed_from}
use open_weights.RateLimit.Skew.{lua_skew_refills}

abbrev calls : List (ℕ × ℕ)
calls = (0, 0) ∷ (0, 1) ∷ (0, 1) ∷ (1000, 990) ∷ (0, 3600001) ∷ []

-- The second is refused twice; the last finds a full bucket, as the keys have expired.
four_allowed : allowed_from 2 1000 2000 0 500 calls ≡ (4, 1000)
unfolding lua
four_allowed = refl

-- Two keys that are to live until `expires_at` are there at that time, and gone after it.
last_moment : (lua (record { count = some 0; ts = some 0; expires_at = 500 }) 2 0 0 500).0 ≡ 0
unfolding lua
last_moment = refl

gone : (lua (record { count = some 0; ts = some 0; expires_at = 500 }) 2 0 0 501).0 ≡ 1
unfolding lua
gone = refl

lua_skew_refills_example :
    let empty : Bucket = record { count = some 0; ts = some 5000; expires_at = 9 + 90 } in
    let (late, _, moved) = lua empty 2 1000 0 9 in
    ((lua empty 2 1000 5000 9).0 ≡ 0)
    × (late ≡ 0)
    × ((lua moved 2 1000 5000 9).0 ≡ 1)
    × ((lua moved 2 1000 5000 9).1 ≡ 2 * 1000 - 1000)
lua_skew_refills_example = lua_skew_refills 2 1000 5000 9 90 (omega arith) (omega arith)
