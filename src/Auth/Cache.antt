-- ===== src/Auth/Cache.antt =====
-- `KeyCache`, `fetch_active_key_by_hash` and `touch_last_used` of
-- cas/crates/openweights-cas-core/src/auth.rs. A lock that is poisoned is not modelled.
use open_weights.Base.{
  ℕ, ◌-◌, ◌*◌, Bool, true, false, ◌&&◌, Option, none, some, List, [], ◌∷◌, ◌==◌, ltb, if◌then◌else◌,
}
use open_weights.Store.{Uuid, ok, unauthenticated}
use open_weights.Auth.{ApiKeyRow, ActiveKey, AuthCrates, A, pure, throw, ◌>>=◌, ◌>>◌, query}

-- 5 seconds
abbrev pub key_cache_ttl : ℕ
key_cache_ttl = 5 * 1000000000

abbrev pub is_none {ℓ} : {T : Type ℓ} → Option T → Bool
is_none none = true
is_none (some a) = false

unfoldable pub active_key : ℕ → ℕ → List ApiKeyRow → Option ActiveKey
active_key hash instant [] = none
active_key hash instant (r ∷ rows) =
    if r.key_hash == hash && is_none r.revoked_at
    then some (record { id = r.id; user_id = r.user_id; scopes = r.scopes; loaded_at = instant })
    else active_key hash instant rows

unfoldable pub touch_rows : Uuid → ℕ → List ApiKeyRow → List ApiKeyRow
touch_rows id now [] = []
touch_rows id now (r ∷ rows) =
    (if r.id == id then record r { last_used_at = some now } else r) ∷ touch_rows id now rows

module _ {Lru : Type 0} (c : AuthCrates Lru) where
  open c use {lru_get, lru_put, lru_pop}

  -- `KeyCache::get`, of what the cache holds and the cache after the look.
  unfoldable pub checked_hit : ℕ → Option ActiveKey → Lru → A Lru (Option ActiveKey)
  checked_hit hash none cache w = (ok none, record w { cache = cache })
  checked_hit hash (some key) cache w =
      if ltb key_cache_ttl (w.instant - key.loaded_at)
      then (ok none, record w { cache = lru_pop hash cache })
      else (ok (some key), record w { cache = cache })

  unfoldable pub cache_get : ℕ → A Lru (Option ActiveKey)
  cache_get hash w = let (hit, cache) = lru_get hash w.cache in checked_hit hash hit cache w

  -- `KeyCache::put`
  unfoldable pub cache_put : ℕ → ActiveKey → A Lru (Unit {0})
  cache_put hash key w = (ok tt, record w { cache = lru_put hash key w.cache })

  unfoldable pub fetch_active_key_by_hash : ℕ → A Lru (Option ActiveKey)
  unfolding active_key
  fetch_active_key_by_hash hash = query λ w. (ok (active_key hash w.instant w.api_keys), w)

  unfoldable pub touch_last_used : Uuid → A Lru (Unit {0})
  unfolding touch_rows
  touch_last_used id =
      query λ w. (ok tt, record w { api_keys = touch_rows id w.now_unix w.api_keys })

  -- A miss in the table too, or the row, which the cache then keeps.
  unfoldable pub keep_key : ℕ → Option ActiveKey → A Lru ActiveKey
  unfolding cache_put
  keep_key hash none = throw unauthenticated
  keep_key hash (some key) = cache_put hash key >> pure key

  unfoldable pub load_key : ℕ → Option ActiveKey → A Lru ActiveKey
  load_key hash (some key) = pure key
  load_key hash none = fetch_active_key_by_hash hash >>= keep_key hash

  -- Steps (3) and (4) of `from_request_parts`.
  unfoldable pub find_key : ℕ → A Lru ActiveKey
  find_key hash = cache_get hash >>= load_key hash
