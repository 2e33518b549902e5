-- ===== src/Auth/Revoked.antt =====
-- A revoked key goes out of use within the time to live of the cache, whatever else the server does.
use mathlib.Core.Option.{none-ne-some}
use open_weights.Base.{
  ℕ, ◌-◌, ◌≤◌, ◌≡◌, ◌≢◌, ◌⊎◌, refl, ap, sym, subst, ◌∙◌, Bool, true, false, Option, none, some,
  List, [], ◌∷◌, ltb, arith, Bool-cases, inl, inr,
}
use open_weights.Store.{Uuid, unauthenticated, ok}
use open_weights.Auth.{ActiveKey, AuthCrates, AuthState, pure, run_statement}
use open_weights.Auth.Cache.{
  key_cache_ttl, active_key, checked_hit, cache_get, cache_put, fetch_active_key_by_hash,
  touch_last_used, keep_key, load_key, find_key,
}
use open_weights.Auth.Runs.{
  Keeps, IsSteady, pure-Keeps, throw-Keeps, bind-Keeps, bind_outcome-Keeps, query-Keeps,
}
use open_weights.Auth.Settled.{
  IsSettled, touch_rows-Follows, Follows-IsSettled, active_key-IsSettled,
}

-- What auth.rs relies on in the `lru` crate: an entry leaves the cache by `pop` or by eviction, and
-- enters it by `put`.
pub record LruLaws {Lru : Type 0} (c : AuthCrates Lru) : Type 0 where
  pub get-peek : (k : ℕ) (l : Lru) → (c.lru_get k l).0 ≡ c.lru_peek k l
  pub peek-get : (j k : ℕ) (l : Lru) → c.lru_peek j (c.lru_get k l).1 ≡ c.lru_peek j l
  pub peek-pop :
      (j k : ℕ) (l : Lru)
      → (c.lru_peek j (c.lru_pop k l) ≡ none) ⊎ (c.lru_peek j (c.lru_pop k l) ≡ c.lru_peek j l)
  pub peek-put : (k : ℕ) (v : ActiveKey) (l : Lru) → c.lru_peek k (c.lru_put k v l) ≡ some v
  pub peek-put_other :
      (j k : ℕ) (v : ActiveKey) (l : Lru)
      → j ≢ k
      → (c.lru_peek j (c.lru_put k v l) ≡ none) ⊎ (c.lru_peek j (c.lru_put k v l) ≡ c.lru_peek j l)

module _ {Lru : Type 0} (c : AuthCrates Lru) (laws : LruLaws c) (hash since : ℕ) where
  -- The cache has at most an entry of the key that was loaded when it was still good.
  abbrev IsOld : Lru → Type 0
  IsOld l = (k : ActiveKey) → c.lru_peek hash l ≡ some k → k.loaded_at ≤ since

  abbrev pub IsRevoked : AuthState Lru → Type 0
  IsRevoked w = IsSettled hash w.api_keys × IsOld w.cache

  IsOld-less :
      (l l' : Lru)
      → (c.lru_peek hash l' ≡ none) ⊎ (c.lru_peek hash l' ≡ c.lru_peek hash l)
      → IsOld l
      → IsOld l'
  IsOld-less l l' (inl gone) old k e = absurd (none-ne-some k (sym gone ∙ e))
  IsOld-less l l' (inr same) old k e = old k (sym same ∙ e)

  pub IsRevoked-IsSteady : IsSteady IsRevoked
  IsRevoked-IsSteady w rest i = i

  checked_hit-Keeps :
      (j : ℕ) (hit : Option ActiveKey) (l : Lru)
      → IsOld l
      → (w : AuthState Lru) → IsSettled hash w.api_keys
      → IsRevoked (checked_hit c j hit l w).1
  unfolding checked_hit
  checked_hit-Keeps j none l old w settled = (settled, old)
  checked_hit-Keeps j (some key) l old w settled =
      elim (Bool-cases (ltb key_cache_ttl (w.instant - key.loaded_at))) [
        | inl stale ↦ rw stale (settled, IsOld-less l _ (laws.peek-pop hash j l) old)
        | inr fresh ↦ rw fresh (settled, old)
      ]

  cache_get-Keeps : (j : ℕ) → Keeps IsRevoked (cache_get c j)
  unfolding Keeps cache_get
  cache_get-Keeps j w (settled, old) =
      checked_hit-Keeps j (c.lru_get j w.cache).0 (c.lru_get j w.cache).1
        (IsOld-less w.cache _ (inr (laws.peek-get hash j w.cache)) old) w settled

  cache_put-Keeps : (j : ℕ) (key : ActiveKey) → hash ≢ j → Keeps IsRevoked (cache_put c j key)
  unfolding Keeps cache_put
  cache_put-Keeps j key differs w (settled, old) =
      (settled, IsOld-less w.cache _ (laws.peek-put_other hash j key w.cache differs) old)

  fetch-Keeps : (j : ℕ) → Keeps IsRevoked (fetch_active_key_by_hash c j)
  unfolding fetch_active_key_by_hash
  fetch-Keeps j = query-Keeps IsRevoked _ IsRevoked-IsSteady (unfold Keeps in λ w i. i)

  fetch_outcome :
      (j : ℕ) (faults : List Bool) (w : AuthState Lru) (row : Option ActiveKey)
      → (run_statement faults (λ v. (ok (active_key j v.instant v.api_keys), v)) w).0 ≡ ok row
      → active_key j w.instant w.api_keys ≡ row
  fetch_outcome j [] w row e = ground arith
  fetch_outcome j (true ∷ rest) w row e = absurd (ground arith)
  fetch_outcome j (false ∷ rest) w row e = ground arith

  -- What the query returns is not the revoked key.
  fetch_differs :
      (j : ℕ) (w : AuthState Lru) (key : ActiveKey)
      → IsRevoked w
      → (fetch_active_key_by_hash c j w).0 ≡ ok (some key)
      → hash ≢ j
  unfolding fetch_active_key_by_hash
  fetch_differs j w key i e same = none-ne-some key (
      sym
        (active_key-IsSettled j w.instant w.api_keys (subst (λ h. IsSettled h w.api_keys) same i.0))
      ∙ fetch_outcome j w.faults w (some key) e)

  keep_key-Keeps :
      (j : ℕ) (row : Option ActiveKey)
      → ((key : ActiveKey) → row ≡ some key → hash ≢ j)
      → Keeps IsRevoked (keep_key c j row)
  unfolding keep_key
  keep_key-Keeps j none differs = throw-Keeps IsRevoked ActiveKey unauthenticated
  keep_key-Keeps j (some key) differs =
      bind-Keeps IsRevoked (cache_put c j key) (λ _. pure key)
        (cache_put-Keeps j key (differs key refl)) λ _. pure-Keeps IsRevoked key

  load_key-Keeps : (j : ℕ) (hit : Option ActiveKey) → Keeps IsRevoked (load_key c j hit)
  unfolding load_key
  load_key-Keeps j (some key) = pure-Keeps IsRevoked key
  load_key-Keeps j none =
      bind_outcome-Keeps IsRevoked (fetch_active_key_by_hash c j) (keep_key c j) (fetch-Keeps j)
        λ w row i e. keep_key-Keeps j row λ key f. fetch_differs j w key i (e ∙ ap ok f)

  pub find_key-Keeps : (j : ℕ) → Keeps IsRevoked (find_key c j)
  unfolding find_key
  find_key-Keeps j =
      bind-Keeps IsRevoked (cache_get c j) (load_key c j) (cache_get-Keeps j) (load_key-Keeps j)

  -- A table that follows the old one, or has a new row of a new hash.
  pub touch_last_used-Keeps : (id : Uuid) → Keeps IsRevoked (touch_last_used c id)
  unfolding touch_last_used
  touch_last_used-Keeps id = query-Keeps IsRevoked _ IsRevoked-IsSteady (
      unfold Keeps in
      λ w (settled, old). (
        Follows-IsSettled hash w.api_keys _ (touch_rows-Follows id w.now_unix w.api_keys) settled,
        old,
      ))
