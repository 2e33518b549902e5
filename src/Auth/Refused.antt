-- ===== src/Auth/Refused.antt =====
-- After a revocation: every run of requests, key changes and time, and the request that comes after.
use open_weights.Base.{
  ℕ, ◌+◌, ◌-◌, ◌≤◌, ◌<◌, ◌≡◌, ◌⊎◌, refl, ap, sym, subst, ◌∙◌, Bool, true, false, Option, none, some,
  List, [], ◌∷◌, ◌++◌, ltb, arith, inl, inr, Str,
}
use open_weights.Download.Request.{strip_prefix}
use open_weights.Store.{Uuid, unauthenticated, db, Result, ok, err}
use open_weights.Auth.{codes, ActiveKey, AuthCrates, AuthState, ◌>>=◌, run_statement}
use open_weights.Auth.Cache.{
  key_cache_ttl, active_key, checked_hit, cache_get, fetch_active_key_by_hash, load_key, keep_key,
  find_key,
}
use open_weights.Auth.Scoped.{
  looks_like_jwt, extract, admit_key, authenticate_opaque, authenticate_bearer, from_request_parts,
}
use open_weights.Auth.Keys.{ConsoleScope, create_key, revoke_key}
use open_weights.Auth.Runs.{run-Keeps, answer_after, answer_of_err}
use open_weights.Auth.Settled.{IsSettled, active_key-IsSettled}
use open_weights.Auth.Revoked.{LruLaws, IsRevoked}
use open_weights.Auth.Handlers.{from_request_parts-Keeps, create_key-Keeps, revoke_key-Keeps}

-- What happens to the state: a request, a change of the keys in the console, the passing of time, and
-- the database's failing or not.
pub data Step {Lru : Type 0} (c : AuthCrates Lru) (w : AuthState Lru) : AuthState Lru → Type 0 where
  request :
      (s : ℕ) (signing_key : Str) (auth xet : Option Str)
      → Step c w (from_request_parts c s signing_key auth xet w).1
  create :
      (user_id : ℕ) (name : Str) (scope : ConsoleScope) (raw : Option Str)
      → Step c w (create_key c user_id name scope raw w).1
  revoke : (user_id : ℕ) (id : Uuid) → Step c w (revoke_key c user_id id w).1
  tick :
      (nanos secs : ℕ)
      → Step c w (record w { instant = w.instant + nanos; now_unix = w.now_unix + secs })
  fail : (faults : List Bool) → Step c w (record w { faults = faults })

pub data Run {Lru : Type 0} (c : AuthCrates Lru) (w : AuthState Lru) : AuthState Lru → Type 0 where
  here : Run c w w
  later : {v u : AuthState Lru} → Run c w v → Step c v u → Run c w u

-- The request is turned away, or the database fails it.
abbrev pub IsRefused : {T : Type 0} → Result T → Type 0
IsRefused r = (r ≡ err unauthenticated) ⊎ (r ≡ err db)

module _ {Lru : Type 0} (c : AuthCrates Lru) (laws : LruLaws c) (hash since : ℕ) where
  Step-IsRevoked :
      {w v : AuthState Lru}
      → Step c w v
      → IsRevoked c laws hash since w
      → IsRevoked c laws hash since v
  Step-IsRevoked {w} (request s key auth xet) i =
      run-Keeps (IsRevoked c laws hash since) (from_request_parts c s key auth xet)
        (from_request_parts-Keeps c laws hash since s key auth xet) w i
  Step-IsRevoked {w} (create user name scope raw) i =
      run-Keeps (IsRevoked c laws hash since) (create_key c user name scope raw)
        (create_key-Keeps c laws hash since user name scope raw) w i
  Step-IsRevoked {w} (revoke user id) i =
      run-Keeps (IsRevoked c laws hash since) (revoke_key c user id)
        (revoke_key-Keeps c laws hash since user id) w i
  Step-IsRevoked (tick nanos secs) i = i
  Step-IsRevoked (fail faults) i = i

  Run-IsRevoked :
      {w v : AuthState Lru}
      → Run c w v
      → IsRevoked c laws hash since w
      → IsRevoked c laws hash since v
  Run-IsRevoked here i = i
  Run-IsRevoked (later r st) i = Step-IsRevoked st (Run-IsRevoked r i)

  -- A cached entry of the key is too old to be used.
  checked_hit_stale :
      (hit : Option ActiveKey) (l : Lru) (w : AuthState Lru)
      → ((k : ActiveKey) → hit ≡ some k → k.loaded_at ≤ since)
      → since + key_cache_ttl < w.instant
      → (v : AuthState Lru) × (checked_hit c hash hit l w ≡ (ok none, v))
        × (v.api_keys ≡ w.api_keys)
  unfolding checked_hit
  checked_hit_stale none l w old late = (_, refl, refl)
  checked_hit_stale (some k) l w old late =
      let before : k.loaded_at ≤ since = old k refl in
      let stale : ltb key_cache_ttl (w.instant - k.loaded_at) ≡ true = ground arith in
      (record w { cache = c.lru_pop hash l }, rw stale, refl)

  loaded_or_failed :
      (faults : List Bool) (w : AuthState Lru)
      → active_key hash w.instant w.api_keys ≡ none
      → (let r = run_statement faults (λ v. (ok (active_key hash v.instant v.api_keys), v)) w in
          (r.0 ≡ ok none) ⊎ (r.0 ≡ err db))
  loaded_or_failed [] w e = inl (ap ok e)
  loaded_or_failed (true ∷ rest) w e = inr refl
  loaded_or_failed (false ∷ rest) w e = inl (ap ok e)

  load_key-IsRefused :
      (w : AuthState Lru) → IsSettled hash w.api_keys → IsRefused (load_key c hash none w).0
  unfolding load_key fetch_active_key_by_hash keep_key
  load_key-IsRefused w settled =
      elim (loaded_or_failed w.faults w (active_key-IsSettled hash w.instant w.api_keys settled)) [
        | inl e ↦ inl (answer_after (fetch_active_key_by_hash c hash) (keep_key c hash) w none e)
        | inr e ↦ inr (answer_of_err (fetch_active_key_by_hash c hash) (keep_key c hash) w db e)
      ]

  find_key-IsRefused :
      (w : AuthState Lru)
      → IsRevoked c laws hash since w
      → since + key_cache_ttl < w.instant
      → IsRefused (find_key c hash w).0
  unfolding find_key cache_get
  find_key-IsRefused w (settled, old) late =
      let known : (k : ActiveKey) → (c.lru_get hash w.cache).0 ≡ some k → k.loaded_at ≤ since =
        λ k e. old k (sym (laws.get-peek hash w.cache) ∙ e) in
      let (v, missed, same) =
        checked_hit_stale (c.lru_get hash w.cache).0 (c.lru_get hash w.cache).1 w known late in
      subst IsRefused (sym (ap (λ r. (((λ _. r) >>= load_key c hash) w).0) missed))
        (load_key-IsRefused v (subst (IsSettled hash) (sym same) settled))

  authenticate-IsRefused :
      (s : ℕ) (plaintext : Str) (w : AuthState Lru)
      → c.sha256 plaintext ≡ hash
      → IsRefused (find_key c hash w).0
      → IsRefused (authenticate_opaque c s plaintext w).0
  unfolding authenticate_opaque
  authenticate-IsRefused s plaintext w e (inl h) = inl (
      answer_of_err (find_key c (c.sha256 plaintext)) (admit_key c s) w unauthenticated
        (ap (λ x. (find_key c x w).0) e ∙ h))
  authenticate-IsRefused s plaintext w e (inr h) = inr (
      answer_of_err (find_key c (c.sha256 plaintext)) (admit_key c s) w db
        (ap (λ x. (find_key c x w).0) e ∙ h))

-- After a state in which all rows of a key are revoked and the cached entry, if there is one, is not
-- from the future, whatever requests, each in one step, key changes, passing of time and database
-- failures follow: when
-- more than `key_cache_ttl` has passed, a request with the key, if it does not look like a token, is
-- refused as unauthenticated or fails in the database.
pub revoked_key-IsRefused :
    {Lru : Type 0} (c : AuthCrates Lru) (laws : LruLaws c) (plaintext : Str) {w v : AuthState Lru}
    → looks_like_jwt plaintext ≡ false
    → IsRevoked c laws (c.sha256 plaintext) w.instant w
    → Run c w v
    → w.instant + key_cache_ttl < v.instant
    → (s : ℕ) (signing_key : Str) (xet : Option Str)
    → IsRefused (from_request_parts c s signing_key (some (codes "Bearer " ++ plaintext)) xet v).0
unfolding from_request_parts extract authenticate_bearer strip_prefix
revoked_key-IsRefused c laws plaintext {w} {v} opaque revoked run late s key xet =
    let hash = c.sha256 plaintext in
    rw opaque (
      authenticate-IsRefused c laws hash w.instant s plaintext v refl (
        find_key-IsRefused c laws hash w.instant v (Run-IsRevoked c laws hash w.instant run revoked)
          late))
