-- ===== src/Auth/Admitted.antt =====
-- A key that is new in the table is good for the next request.
use open_weights.Base.{
  ℕ, ◌≡◌, refl, ap, ◌∙◌, false, Option, none, some, List, [], ◌∷◌, ◌++◌, ◌==◌, arith, Bool-cases,
  inl, inr, Str,
}
use open_weights.Download.Request.{strip_prefix}
use open_weights.Store.{ApiKeyScope, AuthContext, ok}
use open_weights.Auth.{
  codes, ApiKeyRow, ActiveKey, AuthCrates, AuthState, A, pure, ◌>>=◌, ◌>>◌, ignore, run_statement,
  require_scope, scope_any,
}
use open_weights.Auth.Cache.{
  active_key, checked_hit, cache_get, fetch_active_key_by_hash, touch_last_used, load_key, keep_key,
  find_key, cache_put,
}
use open_weights.Auth.XetJwt.{find_by_hash}
use open_weights.Auth.Scoped.{
  looks_like_jwt, extract, context_of_key, admit_key, authenticate_opaque, authenticate_bearer,
  from_request_parts,
}
use open_weights.Auth.Runs.{answer_after}
use open_weights.Auth.Revoked.{LruLaws}
use open_weights.Auth.Granted.{IsGranted}
use open_weights.Base.{==_iff}

-- A row of a new hash is the one that the query of the bearer path finds.
active_key-append :
    (instant : ℕ) (rows : List ApiKeyRow) (row : ApiKeyRow)
    → find_by_hash row.key_hash rows ≡ none
    → row.revoked_at ≡ none
    → active_key row.key_hash instant (rows ++ row ∷ [])
      ≡ some
          (record { id = row.id; user_id = row.user_id; scopes = row.scopes; loaded_at = instant })
unfolding active_key find_by_hash
active_key-append instant [] row absent live = rw ((==_iff row.key_hash row.key_hash).1 refl, live)
active_key-append instant (r ∷ rows) row absent live =
    elim (Bool-cases (r.key_hash == row.key_hash)) [
      | inl same ↦ absurd (ground arith)
      | inr differs ↦ rw differs (active_key-append instant rows row (ground arith) live)
    ]

require_scope-ok :
    {S : Type 0} (s : ℕ) (scopes : List ApiKeyScope) (w : S)
    → IsGranted s scopes
    → require_scope s scopes w ≡ (ok tt, w)
unfolding require_scope
require_scope-ok s scopes w (inl e) = rw ((==_iff s scope_any).1 e)
require_scope-ok s scopes w (inr (required, e, held)) = elim (Bool-cases (s == scope_any)) [
  | inl any ↦ rw any
  | inr differs ↦ rw (differs, e, held)
]

-- The context of a request with the key of the row.
abbrev pub context_of_row : ApiKeyRow → AuthContext
context_of_row row = record { api_key_id = row.id; user_id = row.user_id; scopes = row.scopes }

module _ {Lru : Type 0} (c : AuthCrates Lru) (laws : LruLaws c) where
  fetch_ok :
      (hash : ℕ) (w : AuthState Lru)
      → w.faults ≡ []
      → fetch_active_key_by_hash c hash w ≡ (ok (active_key hash w.instant w.api_keys), w)
  unfolding fetch_active_key_by_hash
  fetch_ok hash w quiet =
      ap (λ f. run_statement f (λ v. (ok (active_key hash v.instant v.api_keys), v)) w) quiet

  load_key_ok :
      (hash : ℕ) (w : AuthState Lru) (key : ActiveKey)
      → w.faults ≡ []
      → active_key hash w.instant w.api_keys ≡ some key
      → (load_key c hash none w).0 ≡ ok key
  unfolding load_key keep_key cache_put
  load_key_ok hash w key quiet found =
      ap (λ r. (((λ _. r) >>= keep_key c hash) w).0) (fetch_ok hash w quiet)
      ∙ ap (λ row. (keep_key c hash row w).0) found

  checked_hit-none :
      (hash : ℕ) (hit : Option ActiveKey) (l : Lru) (w : AuthState Lru)
      → hit ≡ none
      → checked_hit c hash hit l w ≡ (ok none, record w { cache = l })
  unfolding checked_hit
  checked_hit-none hash hit l w e = ap (λ h. checked_hit c hash h l w) e

  find_key_ok :
      (hash : ℕ) (w : AuthState Lru) (key : ActiveKey)
      → w.faults ≡ []
      → c.lru_peek hash w.cache ≡ none
      → active_key hash w.instant w.api_keys ≡ some key
      → (find_key c hash w).0 ≡ ok key
  unfolding find_key cache_get
  find_key_ok hash w key quiet cold found =
      let missed : (c.lru_get hash w.cache).0 ≡ none = laws.get-peek hash w.cache ∙ cold in
      ap (λ r. (((λ _. r) >>= load_key c hash) w).0)
        (checked_hit-none hash (c.lru_get hash w.cache).0 (c.lru_get hash w.cache).1 w missed)
      ∙ load_key_ok hash (record w { cache = (c.lru_get hash w.cache).1 }) key quiet found

  admit_key_ok :
      (s : ℕ) (key : ActiveKey) (w : AuthState Lru)
      → IsGranted s key.scopes
      → (admit_key c s key w).0 ≡ ok (context_of_key key)
  unfolding admit_key
  admit_key_ok s key w granted =
      let touch : A Lru (Unit {0}) = ignore (touch_last_used c key.id) in
      answer_after (require_scope s key.scopes) (λ _. touch >> pure (context_of_key key)) w tt
        (ap (λ p. p.0) (require_scope-ok s key.scopes w granted))

  pub row_authenticates :
      (w : AuthState Lru) (row : ApiKeyRow) (plaintext : Str) (s : ℕ) (signing_key : Str)
      (xet : Option Str)
      → w.faults ≡ []
      → find_by_hash row.key_hash w.api_keys ≡ none
      → row.revoked_at ≡ none
      → c.sha256 plaintext ≡ row.key_hash
      → c.lru_peek row.key_hash w.cache ≡ none
      → looks_like_jwt plaintext ≡ false
      → IsGranted s row.scopes
      → (from_request_parts c s signing_key
          (some (codes "Bearer " ++ plaintext))
          xet
          (record w { api_keys = w.api_keys ++ row ∷ [] })).0
        ≡ ok (context_of_row row)
  unfolding from_request_parts extract authenticate_bearer authenticate_opaque strip_prefix
  row_authenticates w row plaintext s signing_key xet quiet absent live same cold opaque granted =
      let key : ActiveKey = record {
        id = row.id;
        user_id = row.user_id;
        scopes = row.scopes;
        loaded_at = w.instant;
      } in
      let v = record w { api_keys = w.api_keys ++ row ∷ [] } in
      let found =
        find_key_ok row.key_hash v key quiet cold
          (active_key-append w.instant w.api_keys row absent live) in
      rw (opaque, same)
        (answer_after (find_key c row.key_hash) (admit_key c s) v key found
          ∙ admit_key_ok s key _ granted)
