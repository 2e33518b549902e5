-- ===== src/Auth/Handlers.antt =====
-- No request and no change of the keys brings a revoked key back.
use open_weights.Base.{
  ℕ, ◌≡◌, ◌⊎◌, refl, Bool, true, false, Option, none, some, ◌++◌, ltb, Bool-cases, inl, inr, Str,
}
use open_weights.Base.Maps.{str_eq}
use open_weights.ShardParse.{is_empty}
use open_weights.SignedUrl.Text.{to_string}
use open_weights.Base.{length}
use open_weights.Store.{Uuid, unauthenticated, other, ok}
use open_weights.Auth.{
  codes, ApiKeyRow, UserRow, I64, nonneg, below_zero, XetJwtClaims, AuthCrates, AuthState, A, pure,
  ◌>>◌, ignore, or_other, of_option, query, require_scope,
}
use open_weights.Auth.Cache.{touch_last_used, find_key}
use open_weights.Auth.XetJwt.{
  XetJwtError, scopes_of, decode_and_validate, openweights_issuer, find_hf_user, login_taken, taken,
  hf_user_id_to_i64, find_by_hash, synthetic_key_text, synthetic_row, put_hf_user, put_synthetic,
  upsert_hf_user, upsert_synthetic_api_key,
}
use open_weights.Auth.Scoped.{
  looks_like_jwt, parse_i64, user_exists, widest_key, key_for_user, known_user, resolve_user,
  signed_identity, admit_decoded, extract, openweights_identity, hf_identity, identity,
  admit_claims, context_of, context_of_key, authenticate_xet_jwt, admit_key, authenticate_opaque,
  authenticate_bearer, bearer_of, from_request_parts,
}
use open_weights.Auth.Keys.{
  ConsoleScope, CreateKeyResponse, response_of, create_row, create_key, insert_absent, insert_key,
  new_row, revoke_key, revocable,
}
use open_weights.Auth.Runs.{
  Keeps, IsSteady, run-Keeps, pure-Keeps, throw-Keeps, bind-Keeps, or_other-Keeps, ignore-Keeps,
  if-Keeps, of_option-Keeps, require_scope-Keeps, query-Keeps,
}
use open_weights.Auth.Settled.{
  touch_hash-Follows, revoke_rows-Follows, Follows-IsSettled, append-IsSettled,
}
use open_weights.Auth.Revoked.{
  LruLaws, IsRevoked, IsRevoked-IsSteady, find_key-Keeps, touch_last_used-Keeps,
}

module _ {Lru : Type 0} (c : AuthCrates Lru) (laws : LruLaws c) (hash since : ℕ) where
  abbrev I : AuthState Lru → Type 0
  I = IsRevoked c laws hash since

  abbrev steady : IsSteady (IsRevoked c laws hash since)
  steady = IsRevoked-IsSteady c laws hash since

  put_hf_user-Keeps :
      (u : Str) (hit : Option UserRow) (w : AuthState Lru) → I w → I (put_hf_user c u hit w).1
  unfolding put_hf_user
  put_hf_user-Keeps u (some row) w i =
      elim (Bool-cases (login_taken row.id (codes "hf:" ++ u) w.users)) [
        | inl e ↦ rw e i
        | inr e ↦ rw e i
      ]
  put_hf_user-Keeps u none w i =
      elim (Bool-cases (taken (hf_user_id_to_i64 c u) (codes "hf:" ++ u) w.users)) [
        | inl e ↦ rw e i
        | inr e ↦ rw e i
      ]

  upsert_hf_user-Keeps : (u : Str) → Keeps I (upsert_hf_user c u)
  unfolding upsert_hf_user
  upsert_hf_user-Keeps u =
      query-Keeps I _ steady
        (unfold Keeps in λ w i. put_hf_user-Keeps u (find_hf_user u w.users) w i)

  put_synthetic-Keeps :
      (uid : ℕ) (u : Str) (w : AuthState Lru) (hit : Option ApiKeyRow)
      → find_by_hash (c.sha256 (synthetic_key_text u)) w.api_keys ≡ hit
      → I w
      → I (put_synthetic c uid u hit w).1
  unfolding put_synthetic synthetic_row
  put_synthetic-Keeps uid u w (some row) e (settled, old) = (
    Follows-IsSettled hash w.api_keys _ (touch_hash-Follows _ w.now_unix w.api_keys) settled,
    old,
  )
  put_synthetic-Keeps uid u w none e (settled, old) =
      (append-IsSettled hash w.api_keys _ e settled, old)

  upsert_synthetic-Keeps : (uid : ℕ) (u : Str) → Keeps I (upsert_synthetic_api_key c uid u)
  unfolding upsert_synthetic_api_key
  upsert_synthetic-Keeps uid u =
      query-Keeps I _ steady (unfold Keeps in λ w i. put_synthetic-Keeps uid u w _ refl i)

  read-Keeps : {T : Type 0} (f : AuthState Lru → T) → Keeps I (query (λ w. (ok (f w), w)))
  read-Keeps f = query-Keeps I _ steady (unfold Keeps in λ w i. i)

  key_for_user-Keeps : (uid : ℕ) (row : Option ApiKeyRow) → Keeps I (key_for_user c uid row)
  unfolding key_for_user
  key_for_user-Keeps uid (some row) = pure-Keeps I _
  key_for_user-Keeps uid none =
      bind-Keeps I
        (or_other (upsert_synthetic_api_key c uid (codes "openweights:" ++ to_string uid))) _
        (or_other-Keeps I _ (upsert_synthetic-Keeps uid _)) λ key_id. pure-Keeps I (uid, key_id)

  known_user-Keeps : (uid : I64) (known : Bool) → Keeps I (known_user c uid known)
  unfolding known_user widest_key
  known_user-Keeps (nonneg uid) true =
      bind-Keeps I (widest_key c uid) (key_for_user c uid) (read-Keeps _) (key_for_user-Keeps uid)
  known_user-Keeps (nonneg uid) false = throw-Keeps I _ unauthenticated
  known_user-Keeps (below_zero n) known = throw-Keeps I _ unauthenticated

  resolve_user-Keeps : (uid : Option I64) → Keeps I (resolve_user c uid)
  unfolding resolve_user user_exists
  resolve_user-Keeps none = throw-Keeps I _ unauthenticated
  resolve_user-Keeps (some uid) =
      bind-Keeps I (user_exists c uid) (known_user c uid) (read-Keeps _) (known_user-Keeps uid)

  signed_identity-Keeps :
      (claims : XetJwtClaims) (fault : Option XetJwtError)
      → Keeps I (signed_identity c claims fault)
  unfolding signed_identity
  signed_identity-Keeps claims none = resolve_user-Keeps (parse_i64 claims.user_id)
  signed_identity-Keeps claims (some e) = throw-Keeps I _ unauthenticated

  hf_identity-Keeps : (claims : XetJwtClaims) → Keeps I (hf_identity c claims)
  unfolding hf_identity
  hf_identity-Keeps claims =
      bind-Keeps I (or_other (upsert_hf_user c claims.user_id)) _
        (or_other-Keeps I _ (upsert_hf_user-Keeps claims.user_id))
        λ uid.
          bind-Keeps I (or_other (upsert_synthetic_api_key c uid claims.user_id)) _
            (or_other-Keeps I _ (upsert_synthetic-Keeps uid claims.user_id))
            λ key_id. pure-Keeps I (uid, key_id)

  identity-Keeps : (key token : Str) (claims : XetJwtClaims) → Keeps I (identity c key token claims)
  unfolding identity openweights_identity
  identity-Keeps key token claims =
      if-Keeps I (str_eq claims.iss openweights_issuer) _ _ (signed_identity-Keeps claims _)
        (hf_identity-Keeps claims)

  admit_decoded-Keeps :
      (s : ℕ) (key token : Str) (decoded : XetJwtError ⊎ XetJwtClaims)
      → Keeps I (admit_decoded c s key token decoded)
  unfolding admit_decoded admit_claims
  admit_decoded-Keeps s key token (inl e) = throw-Keeps I _ unauthenticated
  admit_decoded-Keeps s key token (inr claims) =
      bind-Keeps I (require_scope s (scopes_of claims.access)) _ (require_scope-Keeps I s _) λ _.
        bind-Keeps I (identity c key token claims) _ (identity-Keeps key token claims)
          λ who. pure-Keeps I (context_of (scopes_of claims.access) who)

  xet_jwt-Keeps : (s : ℕ) (key token : Str) → Keeps I (authenticate_xet_jwt c s key token)
  unfolding Keeps authenticate_xet_jwt
  xet_jwt-Keeps s key token w i =
      run-Keeps I (admit_decoded c s key token _)
        (admit_decoded-Keeps s key token (decode_and_validate c token w.now_unix)) w i

  opaque-Keeps : (s : ℕ) (plaintext : Str) → Keeps I (authenticate_opaque c s plaintext)
  unfolding authenticate_opaque admit_key
  opaque-Keeps s plaintext =
      bind-Keeps I (find_key c (c.sha256 plaintext)) (admit_key c s)
        (find_key-Keeps c laws hash since _)
        λ k. bind-Keeps I (require_scope s k.scopes) _ (require_scope-Keeps I s k.scopes) λ _.
          bind-Keeps I (ignore (touch_last_used c k.id)) _
            (ignore-Keeps I _ (touch_last_used-Keeps c laws hash since k.id))
            λ _. pure-Keeps I (context_of_key k)

  extract-Keeps :
      (s : ℕ) (key : Str) (bearer xet : Option Str) → Keeps I (extract c s key bearer xet)
  unfolding extract authenticate_bearer
  extract-Keeps s key (some plaintext) xet =
      if-Keeps I (looks_like_jwt plaintext) _ _ (xet_jwt-Keeps s key plaintext)
        (opaque-Keeps s plaintext)
  extract-Keeps s key none (some token) = xet_jwt-Keeps s key token
  extract-Keeps s key none none = throw-Keeps I _ unauthenticated

  pub from_request_parts-Keeps :
      (s : ℕ) (key : Str) (auth xet : Option Str) → Keeps I (from_request_parts c s key auth xet)
  unfolding from_request_parts
  from_request_parts-Keeps s key auth xet = extract-Keeps s key (bearer_of auth) xet

  insert_absent-Keeps :
      (row : ApiKeyRow) (w : AuthState Lru) (hit : Option ApiKeyRow)
      → find_by_hash row.key_hash w.api_keys ≡ hit
      → I w
      → I (insert_absent c row hit w).1
  unfolding insert_absent
  insert_absent-Keeps row w (some q) e i = i
  insert_absent-Keeps row w none e (settled, old) =
      (append-IsSettled hash w.api_keys row e settled, old)

  insert_key-Keeps : (row : ApiKeyRow) → Keeps I (insert_key c row)
  unfolding Keeps insert_key
  insert_key-Keeps row w i = insert_absent-Keeps row w _ refl i

  create_row-Keeps :
      (user_id : ℕ) (name : Str) (scope : ConsoleScope) (plaintext : Str)
      → Keeps I (create_row c user_id name scope plaintext)
  unfolding create_row
  create_row-Keeps user_id name scope plaintext = query-Keeps I _ steady (
      unfold Keeps in
      λ w i.
        let row = new_row c user_id name scope plaintext w in
        let answer : A Lru CreateKeyResponse = pure (response_of row name scope plaintext) in
        run-Keeps I (insert_key c row >> answer)
          (bind-Keeps I (insert_key c row) (λ _. answer) (insert_key-Keeps row)
            λ _. pure-Keeps I (response_of row name scope plaintext))
          w i)

  pub create_key-Keeps :
      (user_id : ℕ) (requested : Str) (scope : ConsoleScope) (raw : Option Str)
      → Keeps I (create_key c user_id requested scope raw)
  unfolding create_key
  create_key-Keeps user_id requested scope raw =
      if-Keeps I (is_empty (c.trim requested)) _ _ (throw-Keeps I _ _) (
        if-Keeps I (ltb 80 (length (c.trim requested))) _ _ (throw-Keeps I _ _) (
          bind-Keeps I (of_option other raw) _ (of_option-Keeps I other raw)
            λ bytes. create_row-Keeps user_id (c.trim requested) scope (c.b64_url_encode bytes)))

  pub revoke_key-Keeps : (user_id : ℕ) (id : Uuid) → Keeps I (revoke_key c user_id id)
  unfolding revoke_key
  revoke_key-Keeps user_id id = query-Keeps I _ steady (
      unfold Keeps in
      λ w (settled, old). elim (Bool-cases (revocable id user_id w.api_keys)) [
        | inl e ↦ rw e (
          Follows-IsSettled hash w.api_keys _ (revoke_rows-Follows id user_id w.now_unix w.api_keys)
              settled,
          old,
        )
        | inr e ↦ rw e (settled, old)
      ])
