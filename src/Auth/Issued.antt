-- ===== src/Auth/Issued.antt =====
-- The keys that the server issues, in the console and behind a token, are good for requests.
use open_weights.Base.{
  ℕ, ◌≤◌, ◌≡◌, refl, ap, ◌∙◌, false, Option, none, some, [], ◌∷◌, ◌++◌, ltb, arith, inr, Str,
}
use open_weights.ShardParse.{is_empty}
use open_weights.Base.{length}
use open_weights.Store.{upload, download, ok}
use open_weights.Auth.{
  codes, AuthCrates, AuthState, A, pure, ◌>>=◌, ◌>>◌, scope_upload, from_u8, contains_scope,
}
use open_weights.Auth.XetJwt.{
  find_by_hash, synthetic_key_text, synthetic_row, put_synthetic, upsert_synthetic_api_key,
}
use open_weights.Auth.Scoped.{looks_like_jwt, from_request_parts}
use open_weights.Auth.Keys.{
  ConsoleScope, read, write, read_write, CreateKeyResponse, response_of, to_db_scopes,
  from_db_scopes, create_row, create_key, insert_absent, insert_key, new_row,
}
use open_weights.Auth.Runs.{query_ok}
use open_weights.Auth.Revoked.{LruLaws}
use open_weights.Auth.Granted.{IsGranted}
use open_weights.Auth.Admitted.{row_authenticates}

-- What the console shows for a key is the scope that it was created with.
pub from_db_scopes-to_db_scopes : (s : ConsoleScope) → from_db_scopes (to_db_scopes s) ≡ s
unfolding from_db_scopes to_db_scopes contains_scope
from_db_scopes-to_db_scopes read = refl
from_db_scopes-to_db_scopes write = refl
from_db_scopes-to_db_scopes read_write = refl
from_db_scopes-to_db_scopes ConsoleScope.admin = refl

module _ {Lru : Type 0} (c : AuthCrates Lru) (laws : LruLaws c) where
  create_row_ok :
      (user_id : ℕ) (name : Str) (scope : ConsoleScope) (plaintext : Str) (w : AuthState Lru)
      → w.faults ≡ []
      → find_by_hash (c.sha256 plaintext) w.api_keys ≡ none
      → (let row = new_row c user_id name scope plaintext w in
          create_row c user_id name scope plaintext w ≡ (
            ok (response_of row name scope plaintext),
            record w { api_keys = w.api_keys ++ row ∷ [] },
          ))
  unfolding create_row insert_key insert_absent new_row
  create_row_ok user_id name scope plaintext w quiet absent =
      let row = new_row c user_id name scope plaintext w in
      let answer : A Lru CreateKeyResponse = pure (response_of row name scope plaintext) in
      query_ok
        (λ v.
          let r = new_row c user_id name scope plaintext v in
          (insert_key c r >> pure (response_of r name scope plaintext)) v)
        w quiet
      ∙ ap (λ hit. ((λ _. insert_absent c row hit w) >>= λ _. answer) w) absent

  -- Where no statement fails, the name is accepted, and the hash of the new key is neither in the table
  -- nor in the cache: the key that `create_key` returns, if it does not look like a token, is let through
  -- by each route whose scope it has, as a key of its user with the scopes chosen.
  pub create_key_authenticates :
      (user_id : ℕ) (requested : Str) (scope : ConsoleScope) (raw : Str) (w : AuthState Lru) (s : ℕ)
      (signing_key : Str) (xet : Option Str)
      → is_empty (c.trim requested) ≡ false
      → length (c.trim requested) ≤ 80
      → w.faults ≡ []
      → find_by_hash (c.sha256 (c.b64_url_encode raw)) w.api_keys ≡ none
      → c.lru_peek (c.sha256 (c.b64_url_encode raw)) w.cache ≡ none
      → looks_like_jwt (c.b64_url_encode raw) ≡ false
      → IsGranted s (to_db_scopes scope)
      → ((create_key c user_id requested scope (some raw) >>= λ answer.
            from_request_parts c s signing_key (some (codes "Bearer " ++ answer.plaintext_key)) xet)
          w).0
        ≡ ok (record {
          api_key_id = c.gen_random_uuid w.api_keys;
          user_id = user_id;
          scopes = to_db_scopes scope;
        })
  unfolding create_key new_row
  create_key_authenticates user_id requested scope raw w s signing_key xet named short quiet absent
        cold opaque granted =
      let plaintext = c.b64_url_encode raw in
      let name = c.trim requested in
      let row = new_row c user_id name scope plaintext w in
      let long : ltb 80 (length name) ≡ false = ground arith in
      rw (named, long)
        (ap
            (λ r.
              (((λ _. r) >>= λ answer.
              from_request_parts c s signing_key (some (codes "Bearer " ++ answer.plaintext_key))
                xet)
                w).0)
            (create_row_ok user_id name scope plaintext w quiet absent)
          ∙ row_authenticates c laws w row plaintext s signing_key xet quiet absent refl refl cold
              opaque granted)

  upsert_synthetic_ok :
      (uid : ℕ) (u : Str) (w : AuthState Lru)
      → w.faults ≡ []
      → find_by_hash (c.sha256 (synthetic_key_text u)) w.api_keys ≡ none
      → (let row = synthetic_row c uid u w.now_unix w.api_keys in
          upsert_synthetic_api_key c uid u w
          ≡ (ok row.id, record w { api_keys = w.api_keys ++ row ∷ [] }))
  unfolding upsert_synthetic_api_key put_synthetic
  upsert_synthetic_ok uid u w quiet absent =
      query_ok
        (λ v. put_synthetic c uid u (find_by_hash (c.sha256 (synthetic_key_text u)) v.api_keys) v) w
        quiet
      ∙ ap (λ hit. put_synthetic c uid u hit w) absent

  -- Where no statement fails and the hash is neither in the table nor in the cache: once the row behind
  -- the tokens of a user is made, `hf-jwt:` and the user id, if that does not look like a token, is let
  -- through as a key with both scopes.
  pub synthetic_key_authenticates :
      (uid : ℕ) (u : Str) (w : AuthState Lru) (signing_key : Str) (xet : Option Str)
      → w.faults ≡ []
      → find_by_hash (c.sha256 (synthetic_key_text u)) w.api_keys ≡ none
      → c.lru_peek (c.sha256 (synthetic_key_text u)) w.cache ≡ none
      → looks_like_jwt (synthetic_key_text u) ≡ false
      → ((upsert_synthetic_api_key c uid u >>= λ _.
            from_request_parts c scope_upload signing_key
              (some (codes "Bearer " ++ synthetic_key_text u))
              xet)
          w).0
        ≡ ok (record {
          api_key_id = c.gen_random_uuid w.api_keys;
          user_id = uid;
          scopes = upload ∷ download ∷ [];
        })
  unfolding synthetic_row from_u8 contains_scope
  synthetic_key_authenticates uid u w signing_key xet quiet absent cold opaque =
      let row = synthetic_row c uid u w.now_unix w.api_keys in
      ap
        (λ r.
          (((λ _. r) >>= λ _.
          from_request_parts c scope_upload signing_key
            (some (codes "Bearer " ++ synthetic_key_text u)) xet)
            w).0)
        (upsert_synthetic_ok uid u w quiet absent)
      ∙ row_authenticates c laws w row (synthetic_key_text u) scope_upload signing_key xet quiet
          absent refl refl cold opaque (inr (upload, refl, refl))
