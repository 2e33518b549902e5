-- ===== src/Auth/Tests.antt =====
-- A small table of keys, a cache without bounds, and stand-ins for the crates.
use mathlib.Core.Option.{some-injective}
use open_weights.Base.{
  ℕ, ◌+◌, ◌≤◌, ◌<◌, ◌≡◌, refl, ap, Option, none, some, List, [], ◌∷◌, ◌++◌, ◌==◌, if◌then◌else◌,
  arith, inl, inr, Str,
}
use open_weights.Download.Request.{strip_prefix, split}
use open_weights.Base.{length}
use open_weights.Store.{upload, download, AuthContext, ok}
use open_weights.Auth.{
  codes, ApiKeyRow, nonneg, ActiveKey, XetJwtClaims, AuthCrates, AuthState, ◌>>=◌, require_scope,
  scope_upload, scope_download, from_u8, contains_scope,
}
use open_weights.Auth.Cache.{
  key_cache_ttl, checked_hit, cache_get, fetch_active_key_by_hash, load_key, keep_key, find_key,
}
use open_weights.Auth.XetJwt.{
  segments, openweights_issuer, find_by_hash, synthetic_key_text, upsert_synthetic_api_key,
}
use open_weights.Auth.Scoped.{
  looks_like_jwt, extract, admit_key, authenticate_opaque, authenticate_bearer, from_request_parts,
}
use open_weights.Auth.Keys.{read_write, to_db_scopes, create_key}
use open_weights.Auth.Revoked.{LruLaws}
use open_weights.Base.{◌*◌}
use open_weights.Auth.Granted.{IsGranted, from_request_parts-IsGranted}
use open_weights.Auth.Refused.{here, later, tick, IsRefused, revoked_key-IsRefused}
use open_weights.Auth.Issued.{create_key_authenticates, synthetic_key_authenticates}

abbrev Entries : Type 0
Entries = ℕ → Option ActiveKey

unfoldable digest : Str → ℕ
digest [] = 0
digest (b ∷ s) = b + 1 + 300 * digest s

-- `{"..."}` of one letter stands for a payload.
unfoldable payload_of : Str → Option XetJwtClaims
payload_of [] = none
payload_of (b ∷ s) = some (record {
  repo_id = [];
  user_id = codes "7";
  access = codes "WRITE";
  iat = nonneg 100;
  exp = nonneg 1000;
  iss = openweights_issuer;
})

unfoldable crates : AuthCrates Entries
unfolding digest payload_of
crates = record {
  sha256 = digest;
  hmac_sha256 = λ key s. key ++ length s ∷ [];
  b64_url_encode = λ s. s;
  b64_url_decode = λ s. some s;
  trim = λ s. s;
  claims_from_json = payload_of;
  gen_random_uuid = λ rows. 100 + length rows;
  lru_peek = λ k l. l k;
  lru_get = λ k l. (l k, l);
  lru_put = λ k v l j. if j == k then some v else l j;
  lru_pop = λ k l j. if j == k then none else l j;
}

crates-LruLaws : LruLaws crates
unfolding crates
crates-LruLaws = record {
  get-peek = λ k l. refl;
  peek-get = λ j k l. refl;
  peek-pop = λ j k l. ground arith;
  peek-put = λ k v l. ground arith;
  peek-put_other = λ j k v l differs. ground arith;
}

abbrev key_row : ApiKeyRow
key_row = record {
  id = 1;
  user_id = 7;
  key_hash = digest (codes "k1");
  scopes = download ∷ [];
  label = some (codes "cli");
  masked_prefix = none;
  created_at = 10;
  revoked_at = none;
  last_used_at = none;
}

abbrev cached : ActiveKey
cached = record { id = 1; user_id = 7; scopes = download ∷ []; loaded_at = 0 }

abbrev state_of : List ApiKeyRow → Entries → AuthState Entries
state_of rows cache = record {
  users = record { id = 7; github_login = codes "gh"; hf_user_id = none } ∷ [];
  api_keys = rows;
  cache = cache;
  faults = [];
  instant = 1000000000;
  now_unix = 500;
}

abbrev cold : Entries
cold j = none

-- The key is in the table, and not in the cache.
abbrev live : AuthState Entries
live = state_of (key_row ∷ []) cold

-- The key was revoked while the cache has it.
abbrev revoked : AuthState Entries
revoked =
    state_of (record key_row { revoked_at = some 500 } ∷ [])
      (λ j. if j == digest (codes "k1") then some cached else none)

abbrev token : Str
token = codes "eyJ.p." ++ 1 ∷ 5 ∷ []

abbrev download_context : AuthContext
download_context = record { api_key_id = 1; user_id = 7; scopes = download ∷ [] }

abbrev token_context : AuthContext
token_context = record { api_key_id = 1; user_id = 7; scopes = upload ∷ download ∷ [] }

ttl_passed : revoked.instant + key_cache_ttl < revoked.instant + 6000000000
ttl_passed = omega arith

old : (k : ActiveKey) → ◌≡◌ {A = Option ActiveKey} (some cached) (some k) → k.loaded_at ≤ 1000000000
old k e = omega (arith, ap (λ c. c.loaded_at) (some-injective cached k e))

revoked_key-IsRefused_example :
    IsRefused
      (from_request_parts crates scope_download [] (some (codes "Bearer k1")) none (record revoked {
        instant = revoked.instant + 6000000000;
        now_unix = revoked.now_unix + 6;
      })).0
unfolding crates looks_like_jwt segments split digest
revoked_key-IsRefused_example =
    revoked_key-IsRefused crates crates-LruLaws (codes "k1") {w = revoked} refl
      ((((λ e. refl), tt), inl refl), λ k e. old k e) (later here (tick 6000000000 6)) ttl_passed
      scope_download [] none

-- Until then the cache lets it pass.
still_admitted :
    (from_request_parts crates scope_download [] (some (codes "Bearer k1")) none revoked).0
    ≡ ok download_context
unfolding from_request_parts extract strip_prefix authenticate_bearer looks_like_jwt segments split
    authenticate_opaque find_key cache_get checked_hit crates load_key admit_key require_scope
still_admitted = refl

live_run : from_request_parts crates scope_download [] (some (codes "Bearer k1")) none live ≡ (
  ok download_context,
  (from_request_parts crates scope_download [] (some (codes "Bearer k1")) none live).1,
)
unfolding from_request_parts extract strip_prefix authenticate_bearer looks_like_jwt segments split
    authenticate_opaque find_key cache_get checked_hit crates load_key admit_key require_scope
    fetch_active_key_by_hash keep_key
live_run = refl

from_request_parts-IsGranted_example : IsGranted scope_download download_context.scopes
from_request_parts-IsGranted_example =
    from_request_parts-IsGranted crates scope_download [] (some (codes "Bearer k1")) none live _
      download_context live_run

create_key_authenticates_example :
    ((create_key crates 7 (codes "laptop") read_write (some (codes "secret")) >>= λ answer.
    from_request_parts crates scope_upload [] (some (codes "Bearer " ++ answer.plaintext_key)) none)
      live).0
    ≡ ok (record {
      api_key_id = crates.gen_random_uuid live.api_keys;
      user_id = 7;
      scopes = to_db_scopes read_write;
    })
unfolding crates digest find_by_hash looks_like_jwt segments split to_db_scopes from_u8
    contains_scope
create_key_authenticates_example =
    create_key_authenticates crates crates-LruLaws 7 (codes "laptop") read_write (codes "secret")
      live scope_upload [] none refl (omega arith) refl refl refl refl (inr (upload, refl, refl))

synthetic_key_authenticates_example :
    ((upsert_synthetic_api_key crates 9 (codes "ab12") >>= λ _.
    from_request_parts crates scope_upload []
      (some (codes "Bearer " ++ synthetic_key_text (codes "ab12")))
      none)
      live).0
    ≡ ok (record {
      api_key_id = crates.gen_random_uuid live.api_keys;
      user_id = 9;
      scopes = upload ∷ download ∷ [];
    })
unfolding crates digest find_by_hash looks_like_jwt segments split
synthetic_key_authenticates_example =
    synthetic_key_authenticates crates crates-LruLaws 9 (codes "ab12") live [] none refl refl refl
      refl
