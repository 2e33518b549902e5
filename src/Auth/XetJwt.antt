-- ===== src/Auth/XetJwt.antt =====
-- cas/crates/openweights-cas-core/src/xet_jwt.rs: the tokens of Hugging Face and of this server, and
-- the rows that stand for their users.
use open_weights.Base.{
  ℕ, ◌+◌, ◌/◌, ◌%◌, ◌^◌, Bool, true, false, not, ◌&&◌, ◌||◌, ◌⊎◌, inl, inr, Option, none, some,
  List, [], ◌∷◌, ◌++◌, ◌==◌, ltb, if◌then◌else◌, Str,
}
use open_weights.Base.Maps.{str_eq}
use open_weights.ShardParse.{is_empty}
use open_weights.Download.Request.{split}
use open_weights.Store.{Uuid, ApiKeyScope, upload, download, ok, err, db}
use open_weights.Auth.{
  codes, ApiKeyRow, UserRow, I64, nonneg, below_zero, XetJwtClaims, AuthCrates, A, query,
}

pub data XetJwtError : Type 0 where
  malformed payload_not_base64 payload_not_json wrong_issuer expired issued_in_future
        bad_signature :
      XetJwtError

abbrev pub hf_issuer : Str
hf_issuer = codes "https://huggingface.co"

abbrev pub openweights_issuer : Str
openweights_issuer = codes "https://hf.example.com"

abbrev pub max_clock_skew_secs : ℕ
max_clock_skew_secs = 60

-- `XetJwtClaims::scopes`
unfoldable pub scopes_of : Str → List ApiKeyScope
scopes_of access =
    if str_eq access (codes "WRITE")
    then upload ∷ download ∷ []
    else if str_eq access (codes "READ")
    then download ∷ []
    else []

abbrev pub three : Str → List Str → Option (Str × Str × Str)
three header (payload ∷ sig ∷ []) = some (header, payload, sig)
three header _ = none

-- The three segments of a token.
unfoldable pub segments : Str → Option (Str × Str × Str)
segments token = let (header, rest) = split b'.' token in three header rest

abbrev pub before : I64 → ℕ → Bool
before (nonneg t) now = ltb t now
before (below_zero t) now = true

abbrev pub after : I64 → ℕ → Bool
after (nonneg t) limit = ltb limit t
after (below_zero t) limit = false

abbrev pub accepted_issuer : Str → Bool
accepted_issuer iss = str_eq iss hf_issuer || str_eq iss openweights_issuer

-- The checks of `decode_and_validate` on the claims.
unfoldable pub validate : XetJwtClaims → ℕ → XetJwtError ⊎ XetJwtClaims
validate claims now =
    if not (accepted_issuer claims.iss)
    then inl wrong_issuer
    else if before claims.exp now
    then inl expired
    else if after claims.iat (now + max_clock_skew_secs)
    then inl issued_in_future
    else inr claims

-- `hf-jwt:` and the user
abbrev pub synthetic_key_text : Str → Str
synthetic_key_text hf_user_id = codes "hf-jwt:" ++ hf_user_id

abbrev pub synthetic_label : Str
synthetic_label = codes "hf-jwt-synthetic"

unfoldable pub find_by_hash : ℕ → List ApiKeyRow → Option ApiKeyRow
find_by_hash hash [] = none
find_by_hash hash (r ∷ rows) = if r.key_hash == hash then some r else find_by_hash hash rows

unfoldable pub touch_hash : ℕ → ℕ → List ApiKeyRow → List ApiKeyRow
touch_hash hash now [] = []
touch_hash hash now (r ∷ rows) =
    (if r.key_hash == hash then record r { last_used_at = some now } else r)
    ∷ touch_hash hash now rows

abbrev pub same_hf_user : Str → Option Str → Bool
same_hf_user u none = false
same_hf_user u (some v) = str_eq u v

unfoldable pub find_hf_user : Str → List UserRow → Option UserRow
find_hf_user u [] = none
find_hf_user u (r ∷ rows) = if same_hf_user u r.hf_user_id then some r else find_hf_user u rows

-- Whether the primary key or the login of a new row is taken.
unfoldable pub taken : ℕ → Str → List UserRow → Bool
taken id login [] = false
taken id login (r ∷ rows) = (r.id == id || str_eq r.github_login login) || taken id login rows

-- Whether a row of another id has the login.
unfoldable pub login_taken : ℕ → Str → List UserRow → Bool
login_taken id login [] = false
login_taken id login (r ∷ rows) =
    (not (r.id == id) && str_eq r.github_login login) || login_taken id login rows

unfoldable pub set_login : ℕ → Str → List UserRow → List UserRow
set_login id login [] = []
set_login id login (r ∷ rows) =
    (if r.id == id then record r { github_login = login } else r) ∷ set_login id login rows

module _ {Lru : Type 0} (c : AuthCrates Lru) where
  open c use {sha256, hmac_sha256, b64_url_decode, claims_from_json, gen_random_uuid}

  unfoldable pub decode_and_validate : Str → ℕ → XetJwtError ⊎ XetJwtClaims
  unfolding segments validate
  decode_and_validate token now = elim (segments token) [
    | none ↦ inl malformed
    | some (header, payload, sig) ↦ elim (b64_url_decode payload) [
      | none ↦ inl payload_not_base64
      | some bytes ↦ elim (claims_from_json bytes) [
        | none ↦ inl payload_not_json
        | some claims ↦ validate claims now
      ]
    ]
  ]

  -- `HmacSha256::new_from_slice` takes keys of every length.
  unfoldable pub verify_openweights_signature : Str → Str → Option XetJwtError
  unfolding segments
  verify_openweights_signature token signing_key =
      if is_empty signing_key then some bad_signature else elim (segments token) [
        | none ↦ some malformed
        | some (header, payload, sig) ↦ elim (b64_url_decode sig) [
          | none ↦ some bad_signature
          | some expected ↦
              if str_eq (hmac_sha256 signing_key (header ++ b'.' ∷ payload)) expected
              then none
              else some bad_signature
        ]
      ]

  -- The first 8 bytes of the digest without the sign bit.
  unfoldable pub hf_user_id_to_i64 : Str → ℕ
  hf_user_id_to_i64 hf_user_id = sha256 hf_user_id / 256 ^ 24 % 2 ^ 63

  -- The row of the user, if there is one, takes the login; else there is a new row, unless its
  -- primary key or login is taken.
  unfoldable pub put_hf_user : Str → Option UserRow → A Lru ℕ
  put_hf_user hf_user_id (some row) w =
      let login = codes "hf:" ++ hf_user_id in
      if login_taken row.id login w.users
      then (err db, w)
      else (ok row.id, record w { users = set_login row.id login w.users })
  put_hf_user hf_user_id none w =
      let id = hf_user_id_to_i64 hf_user_id in
      let login = codes "hf:" ++ hf_user_id in
      let row : UserRow = record { id = id; github_login = login; hf_user_id = some hf_user_id } in
      if taken id login w.users
      then (err db, w)
      else (ok id, record w { users = w.users ++ row ∷ [] })

  unfoldable pub upsert_hf_user : Str → A Lru ℕ
  upsert_hf_user hf_user_id = query λ w. put_hf_user hf_user_id (find_hf_user hf_user_id w.users) w

  unfoldable pub synthetic_row : ℕ → Str → ℕ → List ApiKeyRow → ApiKeyRow
  synthetic_row user_id hf_user_id now rows = record {
    id = gen_random_uuid rows;
    user_id = user_id;
    key_hash = sha256 (synthetic_key_text hf_user_id);
    scopes = upload ∷ download ∷ [];
    label = some synthetic_label;
    masked_prefix = none;
    created_at = now;
    revoked_at = none;
    last_used_at = none;
  }

  unfoldable pub put_synthetic : ℕ → Str → Option ApiKeyRow → A Lru Uuid
  put_synthetic user_id hf_user_id (some row) w =
      let key_hash = sha256 (synthetic_key_text hf_user_id) in
      (ok row.id, record w { api_keys = touch_hash key_hash w.now_unix w.api_keys })
  put_synthetic user_id hf_user_id none w =
      let row = synthetic_row user_id hf_user_id w.now_unix w.api_keys in
      (ok row.id, record w { api_keys = w.api_keys ++ row ∷ [] })

  unfoldable pub upsert_synthetic_api_key : ℕ → Str → A Lru Uuid
  upsert_synthetic_api_key user_id hf_user_id = query λ w.
      put_synthetic user_id hf_user_id
        (find_by_hash (sha256 (synthetic_key_text hf_user_id)) w.api_keys) w
