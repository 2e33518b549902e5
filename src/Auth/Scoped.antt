-- ===== src/Auth/Scoped.antt =====
-- The extractor `AuthScoped` of cas/crates/openweights-cas-core/src/auth.rs, with both of its paths.
use open_weights.Base.{
  ℕ, ◌-◌, ◌^◌, Bool, true, false, not, ◌&&◌, ◌||◌, zero, suc, ◌⊎◌, inl, inr, Option, none, some,
  List, [], ◌∷◌, ◌++◌, ◌==◌, ltb, leb, if◌then◌else◌, Str, length,
}
use open_weights.Base.Maps.{str_eq}
use open_weights.ShardParse.{is_empty}
use open_weights.SignedUrl.Text.{to_string}
use open_weights.Download.Request.{strip_prefix, parse_u64}
use open_weights.Store.{Uuid, ApiKeyScope, AuthContext, unauthenticated, ok}
use open_weights.Auth.{
  codes, ApiKeyRow, UserRow, I64, nonneg, below_zero, ActiveKey, XetJwtClaims, AuthCrates, A, pure,
  throw, ◌>>=◌, ◌>>◌, ignore, or_other, query, require_scope,
}
use open_weights.Auth.Cache.{is_none, find_key, touch_last_used}
use open_weights.Auth.XetJwt.{
  XetJwtError, segments, scopes_of, decode_and_validate, verify_openweights_signature,
  openweights_issuer, synthetic_label, upsert_hf_user, upsert_synthetic_api_key,
}

abbrev i64_max : ℕ
i64_max = 2 ^ 63 - 1

abbrev in_i64 : Option ℕ → Option I64
in_i64 none = none
in_i64 (some n) = if leb n i64_max then some (nonneg n) else none

abbrev below : Option ℕ → Option I64
below none = none
below (some zero) = some (nonneg 0)
below (some (suc n)) = if leb n i64_max then some (below_zero n) else none

-- `str::parse::<i64>`, by way of the digits of `u64`, whose range is wider.
unfoldable pub parse_i64 : Str → Option I64
parse_i64 [] = none
parse_i64 (b ∷ s) =
    if b == b'-' && not (starts_plus s) then below (parse_u64 s) else in_i64 (parse_u64 (b ∷ s))
  where
    starts_plus : Str → Bool
    starts_plus [] = false
    starts_plus (d ∷ ds) = d == b'+'

unfoldable pub has_user : I64 → List UserRow → Bool
has_user (below_zero n) rows = false
has_user (nonneg n) [] = false
has_user (nonneg n) (r ∷ rows) = r.id == n || has_user (nonneg n) rows

-- `label != 'hf-jwt-synthetic'`, which a missing label does not pass
abbrev pub is_minted : Option Str → Bool
is_minted none = false
is_minted (some l) = not (str_eq l synthetic_label)

abbrev opt_below : Option ℕ → Option ℕ → Bool
opt_below none none = false
opt_below none (some b) = true
opt_below (some a) none = false
opt_below (some a) (some b) = ltb a b

-- Whether the second row comes before the first by
-- `array_length(scopes, 1) DESC NULLS LAST, last_used_at DESC NULLS LAST`; an empty array has no
-- length.
unfoldable pub comes_before : ApiKeyRow → ApiKeyRow → Bool
comes_before r q =
    ltb (length r.scopes) (length q.scopes)
    || (length r.scopes == length q.scopes && opt_below r.last_used_at q.last_used_at)

unfoldable pub widest_from : Option ApiKeyRow → ℕ → List ApiKeyRow → Option ApiKeyRow
widest_from best uid [] = best
widest_from best uid (q ∷ rows) =
    widest_from
      (if q.user_id == uid && (is_none q.revoked_at && is_minted q.label)
        then elim best [ none ↦ some q | some r ↦ if comes_before r q then some q else some r ]
        else best)
      uid rows

-- Step (1a)
unfoldable pub looks_like_jwt : Str → Bool
looks_like_jwt token = elim (segments token) [
  | none ↦ false
  | some (first, second, third) ↦ elim (strip_prefix (codes "eyJ") first) [
    | none ↦ false
    | some _ ↦ not (is_empty second)
  ]
]

abbrev pub context_of : List ApiKeyScope → ℕ × Uuid → AuthContext
context_of granted (uid, key_id) = record { api_key_id = key_id; user_id = uid; scopes = granted }

abbrev pub context_of_key : ActiveKey → AuthContext
context_of_key key = record { api_key_id = key.id; user_id = key.user_id; scopes = key.scopes }

abbrev pub bearer_of : Option Str → Option Str
bearer_of none = none
bearer_of (some header) = strip_prefix (codes "Bearer ") header

module _ {Lru : Type 0} (c : AuthCrates Lru) where
  unfoldable pub user_exists : I64 → A Lru Bool
  unfolding has_user
  user_exists uid = query λ w. (ok (has_user uid w.users), w)

  unfoldable pub widest_key : ℕ → A Lru (Option ApiKeyRow)
  unfolding widest_from
  widest_key uid = query λ w. (ok (widest_from none uid w.api_keys), w)

  unfoldable pub key_for_user : ℕ → Option ApiKeyRow → A Lru (ℕ × Uuid)
  key_for_user uid (some row) = pure (uid, row.id)
  key_for_user uid none = do
    key_id ← or_other (upsert_synthetic_api_key c uid (codes "openweights:" ++ to_string uid))
    pure (uid, key_id)

  -- A token of this server whose signature holds: its user, and a key of theirs. A negative id is
  -- looked up, and is no row's.
  unfoldable pub known_user : I64 → Bool → A Lru (ℕ × Uuid)
  known_user (nonneg uid) true = widest_key uid >>= key_for_user uid
  known_user uid _ = throw unauthenticated

  unfoldable pub resolve_user : Option I64 → A Lru (ℕ × Uuid)
  resolve_user none = throw unauthenticated
  resolve_user (some uid) = user_exists uid >>= known_user uid

  -- Of the answer of `verify_openweights_signature`.
  unfoldable pub signed_identity : XetJwtClaims → Option XetJwtError → A Lru (ℕ × Uuid)
  signed_identity claims (some e) = throw unauthenticated
  signed_identity claims none = resolve_user (parse_i64 claims.user_id)

  unfoldable pub openweights_identity : Str → Str → XetJwtClaims → A Lru (ℕ × Uuid)
  openweights_identity signing_key token claims =
      signed_identity claims (verify_openweights_signature c token signing_key)

  unfoldable pub hf_identity : XetJwtClaims → A Lru (ℕ × Uuid)
  hf_identity claims = do
    uid ← or_other (upsert_hf_user c claims.user_id)
    key_id ← or_other (upsert_synthetic_api_key c uid claims.user_id)
    pure (uid, key_id)

  unfoldable pub identity : Str → Str → XetJwtClaims → A Lru (ℕ × Uuid)
  identity signing_key token claims =
      if str_eq claims.iss openweights_issuer
      then openweights_identity signing_key token claims
      else hf_identity claims

  unfoldable pub admit_claims : ℕ → Str → Str → XetJwtClaims → A Lru AuthContext
  admit_claims s signing_key token claims = do
    require_scope s (scopes_of claims.access)
    who ← identity signing_key token claims
    pure (context_of (scopes_of claims.access) who)

  -- Of the answer of `decode_and_validate`.
  unfoldable pub admit_decoded : ℕ → Str → Str → XetJwtError ⊎ XetJwtClaims → A Lru AuthContext
  admit_decoded s signing_key token (inl e) = throw unauthenticated
  admit_decoded s signing_key token (inr claims) = admit_claims s signing_key token claims

  unfoldable pub authenticate_xet_jwt : ℕ → Str → Str → A Lru AuthContext
  authenticate_xet_jwt s signing_key token w =
      admit_decoded s signing_key token (decode_and_validate c token w.now_unix) w

  -- Steps (5) and (6); the update of `last_used_at` is a task of its own, which here ends at once.
  unfoldable pub admit_key : ℕ → ActiveKey → A Lru AuthContext
  admit_key s key = do
    require_scope s key.scopes
    ignore (touch_last_used c key.id)
    pure (context_of_key key)

  unfoldable pub authenticate_opaque : ℕ → Str → A Lru AuthContext
  authenticate_opaque s plaintext = find_key c (c.sha256 plaintext) >>= admit_key s

  unfoldable pub authenticate_bearer : ℕ → Str → Str → A Lru AuthContext
  authenticate_bearer s signing_key plaintext =
      if looks_like_jwt plaintext
      then authenticate_xet_jwt s signing_key plaintext
      else authenticate_opaque s plaintext

  -- Of the text behind `Bearer `, and the other header.
  unfoldable pub extract : ℕ → Str → Option Str → Option Str → A Lru AuthContext
  extract s signing_key (some plaintext) xet_jwt_header =
      authenticate_bearer s signing_key plaintext
  extract s signing_key none (some token) = authenticate_xet_jwt s signing_key token
  extract s signing_key none none = throw unauthenticated

  -- `from_request_parts`, of the headers `Authorization` and `X-Xet-Access-Token`, as one step: nothing
  -- else runs between its statements and its write to the cache.
  unfoldable pub from_request_parts : ℕ → Str → Option Str → Option Str → A Lru AuthContext
  from_request_parts s signing_key auth_header xet_jwt_header =
      extract s signing_key (bearer_of auth_header) xet_jwt_header
