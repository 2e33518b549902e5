-- ===== src/Auth/Minting.antt =====
-- cas/crates/openweights-cas-core/src/xet_jwt.rs: `mint_openweights_token`, and how its tokens are
-- read back.
mod Tests
use mathlib.Core.List.{append_assoc}
use mathlib.Core.Option.{some-injective}
use open_weights.Base.{
  ℕ, ◌+◌, ◌-◌, ◌^◌, ◌%◌, ◌≤◌, ◌<◌, ◌≡◌, ◌≢◌, ◌⊎◌, refl, ap, subst, Bool, true, false, Option, none,
  some, List, [], ◌∷◌, ◌++◌, ltb, if◌then◌else◌, arith, inr, Str, All,
}
use open_weights.Base.Maps.{str_eq, str_eq_iff}
use open_weights.ShardParse.{is_empty}
use open_weights.Download.Request.{split}
use open_weights.SignedUrl.Text.Segments.{Without, split-Without, split-append}
use open_weights.Auth.{codes, I64, nonneg, below_zero, XetJwtClaims, AuthCrates}
use open_weights.Auth.XetJwt.{
  XetJwtError, openweights_issuer, three, segments, validate, decode_and_validate,
  verify_openweights_signature,
}

pub data OpenWeightsAccess : Type 0 where
  write read : OpenWeightsAccess

unfoldable pub access_str : OpenWeightsAccess → Str
access_str write = codes "WRITE"
access_str read = codes "READ"

-- `as i64`, and the sum of two `i64`, from the value before it wraps.
unfoldable pub as_i64 : ℕ → I64
as_i64 n = let m = n % 2 ^ 64 in if ltb m (2 ^ 63) then nonneg m else below_zero (2 ^ 64 - 1 - m)

unfoldable pub minted_claims : Str → Str → OpenWeightsAccess → ℕ → ℕ → XetJwtClaims
unfolding access_str as_i64
minted_claims repo_id user_id access ttl_secs now = record {
  repo_id = repo_id;
  user_id = user_id;
  access = access_str access;
  iat = as_i64 now;
  exp = as_i64 (now + ttl_secs);
  iss = openweights_issuer;
}

module _ {Lru : Type 0} (c : AuthCrates Lru) where
  unfoldable pub signing_input : Str → Str
  signing_input json = c.b64_url_encode (codes "{\"alg\":\"HS256\"}") ++ 46 ∷ c.b64_url_encode json

  unfoldable pub signed_token : Str → Str → Str
  unfolding signing_input
  signed_token signing_key json =
      signing_input json ++ 46 ∷ c.b64_url_encode (c.hmac_sha256 signing_key (signing_input json))

  unfoldable pub sign_json : Str → Option Str → Option Str
  unfolding signed_token
  sign_json signing_key none = none
  sign_json signing_key (some json) = some (signed_token signing_key json)

  -- `claims_to_json` is `serde_json::to_vec` of the payload.
  unfoldable pub mint_openweights_token :
      (XetJwtClaims → Option Str) → Str → Str → Str → OpenWeightsAccess → ℕ → ℕ → Option Str
  unfolding minted_claims sign_json
  mint_openweights_token claims_to_json signing_key repo_id user_id access ttl_secs now =
      sign_json signing_key (claims_to_json (minted_claims repo_id user_id access ttl_secs now))

  segments-signed :
      (header payload sig : Str)
      → Without 46 header
      → Without 46 payload
      → Without 46 sig
      → segments ((header ++ 46 ∷ payload) ++ 46 ∷ sig) ≡ some (header, payload, sig)
  unfolding segments
  segments-signed header payload sig h p s =
      rw
        (
          append_assoc header (46 ∷ payload) (46 ∷ sig),
          split-append 46 header (payload ++ 46 ∷ sig) h,
          split-append 46 payload sig p,
          split-Without 46 sig s,
        )
        refl

  -- What the tokens rely on in base64 and serde_json.
  pub record MintLaws (claims_to_json : XetJwtClaims → Option Str) : Type 0 where
    pub encode_no_dot : (s : Str) → Without 46 (c.b64_url_encode s)
    pub decode-encode : (s : Str) → c.b64_url_decode (c.b64_url_encode s) ≡ some s
    pub json_back :
        (claims : XetJwtClaims) (json : Str)
        → claims_to_json claims ≡ some json
        → c.claims_from_json json ≡ some claims

  module _ (claims_to_json : XetJwtClaims → Option Str) (laws : MintLaws claims_to_json) where
    signed_token-segments :
        (key json : Str)
        → segments (signed_token key json)
          ≡ some (
            c.b64_url_encode (codes "{\"alg\":\"HS256\"}"),
            c.b64_url_encode json,
            c.b64_url_encode (c.hmac_sha256 key (signing_input json)),
          )
    unfolding signed_token signing_input
    signed_token-segments key json =
        segments-signed _ _ _ (laws.encode_no_dot _) (laws.encode_no_dot json)
          (laws.encode_no_dot _)

    signed_token_verified :
        (key json : Str)
        → is_empty key ≡ false
        → verify_openweights_signature c (signed_token key json) key ≡ none
    unfolding verify_openweights_signature signing_input
    signed_token_verified key json keyed = rw keyed (
        rw (signed_token-segments key json) (
          rw (laws.decode-encode (c.hmac_sha256 key (signing_input json))) (
            rw
              ((str_eq_iff (c.hmac_sha256 key (signing_input json))
                  (c.hmac_sha256 key (signing_input json))).1
                refl)
              refl)))

    minted_claims_valid :
        (repo_id user_id : Str) (access : OpenWeightsAccess) (ttl now later : ℕ)
        → now ≤ later + 60
        → later ≤ now + ttl
        → now + ttl < 2 ^ 63
        → validate (minted_claims repo_id user_id access ttl now) later
          ≡ inr (minted_claims repo_id user_id access ttl now)
    unfolding validate minted_claims as_i64
    minted_claims_valid repo_id user_id access ttl now later early soon small = ground arith

    signed_token_decoded :
        (key json : Str) (claims : XetJwtClaims) (later : ℕ)
        → claims_to_json claims ≡ some json
        → validate claims later ≡ inr claims
        → decode_and_validate c (signed_token key json) later ≡ inr claims
    unfolding decode_and_validate
    signed_token_decoded key json claims later e valid =
        rw (decode_and_validate, signed_token-segments key json)
          (rw (laws.decode-encode json) (rw (laws.json_back claims json e) valid))

    sign_json-accepted :
        (key : Str) (claims : XetJwtClaims) (json : Option Str) (later : ℕ) (token : Str)
        → claims_to_json claims ≡ json
        → sign_json key json ≡ some token
        → is_empty key ≡ false
        → validate claims later ≡ inr claims
        → (decode_and_validate c token later ≡ inr claims)
          × (verify_openweights_signature c token key ≡ none)
    unfolding sign_json
    sign_json-accepted key claims none later token e signed keyed valid = absurd (ground arith)
    sign_json-accepted key claims (some json) later token e signed keyed valid =
        subst
          (λ t.
            (decode_and_validate c t later ≡ inr claims)
            × (verify_openweights_signature c t key ≡ none))
          (some-injective _ _ signed)
          (signed_token_decoded key json claims later e valid, signed_token_verified key json keyed)

    -- A token of `mint_openweights_token`, under a key that is not empty, decodes to its claims and
    -- passes the check of its signature until it expires, also on a clock that is up to 60 seconds
    -- behind the minting one.
    pub mint_openweights_token-accepted :
        (key repo_id user_id : Str) (access : OpenWeightsAccess) (ttl now later : ℕ) (token : Str)
        → mint_openweights_token claims_to_json key repo_id user_id access ttl now ≡ some token
        → is_empty key ≡ false
        → now ≤ later + 60
        → later ≤ now + ttl
        → now + ttl < 2 ^ 63
        → (decode_and_validate c token later ≡ inr (minted_claims repo_id user_id access ttl now))
          × (verify_openweights_signature c token key ≡ none)
    unfolding mint_openweights_token
    mint_openweights_token-accepted key repo_id user_id access ttl now later token minted keyed
          early soon small =
        sign_json-accepted key (minted_claims repo_id user_id access ttl now) _ later token refl
          minted keyed (minted_claims_valid repo_id user_id access ttl now later early soon small)
