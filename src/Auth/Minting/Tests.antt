-- ===== src/Auth/Minting/Tests.antt =====
-- Stand-ins for base64 and serde_json under which a token is minted and read back.
use mathlib.Core.Option.{some-injective}
use open_weights.Base.{
  ℕ, ◌+◌, ◌-◌, ◌≡◌, refl, ap, sym, Bool, true, false, ◌&&◌, Option, none, some, [], ◌∷◌, ◌++◌,
  if◌then◌else◌, arith, inr, Str, length,
}
use open_weights.Base.Maps.{str_eq, str_eq_iff}
use open_weights.SignedUrl.Text.Segments.{Without}
use open_weights.Auth.{codes, I64, nonneg, below_zero, ActiveKey, XetJwtClaims, AuthCrates}
use open_weights.Auth.XetJwt.{openweights_issuer, decode_and_validate, verify_openweights_signature}
use open_weights.Auth.Minting.{
  read, signed_token, mint_openweights_token, MintLaws, mint_openweights_token-accepted,
}

abbrev shift : Str → Str
shift [] = []
shift (b ∷ s) = (b + 47) ∷ shift s

abbrev shift_back : Str → Str
shift_back [] = []
shift_back (b ∷ s) = (b - 47) ∷ shift_back s

abbrev claims_of : ℕ → ℕ → Str → XetJwtClaims
claims_of iat exp repo_id = record {
  repo_id = repo_id;
  user_id = [];
  access = codes "READ";
  iat = nonneg iat;
  exp = nonneg exp;
  iss = openweights_issuer;
}

abbrev read_claims : Str → Option XetJwtClaims
read_claims (iat ∷ exp ∷ repo_id) = some (claims_of iat exp repo_id)
read_claims _ = none

-- Only the claims of a reader without a name are printed.
abbrev is_plain : Str → Str → Str → Bool
is_plain user_id access iss =
    str_eq user_id [] && (str_eq access (codes "READ") && str_eq iss openweights_issuer)

abbrev print_times : I64 → I64 → Str → Option Str
print_times (nonneg iat) (nonneg exp) repo_id = some (iat ∷ exp ∷ repo_id)
print_times _ _ repo_id = none

abbrev print_claims : XetJwtClaims → Option Str
print_claims claims =
    if is_plain claims.user_id claims.access claims.iss
    then print_times claims.iat claims.exp claims.repo_id
    else none

abbrev crates : AuthCrates (ℕ → Option ActiveKey)
crates = record {
  sha256 = λ s. length s;
  hmac_sha256 = λ key s. key ++ length s ∷ [];
  b64_url_encode = shift;
  b64_url_decode = λ s. some (shift_back s);
  trim = λ s. s;
  claims_from_json = read_claims;
  gen_random_uuid = λ rows. length rows;
  lru_peek = λ k l. l k;
  lru_get = λ k l. (l k, l);
  lru_put = λ k v l. l;
  lru_pop = λ k l. l;
}

shift_no_dot : (s : Str) → Without 46 (shift s)
shift_no_dot [] = tt
shift_no_dot (b ∷ s) = ((λ e. absurd (omega arith)), shift_no_dot s)

shift_back-shift : (s : Str) → shift_back (shift s) ≡ s
shift_back-shift [] = refl
shift_back-shift (b ∷ s) = rw (shift_back-shift s) (ground arith)

plain_back :
    (plain : Bool) (repo_id user_id access : Str) (iat exp : I64) (iss json : Str)
    → is_plain user_id access iss ≡ plain
    → (if plain then print_times iat exp repo_id else none) ≡ some json
    → read_claims json
      ≡ some (record {
        repo_id = repo_id;
        user_id = user_id;
        access = access;
        iat = iat;
        exp = exp;
        iss = iss;
      })
plain_back false repo_id user_id access iat exp iss json e h = absurd (ground arith)
plain_back true repo_id user_id access (below_zero iat) exp iss json e h = absurd (ground arith)
plain_back true repo_id user_id access (nonneg iat) (below_zero exp) iss json e h =
    absurd (ground arith)
plain_back true repo_id user_id access (nonneg iat) (nonneg exp) iss json e h =
    let printed : iat ∷ exp ∷ repo_id ≡ json = some-injective _ _ h in
    let nobody : user_id ≡ [] = (str_eq_iff user_id []).0 (ground arith) in
    let reads : access ≡ codes "READ" = (str_eq_iff access (codes "READ")).0 (ground arith) in
    let ours : iss ≡ openweights_issuer = (str_eq_iff iss openweights_issuer).0 (ground arith) in
    rw (sym printed, nobody, reads, ours) refl

crates-MintLaws : MintLaws crates print_claims
crates-MintLaws = record {
  encode_no_dot = shift_no_dot;
  decode-encode = λ s. ap some (shift_back-shift s);
  json_back = λ claims json e.
      plain_back _ claims.repo_id claims.user_id claims.access claims.iat claims.exp claims.iss json
        refl e;
}

mint_openweights_token-accepted_example :
    (decode_and_validate crates
        (signed_token crates (1 ∷ 2 ∷ []) (100 ∷ 1000 ∷ codes "org/model"))
        1000
      ≡ inr (claims_of 100 1000 (codes "org/model")))
    × (verify_openweights_signature crates
          (signed_token crates (1 ∷ 2 ∷ []) (100 ∷ 1000 ∷ codes "org/model"))
          (1 ∷ 2 ∷ [])
        ≡ none)
unfolding mint_openweights_token
mint_openweights_token-accepted_example =
    mint_openweights_token-accepted crates print_claims crates-MintLaws (1 ∷ 2 ∷ [])
      (codes "org/model") [] read 900 100 1000 _ refl refl (omega arith) (omega arith) (omega arith)
