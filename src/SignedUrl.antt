-- ===== src/SignedUrl.antt =====
-- `UrlSigner` of cas/crates/openweights-cas-core/src/signed_url.rs: signed gateway URLs, minted and
-- verified. HMAC-SHA256, base64, `subtle`, `url::Url`, `Uuid` and `MerkleHash::hex` belong to other
-- crates and are parameters.
pub mod Text
pub mod Laws
pub mod Minted
pub mod Checks
pub mod Accepts
pub mod Readers
pub mod Sound
pub mod Canonical
pub mod Grants
mod TestCrates
mod Tests
use Prim.Native.String.{String}
use open_weights.Base.{
  ℕ, ◌+◌, ◌-◌, ◌^◌, min, Bool, true, false, not, ◌&&◌, ◌||◌, Option, none, some, List, [], ◌∷◌,
  ◌++◌, map, ltb, leb, ◌==◌, if◌then◌else◌, Str, length,
}
use open_weights.Base.Maps.{str_eq}
use open_weights.Coalesce.{Hash, u64_mod}
use open_weights.Download.Request.{strip_prefix, parse_u64}
use open_weights.Hex.Valid.{all_hex}
use open_weights.Reconstruction.{Uuid}
use Text.{to_string, print_segment, join, parse_range_segments}

pub data VerifyErr : Type 0 where
  malformed : String → VerifyErr
  expired bad_signature : VerifyErr

pub data SignerError : Type 0 where
  key_not_base64 hmac_init : SignerError
  invalid_key_length : ℕ → SignerError

pub record VerifyOk : Type 0 where
  pub xorb_hash_hex : Str
  pub exp : ℕ
  pub ranges : List (ℕ × ℕ)
  pub kid : Uuid
  pub accepted_by_prev_key : Bool

-- What a function that may fail, or panic, comes back with.
pub data Outcome (E A : Type 0) : Type 0 where
  ok : A → Outcome E A
  err : E → Outcome E A
  panicked : Outcome E A

infixl 5 ◌>>=◌ ◌>>◌
abbrev pub ◌>>=◌ : {E A B : Type 0} → Outcome E A → (A → Outcome E B) → Outcome E B
ok a >>= next = next a
err e >>= next = err e
panicked >>= next = panicked

abbrev pub ◌>>◌ : {E A B : Type 0} → Outcome E A → Outcome E B → Outcome E B
first >> next = first >>= λ _. next

abbrev pub ok_or : {E A : Type 0} → E → Option A → Outcome E A
ok_or e none = err e
ok_or e (some a) = ok a

-- `if !test { return Err(e) }`
abbrev pub ensure : {E : Type 0} → Bool → E → Outcome E (Unit {0})
ensure test e = if test then ok tt else err e

-- What signed_url.rs calls of other crates, over their types of keys and URLs. A byte slice is the
-- list of its bytes.
pub record Crates (Key Url : Type 0) : Type 0 where
  -- `MerkleHash::hex`
  pub hex : Hash → Str
  -- `Hmac<Sha256>`
  pub hmac : Key → Str → Str
  pub new_from_slice : Str → Option Key
  -- the engines `URL_SAFE_NO_PAD` and `STANDARD`
  pub b64_url_encode : Str → Str
  pub b64_url_decode : Str → Option Str
  pub b64_std_decode : Str → Option Str
  -- `subtle`, on slices of one length
  pub slices_ct_eq : Str → Str → Bool
  pub uuid_to_string : Uuid → Str
  pub parse_uuid : Str → Option Uuid
  pub parse_url : Str → Option Url
  pub url_to_string : Url → Str
  pub cannot_be_a_base : Url → Bool
  pub path : Url → Str
  pub set_path : Str → Url → Url
  pub query_pairs : Url → List (Str × Str)
  pub append_pair : Str → Str → Url → Url

pub record UrlSigner (Key Url : Type 0) : Type 0 where
  pub key_current : Key
  pub key_prev : Option Key
  pub gateway_base : Url
  pub default_ttl_secs : ℕ

abbrev pub signing_key_len : ℕ
signing_key_len = 32

abbrev pub canonical_version : Str
canonical_version = b'v' ∷ b'1' ∷ []

-- `/xorb/`
abbrev pub xorb_prefix : Str
xorb_prefix = b'/' ∷ b'x' ∷ b'o' ∷ b'r' ∷ b'b' ∷ b'/' ∷ []

abbrev pub exp_key : Str
exp_key = b'e' ∷ b'x' ∷ b'p' ∷ []

abbrev pub kid_key : Str
kid_key = b'k' ∷ b'i' ∷ b'd' ∷ []

abbrev pub sig_key : Str
sig_key = b's' ∷ b'i' ∷ b'g' ∷ []

abbrev pub r_key : Str
r_key = b'r' ∷ []

-- `r_raw.as_deref().unwrap_or("")`, and the field of `canonical_string`
abbrev pub or_empty : Option Str → Str
or_empty none = []
or_empty (some s) = s

-- `char::is_ascii_uppercase` on some character
unfoldable pub has_uppercase : Str → Bool
has_uppercase [] = false
has_uppercase (c ∷ s) = (leb b'A' c && leb c b'Z') || has_uppercase s

-- The slots of `verify` for the query parameters.
pub record Params : Type 0 where
  pub exp : Option ℕ
  pub kid : Option Uuid
  pub sig : Option Str
  pub r_raw : Option Str

abbrev pub no_params : Params
no_params = record { exp = none; kid = none; sig = none; r_raw = none }

-- `exp` of both minters
unfoldable pub expiry : ℕ → ℕ → ℕ
expiry now_unix ttl = min (now_unix + ttl) (u64_mod - 1)

unfoldable pub path_of : Str → Str
path_of hex = xorb_prefix ++ hex

unfoldable pub ranges_of : Option Str → Outcome VerifyErr (List (ℕ × ℕ))
ranges_of none = ok []
ranges_of (some s) = ok_or (malformed "range") (parse_range_segments s)

unfoldable pub check_hex : Str → Outcome VerifyErr (Unit {0})
unfolding has_uppercase
check_hex hex = do
  ensure (length hex == 64 && all_hex hex) (malformed "xorb_hash_hex")
  ensure (not (has_uppercase hex)) (malformed "xorb_hash_hex_case")

module _ {Key Url : Type 0} (c : Crates Key Url) where
  open c use {
    hex, hmac, new_from_slice, b64_url_encode, b64_url_decode, b64_std_decode, slices_ct_eq,
    uuid_to_string, parse_uuid, parse_url, url_to_string, path, set_path, query_pairs, append_pair,
  }

  unfoldable pub canonical_string_raw : Str → Str → ℕ → Str → Uuid → Str
  canonical_string_raw version xorb_hash_hex exp r_field kid =
      version
      ++ 10 ∷ (xorb_hash_hex ++ 10 ∷ (to_string exp ++ 10 ∷ (r_field ++ 10 ∷ uuid_to_string kid)))

  unfoldable pub canonical_string : Str → Str → ℕ → Option (ℕ × ℕ) → Uuid → Str
  canonical_string version xorb_hash_hex exp none kid =
      canonical_string_raw version xorb_hash_hex exp [] kid
  canonical_string version xorb_hash_hex exp (some range) kid =
      canonical_string_raw version xorb_hash_hex exp (print_segment range) kid

  unfoldable pub sign_with : Key → Str → Str
  sign_with key canonical = b64_url_encode (hmac key canonical)

  unfoldable pub ct_eq : Str → Str → Bool
  ct_eq a b = if length a == length b then slices_ct_eq a b else false

  -- `UrlSigner::new`
  unfoldable pub load_hmac_key : Str → Outcome SignerError Key
  load_hmac_key key_b64 = do
    bytes ← ok_or key_not_base64 (b64_std_decode key_b64)
    ensure (length bytes == signing_key_len) (invalid_key_length (length bytes))
    ok_or hmac_init (new_from_slice bytes)

  unfoldable pub load_prev_key : Option Str → Outcome SignerError (Option Key)
  load_prev_key none = ok none
  load_prev_key (some key_b64) = do key ← load_hmac_key key_b64; ok (some key)

  unfoldable pub new : Str → Option Str → Url → ℕ → Outcome SignerError (UrlSigner Key Url)
  new key_current_b64 key_prev_b64 base ttl = do
    key ← load_hmac_key key_current_b64
    prev ← load_prev_key key_prev_b64
    ok (record { key_current = key; key_prev = prev; gateway_base = base; default_ttl_secs = ttl })

  -- The query of a minted URL before `r`.
  unfoldable pub append_grant : ℕ → Uuid → Str → Url → Url
  append_grant exp kid sig url =
      append_pair sig_key sig
        (append_pair kid_key (uuid_to_string kid) (append_pair exp_key (to_string exp) url))

  unfoldable pub append_range : Option Str → Url → Url
  append_range none url = url
  append_range (some r) url = append_pair r_key r url

  -- The URL of both minters for the serialized ranges `r` and the canonical string.
  unfoldable pub signed_url : UrlSigner Key Url → Hash → ℕ → Option Str → Uuid → Str → Str
  signed_url signer xorb_hash exp r kid canonical =
      let url = set_path (path_of (hex xorb_hash)) signer.gateway_base in
      url_to_string
        (append_range r (append_grant exp kid (sign_with signer.key_current canonical) url))

  unfoldable pub mint_v1 : UrlSigner Key Url → Hash → Option (ℕ × ℕ) → Uuid → ℕ → Str
  mint_v1 signer xorb_hash range kid now_unix =
      let exp = expiry now_unix signer.default_ttl_secs in
      signed_url signer xorb_hash exp (elim range [ none ↦ none | some x ↦ some (print_segment x) ])
        kid (canonical_string canonical_version (hex xorb_hash) exp range kid)

  unfoldable pub mint_v1_multi_range :
      UrlSigner Key Url → Hash → List (ℕ × ℕ) → Uuid → ℕ → Outcome VerifyErr Str
  mint_v1_multi_range signer xorb_hash [] kid now_unix = panicked
  mint_v1_multi_range signer xorb_hash (x ∷ xs) kid now_unix =
      let exp = expiry now_unix signer.default_ttl_secs in
      let r = join (map print_segment (x ∷ xs)) in
      ok (
        signed_url signer xorb_hash exp (some r) kid
          (canonical_string_raw canonical_version (hex xorb_hash) exp r kid))

  -- The loop of `verify` over the query; a later parameter overwrites an earlier one.
  unfoldable pub read_pairs : Params → List (Str × Str) → Params
  read_pairs q [] = q
  read_pairs q ((k, v) ∷ pairs) =
      read_pairs
        (if str_eq k exp_key
          then record q { exp = parse_u64 v }
          else if str_eq k kid_key
          then record q { kid = parse_uuid v }
          else if str_eq k sig_key
          then record q { sig = some v }
          else if str_eq k r_key
          then record q { r_raw = some v }
          else q)
        pairs

  -- Whether the key signs the canonical string with the bytes that were provided.
  unfoldable pub signed_by : Key → Str → Str → Outcome VerifyErr Bool
  signed_by key canonical provided = elim (b64_url_decode (sign_with key canonical)) [
    | none ↦ panicked
    | some bytes ↦ ok (ct_eq bytes provided)
  ]

  unfoldable pub signed_by_prev : Option Key → Str → Str → Outcome VerifyErr Bool
  signed_by_prev none canonical provided = ok false
  signed_by_prev (some key) canonical provided = signed_by key canonical provided

  -- The two comparisons; the result is `accepted_by_prev_key`.
  unfoldable pub check_signature : UrlSigner Key Url → Str → Str → Outcome VerifyErr Bool
  check_signature signer canonical provided = do
    current ← signed_by signer.key_current canonical provided
    prev ← if current then ok false else signed_by_prev signer.key_prev canonical provided
    if current || prev then ok prev else err bad_signature

  -- `verify` from the slots on.
  unfoldable pub verify_params : UrlSigner Key Url → Str → Params → ℕ → Outcome VerifyErr VerifyOk
  verify_params signer hex q now_unix = do
    exp ← ok_or (malformed "exp") q.exp
    kid ← ok_or (malformed "kid") q.kid
    sig ← ok_or (malformed "sig") q.sig
    ranges ← ranges_of q.r_raw
    ensure (ltb now_unix exp) expired
    provided ← ok_or (malformed "sig_b64") (b64_url_decode sig)
    prev ←
        check_signature signer
          (canonical_string_raw canonical_version hex exp (or_empty q.r_raw) kid) provided
    ok (record {
      xorb_hash_hex = hex;
      exp = exp;
      ranges = ranges;
      kid = kid;
      accepted_by_prev_key = prev;
    })

  unfoldable pub verify : UrlSigner Key Url → Str → ℕ → Outcome VerifyErr VerifyOk
  verify signer url_str now_unix = do
    url ← ok_or (malformed "parse") (parse_url url_str)
    hex ← ok_or (malformed "path_prefix") (strip_prefix xorb_prefix (path url))
    check_hex hex
    verify_params signer hex (read_pairs no_params (query_pairs url)) now_unix
