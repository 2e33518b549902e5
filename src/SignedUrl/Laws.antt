-- ===== src/SignedUrl/Laws.antt =====
-- What signed_url.rs relies on in the other crates, and what follows for its small steps.
use open_weights.Base.{
  ℕ, ◌^◌, ◌≤◌, ◌<◌, ◌≡◌, ◌↔◌, ◌⊎◌, refl, ap, true, false, some, [], ◌∷◌, ◌++◌, arith, Str, length,
  All,
}
use open_weights.Coalesce.{Hash}
use open_weights.Reconstruction.{Uuid}
use open_weights.Download.Request.{strip_prefix}
use open_weights.Hex.Valid.{all_hex}
use open_weights.SignedUrl.{
  Crates, ok, xorb_prefix, path_of, has_uppercase, check_hex, ct_eq, sign_with, signed_by,
}
use open_weights.SignedUrl.Text.Decimal.{IsDigit}
use open_weights.SignedUrl.Text.Segments.{Without}

-- A lower-case hex digit.
abbrev pub IsLowerHex : ℕ → Type 0
IsLowerHex c = IsDigit c ⊎ ((b'a' ≤ c) × (c ≤ b'f'))

-- A byte that a path holds as it is: a digit, a lower-case letter or a slash.
abbrev pub IsPlain : ℕ → Type 0
IsPlain c = IsDigit c ⊎ (((b'a' ≤ c) × (c ≤ b'z')) ⊎ (c ≡ b'/'))

pub record Laws {Key Url : Type 0} (c : Crates Key Url) : Type 0 where
  -- 64 lower-case hex digits, which no two values of 32 bytes share
  pub hex-injective : (a b : Hash) → a < 256 ^ 32 → b < 256 ^ 32 → c.hex a ≡ c.hex b → a ≡ b
  pub length-hex : (h : Hash) → length (c.hex h) ≡ 64
  pub hex-IsLowerHex : (h : Hash) → All IsLowerHex (c.hex h)
  pub decode_encode : (bytes : Str) → c.b64_url_decode (c.b64_url_encode bytes) ≡ some bytes
  -- equality, on slices of one length
  pub slices_ct_eq_iff : (a b : Str) → length a ≡ length b → (c.slices_ct_eq a b ≡ true) ↔ (a ≡ b)
  -- hex digits and hyphens, which parse back
  pub uuid_to_string-Without : (k : Uuid) → Without 10 (c.uuid_to_string k)
  pub parse_print_uuid : (k : Uuid) → k < 2 ^ 128 → c.parse_uuid (c.uuid_to_string k) ≡ some k
  pub parse_print_url : (u : Url) → c.parse_url (c.url_to_string u) ≡ some u
  -- an absolute path of plain bytes is kept as it is
  pub path-set_path :
      (p : Str) (u : Url)
      → c.cannot_be_a_base u ≡ false
      → All IsPlain p
      → c.path (c.set_path (b'/' ∷ p) u) ≡ b'/' ∷ p
  pub query_pairs-set_path : (p : Str) (u : Url) → c.query_pairs (c.set_path p u) ≡ c.query_pairs u
  pub path-append_pair : (k v : Str) (u : Url) → c.path (c.append_pair k v u) ≡ c.path u
  pub query_pairs-append_pair :
      (k v : Str) (u : Url) → c.query_pairs (c.append_pair k v u) ≡ c.query_pairs u ++ (k, v) ∷ []

-- An `https` base without a query of its own.
pub record IsGateway {Key Url : Type 0} (c : Crates Key Url) (u : Url) : Type 0 where
  pub is_base : c.cannot_be_a_base u ≡ false
  pub no_query : c.query_pairs u ≡ []

all_hex-lower : (s : Str) → All IsLowerHex s → all_hex s ≡ true
all_hex-lower [] h = refl
all_hex-lower (c ∷ s) h = let digit = h.0 in ground (arith, all_hex-lower s h.1)

has_uppercase-lower : (s : Str) → All IsLowerHex s → has_uppercase s ≡ false
unfolding has_uppercase
has_uppercase-lower [] h = refl
has_uppercase-lower (c ∷ s) h = let digit = h.0 in ground (arith, has_uppercase-lower s h.1)

pub check_hex-lower : (s : Str) → length s ≡ 64 → All IsLowerHex s → check_hex s ≡ ok tt
unfolding check_hex
check_hex-lower s n h = rw (n, all_hex-lower s h, has_uppercase-lower s h)

pub strip_prefix-path_of : (s : Str) → strip_prefix xorb_prefix (path_of s) ≡ some s
unfolding strip_prefix path_of
strip_prefix-path_of s = refl

module _ {Key Url : Type 0} (c : Crates Key Url) (l : Laws c) where
  pub ct_eq_iff : (a b : Str) → (ct_eq c a b ≡ true) ↔ (a ≡ b)
  unfolding ct_eq
  ct_eq_iff a b = (
    (λ h. ground (arith, l.slices_ct_eq_iff a b)),
    λ e. let same : length a ≡ length b = ap length e in ground (arith, l.slices_ct_eq_iff a b),
  )

  pub signed_by-hmac :
      (key : Key) (canonical provided : Str)
      → signed_by c key canonical provided ≡ ok (ct_eq c (c.hmac key canonical) provided)
  unfolding signed_by sign_with
  signed_by-hmac key canonical provided = rw (signed_by, l.decode_encode (c.hmac key canonical))
