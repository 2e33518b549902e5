-- ===== src/SignedUrl/Checks.antt =====
-- How the checks of `verify` go on a URL of the minters, for a signer that knows the key.
use open_weights.Base.{
  ℕ, ◌^◌, ◌<◌, ◌≡◌, refl, ◌∙◌, Bool, not, true, false, Option, some, List, arith, Str, ltb,
  Bool-cases, inl, inr,
}
use open_weights.Base.Maps.{str_eq, str_eq_iff}
use open_weights.Coalesce.{Hash, u64_mod}
use open_weights.Reconstruction.{Uuid}
use open_weights.SignedUrl.{
  Crates, UrlSigner, ok, Params, no_params, path_of, or_empty, ranges_of, check_hex, ct_eq,
  sign_with, signed_by_prev, canonical_string_raw, canonical_version, append_grant, append_range,
  signed_url, read_pairs, check_signature, verify_params, verify,
}
use open_weights.SignedUrl.Laws.{
  Laws, IsGateway, check_hex-lower, strip_prefix-path_of, ct_eq_iff, signed_by-hmac,
}
use open_weights.SignedUrl.Minted.{path-grant, read_pairs-grant, path-path_of}

module _ {Key Url : Type 0} (c : Crates Key Url) (l : Laws c) where
  pub check_signature_own :
      (signer : UrlSigner Key Url) (canonical : Str)
      → check_signature c signer canonical (c.hmac signer.key_current canonical) ≡ ok false
  unfolding check_signature
  check_signature_own signer canonical =
      let mac = c.hmac signer.key_current canonical in
      rw (signed_by-hmac c l signer.key_current canonical mac, (ct_eq_iff c l mac mac).1 refl)

  ct_eq-str_eq : (a b : Str) → ct_eq c a b ≡ str_eq a b
  ct_eq-str_eq a b = ground (arith, ct_eq_iff c l a b, str_eq_iff a b)

  -- The previous key signs as `mac`: it is asked where the current key signs otherwise.
  pub check_signature_rotated :
      (signer : UrlSigner Key Url) (key : Key) (canonical : Str)
      → signer.key_prev ≡ some key
      → check_signature c signer canonical (c.hmac key canonical)
        ≡ ok (not (str_eq (c.hmac signer.key_current canonical) (c.hmac key canonical)))
  unfolding check_signature signed_by_prev
  check_signature_rotated signer key canonical prev =
      let mac = c.hmac key canonical in
      rw
        (
          signed_by-hmac c l signer.key_current canonical mac,
          ct_eq-str_eq (c.hmac signer.key_current canonical) mac,
        )
        (elim (Bool-cases (str_eq (c.hmac signer.key_current canonical) mac)) [
          | inl same ↦ rw same refl
          | inr other ↦
              rw (other, prev, signed_by-hmac c l key canonical mac, (ct_eq_iff c l mac mac).1 refl)
                refl
        ])

  verify_params_of :
      (s : UrlSigner Key Url) (hex sig mac : Str) (exp : ℕ) (kid : Uuid) (r : Option Str)
      (ranges : List (ℕ × ℕ)) (now : ℕ) (prev : Bool)
      → ranges_of r ≡ ok ranges
      → now < exp
      → c.b64_url_decode sig ≡ some mac
      → check_signature c s (canonical_string_raw c canonical_version hex exp (or_empty r) kid) mac
        ≡ ok prev
      → verify_params c s hex
          (record { exp = some exp; kid = some kid; sig = some sig; r_raw = r })
          now
        ≡ ok (record {
          xorb_hash_hex = hex;
          exp = exp;
          ranges = ranges;
          kid = kid;
          accepted_by_prev_key = prev;
        })
  unfolding verify_params
  verify_params_of s hex sig mac exp kid r ranges now prev parsed early decoded signed =
      let in_time : ltb now exp ≡ true = ground arith in rw (parsed, in_time, decoded, signed)

  decode_sign :
      (key : Key) (canonical : Str)
      → c.b64_url_decode (sign_with c key canonical) ≡ some (c.hmac key canonical)
  unfolding sign_with
  decode_sign key canonical = l.decode_encode (c.hmac key canonical)

  verify_of :
      (s : UrlSigner Key Url) (text hex : Str) (u : Url) (q : Params) (now : ℕ)
      → c.parse_url text ≡ some u
      → c.path u ≡ path_of hex
      → check_hex hex ≡ ok tt
      → read_pairs c no_params (c.query_pairs u) ≡ q
      → verify c s text now ≡ verify_params c s hex q now
  unfolding verify
  verify_of s text hex u q now parsed at lower read =
      rw (parsed, at, strip_prefix-path_of hex, lower, read)

  -- A URL of either minter is accepted by a signer that accepts its signature.
  pub verify-signed_url :
      (minter s : UrlSigner Key Url) (h : Hash) (exp : ℕ) (r : Option Str) (kid : Uuid)
      (ranges : List (ℕ × ℕ)) (now : ℕ) (prev : Bool)
      → IsGateway c minter.gateway_base
      → exp < u64_mod
      → kid < 2 ^ 128
      → ranges_of r ≡ ok ranges
      → now < exp
      → (let canonical = canonical_string_raw c canonical_version (c.hex h) exp (or_empty r) kid in
          check_signature c s canonical (c.hmac minter.key_current canonical) ≡ ok prev)
      → verify c s
          (signed_url c minter h exp r kid
            (canonical_string_raw c canonical_version (c.hex h) exp (or_empty r) kid))
          now
        ≡ ok (record {
          xorb_hash_hex = c.hex h;
          exp = exp;
          ranges = ranges;
          kid = kid;
          accepted_by_prev_key = prev;
        })
  unfolding signed_url
  verify-signed_url minter s h exp r kid ranges now prev base small known parsed early signed =
      let hex = c.hex h in
      let canonical = canonical_string_raw c canonical_version hex exp (or_empty r) kid in
      let sig = sign_with c minter.key_current canonical in
      let target = c.set_path (path_of hex) minter.gateway_base in
      let u = append_range c r (append_grant c exp kid sig target) in
      verify_of s (c.url_to_string u) hex u
        (record { exp = some exp; kid = some kid; sig = some sig; r_raw = r }) now
        (l.parse_print_url u)
        (path-grant c l exp kid sig r target ∙ path-path_of c l h minter.gateway_base base)
        (check_hex-lower hex (l.length-hex h) (l.hex-IsLowerHex h))
        (read_pairs-grant c l exp kid sig r (path_of hex) minter.gateway_base base small known)
      ∙ verify_params_of s hex sig (c.hmac minter.key_current canonical) exp kid r ranges now prev
          parsed early (decode_sign minter.key_current canonical) signed
