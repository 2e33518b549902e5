-- ===== src/SignedUrl/Accepts.antt =====
-- What a signer mints is accepted, by itself and by a signer that has its key as the previous one.
use open_weights.Base.{
  ℕ, ◌^◌, ◌<◌, ◌≡◌, refl, Bool, not, false, Option, none, some, List, [], ◌∷◌, map, arith, Str, All,
}
use open_weights.Base.Maps.{str_eq}
use open_weights.Coalesce.{Hash, u64_mod}
use open_weights.Reconstruction.{Uuid}
use open_weights.SignedUrl.{
  ◌>>=◌, Crates, UrlSigner, Outcome, ok, VerifyErr, VerifyOk, expiry, or_empty, ranges_of,
  canonical_string, canonical_string_raw, canonical_version, signed_url, mint_v1,
  mint_v1_multi_range, verify,
}
use open_weights.SignedUrl.Laws.{Laws, IsGateway}
use open_weights.SignedUrl.Text.{print_segment, join}
use open_weights.SignedUrl.Text.Segments.{IsSegment, parse_range_segments-join}
use open_weights.SignedUrl.Checks.{check_signature_own, check_signature_rotated, verify-signed_url}

expiry-lt : (now ttl : ℕ) → expiry now ttl < u64_mod
unfolding expiry
expiry-lt now ttl = omega arith

module _ {Key Url : Type 0} (c : Crates Key Url) (l : Laws c) where
  -- The ranges that a URL of `mint_v1` grants, and those that it can print.
  abbrev granted : Option (ℕ × ℕ) → List (ℕ × ℕ)
  granted none = []
  granted (some x) = x ∷ []

  abbrev IsGrant : Option (ℕ × ℕ) → Type 0
  IsGrant none = Unit
  IsGrant (some x) = IsSegment x

  -- The text of `r` in a URL of `mint_v1`.
  abbrev printed : Option (ℕ × ℕ) → Option Str
  printed none = none
  printed (some x) = some (print_segment x)

  mint_v1-signed_url :
      (signer : UrlSigner Key Url) (h : Hash) (range : Option (ℕ × ℕ)) (kid : Uuid) (minted : ℕ)
      → mint_v1 c signer h range kid minted ≡ (
          let exp = expiry minted signer.default_ttl_secs in
          signed_url c signer h exp
            (printed range)
            kid
            (canonical_string_raw c canonical_version (c.hex h) exp (or_empty (printed range)) kid))
  unfolding mint_v1 canonical_string
  mint_v1-signed_url signer h none kid minted = refl
  mint_v1-signed_url signer h (some x) kid minted = refl

  ranges_of-join :
      (x : ℕ × ℕ) (xs : List (ℕ × ℕ))
      → All IsSegment (x ∷ xs)
      → ranges_of (some (join (map print_segment (x ∷ xs)))) ≡ ok (x ∷ xs)
  unfolding ranges_of
  ranges_of-join x xs fits = rw (parse_range_segments-join x xs fits)

  ranges_of-printed :
      (range : Option (ℕ × ℕ)) → IsGrant range → ranges_of (printed range) ≡ ok (granted range)
  unfolding ranges_of join
  ranges_of-printed none fits = refl
  ranges_of-printed (some x) fits = ranges_of-join x [] (fits, tt)

  -- What `verify` says of a URL that it accepts.
  abbrev pub accepted : Hash → ℕ → List (ℕ × ℕ) → Uuid → Bool → Outcome VerifyErr VerifyOk
  accepted h exp ranges kid prev = ok (record {
    xorb_hash_hex = c.hex h;
    exp = exp;
    ranges = ranges;
    kid = kid;
    accepted_by_prev_key = prev;
  })

  -- Where the base of the gateway has no query, the key id has 128 bits, and the range, if there is one,
  -- fits `u64` and is not reversed: a URL of `mint_v1` is verified by its own signer until it expires,
  -- and grants the whole xorb or the one range.
  pub verify-mint_v1 :
      (signer : UrlSigner Key Url) (h : Hash) (range : Option (ℕ × ℕ)) (kid : Uuid) (minted now : ℕ)
      → IsGateway c signer.gateway_base
      → kid < 2 ^ 128
      → IsGrant range
      → now < expiry minted signer.default_ttl_secs
      → verify c signer (mint_v1 c signer h range kid minted) now
        ≡ accepted h (expiry minted signer.default_ttl_secs) (granted range) kid false
  verify-mint_v1 signer h range kid minted now base known fits early =
      let exp = expiry minted signer.default_ttl_secs in
      rw (mint_v1-signed_url signer h range kid minted) (
        verify-signed_url c l signer signer h exp (printed range) kid (granted range) now false base
          (expiry-lt minted signer.default_ttl_secs) known (ranges_of-printed range fits) early
          (check_signature_own c l signer (
            canonical_string_raw c canonical_version (c.hex h) exp (or_empty (printed range)) kid)))

  -- Where the base of the gateway has no query, the key id has 128 bits, and each of the ranges, of which
  -- there is one at least, fits `u64` and is not reversed: a URL of `mint_v1_multi_range` is minted
  -- without a panic, is verified by its own signer until it expires, and grants those ranges.
  pub verify-mint_v1_multi_range :
      (signer : UrlSigner Key Url) (h : Hash) (x : ℕ × ℕ) (xs : List (ℕ × ℕ)) (kid : Uuid)
      (minted now : ℕ)
      → IsGateway c signer.gateway_base
      → kid < 2 ^ 128
      → All IsSegment (x ∷ xs)
      → now < expiry minted signer.default_ttl_secs
      → (mint_v1_multi_range c signer h (x ∷ xs) kid minted >>= λ url. verify c signer url now)
        ≡ accepted h (expiry minted signer.default_ttl_secs) (x ∷ xs) kid false
  unfolding mint_v1_multi_range
  verify-mint_v1_multi_range signer h x xs kid minted now base known fits early =
      let exp = expiry minted signer.default_ttl_secs in
      let r = join (map print_segment (x ∷ xs)) in
      verify-signed_url c l signer signer h exp (some r) kid (x ∷ xs) now false base
        (expiry-lt minted signer.default_ttl_secs) known (ranges_of-join x xs fits) early
        (check_signature_own c l signer
          (canonical_string_raw c canonical_version (c.hex h) exp r kid))

  -- The text that a URL of `mint_v1` signs.
  abbrev pub signed_text : UrlSigner Key Url → Hash → Option (ℕ × ℕ) → Uuid → ℕ → Str
  signed_text signer h range kid minted =
      canonical_string_raw c canonical_version (c.hex h) (expiry minted signer.default_ttl_secs)
        (or_empty (printed range)) kid

  -- Where the key of the minter is the previous key of the verifier, the base of the minter has no query,
  -- the key id has 128 bits, and the range, if there is one, fits `u64` and is not reversed: a URL of
  -- the minter's `mint_v1` is verified until it expires, and is told to be by the previous key exactly
  -- where the verifier's own key signs the text of this URL otherwise.
  pub verify_rotated :
      (minter signer : UrlSigner Key Url) (h : Hash) (range : Option (ℕ × ℕ)) (kid : Uuid)
      (minted now : ℕ)
      → IsGateway c minter.gateway_base
      → kid < 2 ^ 128
      → IsGrant range
      → now < expiry minted minter.default_ttl_secs
      → signer.key_prev ≡ some minter.key_current
      → (let text = signed_text minter h range kid minted in
          verify c signer (mint_v1 c minter h range kid minted) now
          ≡ accepted h
              (expiry minted minter.default_ttl_secs)
              (granted range)
              kid
              (not (str_eq (c.hmac signer.key_current text) (c.hmac minter.key_current text))))
  verify_rotated minter signer h range kid minted now base known fits early prev =
      let exp = expiry minted minter.default_ttl_secs in
      let text = signed_text minter h range kid minted in
      rw (mint_v1-signed_url minter h range kid minted) (
        verify-signed_url c l minter signer h exp (printed range) kid (granted range) now
          (not (str_eq (c.hmac signer.key_current text) (c.hmac minter.key_current text))) base
          (expiry-lt minted minter.default_ttl_secs) known (ranges_of-printed range fits) early
          (check_signature_rotated c l signer minter.key_current text prev))
