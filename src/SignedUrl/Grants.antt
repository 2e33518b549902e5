-- ===== src/SignedUrl/Grants.antt =====
-- The signer as the `UrlMinter` of the response builder: `impl UrlMinter for UrlSigner` of
-- cas/crates/openweights-cas-core/src/signed_url.rs.
use open_weights.Base.{
  ℕ, ◌+◌, ◌^◌, ◌≤◌, ◌<◌, ◌≡◌, false, some, List, [], ◌∷◌, arith, Str, All, All-mono, All-map, In,
}
use open_weights.Base.Maps.{get, str_ord}
use open_weights.Coalesce.{Hash, Term, ByteRange, u64_mod, coalesce_terms_by_xorb}
use open_weights.Coalesce.Group.{get_or_default}
use open_weights.Coalesce.Canonical.{IsCanonical, coalesce-IsCanonical}
use open_weights.Coalesce.Contains.{coalesce-end}
use open_weights.Reconstruction.{
  Uuid, UrlMinter, TermSpan, ReconstructionRow, FetchInfoEntry, span_table, to_entry,
  build_response,
}
use open_weights.Reconstruction.Fetches.{build_response-entries}
use open_weights.SignedUrl.{
  Crates, UrlSigner, Outcome, ok, err, panicked, VerifyErr, expiry, mint_v1, mint_v1_multi_range,
  verify,
}
use open_weights.SignedUrl.Laws.{Laws, IsGateway}
use open_weights.SignedUrl.Accepts.{accepted, verify-mint_v1}

-- A minter that panics gives no URL.
abbrev minted_or_empty : Outcome VerifyErr Str → Str
minted_or_empty (ok url) = url
minted_or_empty (err e) = []
minted_or_empty panicked = []

unfoldable pub url_minter : {Key Url : Type 0} → Crates Key Url → UrlSigner Key Url → UrlMinter
url_minter c signer = record {
  mint_v1 = mint_v1 c signer;
  mint_v1_multi_range =
      λ h segments kid now. minted_or_empty (mint_v1_multi_range c signer h segments kid now);
}

IsCanonical-All : (rs : List ByteRange) → IsCanonical rs → All (λ r. r.start ≤ r.end_inclusive) rs
IsCanonical-All [] h = tt
IsCanonical-All (r ∷ rs) (ordered, gap, rest) = (ordered, IsCanonical-All rs rest)

All-both :
    {A : Type 0} (P Q : A → Type 0) (xs : List A) → All P xs → All Q xs → All (λ x. P x × Q x) xs
All-both P Q [] p q = tt
All-both P Q (x ∷ xs) p q = ((p.0, q.0), All-both P Q xs p.1 q.1)

module _ {Key Url : Type 0} (c : Crates Key Url) (l : Laws c) where
  -- The URL of the entry is accepted, and grants the bytes that the entry names and no others.
  abbrev pub Grants : UrlSigner Key Url → Hash → Uuid → ℕ → ℕ → FetchInfoEntry → Type 0
  Grants signer h kid minted now e =
      verify c signer e.url now
      ≡ accepted c l h (expiry minted signer.default_ttl_secs)
          ((e.url_range.start, e.url_range.end_inclusive) ∷ []) kid false

  to_entry-Grants :
      (signer : UrlSigner Key Url) (h : Hash) (kid : Uuid) (minted now : ℕ) (spans : List TermSpan)
      → IsGateway c signer.gateway_base
      → kid < 2 ^ 128
      → now < expiry minted signer.default_ttl_secs
      → (r : ByteRange) → (r.start ≤ r.end_inclusive) × (r.end_inclusive + 1 < u64_mod)
      → Grants signer h kid minted now (to_entry c.hex (url_minter c signer) kid minted h spans r)
  unfolding to_entry url_minter
  to_entry-Grants signer h kid minted now spans base known early r (ordered, small) =
      verify-mint_v1 c l signer h (some (r.start, r.end_inclusive)) kid minted now base known
        (ordered, omega arith) early

  -- With a signer whose base has no query, a key id of 128 bits, hashes of 32 bytes, and byte spans that
  -- are not empty and do not pass `u64`: for each term of the row, the response has fetches under its
  -- xorb, and the URL of each is accepted until it expires and grants the bytes of its entry.
  pub build_response-Grants :
      (signer : UrlSigner Key Url) (row : ReconstructionRow) (t : Term) (kid : Uuid)
      (minted now : ℕ)
      → IsGateway c signer.gateway_base
      → kid < 2 ^ 128
      → now < expiry minted signer.default_ttl_secs
      → All (λ u. (u.xorb_byte_start < u.xorb_byte_end) × (u.xorb_byte_end < u64_mod)) row.terms
      → All (λ u. u.xorb_hash < 256 ^ 32) row.terms
      → In t row.terms
      → (es : List FetchInfoEntry) × (get
            (c.hex t.xorb_hash)
            (build_response c.hex (url_minter c signer) kid minted row).fetch_info
          ≡ some es)
        × All (Grants signer t.xorb_hash kid minted now) es
  build_response-Grants signer row t kid minted now base known early bounds hashes i =
      let h = t.xorb_hash in
      let ts = row.terms in
      let ends =
        All-mono _ (λ u. (0 < u.xorb_byte_end) × (u.xorb_byte_end < u64_mod)) ts
          (λ u b. (omega (arith, b.0), b.1)) bounds in
      let rs = get_or_default h (coalesce_terms_by_xorb ts) in
      (
        _,
        build_response-entries c.hex (url_minter c signer) kid minted (λ h. h < 256 ^ 32)
            l.hex-injective row t ends hashes i,
        All-map (λ r. (r.start ≤ r.end_inclusive) × (r.end_inclusive + 1 < u64_mod))
            (Grants signer h kid minted now) _ rs
            (to_entry-Grants signer h kid minted now (get_or_default h (span_table [] ts)) base
              known early)
            (All-both (λ r. r.start ≤ r.end_inclusive) (λ r. r.end_inclusive + 1 < u64_mod) rs
              (IsCanonical-All rs (coalesce-IsCanonical h ts bounds)) (coalesce-end h ts ends)),
      )
