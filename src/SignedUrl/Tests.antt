-- ===== src/SignedUrl/Tests.antt =====
-- Signed URLs over the concrete crates.
use open_weights.Base.{
  ℕ, ◌<◌, ◌≡◌, refl, false, true, none, some, List, [], ◌∷◌, arith, Str, All, inl, inr,
}
use open_weights.Base.Maps.{get, str_ord}
use open_weights.Reconstruction.{FetchInfoEntry, build_response}
use open_weights.Reconstruction.Tests.{two_terms, second}
use open_weights.SignedUrl.{
  ◌>>=◌, UrlSigner, VerifyOk, expiry, mint_v1, mint_v1_multi_range, verify, canonical_version,
}
use open_weights.SignedUrl.Text.Segments.{Without}
use open_weights.SignedUrl.Laws.{IsGateway}
use open_weights.SignedUrl.Accepts.{
  accepted, verify-mint_v1, verify-mint_v1_multi_range, verify_rotated,
}
use open_weights.SignedUrl.Sound.{IsVouched, verify-IsVouched}
use open_weights.SignedUrl.Canonical.{canonical_string_raw-injective}
use open_weights.SignedUrl.Grants.{Grants, url_minter, build_response-Grants}
use open_weights.SignedUrl.TestCrates.{TestUrl, crates, crates-Laws}

abbrev signer : UrlSigner ℕ TestUrl
signer = record {
  key_current = 1;
  key_prev = none;
  gateway_base = ([], []);
  default_ttl_secs = 7200;
}

-- After a rotation of the key 1.
abbrev rotated : UrlSigner ℕ TestUrl
rotated = record {
  key_current = 2;
  key_prev = some 1;
  gateway_base = ([], []);
  default_ttl_secs = 7200;
}

base : IsGateway crates ([], [])
unfolding crates
base = record { is_base = refl; no_query = refl }

in_time : 1100 < expiry 1000 7200
unfolding expiry
in_time = omega arith

abbrev one_grant : VerifyOk
one_grant = record {
  xorb_hash_hex = crates.hex 7;
  exp = expiry 1000 7200;
  ranges = (0, 115) ∷ [];
  kid = 5;
  accepted_by_prev_key = false;
}

verify-mint_v1_example :
    verify crates signer (mint_v1 crates signer 7 (some (0, 115)) 5 1000) 1100
    ≡ accepted crates crates-Laws 7 (expiry 1000 7200) ((0, 115) ∷ []) 5 false
verify-mint_v1_example =
    verify-mint_v1 crates crates-Laws signer 7 (some (0, 115)) 5 1000 1100 base (omega arith)
      (omega arith, omega arith) in_time

verify-mint_v1_multi_range_example :
    (mint_v1_multi_range crates signer 7 ((0, 115) ∷ (200, 300) ∷ []) 5 1000 >>= λ url.
    verify crates signer url 1100)
    ≡ accepted crates crates-Laws 7 (expiry 1000 7200) ((0, 115) ∷ (200, 300) ∷ []) 5 false
verify-mint_v1_multi_range_example =
    verify-mint_v1_multi_range crates crates-Laws signer 7 (0, 115) ((200, 300) ∷ []) 5 1000 1100
      base (omega arith) ((omega arith, omega arith), ((omega arith, omega arith), tt)) in_time

verify_rotated_example :
    verify crates rotated (mint_v1 crates signer 7 none 5 1000) 1100
    ≡ accepted crates crates-Laws 7 (expiry 1000 7200) [] 5 true
unfolding crates
verify_rotated_example =
    verify_rotated crates crates-Laws signer rotated 7 none 5 1000 1100 base (omega arith) tt
      in_time refl

verify-IsVouched_example :
    IsVouched crates crates-Laws signer (mint_v1 crates signer 7 (some (0, 115)) 5 1000) one_grant
    × (1100 < one_grant.exp)
verify-IsVouched_example =
    verify-IsVouched crates crates-Laws signer (mint_v1 crates signer 7 (some (0, 115)) 5 1000) 1100
      one_grant verify-mint_v1_example

no_lf : Without 10 canonical_version
no_lf = ((λ e. absurd (omega arith)), ((λ e. absurd (omega arith)), tt))

hex_no_lf : Without 10 (b'a' ∷ [])
hex_no_lf = ((λ e. absurd (omega arith)), tt)

canonical_string_raw-injective_example :
    (canonical_version ≡ canonical_version)
    × (◌≡◌ {A = Str} (b'a' ∷ []) (b'a' ∷ []))
    × (◌≡◌ {A = ℕ} 1000 1000)
    × (◌≡◌ {A = Str} [] [])
    × (◌≡◌ {A = ℕ} 5 5)
canonical_string_raw-injective_example =
    canonical_string_raw-injective crates crates-Laws canonical_version canonical_version
      (b'a' ∷ []) (b'a' ∷ []) [] [] 1000 1000 5 5 no_lf no_lf hex_no_lf hex_no_lf tt tt
      (omega arith) (omega arith) (omega arith) (omega arith) refl

build_response-Grants_example :
    (es : List FetchInfoEntry) × (get
        (crates.hex 7)
        (build_response crates.hex (url_minter crates signer) 5 1000 two_terms).fetch_info
      ≡ some es)
    × All (Grants crates crates-Laws signer 7 5 1000 1100) es
build_response-Grants_example =
    build_response-Grants crates crates-Laws signer two_terms second 5 1000 1100 base (omega arith)
      in_time ((omega arith, omega arith), ((omega arith, omega arith), tt))
      (omega arith, (omega arith, tt)) (inr (inl refl))
