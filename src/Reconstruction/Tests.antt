-- ===== src/Reconstruction/Tests.antt =====
-- A concrete response of version 1.
use open_weights.Base.{◌≡◌, refl, ap, arith, some, List, [], ◌∷◌, get_or, Any, inl, inr, Str}
use open_weights.Base.Maps.{get, str_ord}
use open_weights.Coalesce.{Hash, Term}
use open_weights.Reconstruction.{UrlMinter, ReconstructionRow, FetchInfoEntry, build_response}
use open_weights.Reconstruction.Serves.{build_response-Serves, Serves}

abbrev pub hex_one : Hash → Str
hex_one h = h ∷ []

pub hex_one-injective : (a b : Hash) → hex_one a ≡ hex_one b → a ≡ b
hex_one-injective a b e = ap (λ s. get_or s 0 0) e

abbrev pub signer : UrlMinter
signer = record {
  mint_v1 = λ xorb range kid now. xorb ∷ kid ∷ now ∷ [];
  mint_v1_multi_range = λ xorb ranges kid now. xorb ∷ kid ∷ now ∷ [];
}

abbrev pub first : Term
first = record {
  xorb_hash = 7;
  xorb_start = 0;
  xorb_end = 2;
  xorb_byte_start = 0;
  xorb_byte_end = 116;
  unpacked_start = 0;
  unpacked_end = 100;
}

abbrev pub second : Term
second = record {
  xorb_hash = 7;
  xorb_start = 2;
  xorb_end = 3;
  xorb_byte_start = 116;
  xorb_byte_end = 164;
  unpacked_start = 100;
  unpacked_end = 140;
}

abbrev pub two_terms : ReconstructionRow
two_terms = record { file = record { file_id = 5; total_size = 140 }; terms = first ∷ second ∷ [] }

build_response-Serves_example :
    (es : List FetchInfoEntry) × (get
        (hex_one 7)
        (build_response hex_one signer 3 1000 two_terms).fetch_info
      ≡ some es)
    × Any (Serves hex_one signer 3 1000 second) es
build_response-Serves_example =
    build_response-Serves hex_one signer 3 1000 hex_one-injective two_terms second (ground arith)
      (inr (inl refl))
