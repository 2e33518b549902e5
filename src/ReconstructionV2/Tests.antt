-- ===== src/ReconstructionV2/Tests.antt =====
-- A concrete response of version 2.
use open_weights.Base.{◌≡◌}
use open_weights.Base.Maps.{get, str_ord}
use open_weights.Reconstruction.{build_response}
use open_weights.Reconstruction.Tests.{hex_one, hex_one-injective, signer, two_terms}
use open_weights.ReconstructionV2.{build_v2_response}
use open_weights.ReconstructionV2.Agrees.{build_v2_response-Agrees, as_fetch_v2}

build_v2_response-Agrees_example :
    ((build_v2_response hex_one signer 3 1000 two_terms).terms
      ≡ (build_response hex_one signer 3 1000 two_terms).terms)
    × (get (hex_one 7) (build_v2_response hex_one signer 3 1000 two_terms).fetch_info
        ≡ as_fetch_v2 hex_one signer 3 1000 7
            (get (hex_one 7) (build_response hex_one signer 3 1000 two_terms).fetch_info))
build_v2_response-Agrees_example =
    build_v2_response-Agrees hex_one signer 3 1000 hex_one-injective two_terms 7
