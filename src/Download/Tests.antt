-- ===== src/Download/Tests.antt =====
-- A download of file 5 of the small database finds its one pinned term.
use open_weights.Base.{◌≡◌, refl, true, some, [], ◌∷◌, All}
use open_weights.Reconstruction.{ReconstructionRow}
use open_weights.Store.{ok}
use open_weights.Store.Files.{get_reconstruction, is_served}
use open_weights.Store.Tests.{small_world, small_db}
use open_weights.Download.Pinned.{get_reconstruction-Served}
use open_weights.Download.Request.{reconstruction_range_start}

abbrev one_term : ReconstructionRow
one_term = record {
  file = record { file_id = 5; total_size = 20 };
  terms =
      record {
        xorb_hash = 7;
        xorb_start = 0;
        xorb_end = 1;
        xorb_byte_start = 0;
        xorb_byte_end = 18;
        unpacked_start = 0;
        unpacked_end = 10;
      }
      ∷ [];
}

found : (get_reconstruction 5 (small_world [])).0 ≡ ok (some one_term)
unfolding get_reconstruction
found = refl

range_start :
    reconstruction_range_start
      (some (b'b' ∷ b'y' ∷ b't' ∷ b'e' ∷ b's' ∷ b'=' ∷ b'4' ∷ b'2' ∷ b'-' ∷ b'9' ∷ b'9' ∷ []))
    ≡ some 42
unfolding reconstruction_range_start
range_start = refl

get_reconstruction-Served_example :
    (one_term.file.file_id ≡ 5)
    × All (λ t. is_served small_db.xorbs t.xorb_hash ≡ true) one_term.terms
get_reconstruction-Served_example = get_reconstruction-Served 5 (small_world []) one_term found
