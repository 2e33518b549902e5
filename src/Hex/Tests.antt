-- ===== src/Hex/Tests.antt =====
-- Runs of the hex codecs.
use open_weights.Base.{◌≡◌, arith, some, [], ◌∷◌, ◌&&◌, ◌==◌, length, Str}
use open_weights.Hex.{decode_file_id_hex, hex_of}
use open_weights.Hex.RoundTrip.{decode_file_id_hex-hex_of}
use open_weights.Hex.Valid.{decode_file_id_hex-accepts, is_some, all_hex}

abbrev short : Str
short = b'a' ∷ b'b' ∷ []

decode_file_id_hex-hex_of_example : decode_file_id_hex (hex_of 48879) ≡ some 48879
decode_file_id_hex-hex_of_example = decode_file_id_hex-hex_of 48879 (omega arith)

decode_file_id_hex-accepts_example :
    is_some (decode_file_id_hex short) ≡ (length short == 64 && all_hex short)
decode_file_id_hex-accepts_example = decode_file_id_hex-accepts short
