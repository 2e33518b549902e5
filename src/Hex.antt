-- ===== src/Hex.antt =====
-- The hex codecs of the core crate: `decode_file_id_hex` of handlers/reconstruction.rs, and
-- `decode_hex32` and `hex_of` of shard_parse.rs (cas/crates/openweights-cas-core/src). A string is
-- the list of its bytes, and 32 bytes are one big-endian number.
pub mod RoundTrip
pub mod Valid
mod Tests
use Prim.Native.Nat.{bit_or}
use open_weights.Base.{
  ℕ, zero, suc, ◌+◌, ◌-◌, ◌*◌, ◌/◌, ◌%◌, Option, none, some, List, [], ◌∷◌, ◌++◌, leb, ltb, ◌==◌,
  ◌&&◌, if◌then◌else◌, Str, length,
}

-- `char::to_digit(16)`, which takes upper case too.
unfoldable pub to_digit : ℕ → Option ℕ
to_digit c =
    if leb b'0' c && leb c b'9'
    then some (c - b'0')
    else if leb b'a' c && leb c b'f'
    then some (c - b'a' + 10)
    else if leb b'A' c && leb c b'F'
    then some (c - b'A' + 10)
    else none

-- The loop of `decode_file_id_hex`; `acc` holds the bytes of `out` that are written.
unfoldable pub decode_pairs : Str → ℕ → Option ℕ
decode_pairs [] acc = some acc
decode_pairs (c ∷ []) acc = some acc
decode_pairs (c ∷ d ∷ rest) acc = elim (to_digit c) [
  | none ↦ none
  | some hi ↦ elim (to_digit d) [
    | none ↦ none
    | some lo ↦ decode_pairs rest (acc * 256 + (hi * 16 + lo))
  ]
]

unfoldable pub decode_file_id_hex : Str → Option ℕ
unfolding decode_pairs to_digit
decode_file_id_hex s = if length s == 64 then decode_pairs s 0 else none

-- The loop of `decode_hex32`, which joins the digits by `(hi << 4) | lo`.
unfoldable pub decode_pairs32 : Str → ℕ → Option ℕ
decode_pairs32 [] acc = some acc
decode_pairs32 (c ∷ []) acc = some acc
decode_pairs32 (c ∷ d ∷ rest) acc = elim (to_digit c) [
  | none ↦ none
  | some hi ↦ elim (to_digit d) [
    | none ↦ none
    | some lo ↦ decode_pairs32 rest (acc * 256 + bit_or (hi * 16) lo)
  ]
]

unfoldable pub decode_hex32 : Str → Option ℕ
unfolding decode_pairs32 to_digit
decode_hex32 s = if length s == 64 then decode_pairs32 s 0 else none

-- A digit of `{:02x}`.
unfoldable pub hex_digit : ℕ → ℕ
hex_digit d = if ltb d 10 then b'0' + d else b'a' + (d - 10)

-- The loop of `hex_of` over the last `n` bytes of `h`.
unfoldable pub hex_bytes : ℕ → ℕ → Str
hex_bytes zero h = []
hex_bytes (suc n) h = hex_bytes n (h / 256) ++ hex_digit (h % 256 / 16) ∷ hex_digit (h % 16) ∷ []

unfoldable pub hex_of : ℕ → Str
unfolding hex_bytes hex_digit
hex_of h = hex_bytes 32 h
