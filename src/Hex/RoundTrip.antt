-- ===== src/Hex/RoundTrip.antt =====
use open_weights.Base.{
  ℕ, zero, suc, ◌*◌, ◌/◌, ◌%◌, ◌^◌, ◌<◌, ◌≡◌, refl, sym, ◌∙◌, ap, some, [], ◌∷◌, ◌++◌, arith, Str,
  length, length-append,
}
use mathlib.Core.List.{append_assoc, append-nil}
use native.Mathlib.Nat.{pow-suc}
use open_weights.Hex.{to_digit, decode_pairs, decode_file_id_hex, hex_digit, hex_bytes, hex_of}

to_digit-hex_digit : (d : ℕ) → d < 16 → to_digit (hex_digit d) ≡ some d
unfolding to_digit hex_digit
to_digit-hex_digit d h = ground arith

decode_pairs-hex_bytes :
    (n h : ℕ) (rest : Str)
    → h < 256 ^ n
    → decode_pairs (hex_bytes n h ++ rest) 0 ≡ decode_pairs rest h
unfolding hex_bytes decode_pairs
decode_pairs-hex_bytes zero h rest lt = ap (decode_pairs rest) (omega arith)
decode_pairs-hex_bytes (suc n) h rest lt =
    let small : h / 256 < 256 ^ n = omega (arith, pow-suc 256 n) in
    rw
      (append_assoc (hex_bytes n (h / 256)) (hex_digit (h % 256 / 16) ∷ hex_digit (h % 16) ∷ [])
        rest)
      (decode_pairs-hex_bytes n (h / 256) (hex_digit (h % 256 / 16) ∷ hex_digit (h % 16) ∷ rest)
          small
        ∙ rw
            (
              to_digit-hex_digit (h % 256 / 16) (omega arith),
              to_digit-hex_digit (h % 16) (omega arith),
              decode_pairs,
            )
            (ap (decode_pairs rest) (omega arith)))

pub length-hex_bytes : (n h : ℕ) → length (hex_bytes n h) ≡ 2 * n
unfolding hex_bytes
length-hex_bytes zero h = refl
length-hex_bytes (suc n) h = omega (
  arith,
  length-append (hex_bytes n (h / 256)) (hex_digit (h % 256 / 16) ∷ hex_digit (h % 16) ∷ []),
  length-hex_bytes n (h / 256),
)

decode_full : (s : Str) → length s ≡ 64 → decode_file_id_hex s ≡ decode_pairs s 0
unfolding decode_file_id_hex
decode_full s e = ground arith

-- Each 32-byte value is read back from its hex form.
pub decode_file_id_hex-hex_of : (h : ℕ) → h < 256 ^ 32 → decode_file_id_hex (hex_of h) ≡ some h
unfolding hex_of decode_pairs
decode_file_id_hex-hex_of h lt =
    decode_full (hex_bytes 32 h) (length-hex_bytes 32 h)
    ∙ ap (λ s. decode_pairs s 0) (sym (append-nil (hex_bytes 32 h)))
    ∙ decode_pairs-hex_bytes 32 h [] lt
