-- ===== src/Hex/Valid.antt =====
-- What the two decoders accept, and that they agree.
use Prim.Native.Nat.{bit_or}
use open_weights.Base.{
  ℕ, zero, suc, ◌+◌, ◌*◌, ◌≤◌, ◌<◌, ◌≡◌, refl, Bool, true, false, ◌&&◌, ◌||◌, Option, none, some,
  [], ◌∷◌, leb, ◌==◌, ==_iff, arith, Str, length, Bool-cases, Option-cases, inl, inr,
}
use open_weights.Hex.{to_digit, decode_pairs, decode_file_id_hex, decode_pairs32, decode_hex32}

-- `0-9`, `a-f` or `A-F`
abbrev pub is_hex : ℕ → Bool
is_hex c = (leb b'0' c && leb c b'9') || (leb b'a' c && leb c b'f') || (leb b'A' c && leb c b'F')

abbrev pub all_hex : Str → Bool
all_hex [] = true
all_hex (c ∷ cs) = is_hex c && all_hex cs

abbrev pub is_some {ℓ} : {A : Type ℓ} → Option A → Bool
is_some none = false
is_some (some a) = true

is_some-to_digit : (c : ℕ) → is_some (to_digit c) ≡ is_hex c
unfolding to_digit
is_some-to_digit c = ground arith

to_digit-lt : (c : ℕ) {d : ℕ} → to_digit c ≡ some d → d < 16
unfolding to_digit
to_digit-lt c e = ground arith

is_some-decode_pairs :
    (n : ℕ) (s : Str) (acc : ℕ) → length s ≡ 2 * n → is_some (decode_pairs s acc) ≡ all_hex s
unfolding decode_pairs
is_some-decode_pairs n [] acc e = refl
is_some-decode_pairs n (c ∷ []) acc e = absurd (omega arith)
is_some-decode_pairs zero (c ∷ d ∷ rest) acc e = absurd (omega arith)
is_some-decode_pairs (suc n) (c ∷ d ∷ rest) acc e =
    rw (← is_some-to_digit c, ← is_some-to_digit d)
      (elim (Option-cases (to_digit c)) [
        | inl bad ↦ rw (bad, decode_pairs)
        | inr (hi, e₁) ↦ elim (Option-cases (to_digit d)) [
          | inl bad ↦ rw (e₁, bad, decode_pairs)
          | inr (lo, e₂) ↦
              rw (e₁, e₂, decode_pairs)
                (is_some-decode_pairs n rest (acc * 256 + (hi * 16 + lo)) (omega arith))
        ]
      ])

-- A file id is accepted exactly when it has 64 characters, each of them a hex digit.
pub decode_file_id_hex-accepts :
    (s : Str) → is_some (decode_file_id_hex s) ≡ (length s == 64 && all_hex s)
unfolding decode_file_id_hex
decode_file_id_hex-accepts s = elim (Bool-cases (length s == 64)) [
  | inl full ↦ rw full (is_some-decode_pairs 32 s 0 ((==_iff (length s) 64).0 full))
  | inr other ↦ rw other
]

-- All pairs of digits, by evaluation.
row_agrees : ℕ → ℕ → Bool
row_agrees hi zero = true
row_agrees hi (suc lo) = (bit_or (hi * 16) lo == hi * 16 + lo) && row_agrees hi lo

table_agrees : ℕ → Bool
unfolding row_agrees
table_agrees zero = true
table_agrees (suc hi) = row_agrees hi 16 && table_agrees hi

row_sound : (hi n lo : ℕ) → row_agrees hi n ≡ true → lo < n → bit_or (hi * 16) lo ≡ hi * 16 + lo
unfolding row_agrees
row_sound hi zero lo e h = absurd (omega arith)
row_sound hi (suc n) lo e h = ground (arith, row_sound hi n lo)

table_sound :
    (n hi lo : ℕ) → table_agrees n ≡ true → hi < n → lo < 16 → bit_or (hi * 16) lo ≡ hi * 16 + lo
unfolding table_agrees
table_sound zero hi lo e h h' = absurd (omega arith)
table_sound (suc n) hi lo e h h' = ground (arith, table_sound n hi lo, row_sound n 16 lo)

table_agrees_16 : table_agrees 16 ≡ true
unfolding table_agrees
table_agrees_16 = refl

decode_pairs32-eq :
    (n : ℕ) (s : Str) (acc : ℕ) → length s ≤ n → decode_pairs32 s acc ≡ decode_pairs s acc
unfolding decode_pairs decode_pairs32
decode_pairs32-eq n [] acc h = refl
decode_pairs32-eq n (c ∷ []) acc h = refl
decode_pairs32-eq zero (c ∷ d ∷ rest) acc h = absurd (omega arith)
decode_pairs32-eq (suc n) (c ∷ d ∷ rest) acc h = elim (Option-cases (to_digit c)) [
  | inl bad ↦ rw (bad, decode_pairs, decode_pairs32)
  | inr (hi, e) ↦ elim (Option-cases (to_digit d)) [
    | inl bad ↦ rw (e, bad, decode_pairs, decode_pairs32)
    | inr (lo, e') ↦
        rw
          (
            e,
            e',
            decode_pairs,
            decode_pairs32,
            table_sound 16 hi lo table_agrees_16 (to_digit-lt c e) (to_digit-lt d e'),
          )
          (decode_pairs32-eq n rest (acc * 256 + (hi * 16 + lo)) (omega arith))
  ]
]

-- The decoder of the shard parser, which joins digits by shift and or, is the one of the handlers.
decode_hex32-eq : (s : Str) → decode_hex32 s ≡ decode_file_id_hex s
unfolding decode_hex32 decode_file_id_hex
decode_hex32-eq s = rw (decode_pairs32-eq (length s) s 0 (omega arith))
