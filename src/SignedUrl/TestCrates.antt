-- ===== src/SignedUrl/TestCrates.antt =====
-- Concrete functions in place of the crates that signed_url.rs uses, which keep their laws.
use mathlib.Core.Option.{some-injective}
use open_weights.Base.{
  ℕ, zero, suc, ◌+◌, ◌-◌, ◌/◌, ◌%◌, ◌^◌, ◌<◌, ◌≡◌, refl, ap, false, Option, none, some, List, [],
  ◌∷◌, ◌++◌, arith, Str, All, All-append, inl, inr, ltb, Bool-cases,
}
use open_weights.Base.Maps.{str_eq, str_eq_iff}
use open_weights.Hex.{hex_bytes, hex_digit, hex_of}
use open_weights.Hex.RoundTrip.{length-hex_bytes, decode_file_id_hex-hex_of}
use open_weights.SignedUrl.{Crates}
use open_weights.SignedUrl.Laws.{Laws, IsLowerHex}

-- A text and its end.
frame : Str → Str
frame [] = 0 ∷ []
frame (b ∷ s) = suc b ∷ frame s

frames : List (Str × Str) → Str
frames [] = []
frames ((k, v) ∷ q) = frame k ++ (frame v ++ frames q)

unframe : Str → Str × List Str
unframe [] = ([], [])
unframe (zero ∷ s) = let (first, rest) = unframe s in ([], first ∷ rest)
unframe (suc b ∷ s) = let (first, rest) = unframe s in (b ∷ first, rest)

pairs : List Str → List (Str × Str)
pairs [] = []
pairs (k ∷ []) = []
pairs (k ∷ v ∷ more) = (k, v) ∷ pairs more

unframe-frame : (s t : Str) → unframe (frame s ++ t) ≡ (s, (unframe t).0 ∷ (unframe t).1)
unfolding unframe frame
unframe-frame [] t = refl
unframe-frame (b ∷ s) t = rw (unframe-frame s t)

pairs-frames : (q : List (Str × Str)) → pairs ((unframe (frames q)).0 ∷ (unframe (frames q)).1) ≡ q
unfolding pairs frames
pairs-frames [] = unfold unframe in refl
pairs-frames ((k, v) ∷ q) =
    rw (unframe-frame k (frame v ++ frames q), unframe-frame v (frames q), pairs-frames q)

parse_frames :
    (p : Str) (q : List (Str × Str))
    → ◌≡◌ {A = Option (Str × List (Str × Str))}
        (some ((unframe (frame p ++ frames q)).0, pairs (unframe (frame p ++ frames q)).1))
        (some (p, q))
parse_frames p q = rw (unframe-frame p (frames q), pairs-frames q)

-- A URL is its path and its query.
abbrev pub TestUrl : Type 0
TestUrl = Str × List (Str × Str)

abbrev test_parse_uuid : Str → Option ℕ
test_parse_uuid [] = none
test_parse_uuid (b ∷ s) = some (b - 11)

abbrev first_byte : Str → Option ℕ
first_byte [] = none
first_byte (b ∷ s) = some b

unfoldable pub crates : Crates ℕ TestUrl
unfolding frame frames unframe pairs hex_of
crates = record {
  hex = hex_of;
  hmac = λ key s. key ∷ s;
  new_from_slice = first_byte;
  b64_url_encode = λ s. s;
  b64_url_decode = λ s. some s;
  b64_std_decode = λ s. some s;
  slices_ct_eq = str_eq;
  uuid_to_string = λ k. (k + 11) ∷ [];
  parse_uuid = test_parse_uuid;
  parse_url = λ s. some ((unframe s).0, pairs ((unframe s).1));
  url_to_string = λ (p, q). frame p ++ frames q;
  cannot_be_a_base = λ _. false;
  path = λ (p, q). p;
  set_path = λ p (_, q). (p, q);
  query_pairs = λ (p, q). q;
  append_pair = λ k v (p, q). (p, q ++ (k, v) ∷ []);
}

hex_digit-IsLowerHex : (d : ℕ) → d < 16 → IsLowerHex (hex_digit d)
unfolding hex_digit
hex_digit-IsLowerHex d h = elim (Bool-cases (ltb d 10)) [
  | inl small ↦ rw small (inl (omega arith, ground arith))
  | inr large ↦ rw large (inr (omega arith, ground arith))
]

hex_bytes-IsLowerHex : (n h : ℕ) → All IsLowerHex (hex_bytes n h)
unfolding hex_bytes
hex_bytes-IsLowerHex zero h = tt
hex_bytes-IsLowerHex (suc n) h =
    All-append IsLowerHex (hex_bytes n (h / 256)) _ (hex_bytes-IsLowerHex n (h / 256)) (
      hex_digit-IsLowerHex (h % 256 / 16) (omega arith),
      (hex_digit-IsLowerHex (h % 16) (omega arith), tt),
    )

hex_of-injective : (a b : ℕ) → a < 256 ^ 32 → b < 256 ^ 32 → hex_of a ≡ hex_of b → a ≡ b
hex_of-injective a b ha hb e =
    some-injective a b (cc (decode_file_id_hex-hex_of a ha, decode_file_id_hex-hex_of b hb, e))

pub crates-Laws : Laws crates
unfolding crates hex_of
crates-Laws = record {
  hex-injective = hex_of-injective;
  length-hex = λ h. length-hex_bytes 32 h;
  hex-IsLowerHex = λ h. hex_bytes-IsLowerHex 32 h;
  decode_encode = λ bytes. refl;
  slices_ct_eq_iff = λ a b _. str_eq_iff a b;
  uuid_to_string-Without = λ k. ((λ e. absurd (omega arith)), tt);
  parse_print_uuid = λ k _. ap some (omega arith);
  parse_print_url = λ u. parse_frames u.0 u.1;
  path-set_path = λ p u _ _. refl;
  query_pairs-set_path = λ p u. refl;
  path-append_pair = λ k v u. refl;
  query_pairs-append_pair = λ k v u. refl;
}
