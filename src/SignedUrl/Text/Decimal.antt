-- ===== src/SignedUrl/Text/Decimal.antt =====
-- What is printed parses back.
use mathlib.Core.List.{append_assoc, append-nil}
use mathlib.Core.Option.{some-injective}
use open_weights.Base.{
  ℕ, zero, suc, ◌+◌, ◌*◌, ◌/◌, ◌%◌, ◌^◌, ◌≤◌, ◌<◌, ◌≡◌, refl, ap, some, [], ◌∷◌, ◌++◌, arith, Str,
  All, All-append, length, length-append, Bool-cases, inl, inr, ltb,
}
use open_weights.Coalesce.{u64_mod}
use open_weights.Download.Request.{parse_digits, parse_u64}
use open_weights.SignedUrl.Text.{digits, to_string}

abbrev pub IsDigit : ℕ → Type 0
IsDigit c = (b'0' ≤ c) × (c ≤ b'9')

digits-IsDigit : (f n : ℕ) → All IsDigit (digits f n)
unfolding digits
digits-IsDigit zero n = tt
digits-IsDigit (suc f) n = elim (Bool-cases (ltb n 10)) [
  | inl small ↦ rw small (ground arith)
  | inr large ↦ rw large (All-append IsDigit _ _ (digits-IsDigit f (n / 10)) (ground arith, tt))
]

parse_digits_step :
    (d acc : ℕ) (rest : Str)
    → d < 10
    → acc * 10 + d < u64_mod
    → parse_digits ((b'0' + d) ∷ rest) acc ≡ parse_digits rest (acc * 10 + d)
unfolding parse_digits
parse_digits_step d acc rest h small = ground arith

parse_digits-digits :
    (f n : ℕ) (rest : Str)
    → n < 10 ^ f
    → n < u64_mod
    → parse_digits (digits f n ++ rest) 0 ≡ parse_digits rest n
unfolding digits
parse_digits-digits zero n rest h small = let none_left : n ≡ 0 = omega arith in rw none_left
parse_digits-digits (suc f) n rest h small = elim (Bool-cases (ltb n 10)) [
  | inl short ↦
      rw (short, parse_digits_step n 0 rest (ground arith) (omega arith))
        (ap (parse_digits rest) (omega arith))
  | inr long ↦
      let fits : n / 10 < 10 ^ f = omega arith in
      let whole : n / 10 * 10 + n % 10 ≡ n = omega arith in
      rw (
        long,
        append_assoc,
        parse_digits-digits f (n / 10) ((b'0' + n % 10) ∷ rest) fits (omega arith),
        parse_digits_step (n % 10) (n / 10) rest (omega arith) (omega arith),
        whole,
      )
]

length-digits_pos : (f n : ℕ) → 0 < length (digits (suc f) n)
unfolding digits
length-digits_pos f n = elim (Bool-cases (ltb n 10)) [
  | inl short ↦ rw short (omega arith)
  | inr long ↦ rw (long, length-append) (omega arith)
]

parse_u64-parse_digits : (s : Str) → 0 < length s → All IsDigit s → parse_u64 s ≡ parse_digits s 0
unfolding parse_u64
parse_u64-parse_digits [] h a = absurd (omega arith)
parse_u64-parse_digits (c ∷ s) h a = let digit = a.0 in ground arith

parse_digits_end : (n : ℕ) → parse_digits [] n ≡ some n
unfolding parse_digits
parse_digits_end n = refl

pub parse_u64-to_string : (n : ℕ) → n < u64_mod → parse_u64 (to_string n) ≡ some n
unfolding to_string
parse_u64-to_string n small =
    rw
      (
        parse_u64-parse_digits (digits 20 n) (length-digits_pos 19 n) (digits-IsDigit 20 n),
        ← append-nil (digits 20 n),
        parse_digits-digits 20 n [] (omega arith) small,
      )
      (parse_digits_end n)

-- Two numbers of `u64` that print alike are the same.
pub to_string-injective : (a b : ℕ) → a < u64_mod → b < u64_mod → to_string a ≡ to_string b → a ≡ b
to_string-injective a b ha hb e =
    some-injective a b (cc (parse_u64-to_string a ha, parse_u64-to_string b hb, e))

pub to_string-IsDigit : (n : ℕ) → All IsDigit (to_string n)
unfolding to_string
to_string-IsDigit n = digits-IsDigit 20 n
