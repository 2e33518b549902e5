-- ===== src/SignedUrl/Canonical.antt =====
-- The canonical string says what is granted, to whom and until when.
use mathlib.Core.Option.{some-injective}
use open_weights.Base.{ℕ, ◌^◌, ◌<◌, ◌≡◌, ap, ◌∷◌, ◌++◌, arith, Str}
use open_weights.Coalesce.{u64_mod}
use open_weights.Reconstruction.{Uuid}
use open_weights.SignedUrl.{Crates, canonical_string_raw}
use open_weights.SignedUrl.Laws.{Laws}
use open_weights.SignedUrl.Text.{to_string}
use open_weights.SignedUrl.Text.Decimal.{to_string-injective}
use open_weights.SignedUrl.Text.Segments.{Without, split_once-append, digits-Without}

-- A line and what follows it are told by their text.
line_cases :
    (a a' b b' : Str)
    → Without 10 a
    → Without 10 a'
    → a ++ 10 ∷ b ≡ a' ++ 10 ∷ b'
    → (a ≡ a') × (b ≡ b')
line_cases a a' b b' h h' e =
    let both : ◌≡◌ {A = Str × Str} (a, b) (a', b') =
      some-injective (a, b) (a', b')
        (cc (split_once-append 10 a b h, split_once-append 10 a' b' h', e)) in
    (ap (λ p. p.0) both, ap (λ p. p.1) both)

module _ {Key Url : Type 0} (c : Crates Key Url) (l : Laws c) where
  uuid_to_string-injective :
      (a b : Uuid) → a < 2 ^ 128 → b < 2 ^ 128 → c.uuid_to_string a ≡ c.uuid_to_string b → a ≡ b
  uuid_to_string-injective a b ha hb e =
      some-injective a b (cc (l.parse_print_uuid a ha, l.parse_print_uuid b hb, e))

  -- Where no field holds a line feed, expiries are in `u64` and key ids in 128 bits, two grants with one
  -- canonical string agree in version, hash, expiry, range text and key id.
  pub canonical_string_raw-injective :
      (v v' hex hex' r r' : Str) (exp exp' : ℕ) (kid kid' : Uuid)
      → Without 10 v
      → Without 10 v'
      → Without 10 hex
      → Without 10 hex'
      → Without 10 r
      → Without 10 r'
      → exp < u64_mod
      → exp' < u64_mod
      → kid < 2 ^ 128
      → kid' < 2 ^ 128
      → canonical_string_raw c v hex exp r kid ≡ canonical_string_raw c v' hex' exp' r' kid'
      → (v ≡ v') × (hex ≡ hex') × (exp ≡ exp') × (r ≡ r') × (kid ≡ kid')
  unfolding canonical_string_raw
  canonical_string_raw-injective v v' hex hex' r r' exp exp' kid kid' hv hv' hh hh' hr hr' he he' hk
        hk' e =
      let (e₁, rest₁) = line_cases v v' _ _ hv hv' e in
      let (e₂, rest₂) = line_cases hex hex' _ _ hh hh' rest₁ in
      let (e₃, rest₃) =
        line_cases (to_string exp) (to_string exp') _ _ (digits-Without 10 exp (omega arith))
          (digits-Without 10 exp' (omega arith)) rest₂ in
      let (e₄, rest₄) = line_cases r r' _ _ hr hr' rest₃ in
      (
        e₁,
        e₂,
        to_string-injective exp exp' he he' e₃,
        e₄,
        uuid_to_string-injective kid kid' hk hk' rest₄,
      )
