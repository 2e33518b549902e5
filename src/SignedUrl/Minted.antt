-- ===== src/SignedUrl/Minted.antt =====
-- The path and the query of a minted URL, read back.
use open_weights.Base.{
  ℕ, ◌^◌, ◌<◌, ◌≡◌, refl, ap, ◌∙◌, Option, none, some, List, [], ◌∷◌, ◌++◌, arith, All-mono, Str,
  All, inl, inr,
}
use open_weights.Coalesce.{Hash, u64_mod}
use open_weights.Reconstruction.{Uuid}
use open_weights.SignedUrl.{
  Crates, no_params, exp_key, kid_key, sig_key, r_key, path_of, append_grant, append_range,
  read_pairs,
}
use open_weights.SignedUrl.Laws.{Laws, IsGateway, IsPlain, IsLowerHex}
use open_weights.SignedUrl.Text.{to_string}
use open_weights.SignedUrl.Text.Decimal.{parse_u64-to_string}

lower-IsPlain : (b : ℕ) → IsLowerHex b → IsPlain b
lower-IsPlain b (inl digit) = inl digit
lower-IsPlain b (inr letter) = inr (inl (letter.0, omega (arith, letter.1)))

module _ {Key Url : Type 0} (c : Crates Key Url) (l : Laws c) where
  open l use {parse_print_uuid, path-append_pair, query_pairs-append_pair, query_pairs-set_path}

  pub path-grant :
      (exp : ℕ) (kid : Uuid) (sig : Str) (r : Option Str) (u : Url)
      → c.path (append_range c r (append_grant c exp kid sig u)) ≡ c.path u
  unfolding append_range append_grant
  path-grant exp kid sig none u = rw (path-append_pair, path-append_pair, path-append_pair)
  path-grant exp kid sig (some r) u =
      rw (path-append_pair, path-append_pair, path-append_pair, path-append_pair)

  -- the query of a minted URL
  abbrev grant_pairs : ℕ → Uuid → Str → List (Str × Str)
  grant_pairs exp kid sig =
      (exp_key, to_string exp) ∷ (kid_key, c.uuid_to_string kid) ∷ (sig_key, sig) ∷ []

  abbrev range_pairs : Option Str → List (Str × Str)
  range_pairs none = []
  range_pairs (some r) = (r_key, r) ∷ []

  query_pairs-grant :
      (exp : ℕ) (kid : Uuid) (sig : Str) (r : Option Str) (u : Url)
      → c.query_pairs u ≡ []
      → c.query_pairs (append_range c r (append_grant c exp kid sig u))
        ≡ grant_pairs exp kid sig ++ range_pairs r
  unfolding append_range append_grant
  query_pairs-grant exp kid sig none u bare =
      rw (query_pairs-append_pair, query_pairs-append_pair, query_pairs-append_pair, bare)
  query_pairs-grant exp kid sig (some r) u bare = rw (
    query_pairs-append_pair, query_pairs-append_pair, query_pairs-append_pair,
    query_pairs-append_pair, bare,
  )

  read_pairs-grant_pairs :
      (exp : ℕ) (kid : Uuid) (sig : Str) (r : Option Str)
      → exp < u64_mod
      → kid < 2 ^ 128
      → read_pairs c no_params (grant_pairs exp kid sig ++ range_pairs r)
        ≡ record { exp = some exp; kid = some kid; sig = some sig; r_raw = r }
  unfolding read_pairs
  read_pairs-grant_pairs exp kid sig none small known =
      rw (parse_u64-to_string exp small, parse_print_uuid kid known)
  read_pairs-grant_pairs exp kid sig (some r) small known =
      rw (parse_u64-to_string exp small, parse_print_uuid kid known)

  pub read_pairs-grant :
      (exp : ℕ) (kid : Uuid) (sig : Str) (r : Option Str) (p : Str) (u : Url)
      → IsGateway c u
      → exp < u64_mod
      → kid < 2 ^ 128
      → read_pairs c no_params
          (c.query_pairs (append_range c r (append_grant c exp kid sig (c.set_path p u))))
        ≡ record { exp = some exp; kid = some kid; sig = some sig; r_raw = r }
  read_pairs-grant exp kid sig r p u base small known =
      ap (read_pairs c no_params) (
        query_pairs-grant exp kid sig r (c.set_path p u) (query_pairs-set_path p u ∙ base.no_query))
      ∙ read_pairs-grant_pairs exp kid sig r small known

  path_of-IsPlain : (h : Hash) → All IsPlain (b'x' ∷ b'o' ∷ b'r' ∷ b'b' ∷ b'/' ∷ c.hex h)
  path_of-IsPlain h =
      let l_x : IsPlain b'x' = inr (inl (omega arith, omega arith)) in
      let l_o : IsPlain b'o' = inr (inl (omega arith, omega arith)) in
      let l_r : IsPlain b'r' = inr (inl (omega arith, omega arith)) in
      let l_b : IsPlain b'b' = inr (inl (omega arith, omega arith)) in
      let hex = All-mono IsLowerHex IsPlain (c.hex h) lower-IsPlain (l.hex-IsLowerHex h) in
      (l_x, (l_o, (l_r, (l_b, (inr (inr refl), hex)))))

  pub path-path_of :
      (h : Hash) (u : Url)
      → IsGateway c u
      → c.path (c.set_path (path_of (c.hex h)) u) ≡ path_of (c.hex h)
  unfolding path_of
  path-path_of h u base = l.path-set_path _ u base.is_base (path_of-IsPlain h)
