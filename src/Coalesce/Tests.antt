-- ===== src/Coalesce/Tests.antt =====
-- Runs of the coalescer, and concrete instances of its theorems.
use open_weights.Base.{ℕ, ◌≡◌, ◌-◌, ◌^◌, refl, arith, List, [], ◌∷◌}
use open_weights.Coalesce.{Hash, Term, coalesce_terms_by_xorb}
use open_weights.Coalesce.Group.{get_or_default, IsAscending, AllNonempty}
use open_weights.Coalesce.Cover.{coalesce-covers, in_ranges, needed}
use open_weights.Coalesce.Canonical.{
  coalesce-IsCanonical, coalesce-IsAscending, coalesce_zero_spans, IsCanonical,
}

abbrev term : Hash → ℕ → ℕ → Term
term h byte_start byte_end = record {
  xorb_hash = h;
  xorb_start = 0;
  xorb_end = 1;
  xorb_byte_start = byte_start;
  xorb_byte_end = byte_end;
  unpacked_start = 0;
  unpacked_end = 64;
}

-- Xorb 7 has two ranges that touch and one apart, out of order; xorb 9 has one.
abbrev terms : List Term
terms = term 7 10 20 ∷ term 9 5 8 ∷ term 7 40 50 ∷ term 7 0 10 ∷ []

abbrev external : List Term
external = term 7 0 0 ∷ term 7 0 0 ∷ []

coalesce_terms :
    coalesce_terms_by_xorb terms
    ≡ (7, record { start = 0; end_inclusive = 19 } ∷ record { start = 40; end_inclusive = 49 } ∷ [])
      ∷ (9, record { start = 5; end_inclusive = 7 } ∷ [])
      ∷ []
unfolding coalesce_terms_by_xorb
coalesce_terms = refl

coalesce-covers_example :
    in_ranges 15 (get_or_default 7 (coalesce_terms_by_xorb terms)) ≡ needed 7 15 terms
coalesce-covers_example = coalesce-covers 7 15 terms (ground arith)

coalesce-IsCanonical_example : IsCanonical (get_or_default 7 (coalesce_terms_by_xorb terms))
coalesce-IsCanonical_example = coalesce-IsCanonical 7 terms (ground arith)

coalesce-IsAscending_example :
    IsAscending (coalesce_terms_by_xorb terms) × AllNonempty (coalesce_terms_by_xorb terms)
coalesce-IsAscending_example = coalesce-IsAscending terms

coalesce_zero_spans_example :
    get_or_default 7 (coalesce_terms_by_xorb external)
    ≡ record { start = 0; end_inclusive = 2 ^ 64 - 1 } ∷ []
coalesce_zero_spans_example = coalesce_zero_spans 7 1 external refl
