-- ===== src/Coalesce/Canonical.antt =====
-- The form of the ranges of `coalesce_terms_by_xorb`: minimal, in order, one group for each xorb.
use open_weights.Base.{
  ℕ, zero, suc, ◌+◌, ◌-◌, ◌≤◌, ◌<◌, ◌≡◌, refl, List, [], ◌∷◌, map, arith, All, max, replicate,
  length, length-map, ◌^◌,
}
use open_weights.Coalesce.{
  Hash, Term, Span, ByteRange, Groups, u64_mod, insert_span, sort_spans, merge_from, merge_spans,
  to_byte_range, coalesce_group, group_from, coalesce_terms_by_xorb,
}
use open_weights.Coalesce.Group.{
  get_or_default, spans_of, IsAscending, Above, AllNonempty, group_from-IsAscending,
  group_from-AllNonempty,
}
use open_weights.Coalesce.Cover.{
  IsSorted, IsSorted-skip, sort_spans-IsSorted, sort_spans-All, get_or_default-coalesce,
}

-- A byte is left out before the next span.
abbrev Gap : ℕ → List Span → Type 0
Gap b [] = Unit
Gap b (x ∷ xs) = b < x.0

-- Nonempty spans with a byte between each two.
abbrev Separated : List Span → Type 0
Separated [] = Unit
Separated (x ∷ xs) = (x.0 < x.1) × (x.1 < u64_mod) × Gap x.1 xs × Separated xs

-- The next range starts after a byte that is left out.
abbrev GapAfter : ByteRange → List ByteRange → Type 0
GapAfter r [] = Unit
GapAfter r (q ∷ rs) = r.end_inclusive + 1 < q.start

-- Nonempty ranges in ascending order, no two of which overlap or touch.
abbrev pub IsCanonical : List ByteRange → Type 0
IsCanonical [] = Unit
IsCanonical (r ∷ rs) = (r.start ≤ r.end_inclusive) × GapAfter r rs × IsCanonical rs

abbrev NonemptyInRange : List Span → Type 0
NonemptyInRange = All λ x. (x.0 < x.1) × (x.1 < u64_mod)

Gap-merge_from : (c : ℕ) (rest : List Span) (a b : ℕ) → c < a → Gap c (merge_from (a, b) rest)
unfolding merge_from
Gap-merge_from c [] a b h = h
Gap-merge_from c ((s, e) ∷ rest) a b h = ground (arith, Gap-merge_from c rest a (max b e) h)

merge_from-Separated :
    (rest : List Span) (a b : ℕ)
    → (a < b) × (b < u64_mod)
    → NonemptyInRange rest
    → IsSorted ((a, b) ∷ rest)
    → Separated (merge_from (a, b) rest)
unfolding merge_from
merge_from-Separated [] a b h hs sorted = (h.0, h.1, tt, tt)
merge_from-Separated ((s, e) ∷ rest) a b h hs sorted = ground (
  arith,
  merge_from-Separated rest a (max b e) (omega arith, omega arith) hs.1
      (IsSorted-skip a (max b e) s e rest sorted.0 sorted.1),
  merge_from-Separated rest s e hs.0 hs.1 sorted.1,
  Gap-merge_from b rest s e,
)

merge_spans-Separated :
    (xs : List Span) → NonemptyInRange xs → IsSorted xs → Separated (merge_spans xs)
unfolding merge_spans
merge_spans-Separated [] hs sorted = tt
merge_spans-Separated ((s, e) ∷ xs) hs sorted = merge_from-Separated xs s e hs.0 hs.1 sorted

map-IsCanonical : (xs : List Span) → Separated xs → IsCanonical (map to_byte_range xs)
unfolding to_byte_range
map-IsCanonical [] h = tt
map-IsCanonical (x ∷ []) h = (omega arith, tt, tt)
map-IsCanonical (x ∷ y ∷ xs) h = (omega arith, omega arith, map-IsCanonical (y ∷ xs) h.3)

spans_of-NonemptyInRange :
    (h : Hash) (ts : List Term)
    → All (λ t. (t.xorb_byte_start < t.xorb_byte_end) × (t.xorb_byte_end < u64_mod)) ts
    → NonemptyInRange (spans_of h ts)
spans_of-NonemptyInRange h [] hs = tt
spans_of-NonemptyInRange h (t ∷ ts) hs = ground (arith, spans_of-NonemptyInRange h ts hs.1)

-- If no term's byte span is empty or passes `u64`, the ranges of each xorb are nonempty, ascend, and
-- leave at least one byte out between each two: no two of them could be one range.
pub coalesce-IsCanonical :
    (h : Hash) (ts : List Term)
    → All (λ t. (t.xorb_byte_start < t.xorb_byte_end) × (t.xorb_byte_end < u64_mod)) ts
    → IsCanonical (get_or_default h (coalesce_terms_by_xorb ts))
coalesce-IsCanonical h ts hs =
    let xs = sort_spans (spans_of h ts) in
    let ne = sort_spans-All _ (spans_of h ts) (spans_of-NonemptyInRange h ts hs) in
    rw (get_or_default-coalesce h ts) (
      map-IsCanonical (merge_spans xs)
        (merge_spans-Separated xs ne (sort_spans-IsSorted (spans_of h ts))))

Above-map : (k : Hash) (m : Groups Span) → Above k m → Above k (map coalesce_group m)
unfolding coalesce_group
Above-map k [] a = tt
Above-map k ((j, vs) ∷ m) a = (a.0, Above-map j m a.1)

map-IsAscending : (m : Groups Span) → IsAscending m → IsAscending (map coalesce_group m)
unfolding coalesce_group
map-IsAscending [] a = tt
map-IsAscending ((k, vs) ∷ m) a = Above-map k m a

length-insert_span : (x : Span) (xs : List Span) → 0 < length (insert_span x xs)
unfolding insert_span
length-insert_span x [] = omega arith
length-insert_span x (y ∷ ys) = ground arith

length-merge_from : (rest : List Span) (a b : ℕ) → 0 < length (merge_from (a, b) rest)
unfolding merge_from
length-merge_from [] a b = omega arith
length-merge_from ((s, e) ∷ rest) a b = ground (arith, length-merge_from rest a (max b e))

length-merge_spans :
    (xs : List Span) → 0 < length xs → 0 < length (map to_byte_range (merge_spans xs))
unfolding merge_spans
length-merge_spans [] h = h
length-merge_spans ((s, e) ∷ xs) h =
    omega (arith, length-map (merge_from (s, e) xs) to_byte_range, length-merge_from xs s e)

length-sort_spans : (xs : List Span) → 0 < length xs → 0 < length (sort_spans xs)
unfolding sort_spans
length-sort_spans [] h = h
length-sort_spans (x ∷ xs) h = length-insert_span x (sort_spans xs)

map-AllNonempty : (m : Groups Span) → AllNonempty m → AllNonempty (map coalesce_group m)
unfolding coalesce_group
map-AllNonempty [] a = tt
map-AllNonempty ((k, vs) ∷ m) a =
    (length-merge_spans (sort_spans vs) (length-sort_spans vs a.0), map-AllNonempty m a.1)

-- The xorbs of the result ascend without repetition, as the keys of a `BTreeMap`, and each has at
-- least one range, which `mint_v1_multi_range` relies on.
pub coalesce-IsAscending :
    (ts : List Term)
    → IsAscending (coalesce_terms_by_xorb ts) × AllNonempty (coalesce_terms_by_xorb ts)
unfolding coalesce_terms_by_xorb
coalesce-IsAscending ts = (
  map-IsAscending (group_from [] ts) (group_from-IsAscending ts [] tt),
  map-AllNonempty (group_from [] ts) (group_from-AllNonempty ts [] tt),
)

merge_from-zeros : (n : ℕ) → merge_from (0, 0) (replicate n (0, 0)) ≡ (0, 0) ∷ []
unfolding merge_from
merge_from-zeros zero = refl
merge_from-zeros (suc n) = merge_from-zeros n

insert_span-zeros : (n : ℕ) → insert_span (0, 0) (replicate n (0, 0)) ≡ (0, 0) ∷ replicate n (0, 0)
unfolding insert_span
insert_span-zeros zero = refl
insert_span-zeros (suc n) = refl

sort_spans-zeros : (n : ℕ) → sort_spans (replicate n (0, 0)) ≡ replicate n (0, 0)
unfolding sort_spans
sort_spans-zeros zero = refl
sort_spans-zeros (suc n) = rw (sort_spans-zeros n) (insert_span-zeros n)

-- If the terms of a xorb all carry the byte span (0, 0), which the shard parser gives to a xorb that
-- the shard does not describe, the end of the range wraps in a release build: the xorb is served
-- under the range from 0 to 2^64 - 1.
pub coalesce_zero_spans :
    (h : Hash) (n : ℕ) (ts : List Term)
    → spans_of h ts ≡ replicate (suc n) (0, 0)
    → get_or_default h (coalesce_terms_by_xorb ts)
      ≡ record { start = 0; end_inclusive = 2 ^ 64 - 1 } ∷ []
unfolding merge_spans to_byte_range
coalesce_zero_spans h n ts e =
    rw (get_or_default-coalesce h ts, e, sort_spans-zeros (suc n), merge_spans, merge_from-zeros n)
