-- ===== src/Coalesce/Cover.antt =====
-- The bytes that the ranges of `coalesce_terms_by_xorb` cover.
use open_weights.Base.{
  ℕ, ◌≤◌, ◌<◌, ◌≡◌, refl, ◌∙◌, Bool, false, ◌&&◌, ◌||◌, List, [], ◌∷◌, map, arith, ltb, leb, ◌==◌,
  All, max, ap,
}
use open_weights.Coalesce.{
  Hash, Term, Span, ByteRange, Groups, u64_mod, insert_span, sort_spans, merge_from, merge_spans,
  to_byte_range, coalesce_group, group_from, coalesce_terms_by_xorb,
}
use open_weights.Coalesce.Group.{get_or_default, spans_of, get_or_default-group_from}

-- `s..e`, END-EXCLUSIVE
abbrev pub in_span : ℕ → Span → Bool
in_span i x = leb x.0 i && ltb i x.1

-- `s..=e`, END-INCLUSIVE
abbrev pub in_range : ℕ → ByteRange → Bool
in_range i r = leb r.start i && leb i r.end_inclusive

abbrev pub in_spans : ℕ → List Span → Bool
in_spans i [] = false
in_spans i (x ∷ xs) = in_span i x || in_spans i xs

abbrev pub in_ranges : ℕ → List ByteRange → Bool
in_ranges i [] = false
in_ranges i (r ∷ rs) = in_range i r || in_ranges i rs

-- Some term of xorb `h` needs byte `i` of it.
abbrev pub needed : Hash → ℕ → List Term → Bool
needed h i [] = false
needed h i (t ∷ ts) =
    (h == t.xorb_hash && leb t.xorb_byte_start i && ltb i t.xorb_byte_end) || needed h i ts

-- The starts do not fall.
abbrev pub IsSorted : List Span → Type 0
IsSorted [] = Unit
IsSorted (x ∷ []) = Unit
IsSorted (x ∷ y ∷ ys) = (x.0 ≤ y.0) × IsSorted (y ∷ ys)

-- Every span ends after byte 0 and within `u64`.
abbrev pub EndsInRange : List Span → Type 0
EndsInRange = All λ x. (0 < x.1) × (x.1 < u64_mod)

insert_span-IsSorted : (x : Span) (xs : List Span) → IsSorted xs → IsSorted (insert_span x xs)
unfolding insert_span
insert_span-IsSorted x [] s = tt
insert_span-IsSorted x (y ∷ []) s = ground arith
insert_span-IsSorted x (y ∷ z ∷ zs) s = ground (arith, insert_span-IsSorted x (z ∷ zs) s.1)

pub sort_spans-IsSorted : (xs : List Span) → IsSorted (sort_spans xs)
unfolding sort_spans
sort_spans-IsSorted [] = tt
sort_spans-IsSorted (x ∷ xs) = insert_span-IsSorted x (sort_spans xs) (sort_spans-IsSorted xs)

insert_span-All :
    (P : Span → Type 0) (x : Span) (xs : List Span) → P x → All P xs → All P (insert_span x xs)
unfolding insert_span
insert_span-All P x [] p a = (p, tt)
insert_span-All P x (y ∷ ys) p a = ground (arith, insert_span-All P x ys p a.1)

pub sort_spans-All : (P : Span → Type 0) (xs : List Span) → All P xs → All P (sort_spans xs)
unfolding sort_spans
sort_spans-All P [] a = tt
sort_spans-All P (x ∷ xs) a = insert_span-All P x (sort_spans xs) a.0 (sort_spans-All P xs a.1)

in_spans-insert_span :
    (i : ℕ) (x : Span) (xs : List Span)
    → in_spans i (insert_span x xs) ≡ (in_span i x || in_spans i xs)
unfolding insert_span
in_spans-insert_span i x [] = refl
in_spans-insert_span i x (y ∷ ys) = ground (arith, in_spans-insert_span i x ys)

in_spans-sort_spans : (i : ℕ) (xs : List Span) → in_spans i (sort_spans xs) ≡ in_spans i xs
unfolding sort_spans
in_spans-sort_spans i [] = refl
in_spans-sort_spans i (x ∷ xs) =
    ground (arith, in_spans-insert_span i x (sort_spans xs), in_spans-sort_spans i xs)

-- The next span may be dropped, or taken into the last one.
pub IsSorted-skip :
    (a b s e : ℕ) (rest : List Span) → a ≤ s → IsSorted ((s, e) ∷ rest) → IsSorted ((a, b) ∷ rest)
IsSorted-skip a b s e [] le sorted = tt
IsSorted-skip a b s e (y ∷ ys) le sorted = (omega arith, sorted.1)

pub IsSorted-tail : (x : Span) (rest : List Span) → IsSorted (x ∷ rest) → IsSorted rest
IsSorted-tail x [] sorted = tt
IsSorted-tail x (y ∷ ys) sorted = sorted.1

in_spans-merge_from :
    (i : ℕ) (rest : List Span) (a b : ℕ)
    → IsSorted ((a, b) ∷ rest)
    → in_spans i (merge_from (a, b) rest) ≡ (in_span i (a, b) || in_spans i rest)
unfolding merge_from
in_spans-merge_from i [] a b sorted = refl
in_spans-merge_from i ((s, e) ∷ rest) a b sorted = ground (
  arith,
  in_spans-merge_from i rest a (max b e) (IsSorted-skip a (max b e) s e rest sorted.0 sorted.1),
  in_spans-merge_from i rest s e sorted.1,
)

in_spans-merge_spans :
    (i : ℕ) (xs : List Span) → IsSorted xs → in_spans i (merge_spans xs) ≡ in_spans i xs
unfolding merge_spans
in_spans-merge_spans i [] sorted = refl
in_spans-merge_spans i ((s, e) ∷ xs) sorted = in_spans-merge_from i xs s e sorted

merge_from-EndsInRange :
    (rest : List Span) (a b : ℕ)
    → (0 < b) × (b < u64_mod)
    → EndsInRange rest
    → EndsInRange (merge_from (a, b) rest)
unfolding merge_from
merge_from-EndsInRange [] a b h hs = (h, tt)
merge_from-EndsInRange ((s, e) ∷ rest) a b h hs = ground (
  arith,
  merge_from-EndsInRange rest a (max b e) (omega arith, omega arith) hs.1,
  merge_from-EndsInRange rest s e hs.0 hs.1,
)

pub merge_spans-EndsInRange : (xs : List Span) → EndsInRange xs → EndsInRange (merge_spans xs)
unfolding merge_spans
merge_spans-EndsInRange [] hs = tt
merge_spans-EndsInRange ((s, e) ∷ xs) hs = merge_from-EndsInRange xs s e hs.0 hs.1

-- The conversion keeps the bytes.
pub in_range-to_byte_range :
    (i : ℕ) (x : Span) → 0 < x.1 → x.1 < u64_mod → in_range i (to_byte_range x) ≡ in_span i x
unfolding to_byte_range
in_range-to_byte_range i (s, e) pos lt = ground arith

in_ranges-map :
    (i : ℕ) (xs : List Span) → EndsInRange xs → in_ranges i (map to_byte_range xs) ≡ in_spans i xs
in_ranges-map i [] hs = refl
in_ranges-map i (x ∷ xs) hs = rw (in_range-to_byte_range i x hs.0.0 hs.0.1, in_ranges-map i xs hs.1)

pub get_or_default-map :
    (h : Hash) (m : Groups Span)
    → get_or_default h (map coalesce_group m)
      ≡ map to_byte_range (merge_spans (sort_spans (get_or_default h m)))
unfolding coalesce_group sort_spans merge_spans
get_or_default-map h [] = refl
get_or_default-map h ((k, vs) ∷ m) = ground (arith, get_or_default-map h m)

-- What the map holds for one xorb.
pub get_or_default-coalesce :
    (h : Hash) (ts : List Term)
    → get_or_default h (coalesce_terms_by_xorb ts)
      ≡ map to_byte_range (merge_spans (sort_spans (spans_of h ts)))
unfolding coalesce_terms_by_xorb
get_or_default-coalesce h ts =
    rw (get_or_default-map h (group_from [] ts), get_or_default-group_from h ts [] tt)

in_spans-spans_of : (h : Hash) (i : ℕ) (ts : List Term) → in_spans i (spans_of h ts) ≡ needed h i ts
in_spans-spans_of h i [] = refl
in_spans-spans_of h i (t ∷ ts) = ground (arith, in_spans-spans_of h i ts)

pub spans_of-EndsInRange :
    (h : Hash) (ts : List Term)
    → All (λ t. (0 < t.xorb_byte_end) × (t.xorb_byte_end < u64_mod)) ts
    → EndsInRange (spans_of h ts)
spans_of-EndsInRange h [] hs = tt
spans_of-EndsInRange h (t ∷ ts) hs = ground (arith, spans_of-EndsInRange h ts hs.1)

-- If every term ends after byte 0 of its xorb and within `u64`, the ranges that are served for a
-- xorb cover exactly the bytes that some term of that xorb needs: none is missing, none is added.
pub coalesce-covers :
    (h : Hash) (i : ℕ) (ts : List Term)
    → All (λ t. (0 < t.xorb_byte_end) × (t.xorb_byte_end < u64_mod)) ts
    → in_ranges i (get_or_default h (coalesce_terms_by_xorb ts)) ≡ needed h i ts
coalesce-covers h i ts hs =
    let xs = sort_spans (spans_of h ts) in
    let ends = sort_spans-All _ (spans_of h ts) (spans_of-EndsInRange h ts hs) in
    ap (in_ranges i) (get_or_default-coalesce h ts)
    ∙ in_ranges-map i (merge_spans xs) (merge_spans-EndsInRange xs ends)
    ∙ in_spans-merge_spans i xs (sort_spans-IsSorted (spans_of h ts))
    ∙ in_spans-sort_spans i (spans_of h ts)
    ∙ in_spans-spans_of h i ts
