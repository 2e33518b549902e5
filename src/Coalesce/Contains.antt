-- ===== src/Coalesce/Contains.antt =====
-- Each term's bytes lie in one range of `coalesce_terms_by_xorb`.
use open_weights.Base.{
  ℕ, ◌+◌, ◌≤◌, ◌<◌, List, [], ◌∷◌, arith, All, Any, In, Any-map, All-map, max, inl, inr, leb,
  Bool-cases,
}
use open_weights.Coalesce.{
  Hash, Term, Span, ByteRange, u64_mod, insert_span, sort_spans, merge_from, merge_spans,
  to_byte_range, coalesce_terms_by_xorb,
}
use open_weights.Coalesce.Group.{get_or_default, spans_of}
use open_weights.Coalesce.Cover.{
  IsSorted, IsSorted-skip, sort_spans-IsSorted, sort_spans-All, spans_of-EndsInRange,
  merge_spans-EndsInRange, get_or_default-coalesce,
}

abbrev Within : Span → Span → Type 0
Within x y = (y.0 ≤ x.0) × (x.1 ≤ y.1)

-- The END-EXCLUSIVE span `s..e` lies in the END-INCLUSIVE range.
abbrev pub WithinRange : ℕ → ℕ → ByteRange → Type 0
WithinRange s e r = (r.start ≤ s) × (e ≤ r.end_inclusive + 1)

merge_from-last :
    (rest : List Span) (a b : ℕ) (x : Span)
    → Within x (a, b)
    → Any (Within x) (merge_from (a, b) rest)
unfolding merge_from
merge_from-last [] a b x w = inl w
merge_from-last ((s, e) ∷ rest) a b x w = elim (Bool-cases (leb s b)) [
  | inl merges ↦
      rw (merges, merge_from) (merge_from-last rest a (max b e) x (omega arith, omega arith))
  | inr apart ↦ rw (apart, merge_from) (inl w)
]

merge_from-rest :
    (rest : List Span) (a b : ℕ) (x : Span)
    → IsSorted ((a, b) ∷ rest)
    → In x rest
    → Any (Within x) (merge_from (a, b) rest)
unfolding merge_from
merge_from-rest [] a b x sorted i = absurd i
merge_from-rest ((s, e) ∷ rest) a b x sorted i = elim (Bool-cases (leb s b)) [
  | inl merges ↦
      rw (merges, merge_from)
        (elim i [
          | inl eq ↦ merge_from-last rest a (max b e) x (rw eq (omega arith), rw eq (omega arith))
          | inr later ↦
              merge_from-rest rest a (max b e) x
                (IsSorted-skip a (max b e) s e rest sorted.0 sorted.1) later
        ])
  | inr apart ↦
      rw (apart, merge_from)
        (elim i [
          | inl eq ↦ inr (merge_from-last rest s e x (rw eq (omega arith), rw eq (omega arith)))
          | inr later ↦ inr (merge_from-rest rest s e x sorted.1 later)
        ])
]

merge_spans-Within :
    (xs : List Span) (x : Span) → IsSorted xs → In x xs → Any (Within x) (merge_spans xs)
unfolding merge_spans
merge_spans-Within [] x sorted i = absurd i
merge_spans-Within ((s, e) ∷ xs) x sorted (inl eq) =
    merge_from-last xs s e x (rw eq (omega arith), rw eq (omega arith))
merge_spans-Within ((s, e) ∷ xs) x sorted (inr i) = merge_from-rest xs s e x sorted i

In-insert_span : (x y : Span) (ys : List Span) → In x (y ∷ ys) → In x (insert_span y ys)
unfolding insert_span
In-insert_span x y [] i = i
In-insert_span x y (z ∷ zs) i = elim (Bool-cases (leb y.0 z.0)) [
  | inl first ↦ rw (first, insert_span) i
  | inr later ↦
      rw (later, insert_span)
        (elim i [
          | inl eq ↦ inr (In-insert_span x y zs (inl eq))
          | inr (inl eq) ↦ inl eq
          | inr (inr i') ↦ inr (In-insert_span x y zs (inr i'))
        ])
]

In-sort_spans : (x : Span) (xs : List Span) → In x xs → In x (sort_spans xs)
unfolding sort_spans
In-sort_spans x [] i = i
In-sort_spans x (y ∷ ys) (inl eq) = In-insert_span x y (sort_spans ys) (inl eq)
In-sort_spans x (y ∷ ys) (inr i) = In-insert_span x y (sort_spans ys) (inr (In-sort_spans x ys i))

pub In-spans_of :
    (t : Term) (ts : List Term)
    → In t ts
    → In (t.xorb_byte_start, t.xorb_byte_end) (spans_of t.xorb_hash ts)
In-spans_of t [] i = i
In-spans_of t (u ∷ ts) (inl eq) = rw eq (ground arith)
In-spans_of t (u ∷ ts) (inr i) = ground (arith, In-spans_of t ts i)

to_byte_range-WithinRange :
    (x y : Span) → (0 < y.1) × (y.1 < u64_mod) → Within x y → WithinRange x.0 x.1 (to_byte_range y)
unfolding to_byte_range
to_byte_range-WithinRange x y h w = (omega arith, omega arith)

-- If every term ends after byte 0 of its xorb and within `u64`, the bytes of a term lie in one of the
-- ranges that are served for its xorb: no term has to be put together from two fetches.
pub coalesce-contains :
    (t : Term) (ts : List Term)
    → All (λ u. (0 < u.xorb_byte_end) × (u.xorb_byte_end < u64_mod)) ts
    → In t ts
    → Any
        (WithinRange t.xorb_byte_start t.xorb_byte_end)
        (get_or_default t.xorb_hash (coalesce_terms_by_xorb ts))
coalesce-contains t ts hs i =
    let h = t.xorb_hash in
    let x : Span = (t.xorb_byte_start, t.xorb_byte_end) in
    let xs = sort_spans (spans_of h ts) in
    let ends = sort_spans-All _ (spans_of h ts) (spans_of-EndsInRange h ts hs) in
    rw (get_or_default-coalesce h ts) (
      Any-map (λ y. (0 < y.1) × (y.1 < u64_mod)) (Within x) _ to_byte_range (merge_spans xs)
        (to_byte_range-WithinRange x) (merge_spans-EndsInRange xs ends)
        (merge_spans-Within xs x (sort_spans-IsSorted (spans_of h ts))
          (In-sort_spans x (spans_of h ts) (In-spans_of t ts i))))

to_byte_range-end :
    (x : Span) → (0 < x.1) × (x.1 < u64_mod) → (to_byte_range x).end_inclusive + 1 < u64_mod
unfolding to_byte_range
to_byte_range-end x h = omega arith

-- No range reaches the last value of `u64`, so that its end plus one does not wrap.
pub coalesce-end :
    (h : Hash) (ts : List Term)
    → All (λ u. (0 < u.xorb_byte_end) × (u.xorb_byte_end < u64_mod)) ts
    → All (λ r. r.end_inclusive + 1 < u64_mod) (get_or_default h (coalesce_terms_by_xorb ts))
coalesce-end h ts hs =
    let xs = sort_spans (spans_of h ts) in
    let ends = sort_spans-All _ (spans_of h ts) (spans_of-EndsInRange h ts hs) in
    rw (get_or_default-coalesce h ts) (
      All-map (λ y. (0 < y.1) × (y.1 < u64_mod)) _ to_byte_range (merge_spans xs) to_byte_range-end
        (merge_spans-EndsInRange xs ends))
