-- ===== src/Reconstruction/Serves.antt =====
-- The client of a reconstruction finds, for each term, one fetch that holds its bytes and chunks.
use open_weights.Base.{
  ℕ, ◌+◌, ◌≤◌, ◌<◌, ◌%◌, ◌≡◌, refl, Bool, true, false, Option, none, some, List, [], ◌∷◌, map,
  arith, All, All-In, All-of_In, All-mono, Any, In, Any-map, inl, inr, leb, ◌&&◌, if◌then◌else◌,
  Str, ◌==◌, ◌++◌,
}
use mathlib.Core.List.{append-nil, append_assoc}
use open_weights.Base.Maps.{get, str_ord}
use open_weights.Coalesce.{
  Hash, Term, ByteRange, Groups, u64_mod, u32_mod, entry_push, coalesce_terms_by_xorb,
}
use open_weights.Coalesce.Group.{
  get_or_default, IsAscending, entry_push-IsAscending, get_or_default-entry_push,
}
use open_weights.Coalesce.Contains.{WithinRange, coalesce-contains, coalesce-end}
use open_weights.Reconstruction.Fetches.{build_response-entries}
use open_weights.Reconstruction.{
  TermSpan, to_span, span_table, chunk_union, min_opt, max_opt, unwrap_or, UrlMinter, Uuid,
  to_entry, build_response, FetchInfoEntry, ReconstructionRow,
}

-- Nonzero ends and `u64` bytes, `u32` chunk indices.
abbrev pub InBounds : Term → Type 0
InBounds t =
    ((0 < t.xorb_byte_end) × (t.xorb_byte_end < u64_mod))
    × (t.xorb_start < u32_mod)
    × (t.xorb_end < u32_mod)

abbrev AtMost : Option ℕ → ℕ → Type 0
AtMost none v = ⊥
AtMost (some x) v = x ≤ v

abbrev AtLeast : Option ℕ → ℕ → Type 0
AtLeast none v = ⊥
AtLeast (some x) v = v ≤ x

-- The union so far takes in the chunks `s..e`.
abbrev Takes : ℕ → ℕ → Option ℕ × Option ℕ → Type 0
Takes s e acc = AtMost acc.0 s × AtLeast acc.1 e

step-Takes :
    (b : Bool) (s e cs' ce' : ℕ) (cs ce : Option ℕ)
    → Takes s e (cs, ce)
    → Takes s e (if b then (min_opt cs cs', max_opt ce ce') else (cs, ce))
step-Takes false s e cs' ce' cs ce h = h
step-Takes true s e cs' ce' none ce h = absurd h.0
step-Takes true s e cs' ce' (some x) none h = absurd h.1
step-Takes true s e cs' ce' (some x) (some y) h = (omega arith, omega arith)

chunk_union_keeps :
    (from upto s e : ℕ) (spans : List TermSpan) (acc : Option ℕ × Option ℕ)
    → Takes s e acc
    → Takes s e (chunk_union from upto spans acc)
unfolding chunk_union
chunk_union_keeps from upto s e [] acc h = h
chunk_union_keeps from upto s e (ts ∷ rest) (cs, ce) h = chunk_union_keeps from upto s e rest _ (
    step-Takes (leb from ts.byte_start && leb ts.byte_end upto) s e ts.chunk_start ts.chunk_end cs
      ce h)

new-Takes : (s e : ℕ) (cs ce : Option ℕ) → Takes s e (min_opt cs s, max_opt ce e)
new-Takes s e none none = (omega arith, omega arith)
new-Takes s e none (some y) = (omega arith, omega arith)
new-Takes s e (some x) none = (omega arith, omega arith)
new-Takes s e (some x) (some y) = (omega arith, omega arith)

-- The union takes in every span that lies in the range.
chunk_union-Takes :
    (from upto : ℕ) (x : TermSpan) (spans : List TermSpan) (acc : Option ℕ × Option ℕ)
    → In x spans
    → from ≤ x.byte_start
    → x.byte_end ≤ upto
    → Takes x.chunk_start x.chunk_end (chunk_union from upto spans acc)
unfolding chunk_union
chunk_union-Takes from upto x [] acc i lo hi = absurd i
chunk_union-Takes from upto x (ts ∷ rest) (cs, ce) (inl eq) lo hi =
    chunk_union_keeps from upto x.chunk_start x.chunk_end rest _ (
      let inside : (leb from ts.byte_start && leb ts.byte_end upto) ≡ true = ground arith in
      rw inside (rw (← eq) (new-Takes x.chunk_start x.chunk_end cs ce)))
chunk_union-Takes from upto x (ts ∷ rest) (cs, ce) (inr i) lo hi =
    chunk_union-Takes from upto x rest _ i lo hi

Takes-unwrap_or :
    (s e : ℕ) (acc : Option ℕ × Option ℕ)
    → Takes s e acc
    → (unwrap_or 0 acc.0 ≤ s) × (e ≤ unwrap_or 0 acc.1)
Takes-unwrap_or s e (none, ce) h = absurd h.0
Takes-unwrap_or s e (some x, none) h = absurd h.1
Takes-unwrap_or s e (some x, some y) h = h

-- The bundles of the terms of one xorb.
abbrev term_spans_of : Hash → List Term → List TermSpan
term_spans_of h [] = []
term_spans_of h (t ∷ ts) =
    if h == t.xorb_hash then to_span t ∷ term_spans_of h ts else term_spans_of h ts

pub get_or_default-span_table :
    (h : Hash) (ts : List Term) (m : Groups TermSpan)
    → IsAscending m
    → get_or_default h (span_table m ts) ≡ get_or_default h m ++ term_spans_of h ts
unfolding span_table
get_or_default-span_table h [] m a = rw append-nil
get_or_default-span_table h (t ∷ ts) m a = ground (
  arith,
  get_or_default-span_table h ts (entry_push t.xorb_hash (to_span t) m)
      (entry_push-IsAscending t.xorb_hash (to_span t) m a),
  get_or_default-entry_push h t.xorb_hash (to_span t) m a,
  append_assoc (get_or_default h m) (to_span t ∷ []) (term_spans_of h ts),
)

In-term_spans_of :
    (t : Term) (ts : List Term) → In t ts → In (to_span t) (term_spans_of t.xorb_hash ts)
In-term_spans_of t [] i = i
In-term_spans_of t (u ∷ ts) (inl eq) = rw eq (ground arith)
In-term_spans_of t (u ∷ ts) (inr i) = ground (arith, In-term_spans_of t ts i)

In-span_table :
    (t : Term) (ts : List Term)
    → In t ts
    → In (to_span t) (get_or_default t.xorb_hash (span_table [] ts))
In-span_table t ts i = rw (get_or_default-span_table t.xorb_hash ts [] tt) (In-term_spans_of t ts i)

module _ (hex : Hash → Str) (signer : UrlMinter) (kid : Uuid) (now_unix : ℕ) where
  -- One entry for one merged range, as the client sees it: its bytes and chunks hold those of the
  -- term, and its URL is signed for exactly its bytes.
  abbrev pub Serves : Term → FetchInfoEntry → Type 0
  Serves t e =
      (e.url_range.start ≤ t.xorb_byte_start)
      × (t.xorb_byte_end ≤ e.url_range.end_inclusive + 1)
      × (e.range.start ≤ t.xorb_start)
      × (t.xorb_end ≤ e.range.finish)
      × (e.url
          ≡ signer.mint_v1 t.xorb_hash (some (e.url_range.start, e.url_range.end_inclusive)) kid
              now_unix)

  to_entry-Serves :
      (t : Term) (spans : List TermSpan)
      → InBounds t
      → In (to_span t) spans
      → (br : ByteRange) → br.end_inclusive + 1 < u64_mod
      → WithinRange t.xorb_byte_start t.xorb_byte_end br
      → Serves t (to_entry hex signer kid now_unix t.xorb_hash spans br)
  unfolding to_entry
  to_entry-Serves t spans ok i br fits w =
      let upto = (br.end_inclusive + 1) % u64_mod in
      let taken =
        Takes-unwrap_or _ _ (chunk_union br.start upto spans (none, none))
          (chunk_union-Takes br.start upto (to_span t) spans (none, none) i w.0 (omega arith)) in
      (w.0, w.1, omega arith, omega arith, refl)

  module _ (hex-injective : (a b : Hash) → hex a ≡ hex b → a ≡ b) where
    -- If the hex codec does not merge two hashes, no term ends at byte 0 and all offsets are within
    -- their widths, then for each term of the row the response has a list of fetches under the
    -- term's xorb, one of which holds all bytes and all chunks of the term and is signed for exactly
    -- the bytes that it names.
    pub build_response-Serves :
        (row : ReconstructionRow) (t : Term)
        → All InBounds row.terms
        → In t row.terms
        → (es : List FetchInfoEntry) × (get
              (hex t.xorb_hash)
              (build_response hex signer kid now_unix row).fetch_info
            ≡ some es)
          × Any (Serves t) es
    build_response-Serves row t ok i =
        let h = t.xorb_hash in
        let ts = row.terms in
        let ends =
          All-mono InBounds (λ u. (0 < u.xorb_byte_end) × (u.xorb_byte_end < u64_mod)) ts
            (λ u b. b.0) ok in
        let held = coalesce-contains t ts ends i in
        let spans = get_or_default h (span_table [] ts) in
        (
          map (to_entry hex signer kid now_unix h spans)
              (get_or_default h (coalesce_terms_by_xorb ts)),
          build_response-entries hex signer kid now_unix (λ _. Unit) (λ a b _ _. hex-injective a b)
              row t ends (All-of_In _ ts (λ _ _. tt)) i,
          Any-map (λ r. r.end_inclusive + 1 < u64_mod) _ (Serves t)
              (to_entry hex signer kid now_unix h spans)
              (get_or_default h (coalesce_terms_by_xorb ts))
              (to_entry-Serves t spans (All-In InBounds ts t ok i) (In-span_table t ts i))
              (coalesce-end h ts ends) held,
        )
