-- ===== src/SignedUrl/Text/Segments.antt =====
-- Segments, and lists of segments, read back.
use mathlib.Core.List.{append_assoc}
use open_weights.Base.{
  ℕ, ◌≤◌, ◌<◌, ◌≡◌, ◌≢◌, refl, some, List, [], ◌∷◌, ◌++◌, map, arith, Str, All, All-append,
  All-mono, All-map,
}
use open_weights.Coalesce.{u64_mod}
use open_weights.Download.Request.{split, parse_u64}
use open_weights.SignedUrl.Text.{
  to_string, print_segment, join, split_once, parse_segment, parse_segments, parse_range_segments,
}
use open_weights.SignedUrl.Text.Decimal.{IsDigit, parse_u64-to_string, to_string-IsDigit}

-- A byte of the text does not occur.
abbrev pub Without : ℕ → Str → Type 0
Without sep = All λ c. c ≢ sep

pub split_once-append :
    (sep : ℕ) (a b : Str) → Without sep a → split_once sep (a ++ sep ∷ b) ≡ some (a, b)
unfolding split_once
split_once-append sep [] b h = ground arith
split_once-append sep (c ∷ a) b h =
    let other = h.0 in rw (split_once-append sep a b h.1) (ground arith)

pub split-Without : (sep : ℕ) (a : Str) → Without sep a → split sep a ≡ (a, [])
unfolding split
split-Without sep [] h = refl
split-Without sep (c ∷ a) h = let other = h.0 in rw (split-Without sep a h.1) (ground arith)

pub split-append :
    (sep : ℕ) (a b : Str)
    → Without sep a
    → split sep (a ++ sep ∷ b) ≡ (a, (split sep b).0 ∷ (split sep b).1)
unfolding split
split-append sep [] b h = ground arith
split-append sep (c ∷ a) b h = let other = h.0 in rw (split-append sep a b h.1) (ground arith)

split-join :
    (s : Str) (ss : List Str)
    → Without b',' s
    → All (Without b',') ss
    → split b',' (join (s ∷ ss)) ≡ (s, ss)
unfolding join
split-join s [] h hs = split-Without b',' s h
split-join s (t ∷ ss) h hs = rw (split-append b',' s (join (t ∷ ss)) h, split-join t ss hs.0 hs.1)

-- A segment that `u64` bounds can hold and that is not reversed.
abbrev pub IsSegment : ℕ × ℕ → Type 0
IsSegment (s, e) = (s ≤ e) × (e < u64_mod)

pub digits-Without : (sep n : ℕ) → sep < b'0' → Without sep (to_string n)
digits-Without sep n low =
    All-mono IsDigit (λ c. c ≢ sep) (to_string n) (λ c d e. absurd (omega arith))
      (to_string-IsDigit n)

parse_segment_of :
    (part a b : Str) (s e : ℕ)
    → split_once b'-' part ≡ some (a, b)
    → parse_u64 a ≡ some s
    → parse_u64 b ≡ some e
    → s ≤ e
    → parse_segment part ≡ some (s, e)
unfolding parse_segment
parse_segment_of part a b s e cut left right ordered =
    rw (cut, left, right, parse_segment) (ground arith)

parse_segment-print_segment : (x : ℕ × ℕ) → IsSegment x → parse_segment (print_segment x) ≡ some x
unfolding print_segment
parse_segment-print_segment (s, e) (ordered, small) =
    parse_segment_of (print_segment (s, e)) (to_string s) (to_string e) s e
      (split_once-append b'-' (to_string s) (to_string e) (digits-Without b'-' s (omega arith)))
      (parse_u64-to_string s (omega arith)) (parse_u64-to_string e small) ordered

segment-Without : (x : ℕ × ℕ) → Without b',' (print_segment x)
unfolding print_segment
segment-Without (s, e) =
    All-append (λ c. c ≢ b',') (to_string s) (b'-' ∷ to_string e)
      (digits-Without b',' s (omega arith))
      ((λ e. absurd (omega arith)), digits-Without b',' e (omega arith))

parse_segments-map :
    (xs : List (ℕ × ℕ)) → All IsSegment xs → parse_segments (map print_segment xs) ≡ some xs
unfolding parse_segments
parse_segments-map [] h = refl
parse_segments-map (x ∷ xs) h =
    rw (parse_segments, parse_segment-print_segment x h.0, parse_segments-map xs h.1)

parse_range_segments-split :
    (c : ℕ) (s : Str)
    → parse_range_segments (c ∷ s)
      ≡ parse_segments ((split b',' (c ∷ s)).0 ∷ (split b',' (c ∷ s)).1)
unfolding parse_range_segments
parse_range_segments-split c s = refl

append_cons_cases : (a : Str) (b : ℕ) (t : Str) → (c : ℕ) × (u : Str) × (a ++ b ∷ t ≡ c ∷ u)
append_cons_cases [] b t = (b, t, refl)
append_cons_cases (c ∷ a) b t = (c, a ++ b ∷ t, refl)

join_cons_cases :
    (x : ℕ × ℕ) (ss : List Str) → (c : ℕ) × (u : Str) × (join (print_segment x ∷ ss) ≡ c ∷ u)
unfolding join print_segment
join_cons_cases (s, e) [] = append_cons_cases (to_string s) b'-' (to_string e)
join_cons_cases (s, e) (t ∷ ss) =
    rw append_assoc (append_cons_cases (to_string s) b'-' (to_string e ++ b',' ∷ join (t ∷ ss)))

-- The joined segments of a URL parse back to the segments.
pub parse_range_segments-join :
    (x : ℕ × ℕ) (xs : List (ℕ × ℕ))
    → All IsSegment (x ∷ xs)
    → parse_range_segments (join (map print_segment (x ∷ xs))) ≡ some (x ∷ xs)
parse_range_segments-join x xs h =
    let (c, u, e) = join_cons_cases x (map print_segment xs) in
    let parts =
      split-join (print_segment x) (map print_segment xs) (segment-Without x)
        (All-map IsSegment (Without b',') print_segment xs (λ y k. segment-Without y) h.1) in
    rw (e, parse_range_segments-split c u, ← e, parts) (parse_segments-map (x ∷ xs) h)
