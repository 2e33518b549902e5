-- ===== src/SignedUrl/Text.antt =====
-- The text that signed_url.rs prints and reads: decimal numbers, segments and lists of segments.
pub mod Decimal
pub mod Segments
use open_weights.Base.{
  ℕ, zero, suc, ◌+◌, ◌/◌, ◌%◌, Bool, Option, none, some, List, [], ◌∷◌, ◌++◌, map, ◌==◌, ltb,
  if◌then◌else◌, Str,
}
use open_weights.Download.Request.{split, parse_u64}

-- The decimal digits of a number of at most as many digits as the fuel.
unfoldable pub digits : ℕ → ℕ → Str
digits zero n = []
digits (suc f) n =
    let front = digits f (n / 10) in
    if ltb n 10 then (b'0' + n) ∷ [] else front ++ (b'0' + n % 10) ∷ []

-- A `u64` as `{}` prints it, which takes at most 20 digits.
unfoldable pub to_string : ℕ → Str
unfolding digits
to_string n = digits 20 n

-- `format!("{s}-{e}")`
unfoldable pub print_segment : ℕ × ℕ → Str
print_segment (s, e) = to_string s ++ b'-' ∷ to_string e

-- `[..].join(",")`
unfoldable pub join : List Str → Str
join [] = []
join (s ∷ []) = s
join (s ∷ t ∷ ss) = s ++ b',' ∷ join (t ∷ ss)

-- `str::split_once`
unfoldable pub split_once : ℕ → Str → Option (Str × Str)
split_once sep [] = none
split_once sep (c ∷ s) =
    let rest = split_once sep s in
    if c == sep then some ([], s) else elim rest [ none ↦ none | some (a, b) ↦ some (c ∷ a, b) ]

-- One turn of the loop of `parse_range_segments`.
unfoldable pub parse_segment : Str → Option (ℕ × ℕ)
parse_segment part = elim (split_once b'-' part) [
  | none ↦ none
  | some (a, b) ↦ elim (parse_u64 a) [
    | none ↦ none
    | some start ↦ elim (parse_u64 b) [
      | none ↦ none
      | some finish ↦ if ltb finish start then none else some (start, finish)
    ]
  ]
]

unfoldable pub parse_segments : List Str → Option (List (ℕ × ℕ))
parse_segments [] = some []
parse_segments (part ∷ parts) = elim (parse_segment part) [
  | none ↦ none
  | some x ↦ elim (parse_segments parts) [ none ↦ none | some xs ↦ some (x ∷ xs) ]
]

-- `split` never gives no part, so the last test of the source, that `out` is empty, never holds.
unfoldable pub parse_range_segments : Str → Option (List (ℕ × ℕ))
parse_range_segments [] = none
parse_range_segments (c ∷ s) =
    let (first, rest) = split b',' (c ∷ s) in parse_segments (first ∷ rest)
