-- ===== src/Download/Request.antt =====
-- The two request parsers of cas/crates/openweights-cas-core/src/handlers/reconstruction.rs:
-- `reconstruction_range_start` and `parse_file_id_query`.
use open_weights.Base.{
  ℕ, ◌+◌, ◌*◌, ◌-◌, Bool, ◌||◌, ◌&&◌, Option, none, some, List, [], ◌∷◌, ◌++◌, ◌==◌, leb, ltb,
  if◌then◌else◌, Str,
}
use open_weights.Coalesce.{u64_mod}
use open_weights.ShardParse.{is_empty}

-- `str::strip_prefix`
unfoldable pub strip_prefix : Str → Str → Option Str
strip_prefix [] s = some s
strip_prefix (c ∷ cs) [] = none
strip_prefix (c ∷ cs) (d ∷ s) = if c == d then strip_prefix cs s else none

-- `str::split` at one byte; the result is never empty.
unfoldable pub split : ℕ → Str → Str × List Str
split sep [] = ([], [])
split sep (c ∷ s) =
    let (first, rest) = split sep s in if c == sep then ([], first ∷ rest) else (c ∷ first, rest)

-- White space that a header value may hold.
abbrev pub is_space : ℕ → Bool
is_space c = c == b' ' || c == 9

unfoldable pub trim_start : Str → Str
trim_start [] = []
trim_start (c ∷ s) = if is_space c then trim_start s else c ∷ s

unfoldable pub trim_end : Str → Str
trim_end [] = []
trim_end (c ∷ s) = let rest = trim_end s in if is_space c && is_empty rest then [] else c ∷ rest

-- The digits of `str::parse::<u64>`; the value is in `u64` or the parse fails.
unfoldable pub parse_digits : Str → ℕ → Option ℕ
parse_digits [] acc = some acc
parse_digits (c ∷ s) acc =
    let next = acc * 10 + (c - b'0') in
    let rest = parse_digits s next in
    if leb b'0' c && leb c b'9' && ltb next u64_mod then rest else none

-- A sign `+` is let pass.
unfoldable pub parse_u64 : Str → Option ℕ
unfolding parse_digits
parse_u64 [] = none
parse_u64 (c ∷ s) =
    if c == b'+' then (if is_empty s then none else parse_digits s 0) else parse_digits (c ∷ s) 0

abbrev pub bytes_prefix : Str
bytes_prefix = b'b' ∷ b'y' ∷ b't' ∷ b'e' ∷ b's' ∷ b'=' ∷ []

unfoldable pub reconstruction_range_start : Option Str → Option ℕ
unfolding strip_prefix split trim_start trim_end parse_u64
reconstruction_range_start none = none
reconstruction_range_start (some raw) =
    elim (strip_prefix bytes_prefix (trim_end (trim_start raw))) [
      | none ↦ none
      | some spec ↦ parse_u64 (trim_end (trim_start ((split b'-' spec).0)))
    ]

abbrev pub file_id_prefix : Str
file_id_prefix = b'f' ∷ b'i' ∷ b'l' ∷ b'e' ∷ b'_' ∷ b'i' ∷ b'd' ∷ b'=' ∷ []

unfoldable pub non_empty : List Str → List Str
non_empty [] = []
non_empty (s ∷ ss) = let rest = non_empty ss in if is_empty s then rest else s ∷ rest

unfoldable pub values_of : List Str → List Str
unfolding strip_prefix split non_empty
values_of [] = []
values_of (kv ∷ kvs) =
    let rest = values_of kvs in
    elim (strip_prefix file_id_prefix kv) [
      | none ↦ rest
      | some v ↦ let (first, more) = split b',' v in non_empty (first ∷ more) ++ rest
    ]

unfoldable pub parse_file_id_query : Str → List Str
unfolding values_of split
parse_file_id_query raw = let (first, rest) = split b'&' raw in values_of (first ∷ rest)
