-- ===== src/ShardUpload/Physical.antt =====
-- Step (6a) of `upload_shard`: with the boundaries of a xorb, the byte range of a term is the range of
-- its chunks in the serialized xorb.
use open_weights.Base.{
  ℕ, zero, suc, ◌-◌, ◌≤◌, ◌<◌, ◌≡◌, refl, ap, List, [], ◌∷◌, ◌==◌, length, get_or, if◌then◌else◌,
  arith,
}
use open_weights.ShardParse.{ParsedTerm}
use open_weights.ShardUpload.{correct_range}

-- Where chunk `i` starts: at the end of the chunk before it.
abbrev pub chunk_offset : List ℕ → ℕ → ℕ
chunk_offset bounds zero = 0
chunk_offset bounds (suc i) = get_or bounds i 0

-- The ends of chunks that are not empty.
abbrev pub IsRising : ℕ → List ℕ → Type 0
IsRising from [] = Unit
IsRising from (b ∷ bs) = (from < b) × IsRising b bs

get_or-above :
    (from : ℕ) (bs : List ℕ) (i : ℕ) → IsRising from bs → i < length bs → from < get_or bs i 0
get_or-above from [] i r lt = omega arith
get_or-above from (b ∷ bs) zero r lt = r.0
get_or-above from (b ∷ bs) (suc i) r lt = ground (arith, r.0, get_or-above b bs i r.1)

get_or-rising :
    (from : ℕ) (bs : List ℕ) (i j : ℕ)
    → IsRising from bs
    → i < j
    → j < length bs
    → get_or bs i 0 < get_or bs j 0
get_or-rising from [] i j r lt le = omega arith
get_or-rising from (b ∷ bs) i zero r lt le = omega arith
get_or-rising from (b ∷ bs) zero (suc j) r lt le = get_or-above b bs j r.1 (omega arith)
get_or-rising from (b ∷ bs) (suc i) (suc j) r lt le =
    get_or-rising b bs i j r.1 (omega arith) (omega arith)

chunk_offset-rising :
    (bs : List ℕ) (i j : ℕ)
    → IsRising 0 bs
    → i < j
    → j ≤ length bs
    → chunk_offset bs i < chunk_offset bs j
chunk_offset-rising bs i zero r lt le = omega arith
chunk_offset-rising bs zero (suc j) r lt le = get_or-above 0 bs j r (omega arith)
chunk_offset-rising bs (suc i) (suc j) r lt le =
    get_or-rising 0 bs i j r (omega arith) (omega arith)

start_is : (bs : List ℕ) (i : ℕ) → (if i == 0 then 0 else get_or bs (i - 1) 0) ≡ chunk_offset bs i
start_is bs zero = refl
start_is bs (suc i) = ground (arith, ap (λ j. get_or bs j 0) (pred i))
  where
    pred : (i : ℕ) → suc i - 1 ≡ i
    pred i = omega arith

end_is : (bs : List ℕ) (i : ℕ) → 0 < i → get_or bs (i - 1) 0 ≡ chunk_offset bs i
end_is bs zero lt = omega arith
end_is bs (suc i) lt = ap (λ j. get_or bs j 0) (pred i)
  where
    pred : (i : ℕ) → suc i - 1 ≡ i
    pred i = omega arith

-- For a term whose chunk range is not empty and lies within the xorb, whose boundaries rise, the
-- correction sets its byte range to that from the start of its first chunk to the end of its last,
-- not empty, and leaves every other field.
pub correct_range-physical :
    (bounds : List ℕ) (t : ParsedTerm)
    → IsRising 0 bounds
    → t.xorb_start < t.xorb_end
    → t.xorb_end ≤ length bounds
    → (correct_range bounds t ≡ record t {
      xorb_byte_start = chunk_offset bounds t.xorb_start;
      xorb_byte_end = chunk_offset bounds t.xorb_end;
    })
      × (chunk_offset bounds t.xorb_start < chunk_offset bounds t.xorb_end)
unfolding correct_range
correct_range-physical bounds t r lt le = ground (
  arith,
  lt,
  le,
  start_is bounds t.xorb_start,
  end_is bounds t.xorb_end,
  chunk_offset-rising bounds t.xorb_start t.xorb_end r lt le,
)
