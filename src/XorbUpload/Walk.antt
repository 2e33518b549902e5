-- ===== src/XorbUpload/Walk.antt =====
-- `walk_chunk_boundaries` of handlers/xorbs.rs, for a parser of chunk headers that returns the
-- compressed length. A step moves on by at least a header, so fuel of the length and one is enough.
use open_weights.Base.{
  ℕ, zero, suc, ◌+◌, not, Option, none, some, List, [], ◌∷◌, ◌++◌, ltb, length, take, drop,
  if◌then◌else◌,
}
use open_weights.ShardParse.{Bytes}

abbrev pub xorb_chunk_header_length : ℕ
xorb_chunk_header_length = 8

module _ (parse_chunk_header : Bytes → Option ℕ) where
  -- The loop; `none` means that the fuel ran out.
  unfoldable pub walk_from : ℕ → Bytes → ℕ → List ℕ → Option (List ℕ)
  walk_from zero bytes offset boundaries = none
  walk_from (suc fuel) bytes offset boundaries =
      if not (ltb offset (length bytes))
      then some boundaries
      else if ltb (length bytes) (offset + xorb_chunk_header_length)
      then some []
      else elim (parse_chunk_header (take xorb_chunk_header_length (drop offset bytes))) [
        | none ↦ some []
        | some len ↦
            let next = offset + (xorb_chunk_header_length + len) in
            if ltb (length bytes) next
            then some []
            else walk_from fuel bytes next (boundaries ++ next ∷ [])
      ]

  unfoldable pub walk_chunk_boundaries : Bytes → List ℕ
  unfolding walk_from
  walk_chunk_boundaries bytes = elim (walk_from (suc (length bytes)) bytes 0 []) [
    | none ↦ []
    | some boundaries ↦ boundaries
  ]
