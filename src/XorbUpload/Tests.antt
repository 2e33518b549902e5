-- ===== src/XorbUpload/Tests.antt =====
-- Uploads of a body of two chunks, with a codec that finds no footer and a chunk header whose first
-- byte is the compressed length.
use open_weights.Base.{ℕ, ◌≡◌, ◌↔◌, refl, arith, Option, none, some, [], ◌∷◌, ◌++◌, replicate}
use open_weights.ShardParse.{Bytes}
use open_weights.RateLimit.{defaults}
use open_weights.Store.{accepted}
use open_weights.Store.Durable.{IsDurable}
use open_weights.Store.Tests.{ctx, small_world, small_db-IsDurable}
use open_weights.XorbUpload.{XorbCodec, upload_xorb}
use open_weights.XorbUpload.Walk.{walk_chunk_boundaries}
use open_weights.XorbUpload.Tiles.{Tiles, walk_chunk_boundaries-Tiles}
use open_weights.XorbUpload.Durable.{upload_xorb-IsDurable}

abbrev first_byte : Bytes → Option ℕ
first_byte [] = none
first_byte (b ∷ bs) = some b

abbrev codec : XorbCodec
codec = record {
  from_hex = first_byte;
  deserialize = λ bytes. none;
  xorb_hash = λ chunks. 0;
  parse_chunk_header = first_byte;
}

abbrev two_chunks : Bytes
two_chunks = 2 ∷ replicate 9 0 ++ 1 ∷ replicate 8 0

walked : walk_chunk_boundaries first_byte two_chunks ≡ 10 ∷ 19 ∷ []
unfolding walk_chunk_boundaries
walked = refl

walk_chunk_boundaries-Tiles_example :
    (walk_chunk_boundaries first_byte two_chunks ≡ 10 ∷ 19 ∷ [])
    ↔ Tiles first_byte two_chunks 0 (10 ∷ 19 ∷ [])
walk_chunk_boundaries-Tiles_example =
    walk_chunk_boundaries-Tiles first_byte two_chunks (10 ∷ 19 ∷ []) (ground arith)

upload_xorb-IsDurable_example :
    IsDurable
      ((upload_xorb codec defaults ctx []
          (11 ∷ [])
          two_chunks
          (small_world (accepted (8 ∷ []) ∷ []))).1
        ).tables
upload_xorb-IsDurable_example =
    upload_xorb-IsDurable codec defaults ctx [] (11 ∷ []) two_chunks
      (small_world (accepted (8 ∷ []) ∷ [])) small_db-IsDurable
