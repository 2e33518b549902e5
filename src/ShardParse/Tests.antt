-- ===== src/ShardParse/Tests.antt =====
-- A small shard: after a header of 48 bytes, a byte 1 is an entry and any other byte the bookend.
use open_weights.Base.{
  ℕ, zero, suc, ◌≤◌, ◌<◌, ◌≡◌, refl, arith, Option, none, some, [], ◌∷◌, ◌++◌, ◌==◌, All, length,
  drop, replicate, if◌then◌else◌, Str,
}
use open_weights.Coalesce.{Hash}
use open_weights.ShardParse.{
  Bytes, MdbFileInfo, MdbXorbInfo, Parse, ok, ParsedShard, Readers, index_from, assemble,
  parse_and_validate,
}
use open_weights.ShardParse.Terms.{Tiled, IsConsistent, assemble-IsConsistent}
use open_weights.ShardParse.References.{IsIncreasing, uses, contains}
use open_weights.ShardParse.Loops.{Consumes, parse_and_validate-total}
use open_weights.ShardParse.Accepted.{parse_and_validate-Tiled, parse_and_validate-references}

abbrev pub hex_one : Hash → Str
hex_one h = h ∷ []

abbrev read_one : {A : Type 0} → A → Bytes → Option (Option A × Bytes)
read_one a [] = none
read_one a (c ∷ rest) = if c == 1 then some (some a, rest) else some (none, rest)

abbrev file_info : MdbFileInfo
file_info = record {
  file_hash = 5;
  segments =
      record {
        xorb_hash = 7;
        chunk_index_start = 0;
        chunk_index_end = 2;
        unpacked_segment_bytes = 100;
      }
      ∷ [];
  metadata_ext = none;
}

abbrev xorb_info : MdbXorbInfo
xorb_info = record { xorb_hash = 7; chunks = (0, 60) ∷ (60, 40) ∷ [] }

abbrev pub small_readers : Readers
small_readers = record {
  read_header = λ bytes. some (2, drop 48 bytes);
  read_file_info = read_one file_info;
  read_xorb_info = read_one xorb_info;
}

abbrev pub small_body : Bytes
small_body = replicate 48 0 ++ 1 ∷ 0 ∷ 1 ∷ 0 ∷ []

abbrev pub small_shard : ParsedShard
small_shard = record {
  header_version = 2;
  footer_version = 0;
  referenced_xorb_hashes = 7 ∷ [];
  files = record { file_id = 5; total_size = 100; sha256 = none } ∷ [];
  terms =
      record {
        file_id = 5;
        term_index = 0;
        xorb_hash = 7;
        xorb_start = 0;
        xorb_end = 2;
        xorb_byte_start = 0;
        xorb_byte_end = 100;
        unpacked_start = 0;
        unpacked_end = 100;
      }
      ∷ [];
}

pub small_parsed : parse_and_validate hex_one small_readers 60 small_body ≡ some (ok small_shard)
unfolding parse_and_validate
small_parsed = refl

small_assembled : assemble hex_one 2 (file_info ∷ []) (xorb_info ∷ []) ≡ ok small_shard
unfolding assemble
small_assembled = refl

read_one-Consumes : {A : Type 0} (a : A) → Consumes (read_one a)
read_one-Consumes a = record { entry_consumes = entry; bookend_keeps = bookend }
  where
    entry :
        (cur rest : Bytes) (b : _) → read_one a cur ≡ some (some b, rest) → length rest < length cur
    entry [] rest b e = ground (arith, e)
    entry (c ∷ cs) rest b e = ground (arith, e)

    bookend : (cur rest : Bytes) → read_one a cur ≡ some (none, rest) → length rest ≤ length cur
    bookend [] rest e = ground (arith, e)
    bookend (c ∷ cs) rest e = ground (arith, e)

parse_and_validate-Tiled_example : Tiled small_shard.files small_shard.terms
parse_and_validate-Tiled_example =
    parse_and_validate-Tiled hex_one small_readers 60 small_body small_shard small_parsed

parse_and_validate-references_example :
    IsIncreasing small_shard.referenced_xorb_hashes
    × ((h : Hash) → contains h small_shard.referenced_xorb_hashes ≡ uses h small_shard.terms)
parse_and_validate-references_example =
    parse_and_validate-references hex_one small_readers 60 small_body small_shard small_parsed

assemble-IsConsistent_example :
    All (IsConsistent (index_from [] (xorb_info ∷ []))) small_shard.terms
assemble-IsConsistent_example =
    assemble-IsConsistent hex_one 2 (file_info ∷ []) (xorb_info ∷ []) small_shard small_assembled

drop-le : (n : ℕ) (bytes : Bytes) → length (drop n bytes) ≤ length bytes
drop-le zero bytes = omega arith
drop-le (suc n) [] = omega arith
drop-le (suc n) (b ∷ bs) = omega (arith, drop-le n bs)

parse_and_validate-total_example :
    (r : Parse ParsedShard) × (parse_and_validate hex_one small_readers 60 small_body ≡ some r)
parse_and_validate-total_example =
    parse_and_validate-total hex_one small_readers 60 (read_one-Consumes file_info)
      (read_one-Consumes xorb_info) small_body
      (λ v rest e. ground (arith, e, drop-le 48 small_body)) (omega arith)
