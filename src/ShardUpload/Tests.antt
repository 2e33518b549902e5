-- ===== src/ShardUpload/Tests.antt =====
-- An upload of the small shard, and the correction of a term of a xorb of two chunks.
use open_weights.Store.Shards.{find_shard}
use open_weights.Store.Xorbs.{is_none}
use open_weights.Base.{map, true, false, ◌<◌, ◌≡◌, refl, arith, some, [], ◌∷◌}
use open_weights.Coalesce.{Hash}
use open_weights.ShardParse.{Bytes, ParsedTerm}
use open_weights.ShardParse.Tests.{small_readers, small_body, small_shard, hex_one}
use open_weights.RateLimit.{defaults}
use open_weights.Store.{accepted, M, World, err, db}
use open_weights.Store.Durable.{IsDurable}
use open_weights.Store.Tests.{ctx, small_world, small_db-IsDurable}
use open_weights.ShardUpload.{
  UploadShardResponseType, check_and_store, upload_shard, correct_range, correct_term, commit_shard,
}
use open_weights.ShardUpload.Atomic.{IsCommitted}
use open_weights.ShardUpload.Physical.{chunk_offset, correct_range-physical}
use open_weights.ShardUpload.Durable.{upload_shard-IsDurable}

abbrev digest : Bytes → Hash
digest bytes = 77

abbrev run : M UploadShardResponseType
run = check_and_store defaults ctx 77 small_body small_shard

run_is : upload_shard hex_one small_readers 60 digest defaults ctx small_body ≡ some run
unfolding upload_shard
run_is = refl

upload_shard-IsDurable_example : IsDurable ((run (small_world (accepted (8 ∷ []) ∷ []))).1).tables
upload_shard-IsDurable_example =
    upload_shard-IsDurable hex_one small_readers 60 digest defaults ctx small_body run run_is
      (small_world (accepted (8 ∷ []) ∷ [])) small_db-IsDurable

abbrev term : ParsedTerm
term = record {
  file_id = 5;
  term_index = 0;
  xorb_hash = 7;
  xorb_start = 0;
  xorb_end = 2;
  xorb_byte_start = 0;
  xorb_byte_end = 100;
  unpacked_start = 0;
  unpacked_end = 100;
}

correct_range-physical_example :
    (correct_range (68 ∷ 116 ∷ []) term ≡ record term { xorb_byte_start = 0; xorb_byte_end = 116 })
    × (chunk_offset (68 ∷ 116 ∷ []) 0 < chunk_offset (68 ∷ 116 ∷ []) 2)
correct_range-physical_example =
    correct_range-physical (68 ∷ 116 ∷ []) term (ground arith) (omega arith) (omega arith)

abbrev Stored : World → Type 0
Stored w =
    let r = commit_shard ctx 77 52 [] small_shard w in
    IsCommitted ctx 77 52 small_shard.files (map (correct_term []) small_shard.terms) r.0 w.tables
      (r.1).tables

-- The third statement, the insert of the files, fails.
commit_fails :
    (commit_shard ctx 77 52 [] small_shard
      (record (small_world []) { faults = false ∷ false ∷ true ∷ [] })).0
    ≡ err db
unfolding commit_shard
commit_fails = refl

-- The COMMIT is not answered, though the server has done it: the shard is there.
commit_lost :
    is_none (
      find_shard 77
        (((commit_shard ctx 77 52 [] small_shard (record (small_world []) {
          faults = false ∷ false ∷ false ∷ false ∷ false ∷ true ∷ true ∷ [];
        })).1
          ).tables).shards)
    ≡ false
unfolding commit_shard
commit_lost = refl
