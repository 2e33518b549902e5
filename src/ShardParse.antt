-- ===== src/ShardParse.antt =====
-- cas/crates/openweights-cas-core/src/shard_parse.rs, with the rows of
-- cas/crates/openweights-cas-db/src/queries/reconstruction.rs that it fills. The readers of the
-- binary format and `DataHash::hex` belong to xet-core and are parameters; a cursor is the bytes that
-- are left. Every number comes from a `u32` field, and a body holds too few entries for an index or
-- a sum to leave `i32` or `i64`.
pub mod Loops
pub mod Terms
pub mod References
pub mod Accepted
pub mod Tests
use open_weights.Base.{
  ℕ, zero, suc, ◌+◌, ◌-◌, Bool, true, false, Option, none, some, List, [], ◌∷◌, ◌++◌, map, leb, ltb,
  ◌==◌, not, if◌then◌else◌, length, get_or, Str,
}
use open_weights.Coalesce.{Hash}
use open_weights.Hex.{decode_hex32, hex_of}

abbrev pub Bytes : Type 0
Bytes = List ℕ

-- The fields of xet-core's structures that are read.
pub record FileSegment : Type 0 where
  pub xorb_hash : Hash
  pub chunk_index_start : ℕ
  pub chunk_index_end : ℕ
  pub unpacked_segment_bytes : ℕ

pub record MdbFileInfo : Type 0 where
  pub file_hash : Hash
  pub segments : List FileSegment
  -- the `sha256` of the extension block
  pub metadata_ext : Option Hash

-- `chunk_byte_range_start` and `unpacked_segment_bytes` of a chunk
abbrev pub Chunk : Type 0
Chunk = ℕ × ℕ

pub record MdbXorbInfo : Type 0 where
  pub xorb_hash : Hash
  pub chunks : List Chunk

pub data Malformed : Type 0 where
  too_small : ℕ → Malformed
  bad_header bad_file_info bad_xorb_info : Malformed

pub data TermFault : Type 0 where
  empty_chunk_range chunk_count_exceeded empty_byte_range : TermFault

-- The texts of the messages are left out.
pub data ShardParseError : Type 0 where
  malformed : Malformed → ShardParseError
  header_version : ℕ → ShardParseError
  footer_version : ℕ → ShardParseError
  empty_file_list : ShardParseError
  inconsistent_term_range : Str → ℕ → TermFault → ShardParseError

pub data Parse (A : Type 0) : Type 0 where
  ok : A → Parse A
  err : ShardParseError → Parse A

infixl 5 ◌>>=◌
abbrev pub ◌>>=◌ : {A B : Type 0} → Parse A → (A → Parse B) → Parse B
ok a >>= f = f a
err e >>= f = err e

pub record ParsedFile : Type 0 where
  pub file_id : Hash
  pub total_size : ℕ
  pub sha256 : Option Hash

pub record ParsedTerm : Type 0 where
  pub file_id : Hash
  pub term_index : ℕ
  pub xorb_hash : Hash
  pub xorb_start : ℕ
  pub xorb_end : ℕ
  pub xorb_byte_start : ℕ
  pub xorb_byte_end : ℕ
  pub unpacked_start : ℕ
  pub unpacked_end : ℕ

pub record ParsedShard : Type 0 where
  pub header_version : ℕ
  pub footer_version : ℕ
  pub referenced_xorb_hashes : List Hash
  pub files : List ParsedFile
  pub terms : List ParsedTerm

-- `HashMap<[u8; 32], Vec<(u32, u32)>>`
abbrev pub XorbIndex : Type 0
XorbIndex = List (Hash × List Chunk)

abbrev pub lookup : Hash → XorbIndex → Option (List Chunk)
lookup h [] = none
lookup h ((k, cs) ∷ m) = if h == k then some cs else lookup h m

-- Step (4): `entry(hash).or_insert(chunks)`, so the first entry of a xorb stays.
unfoldable pub or_insert : Hash → List Chunk → XorbIndex → XorbIndex
or_insert h cs m = elim (lookup h m) [ none ↦ (h, cs) ∷ m | some old ↦ m ]

unfoldable pub index_from : XorbIndex → List MdbXorbInfo → XorbIndex
unfolding or_insert
index_from m [] = m
index_from m (xi ∷ xis) = index_from (or_insert xi.xorb_hash xi.chunks m) xis

-- `referenced_set.insert(hash, ())`
unfoldable pub insert_key : Hash → List Hash → List Hash
insert_key h [] = h ∷ []
insert_key h (k ∷ ks) = if h == k then k ∷ ks else k ∷ insert_key h ks

-- `sort()` of the keys
unfoldable pub insert_sorted : Hash → List Hash → List Hash
insert_sorted h [] = h ∷ []
insert_sorted h (k ∷ ks) = if leb h k then h ∷ k ∷ ks else k ∷ insert_sorted h ks

unfoldable pub sort : List Hash → List Hash
unfolding insert_sorted
sort [] = []
sort (h ∷ hs) = insert_sorted h (sort hs)

unfoldable pub total_bytes : List FileSegment → ℕ
total_bytes [] = 0
total_bytes (s ∷ ss) = s.unpacked_segment_bytes + total_bytes ss

-- Step (5): the byte range of one segment.
unfoldable pub byte_range_of : XorbIndex → Hash → ℕ → FileSegment → Parse (ℕ × ℕ)
byte_range_of index file_id idx seg = elim (lookup seg.xorb_hash index) [
  | none ↦ ok (0, 0)
  | some chunks ↦
      let last_idx = seg.chunk_index_end - 1 in
      if leb (length chunks) last_idx
      then err (inconsistent_term_range (hex_of file_id) idx chunk_count_exceeded)
      else let first = get_or chunks seg.chunk_index_start (0, 0) in
        let last = get_or chunks last_idx (0, 0) in
        if leb (last.0 + last.1) first.0
        then err (inconsistent_term_range (hex_of file_id) idx empty_byte_range)
        else ok (first.0, last.0 + last.1)
]

-- Step (5): the body of the loop over the segments, up to the push.
unfoldable pub term_of : XorbIndex → Hash → ℕ → ℕ → FileSegment → Parse ParsedTerm
unfolding byte_range_of
term_of index file_id idx unpacked_cursor seg =
    if leb seg.chunk_index_end seg.chunk_index_start
    then err (inconsistent_term_range (hex_of file_id) idx empty_chunk_range)
    else do
      range ← byte_range_of index file_id idx seg
      ok (record {
        file_id = file_id;
        term_index = idx;
        xorb_hash = seg.xorb_hash;
        xorb_start = seg.chunk_index_start;
        xorb_end = seg.chunk_index_end;
        xorb_byte_start = range.0;
        xorb_byte_end = range.1;
        unpacked_start = unpacked_cursor;
        unpacked_end = unpacked_cursor + seg.unpacked_segment_bytes;
      })

-- What the loops of step (5) fill.
pub record Rows : Type 0 where
  pub files : List ParsedFile
  pub terms : List ParsedTerm
  pub referenced : List Hash

-- Step (5): the loop over the segments of one file.
unfoldable pub segments_from : XorbIndex → Hash → ℕ → ℕ → List FileSegment → Rows → Parse Rows
unfolding term_of insert_key
segments_from index file_id idx cursor [] rows = ok rows
segments_from index file_id idx cursor (seg ∷ segs) rows =
    term_of index file_id idx cursor seg >>= λ t.
    segments_from index file_id (idx + 1) t.unpacked_end segs (record rows {
      terms = rows.terms ++ t ∷ [];
      referenced = insert_key seg.xorb_hash rows.referenced;
    })

-- `ext.sha256.hex()` and back.
abbrev pub sha256_of : (Hash → Str) → Option Hash → Option Hash
sha256_of hex none = none
sha256_of hex (some sha) = decode_hex32 (hex sha)

-- Step (5): the loop over the files.
unfoldable pub files_from : (Hash → Str) → XorbIndex → List MdbFileInfo → Rows → Parse Rows
unfolding segments_from total_bytes
files_from hex index [] rows = ok rows
files_from hex index (fi ∷ fis) rows =
    segments_from index fi.file_hash 0 0 fi.segments (record rows {
      files =
          rows.files
          ++ record {
            file_id = fi.file_hash;
            total_size = total_bytes fi.segments;
            sha256 = sha256_of hex fi.metadata_ext;
          }
            ∷ [];
    })
    >>= files_from hex index fis

-- xet-core's readers: `none` is an error, and an entry of `none` is the bookend.
pub record Readers : Type 0 where
  pub read_header : Bytes → Option (ℕ × Bytes)
  pub read_file_info : Bytes → Option (Option MdbFileInfo × Bytes)
  pub read_xorb_info : Bytes → Option (Option MdbXorbInfo × Bytes)

-- The loops of steps (2) and (3), on fuel; `none` means that the fuel ran out.
unfoldable pub read_entries :
    {A : Type 0}
    → (Bytes → Option (Option A × Bytes))
    → Malformed
    → ℕ
    → Bytes
    → List A
    → Option (Parse (List A × Bytes))
read_entries read bad zero cur acc = none
read_entries read bad (suc fuel) cur acc = elim (read cur) [
  | none ↦ some (err (malformed bad))
  | some (none, rest) ↦ some (ok (acc, rest))
  | some (some a, rest) ↦ read_entries read bad fuel rest (acc ++ a ∷ [])
]

-- Steps (4) and (5), and the result.
unfoldable pub assemble : (Hash → Str) → ℕ → List MdbFileInfo → List MdbXorbInfo → Parse ParsedShard
unfolding files_from index_from sort
assemble hex version file_infos xorb_infos = do
  let index = index_from [] xorb_infos
  rows ← files_from hex index file_infos (record { files = []; terms = []; referenced = [] })
  ok (record {
    header_version = version;
    footer_version = 0;
    referenced_xorb_hashes = sort rows.referenced;
    files = rows.files;
    terms = rows.terms;
  })

abbrev pub is_empty : {A : Type 0} → List A → Bool
is_empty [] = true
is_empty (x ∷ xs) = false

-- `parse_and_validate` from its step (4) on, after the loop over the xorb infos.
unfoldable pub after_xorb_infos :
    (Hash → Str)
    → ℕ
    → List MdbFileInfo
    → Option (Parse (List MdbXorbInfo × Bytes))
    → Option (Parse ParsedShard)
unfolding assemble
after_xorb_infos hex version file_infos none = none
after_xorb_infos hex version file_infos (some (err e)) = some (err e)
after_xorb_infos hex version file_infos (some (ok (xorb_infos, rest))) =
    some (assemble hex version file_infos xorb_infos)

-- After the loop over the file infos.
unfoldable pub after_file_infos :
    (Hash → Str)
    → Readers
    → ℕ
    → ℕ
    → Option (Parse (List MdbFileInfo × Bytes))
    → Option (Parse ParsedShard)
unfolding after_xorb_infos read_entries
after_file_infos hex readers fuel version none = none
after_file_infos hex readers fuel version (some (err e)) = some (err e)
after_file_infos hex readers fuel version (some (ok (file_infos, cur))) =
    if is_empty file_infos
    then some (err empty_file_list)
    else after_xorb_infos hex version file_infos
        (read_entries readers.read_xorb_info bad_xorb_info fuel cur [])

-- After step (1).
unfoldable pub after_header :
    (Hash → Str) → Readers → ℕ → Option (ℕ × Bytes) → Option (Parse ParsedShard)
unfolding after_file_infos read_entries
after_header hex readers fuel none = some (err (malformed bad_header))
after_header hex readers fuel (some (version, cur)) =
    if not (version == 2)
    then some (err (header_version version))
    else after_file_infos hex readers fuel version
        (read_entries readers.read_file_info bad_file_info fuel cur [])

-- Both loops run on the fuel `fuel`.
unfoldable pub parse_and_validate : (Hash → Str) → Readers → ℕ → Bytes → Option (Parse ParsedShard)
unfolding after_header
parse_and_validate hex readers fuel bytes =
    if ltb (length bytes) 48
    then some (err (malformed (too_small (length bytes))))
    else after_header hex readers fuel (readers.read_header bytes)
