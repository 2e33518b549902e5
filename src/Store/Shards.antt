-- ===== src/Store/Shards.antt =====
-- cas/crates/openweights-cas-db/src/queries/shards.rs, over the tables `shards`,
-- `reconstruction_files` and `reconstruction_terms`, and the statements of usage_log.rs.
use open_weights.Base.{
  ℕ, ◌+◌, Bool, true, false, ◌||◌, ◌&&◌, Option, none, some, List, [], ◌∷◌, ◌++◌, map, ◌==◌,
  if◌then◌else◌,
}
use open_weights.Coalesce.{Hash}
use open_weights.ShardParse.{Bytes, ParsedFile, ParsedTerm, is_empty}
use open_weights.ShardParse.References.{contains}
use open_weights.Store.{
  Uuid, XorbPinState, uploading, pinning, orphaned, XorbRow, ShardRow, FileRow, TermRow, Db, M,
  pure, throw, query, db, ◌>>=◌, ◌>>◌, AuthContext, UsageRow, xorb_upload, shard_upload,
  reconstruction,
}
use open_weights.Store.Xorbs.{is_none, coalesce, is_pinned}

abbrev pub find_shard : Hash → List ShardRow → Option ShardRow
find_shard h [] = none
find_shard h (r ∷ rs) = if h == r.shard_hash then some r else find_shard h rs

abbrev pub update_shard : Hash → (ShardRow → ShardRow) → List ShardRow → List ShardRow
update_shard h f [] = []
update_shard h f (r ∷ rs) = (if h == r.shard_hash then f r else r) ∷ update_shard h f rs

unfoldable pub new_shard : Hash → ℕ → ℕ → Uuid → ShardRow
new_shard h size_bytes user key = record {
  shard_hash = h;
  sia_object_id = none;
  size_bytes = size_bytes;
  owner_user_id = user;
  owner_api_key_id = key;
  pin_state = pinning;
  pin_attempts = 0;
  last_pin_attempt_at = none;
}

-- Statement (1) of `insert_shard_with_reconstruction`.
unfoldable pub insert_shard_row : Hash → ℕ → ℕ → Uuid → Db → Bool × Db
unfolding new_shard
insert_shard_row h size_bytes user key d =
    if is_none (find_shard h d.shards)
    then (true, record d { shards = d.shards ++ new_shard h size_bytes user key ∷ [] })
    else (false, d)

-- Statement (2) for one file: `ON CONFLICT (file_id) DO UPDATE` of the sha256 alone.
unfoldable pub upsert_file : Hash → ParsedFile → List FileRow → List FileRow
upsert_file shard f [] =
    record { file_id = f.file_id; shard_hash = shard; total_size = f.total_size; sha256 = f.sha256 }
    ∷ []
upsert_file shard f (r ∷ rs) =
    if f.file_id == r.file_id
    then record r { sha256 = coalesce f.sha256 r.sha256 } ∷ rs
    else r ∷ upsert_file shard f rs

unfoldable pub upsert_files : Hash → List ParsedFile → List FileRow → List FileRow
unfolding upsert_file
upsert_files shard [] rows = rows
upsert_files shard (f ∷ fs) rows = upsert_files shard fs (upsert_file shard f rows)

-- Postgres refuses `DO UPDATE` where one statement proposes a key twice.
abbrev pub repeats : List ParsedFile → Bool
repeats [] = false
repeats (f ∷ fs) = contains f.file_id (map (λ g. g.file_id) fs) || repeats fs

-- Statement (3) for one term: `ON CONFLICT (file_id, term_index) DO NOTHING`.
unfoldable pub insert_term : ParsedTerm → List TermRow → List TermRow
insert_term t [] =
    record {
      file_id = t.file_id;
      term_index = t.term_index;
      xorb_hash = t.xorb_hash;
      xorb_start = t.xorb_start;
      xorb_end = t.xorb_end;
      xorb_byte_start = t.xorb_byte_start;
      xorb_byte_end = t.xorb_byte_end;
      unpacked_start = t.unpacked_start;
      unpacked_end = t.unpacked_end;
    }
    ∷ []
insert_term t (r ∷ rs) =
    if t.file_id == r.file_id && t.term_index == r.term_index then r ∷ rs else r ∷ insert_term t rs

unfoldable pub insert_terms : List ParsedTerm → List TermRow → List TermRow
unfolding insert_term
insert_terms [] rows = rows
insert_terms (t ∷ ts) rows = insert_terms ts (insert_term t rows)

-- Statements (2) and (3), each left out where there is nothing to insert.
unfoldable pub insert_files : Hash → List ParsedFile → M (Unit {0})
unfolding upsert_files
insert_files shard files =
    if is_empty files
    then pure tt
    else if repeats files
    then throw db
    else query λ d.
      (tt, record d { reconstruction_files = upsert_files shard files d.reconstruction_files })

unfoldable pub insert_term_rows : List ParsedTerm → M (Unit {0})
unfolding insert_terms
insert_term_rows terms =
    if is_empty terms
    then pure tt
    else query
        λ d. (tt, record d { reconstruction_terms = insert_terms terms d.reconstruction_terms })

unfoldable pub insert_shard_with_reconstruction :
    Hash → ℕ → ℕ → Uuid → List ParsedFile → List ParsedTerm → M Bool
unfolding insert_shard_row insert_files insert_term_rows
insert_shard_with_reconstruction h size_bytes user key files terms = do
  fresh ← query (insert_shard_row h size_bytes user key)
  if fresh then (insert_files h files >> insert_term_rows terms >> pure true) else pure false

-- The statement of `set_pin_state`, at the time `now`.
unfoldable pub stamp_shard : ℕ → XorbPinState → Option Bytes → ShardRow → ShardRow
stamp_shard now state sia_object_id r = record r {
  pin_state = state;
  sia_object_id = coalesce sia_object_id r.sia_object_id;
  pin_attempts = r.pin_attempts + 1;
  last_pin_attempt_at = some now;
}

unfoldable pub set_pin_state : Hash → XorbPinState → Option Bytes → M (Unit {0})
unfolding stamp_shard
set_pin_state h state sia_object_id w =
    query
      (λ d. (
        tt,
        record d { shards = update_shard h (stamp_shard w.now_ms state sia_object_id) d.shards },
      ))
      w

abbrev pub is_orphaned : XorbPinState → Bool
is_orphaned orphaned = true
is_orphaned _ = false

-- The statement of `revive_orphaned_xorbs`: the rows, and how many were touched.
unfoldable pub revive : List Hash → List XorbRow → ℕ × List XorbRow
revive hs [] = (0, [])
revive hs (r ∷ rs) =
    let (n, rows) = revive hs rs in
    if contains r.xorb_merkle_hash hs && is_orphaned r.pin_state
    then (
      n + 1,
      record r { pin_state = pinning; pin_attempts = 0; last_pin_attempt_at = none } ∷ rows,
    )
    else (n, r ∷ rows)

unfoldable pub revive_orphaned_xorbs : List Hash → M ℕ
unfolding revive
revive_orphaned_xorbs hs =
    if is_empty hs
    then pure 0
    else query λ d. let (n, rows) = revive hs d.xorbs in (n, record d { xorbs = rows })

unfoldable pub exists_pinned : Hash → M Bool
exists_pinned h =
    query λ d. (elim (find_shard h d.shards) [ none ↦ false | some r ↦ is_pinned r.pin_state ], d)

abbrev pub is_uploading : XorbPinState → Bool
is_uploading uploading = true
is_uploading _ = false

abbrev pub has_body : Hash → List (Hash × Bytes) → Bool
has_body h [] = false
has_body h ((k, b) ∷ m) = h == k || has_body h m

-- The statement of `which_xorbs_are_pinned`, which takes every state but 'uploading', and wants the
-- body.
unfoldable pub known_xorbs : List Hash → List (Hash × Bytes) → List XorbRow → List Hash
known_xorbs hs bodies [] = []
known_xorbs hs bodies (r ∷ rs) =
    let rest = known_xorbs hs bodies rs in
    if contains r.xorb_merkle_hash hs
      && (has_body r.xorb_merkle_hash bodies && (if is_uploading r.pin_state then false else true))
    then r.xorb_merkle_hash ∷ rest
    else rest

unfoldable pub which_xorbs_are_pinned : List Hash → M (List Hash)
unfolding known_xorbs
which_xorbs_are_pinned hs =
    if is_empty hs then pure [] else query λ d. (known_xorbs hs d.xorb_bodies d.xorbs, d)

-- usage_log.rs: an `INSERT` of one row, on the pool or in a transaction.
abbrev pub log_usage : UsageRow → M (Unit {0})
log_usage row = query λ d. (tt, record d { usage_log = d.usage_log ++ row ∷ [] })

unfoldable pub record_xorb_upload : AuthContext → Hash → ℕ → M (Unit {0})
record_xorb_upload ctx h bytes = log_usage (record {
  event = xorb_upload;
  api_key_id = ctx.api_key_id;
  user_id = ctx.user_id;
  xorb_hash = some h;
  shard_hash = none;
  file_id = none;
  bytes = some bytes;
})

unfoldable pub record_shard_upload : AuthContext → Hash → ℕ → M (Unit {0})
record_shard_upload ctx h bytes = log_usage (record {
  event = shard_upload;
  api_key_id = ctx.api_key_id;
  user_id = ctx.user_id;
  xorb_hash = none;
  shard_hash = some h;
  file_id = none;
  bytes = some bytes;
})

unfoldable pub record_reconstruction : AuthContext → Hash → M (Unit {0})
record_reconstruction ctx file_id = log_usage (record {
  event = reconstruction;
  api_key_id = ctx.api_key_id;
  user_id = ctx.user_id;
  xorb_hash = none;
  shard_hash = none;
  file_id = some file_id;
  bytes = none;
})
