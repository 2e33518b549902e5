-- ===== src/ShardUpload.antt =====
-- cas/crates/openweights-cas-core/src/handlers/shards.rs. The digest SHA-256 and xet-core's readers
-- are parameters; the extractor has already let `ctx` pass.
pub mod Durable
pub mod Physical
pub mod Atomic
mod Tests
use open_weights.Base.{
  ℕ, ◌+◌, ◌-◌, Bool, true, false, not, ◌||◌, Option, none, some, List, [], ◌∷◌, map, ◌==◌, ltb, leb,
  length, get_or, ◌⊎◌, inl, inr, if◌then◌else◌, Str,
}
use open_weights.Coalesce.{Hash}
use open_weights.ShardParse.{
  Bytes, is_empty, Readers, Parse, ParsedTerm, ParsedShard, ShardParseError, header_version,
  footer_version, parse_and_validate,
}
use open_weights.ShardParse.References.{contains}
use open_weights.RateLimit.{RateLimitClass, RateLimitDefaults}
use open_weights.Store.{
  AuthContext, AppError, bad_request, shard_version_unsupported, shard_missing_xorbs, other,
  pinning, pinned, SiaReply, accepted, refused, timed_out, unavailable, other_failure, World, Db,
  db, next_fault, ok, err, M, pure, throw, ◌>>=◌, ◌>>◌, ignore, query, check, upload_and_pin,
}
use open_weights.Store.Xorbs.{get_chunk_boundaries}
use open_weights.Store.Shards.{
  insert_shard_with_reconstruction, set_pin_state, revive_orphaned_xorbs, which_xorbs_are_pinned,
  record_shard_upload,
}

abbrev pub max_shard_bytes : ℕ
max_shard_bytes = 16777216

pub data UploadShardResponseType : Type 0 where
  exists sync_performed : UploadShardResponseType

-- `map_parse_err_with_metrics`, without its counter.
unfoldable pub map_parse_err : ShardParseError → AppError
map_parse_err (header_version v) = shard_version_unsupported
map_parse_err (footer_version v) = shard_version_unsupported
map_parse_err _ = bad_request "malformed_shard"

-- A shard whose version is not supported is kept without a reconstruction.
abbrev pub opaque_shard : ParsedShard
opaque_shard = record {
  header_version = 0;
  footer_version = 0;
  referenced_xorb_hashes = [];
  files = [];
  terms = [];
}

-- Step (4): what the handler makes of the parser's answer.
unfoldable pub shard_of : Parse ParsedShard → AppError ⊎ ParsedShard
unfolding map_parse_err
shard_of (Parse.ok p) = inr p
shard_of (Parse.err (header_version v)) = inr opaque_shard
shard_of (Parse.err (footer_version v)) = inr opaque_shard
shard_of (Parse.err e) = inl (map_parse_err e)

-- The referenced hashes that are not in `present`.
unfoldable pub missing_of : List Hash → List Hash → List Hash
missing_of present [] = []
missing_of present (h ∷ hs) =
    let rest = missing_of present hs in if contains h present then rest else h ∷ rest

-- Step (6a) for one term of a xorb with the boundaries `bounds`.
unfoldable pub correct_range : List ℕ → ParsedTerm → ParsedTerm
correct_range bounds t =
    if leb t.xorb_end t.xorb_start || ltb (length bounds) t.xorb_end
    then t
    else let phys_start = if t.xorb_start == 0 then 0 else get_or bounds (t.xorb_start - 1) 0 in
      let phys_end = get_or bounds (t.xorb_end - 1) 0 in
      if ltb phys_start phys_end
      then record t { xorb_byte_start = phys_start; xorb_byte_end = phys_end }
      else t

abbrev pub find_boundaries : Hash → List (Hash × List ℕ) → Option (List ℕ)
find_boundaries h [] = none
find_boundaries h ((k, bs) ∷ m) = if h == k then some bs else find_boundaries h m

unfoldable pub correct_term : List (Hash × List ℕ) → ParsedTerm → ParsedTerm
unfolding correct_range
correct_term boundaries t = elim (find_boundaries t.xorb_hash boundaries) [
  | none ↦ t
  | some bounds ↦ correct_range bounds t
]

-- A COMMIT without an answer: the next entry of `faults` says whether the server has done it.
abbrev pub unanswered : {A : Type 0} → Db → M A
unanswered before w =
    let (done, w') = next_fault w in (err db, if done then w' else record w' { tables = before })

-- `tx.commit()`, where `before` are the tables at the start of the transaction.
abbrev pub commit : {A : Type 0} → Db → A → M A
commit before a w =
    let (fails, w') = next_fault w in if fails then unanswered before w' else (ok a, w')

-- `pool.begin()`, the body, and `tx.commit()`; the drop of an open transaction rolls it back.
unfoldable pub transaction : {A : Type 0} → M A → M A
transaction m w =
    let (r, w') = (query (λ d. (tt, d)) >> m) w in
    elim r [ ok a ↦ commit w.tables a w' | err e ↦ (err e, record w' { tables = w.tables }) ]

unfoldable pub insert_and_meter : AuthContext → Hash → ℕ → ParsedShard → M Bool
unfolding insert_shard_with_reconstruction record_shard_upload
insert_and_meter ctx h size p = do
  was_inserted ← insert_shard_with_reconstruction h size ctx.user_id ctx.api_key_id p.files p.terms
  if was_inserted then (record_shard_upload ctx h size >> pure true) else pure false

-- Step (7), on the terms as corrected by step (6a).
unfoldable pub commit_shard : AuthContext → Hash → ℕ → List (Hash × List ℕ) → ParsedShard → M Bool
unfolding transaction insert_and_meter correct_term
commit_shard ctx h size boundaries p =
    transaction
      (insert_and_meter ctx h size (record p { terms = map (correct_term boundaries) p.terms }))

-- Step (9) on the adapter's reply.
unfoldable pub settle_shard : Hash → SiaReply → M UploadShardResponseType
unfolding set_pin_state
settle_shard h (accepted sia_object_id) =
    set_pin_state h pinned (some sia_object_id) >> pure sync_performed
settle_shard h (refused unavailable) = ignore (set_pin_state h pinning none) >> pure sync_performed
settle_shard h (refused other_failure) = ignore (set_pin_state h pinning none) >> throw other
settle_shard h timed_out = ignore (set_pin_state h pinning none) >> pure sync_performed

unfoldable pub pin_shard : Hash → Bytes → M UploadShardResponseType
unfolding settle_shard
pin_shard h body = upload_and_pin body >>= settle_shard h

-- The dedup path (8).
unfoldable pub answer_known : AuthContext → Hash → ℕ → M UploadShardResponseType
unfolding record_shard_upload
answer_known ctx h size = ignore (record_shard_upload ctx h size) >> pure exists

-- Steps (6a) to (9), from the boundaries on.
unfoldable pub store_shard :
    RateLimitDefaults → AuthContext → Hash → Bytes → ParsedShard → M UploadShardResponseType
unfolding get_chunk_boundaries commit_shard pin_shard answer_known
store_shard d ctx h body p = do
  boundaries ← get_chunk_boundaries p.referenced_xorb_hashes
  check d RateLimitClass.upload ctx.api_key_id
  was_inserted ← commit_shard ctx h (length body) boundaries p
  if was_inserted then pin_shard h body else answer_known ctx h (length body)

-- Step (5), then the rest.
unfoldable pub check_and_store :
    RateLimitDefaults → AuthContext → Hash → Bytes → ParsedShard → M UploadShardResponseType
unfolding revive_orphaned_xorbs which_xorbs_are_pinned missing_of store_shard
check_and_store d ctx h body p = do
  revived ← revive_orphaned_xorbs p.referenced_xorb_hashes
  present ← which_xorbs_are_pinned p.referenced_xorb_hashes
  let missing = missing_of present p.referenced_xorb_hashes
  if is_empty missing then store_shard d ctx h body p else throw (shard_missing_xorbs missing)

-- `none` means that the parser's fuel ran out.
unfoldable pub upload_shard :
    (Hash → Str)
    → Readers
    → ℕ
    → (Bytes → Hash)
    → RateLimitDefaults
    → AuthContext
    → Bytes
    → Option (M UploadShardResponseType)
unfolding parse_and_validate shard_of check_and_store
upload_shard hex readers fuel sha256 d ctx body =
    if ltb max_shard_bytes (length body)
    then some (throw (bad_request "shard_too_large"))
    else elim (parse_and_validate hex readers fuel body) [
      | none ↦ none
      | some parsed ↦ some (elim (shard_of parsed) [
        | inl e ↦ throw e
        | inr p ↦ check_and_store d ctx (sha256 body) body p
      ])
    ]
