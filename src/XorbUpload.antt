-- ===== src/XorbUpload.antt =====
-- cas/crates/openweights-cas-core/src/handlers/xorbs.rs. xet-core's codecs are the record
-- `XorbCodec`; the extractor has already let `ctx` pass.
pub mod Walk
pub mod Durable
pub mod Tiles
mod Tests
use open_weights.Base.{
  ℕ, ◌+◌, ◌-◌, Bool, true, false, not, ◌||◌, Option, none, some, List, [], ◌∷◌, ◌++◌, ◌==◌, ltb,
  length, take, drop, if◌then◌else◌, Str, ◌⊎◌, inl, inr,
}
use open_weights.Coalesce.{Hash}
use open_weights.ShardParse.{Bytes, is_empty}
use open_weights.RateLimit.{RateLimitClass, RateLimitDefaults}
use open_weights.Store.{
  AuthContext, bad_request, hash_mismatch, other, pinning, pinned, SiaReply, accepted, refused,
  timed_out, unavailable, other_failure, M, pure, throw, ◌>>=◌, ◌>>◌, ignore, query, check,
  upload_and_pin,
}
use open_weights.Store.Xorbs.{insert_pending, set_pin_state}
use open_weights.Store.Shards.{has_body, record_xorb_upload}
use open_weights.XorbUpload.Walk.{walk_chunk_boundaries}

abbrev pub max_xorb_bytes : ℕ
max_xorb_bytes = 67112960

-- What the handler reads of `XorbObject::info`.
pub record XorbInfo : Type 0 where
  pub chunk_hashes : List Hash
  pub unpacked_chunk_offsets : List ℕ
  pub chunk_boundary_offsets : List ℕ

-- `MerkleHash::from_hex`, `XorbObject::deserialize`, `xorb_hash`, and the compressed length that
-- `parse_chunk_header` finds.
pub record XorbCodec : Type 0 where
  pub from_hex : Str → Option Hash
  pub deserialize : Bytes → Option XorbInfo
  pub xorb_hash : List (Hash × ℕ) → Hash
  pub parse_chunk_header : Bytes → Option ℕ

pub record UploadXorbResponse : Type 0 where
  pub was_inserted : Bool

-- The loop of `compute_xorb_hash_and_boundaries`, from the offset `prev_off`.
unfoldable pub hashes_and_lens : ℕ → List Hash → List ℕ → Option (List (Hash × ℕ))
hashes_and_lens prev_off (h ∷ hs) (off ∷ offs) =
    let rest = hashes_and_lens off hs offs in
    if ltb off prev_off
    then none
    else elim rest [ none ↦ none | some ls ↦ some ((h, off - prev_off) ∷ ls) ]
hashes_and_lens prev_off _ _ = some []

-- Its part after `deserialize`; `none` is `malformed_xorb`.
unfoldable pub hash_of_info : XorbCodec → XorbInfo → Option (Hash × List ℕ)
unfolding hashes_and_lens
hash_of_info codec info =
    let num_chunks = length info.chunk_hashes in
    if num_chunks == 0
    then some (codec.xorb_hash [], [])
    else if not (length info.unpacked_chunk_offsets == num_chunks)
        || not (length info.chunk_boundary_offsets == num_chunks)
    then none
    else elim (hashes_and_lens 0 info.chunk_hashes info.unpacked_chunk_offsets) [
      | none ↦ none
      | some ls ↦ some (codec.xorb_hash ls, info.chunk_boundary_offsets)
    ]

unfoldable pub compute_xorb_hash_and_boundaries : XorbCodec → Bytes → Option (Hash × List ℕ)
unfolding hash_of_info
compute_xorb_hash_and_boundaries codec bytes = elim (codec.deserialize bytes) [
  | none ↦ none
  | some info ↦ hash_of_info codec info
]

-- The insert into `xorb_bodies`, `ON CONFLICT DO NOTHING`.
unfoldable pub insert_body : Hash → Bytes → M (Unit {0})
insert_body h bytes = query λ d. (
  tt,
  if has_body h d.xorb_bodies
      then d
      else record d { xorb_bodies = d.xorb_bodies ++ (h, bytes) ∷ [] },
)

-- Step (7) on the adapter's reply.
unfoldable pub settle_xorb : AuthContext → Hash → ℕ → SiaReply → M UploadXorbResponse
unfolding set_pin_state record_xorb_upload
settle_xorb ctx h size (accepted sia_object_id) =
    set_pin_state h pinned (some sia_object_id)
    >> ignore (record_xorb_upload ctx h size)
    >> pure (record { was_inserted = true })
settle_xorb ctx h size (refused unavailable) =
    ignore (set_pin_state h pinning none)
    >> ignore (record_xorb_upload ctx h size)
    >> pure (record { was_inserted = true })
settle_xorb ctx h size (refused other_failure) =
    ignore (set_pin_state h pinning none) >> throw other
settle_xorb ctx h size timed_out =
    ignore (set_pin_state h pinning none)
    >> ignore (record_xorb_upload ctx h size)
    >> pure (record { was_inserted = true })

-- Steps (6a) and (7), for a xorb that was not known.
unfoldable pub pin_body : AuthContext → Hash → Bytes → M UploadXorbResponse
unfolding insert_body settle_xorb
pin_body ctx h body = do
  ignore (insert_body h body)
  reply ← upload_and_pin body
  settle_xorb ctx h (length body) reply

-- The dedup path.
unfoldable pub answer_known : AuthContext → Hash → Bytes → M UploadXorbResponse
unfolding record_xorb_upload
answer_known ctx h body =
    ignore (record_xorb_upload ctx h (length body)) >> pure (record { was_inserted = false })

-- Steps (5) to (9), for a body that passed the checks.
unfoldable pub store_xorb :
    RateLimitDefaults → AuthContext → Hash → Bytes → List ℕ → M UploadXorbResponse
unfolding insert_pending pin_body answer_known
store_xorb d ctx h body boundaries = do
  check d RateLimitClass.upload ctx.api_key_id
  was_inserted ← insert_pending h (length body) ctx.user_id ctx.api_key_id boundaries
  if was_inserted then pin_body ctx h body else answer_known ctx h body

-- Steps (3) and (4) on what the footer gave: another hash, or the boundaries, walked where there
-- are none.
unfoldable pub verify_body : XorbCodec → Hash → Bytes → Option (Hash × List ℕ) → Hash ⊎ List ℕ
unfolding walk_chunk_boundaries
verify_body codec expected body none = inr (walk_chunk_boundaries codec.parse_chunk_header body)
verify_body codec expected body (some (actual, boundaries)) =
    if not (actual == expected)
    then inl actual
    else inr (
        if is_empty boundaries
        then walk_chunk_boundaries codec.parse_chunk_header body
        else boundaries)

-- The hash of the path, whose prefix counts where the suffix alone is not a hash.
unfoldable pub parse_path : XorbCodec → Str → Str → Option Hash
parse_path codec prefix suffix = elim (codec.from_hex suffix) [
  | some h ↦ some h
  | none ↦ codec.from_hex (prefix ++ suffix)
]

unfoldable pub upload_xorb :
    XorbCodec → RateLimitDefaults → AuthContext → Str → Str → Bytes → M UploadXorbResponse
unfolding parse_path compute_xorb_hash_and_boundaries verify_body store_xorb
upload_xorb codec d ctx prefix suffix body = elim (parse_path codec prefix suffix) [
  | none ↦ throw (bad_request "invalid_xorb_hash")
  | some expected ↦
      if ltb max_xorb_bytes (length body)
      then throw (bad_request "xorb_too_large")
      else elim (verify_body codec expected body (compute_xorb_hash_and_boundaries codec body)) [
        | inl actual ↦ throw (hash_mismatch expected actual)
        | inr boundaries ↦ store_xorb d ctx expected body boundaries
      ]
]
