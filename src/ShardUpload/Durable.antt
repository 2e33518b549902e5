-- ===== src/ShardUpload/Durable.antt =====
-- `upload_shard` and the rule that a pinned row has the id of its Sia object.
use open_weights.Base.{
  ℕ, ◌≡◌, Bool, true, false, Option, none, some, subst, ap, List, [], map, ◌⊎◌, inl, inr, length,
  ltb, if◌then◌else◌, Str, arith,
}
use mathlib.Core.Option.{none-ne-some}
use open_weights.Coalesce.{Hash}
use open_weights.ShardParse.{Bytes, Readers, ParsedShard, Parse, is_empty, parse_and_validate}
use open_weights.RateLimit.{RateLimitDefaults, RateLimitClass}
use open_weights.Store.{
  AuthContext, AppError, World, Result, ok, err, Db, SiaReply, accepted, refused, timed_out,
  unavailable, other_failure, other, pinned, pinning, M, pure, throw, ignore, query, ◌>>◌, check,
  upload_and_pin, bad_request,
}
use open_weights.Store.Xorbs.{get_chunk_boundaries, boundaries_of}
use open_weights.Store.Shards.{
  set_pin_state, record_shard_upload, insert_shard_with_reconstruction, revive_orphaned_xorbs,
  which_xorbs_are_pinned, known_xorbs,
}
use open_weights.Store.Preserves.{
  Preserves, run-Preserves, read-Preserves, pure-Preserves, throw-Preserves, bind-Preserves,
  if-Preserves, ignore-Preserves, check-Preserves, upload_and_pin-Preserves,
}
use open_weights.Store.Durable.{
  IsDurable, set_shard_state-IsDurable, insert_shard-IsDurable, log_usage-IsDurable,
  revive_orphaned_xorbs-IsDurable,
}
use open_weights.ShardUpload.{
  UploadShardResponseType, exists, sync_performed, transaction, unanswered, commit,
  insert_and_meter, settle_shard, pin_shard, answer_known, store_shard, commit_shard,
  check_and_store, upload_shard, shard_of, correct_term, missing_of, max_shard_bytes,
}

unanswered-Preserves :
    (A : Type 0) (P : Db → Type 0) (before : Db) (w : World)
    → P before
    → P w.tables
    → P ((unanswered {A = A} before w).1).tables
unanswered-Preserves A P before w p q = ground (arith, p, q)

commit-Preserves :
    {A : Type 0} (P : Db → Type 0) (before : Db) (a : A) (w : World)
    → P before
    → P w.tables
    → P ((commit before a w).1).tables
commit-Preserves P before a w p q = ground (arith, p, q)

end_transaction :
    {A : Type 0} (P : Db → Type 0) (w : World) (r : Result A × World)
    → P w.tables
    → P (r.1).tables
    → P (
        ((elim r.0 as (λ _. Result A × World) [
          | ok a ↦ commit w.tables a r.1
          | err e ↦ (err e, record (r.1) { tables = w.tables })
        ]).1
        ).tables)
end_transaction P w (ok a, w') p q = commit-Preserves P w.tables a w' p q
end_transaction P w (err e, w') p q = p

pub transaction-Preserves :
    {A : Type 0} (P : Db → Type 0) (m : M A) → Preserves P m → Preserves P (transaction m)
unfolding transaction Preserves
transaction-Preserves {A = A} P m h w p = end_transaction P w ((query (λ d. (tt, d)) >> m) w) p (
    run-Preserves P (query (λ d. (tt, d)) >> m)
      (bind-Preserves P (query (λ d. (tt, d))) (λ _. m) (read-Preserves P λ d. tt) λ _. h) w p)

module _ (ctx : AuthContext) (h : Hash) (size : ℕ) where
  record_shard_upload-IsDurable : Preserves IsDurable (record_shard_upload ctx h size)
  unfolding record_shard_upload
  record_shard_upload-IsDurable = log_usage-IsDurable _

  insert_and_meter-IsDurable :
      (p : ParsedShard) → Preserves IsDurable (insert_and_meter ctx h size p)
  unfolding insert_and_meter
  insert_and_meter-IsDurable p =
      bind-Preserves IsDurable
        (insert_shard_with_reconstruction h size ctx.user_id ctx.api_key_id p.files p.terms) _
        (insert_shard-IsDurable h size ctx.user_id ctx.api_key_id p.files p.terms)
        λ was.
          if-Preserves IsDurable was _ _
            (bind-Preserves IsDurable (record_shard_upload ctx h size) (λ _. pure true)
              record_shard_upload-IsDurable λ _. pure-Preserves IsDurable true)
            (pure-Preserves IsDurable false)

  commit_shard-IsDurable :
      (bs : List (Hash × List ℕ)) (p : ParsedShard)
      → Preserves IsDurable (commit_shard ctx h size bs p)
  unfolding commit_shard
  commit_shard-IsDurable bs p =
      transaction-Preserves IsDurable
        (insert_and_meter ctx h size (record p { terms = map (correct_term bs) p.terms }))
        (insert_and_meter-IsDurable (record p { terms = map (correct_term bs) p.terms }))

  answer_known-IsDurable : Preserves IsDurable (answer_known ctx h size)
  unfolding answer_known
  answer_known-IsDurable =
      bind-Preserves IsDurable (ignore (record_shard_upload ctx h size)) _
        (ignore-Preserves IsDurable _ record_shard_upload-IsDurable)
        λ _. pure-Preserves IsDurable exists

module _ (h : Hash) where
  pending-IsDurable : Preserves IsDurable (ignore (set_pin_state h pinning none))
  pending-IsDurable =
      ignore-Preserves IsDurable _ (set_shard_state-IsDurable h pinning none (ground arith))

  settle_shard-IsDurable : (reply : SiaReply) → Preserves IsDurable (settle_shard h reply)
  unfolding settle_shard
  settle_shard-IsDurable (accepted oid) =
      bind-Preserves IsDurable (set_pin_state h pinned (some oid)) _
        (set_shard_state-IsDurable h pinned (some oid) (ground arith))
        λ _. pure-Preserves IsDurable sync_performed
  settle_shard-IsDurable (refused unavailable) =
      bind-Preserves IsDurable (ignore (set_pin_state h pinning none)) _ pending-IsDurable
        λ _. pure-Preserves IsDurable sync_performed
  settle_shard-IsDurable (refused other_failure) =
      bind-Preserves IsDurable (ignore (set_pin_state h pinning none)) _ pending-IsDurable
        λ _. throw-Preserves IsDurable _ other
  settle_shard-IsDurable timed_out =
      bind-Preserves IsDurable (ignore (set_pin_state h pinning none)) _ pending-IsDurable
        λ _. pure-Preserves IsDurable sync_performed

get_chunk_boundaries-IsDurable : (hs : List Hash) → Preserves IsDurable (get_chunk_boundaries hs)
unfolding get_chunk_boundaries
get_chunk_boundaries-IsDurable hs =
    if-Preserves IsDurable (is_empty hs) _ _ (pure-Preserves IsDurable [])
      (read-Preserves IsDurable λ d. boundaries_of hs d.xorbs)

which_xorbs_are_pinned-IsDurable :
    (hs : List Hash) → Preserves IsDurable (which_xorbs_are_pinned hs)
unfolding which_xorbs_are_pinned
which_xorbs_are_pinned-IsDurable hs =
    if-Preserves IsDurable (is_empty hs) _ _ (pure-Preserves IsDurable [])
      (read-Preserves IsDurable λ d. known_xorbs hs d.xorb_bodies d.xorbs)

module _ (d : RateLimitDefaults) (ctx : AuthContext) (h : Hash) (body : Bytes) where
  pin_shard-IsDurable : Preserves IsDurable (pin_shard h body)
  unfolding pin_shard
  pin_shard-IsDurable =
      bind-Preserves IsDurable (upload_and_pin body) _ (upload_and_pin-Preserves IsDurable body)
        (settle_shard-IsDurable h)

  store_shard-IsDurable : (p : ParsedShard) → Preserves IsDurable (store_shard d ctx h body p)
  unfolding store_shard
  store_shard-IsDurable p =
      bind-Preserves IsDurable (get_chunk_boundaries p.referenced_xorb_hashes) _
        (get_chunk_boundaries-IsDurable p.referenced_xorb_hashes)
        λ bs.
          bind-Preserves IsDurable (check d RateLimitClass.upload ctx.api_key_id) _
            (check-Preserves IsDurable d _ ctx.api_key_id)
            λ _.
              bind-Preserves IsDurable (commit_shard ctx h (length body) bs p) _
                (commit_shard-IsDurable ctx h (length body) bs p)
                λ was.
                  if-Preserves IsDurable was _ _ pin_shard-IsDurable
                    (answer_known-IsDurable ctx h (length body))

  check_and_store-IsDurable :
      (p : ParsedShard) → Preserves IsDurable (check_and_store d ctx h body p)
  unfolding check_and_store
  check_and_store-IsDurable p =
      bind-Preserves IsDurable (revive_orphaned_xorbs p.referenced_xorb_hashes) _
        (revive_orphaned_xorbs-IsDurable p.referenced_xorb_hashes)
        λ _.
          bind-Preserves IsDurable (which_xorbs_are_pinned p.referenced_xorb_hashes) _
            (which_xorbs_are_pinned-IsDurable p.referenced_xorb_hashes)
            λ present.
              if-Preserves IsDurable (is_empty (missing_of present p.referenced_xorb_hashes)) _ _
                (store_shard-IsDurable p) (throw-Preserves IsDurable _ _)

  shard-IsDurable :
      (r : AppError ⊎ ParsedShard)
      → Preserves IsDurable (elim r as (λ _. M UploadShardResponseType) [
        | inl e ↦ throw e
        | inr p ↦ check_and_store d ctx h body p
      ])
  shard-IsDurable (inl e) = throw-Preserves IsDurable _ e
  shard-IsDurable (inr p) = check_and_store-IsDurable p

module _ (d : RateLimitDefaults) (ctx : AuthContext) (h : Hash) (body : Bytes) where
  abbrev run_of : Option (M UploadShardResponseType) → M UploadShardResponseType
  run_of none = throw other
  run_of (some m) = m

  handler-IsDurable :
      (too_large : Bool) (parsed : Option (Parse ParsedShard)) (m : M UploadShardResponseType)
      → (if too_large
          then some (throw (bad_request "shard_too_large"))
          else elim parsed as (λ _. Option (M UploadShardResponseType)) [
            | none ↦ none
            | some r ↦
                some
                  (elim (shard_of r) [ inl e ↦ throw e | inr p ↦ check_and_store d ctx h body p ])
          ])
        ≡ some m
      → Preserves IsDurable m
  handler-IsDurable true parsed m e =
      subst (Preserves IsDurable) (ap run_of e)
        (throw-Preserves IsDurable UploadShardResponseType (bad_request "shard_too_large"))
  handler-IsDurable false none m e = absurd (none-ne-some m e)
  handler-IsDurable false (some r) m e =
      subst (Preserves IsDurable) (ap run_of e) (shard-IsDurable d ctx h body (shard_of r))

-- An upload of a shard, whatever fails in it and whatever the adapter answers, leaves every pinned row
-- of both tables with the id of its Sia object, where every pinned row had one. The parser is run on
-- any fuel that is enough.
pub upload_shard-IsDurable :
    (hex : Hash → Str) (readers : Readers) (fuel : ℕ) (sha256 : Bytes → Hash)
    (d : RateLimitDefaults) (ctx : AuthContext) (body : Bytes) (m : M UploadShardResponseType)
    → upload_shard hex readers fuel sha256 d ctx body ≡ some m
    → (w : World) → IsDurable w.tables
    → IsDurable ((m w).1).tables
unfolding upload_shard
upload_shard-IsDurable hex readers fuel sha256 d ctx body m e = run-Preserves IsDurable m (
    handler-IsDurable d ctx (sha256 body) body (ltb max_shard_bytes (length body))
      (parse_and_validate hex readers fuel body) m e)
