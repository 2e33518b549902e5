-- ===== src/Reconciler/Shards.antt =====
-- The shard half of reconciler.rs, which has no body to upload again.
use open_weights.Base.{
  ℕ, ◌+◌, Bool, true, Option, none, some, List, [], ◌∷◌, leb, take, if◌then◌else◌,
}
use open_weights.Coalesce.{Hash}
use open_weights.ShardParse.{Bytes}
use open_weights.Store.{
  pinned, orphaned, ShardRow, SiaAdapterError, unavailable, other_failure, accepted, refused,
  timed_out, M, pure, query, ◌>>=◌, ◌>>◌, pin_only,
}
use open_weights.Store.Xorbs.{coalesce, is_pinned}
use open_weights.Store.Shards.{update_shard}
use open_weights.Reconciler.Common.{
  StuckRow, is_stuck, is_uploading, is_transient, sort_by_age, rows_of, reconciler_batch,
  max_pin_attempts, inc_orphaned_shard,
}

unfoldable pub stuck_shards : ℕ → List ShardRow → List (Option ℕ × StuckRow)
unfolding is_stuck
stuck_shards now [] = []
stuck_shards now (r ∷ rs) =
    let rest = stuck_shards now rs in
    if is_stuck now r.pin_state r.last_pin_attempt_at r.pin_attempts
    then (
      r.last_pin_attempt_at,
      record {
        hash = r.shard_hash;
        sia_object_id = r.sia_object_id;
        pin_state = r.pin_state;
        pin_attempts = r.pin_attempts;
      },
    )
      ∷ rest
    else rest

unfoldable pub fetch_stuck_shards : M (List StuckRow)
unfolding stuck_shards
fetch_stuck_shards w =
    query (λ d. (take reconciler_batch (rows_of (sort_by_age (stuck_shards w.now_ms d.shards))), d))
      w

abbrev pub update : Hash → (ℕ → ShardRow → ShardRow) → M (Unit {0})
update h f w = query (λ d. (tt, record d { shards = update_shard h (f w.now_ms) d.shards })) w

unfoldable pub pin_row : Bytes → ℕ → ShardRow → ShardRow
pin_row sia_id now r = if is_pinned r.pin_state then r else record r {
  pin_state = pinned;
  sia_object_id = coalesce r.sia_object_id (some sia_id);
  last_pin_attempt_at = some now;
}

unfoldable pub orphan_row : ℕ → ShardRow → ShardRow
orphan_row now r = record r {
  pin_state = orphaned;
  pin_attempts = r.pin_attempts + 1;
  last_pin_attempt_at = some now;
}

unfoldable pub touch_row : ℕ → ShardRow → ShardRow
touch_row now r = record r { last_pin_attempt_at = some now }

unfoldable pub count_row : ℕ → ShardRow → ShardRow
count_row now r = record r { pin_attempts = r.pin_attempts + 1; last_pin_attempt_at = some now }

unfoldable pub set_pinned_shard : Hash → Bytes → M (Unit {0})
unfolding pin_row
set_pinned_shard h sia_id = update h (pin_row sia_id)

unfoldable pub orphan_shard : Hash → M (Unit {0})
unfolding orphan_row
orphan_shard h = update h orphan_row

unfoldable pub bump_shard_attempt : Hash → ℕ → SiaAdapterError → M Bool
unfolding orphan_shard touch_row count_row inc_orphaned_shard
bump_shard_attempt h prior_attempts e =
    if is_transient e
    then (update h touch_row >> pure true)
    else if leb max_pin_attempts (prior_attempts + 1)
    then (orphan_shard h >> inc_orphaned_shard >> pure true)
    else (update h count_row >> pure true)

-- The arm for a row that has its object id; a timeout counts as transient.
unfoldable pub retry_pin : StuckRow → Bytes → M Bool
unfolding set_pinned_shard bump_shard_attempt
retry_pin row oid = do
  reply ← pin_only
  elim reply [
    | accepted _ ↦ set_pinned_shard row.hash oid >> pure true
    | refused e ↦ bump_shard_attempt row.hash row.pin_attempts e
    | timed_out ↦ bump_shard_attempt row.hash row.pin_attempts unavailable
  ]

unfoldable pub reconcile_shard_row : StuckRow → M Bool
unfolding orphan_shard inc_orphaned_shard retry_pin bump_shard_attempt
reconcile_shard_row row =
    if is_uploading row.pin_state
    then (orphan_shard row.hash >> inc_orphaned_shard >> pure true)
    else elim row.sia_object_id [
      | some oid ↦ retry_pin row oid
      | none ↦ bump_shard_attempt row.hash row.pin_attempts other_failure
    ]
