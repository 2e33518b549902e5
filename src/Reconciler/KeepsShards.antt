-- ===== src/Reconciler/KeepsShards.antt =====
-- What the four updates of one row of `shards` keep true, `reconcile_shard_row` keeps true.
use open_weights.Base.{ℕ, ◌+◌, Bool, true, Option, none, some, leb}
use open_weights.ShardParse.{Bytes}
use open_weights.Store.{
  Db, ShardRow, M, SiaAdapterError, SiaReply, accepted, refused, timed_out, other_failure,
  unavailable, pure, ◌>>◌,
}
use open_weights.Store.Shards.{update_shard}
use open_weights.Store.Preserves.{
  Preserves, query-Preserves, pure-Preserves, bind-Preserves, if-Preserves, pin_only-Preserves,
}
use open_weights.Reconciler.Common.{StuckRow, is_uploading, is_transient, max_pin_attempts}
use open_weights.Reconciler.Shards
use open_weights.Reconciler.Preserves.{KeepsShard, inc_orphaned_shard-Preserves}

module _ (P : Db → Type 0) (row : StuckRow)
    (pins : (sia_id : Bytes) → KeepsShard P row.hash (Shards.pin_row sia_id))
    (orphans : KeepsShard P row.hash Shards.orphan_row)
    (touches : KeepsShard P row.hash Shards.touch_row)
    (counts : KeepsShard P row.hash Shards.count_row) where
  update-Preserves :
      (f : ℕ → ShardRow → ShardRow)
      → KeepsShard P row.hash f
      → Preserves P (Shards.update row.hash f)
  unfolding Preserves
  update-Preserves f k w p =
      query-Preserves P
        (λ d. (tt, record d { shards = update_shard row.hash (f w.now_ms) d.shards })) (k w.now_ms)
        w p

  bump-Preserves :
      (n : ℕ) (e : SiaAdapterError) → Preserves P (Shards.bump_shard_attempt row.hash n e)
  unfolding Shards.bump_shard_attempt Shards.orphan_shard
  bump-Preserves n e =
      if-Preserves P (is_transient e) _ _
        (bind-Preserves P _ _ (update-Preserves Shards.touch_row touches)
          λ _. pure-Preserves P true)
        (if-Preserves P (leb max_pin_attempts (n + 1)) _ _
          (bind-Preserves P _ _
            (bind-Preserves P _ _ (update-Preserves Shards.orphan_row orphans)
              λ _. inc_orphaned_shard-Preserves P)
            λ _. pure-Preserves P true)
          (bind-Preserves P _ _ (update-Preserves Shards.count_row counts)
            λ _. pure-Preserves P true))

  set_pinned-Preserves :
      (sia_id : Bytes) → Preserves P (Shards.set_pinned_shard row.hash sia_id >> pure true)
  unfolding Shards.set_pinned_shard
  set_pinned-Preserves sia_id =
      bind-Preserves P _ _ (update-Preserves (Shards.pin_row sia_id) (pins sia_id))
        λ _. pure-Preserves P true

  -- The arms on the adapter's reply.
  reply-Preserves :
      (n : ℕ) (pin : Bytes → M Bool) (timeout : SiaAdapterError)
      → ((b : Bytes) → Preserves P (pin b))
      → (reply : SiaReply)
      → Preserves P (elim reply as (λ _. M Bool) [
        | accepted b ↦ pin b
        | refused e ↦ Shards.bump_shard_attempt row.hash n e
        | timed_out ↦ Shards.bump_shard_attempt row.hash n timeout
      ])
  reply-Preserves n pin timeout k (accepted b) = k b
  reply-Preserves n pin timeout k (refused e) = bump-Preserves n e
  reply-Preserves n pin timeout k timed_out = bump-Preserves n timeout

  retry_pin-Preserves : (oid : Bytes) → Preserves P (Shards.retry_pin row oid)
  unfolding Shards.retry_pin
  retry_pin-Preserves oid =
      (bind-Preserves P _ _ (pin_only-Preserves P)
        (reply-Preserves row.pin_attempts _ unavailable λ _. set_pinned-Preserves oid))

  pinning-Preserves :
      (oid : Option Bytes)
      → Preserves P (elim oid as (λ _. M Bool) [
        | some b ↦ Shards.retry_pin row b
        | none ↦ Shards.bump_shard_attempt row.hash row.pin_attempts other_failure
      ])
  pinning-Preserves (some oid) = retry_pin-Preserves oid
  pinning-Preserves none = bump-Preserves row.pin_attempts other_failure

  pub reconcile_shard_row-Preserves : Preserves P (Shards.reconcile_shard_row row)
  unfolding Shards.reconcile_shard_row Shards.orphan_shard
  reconcile_shard_row-Preserves =
      if-Preserves P (is_uploading row.pin_state) _ _
        (bind-Preserves P _ _
          (bind-Preserves P _ _ (update-Preserves Shards.orphan_row orphans)
            λ _. inc_orphaned_shard-Preserves P)
          λ _. pure-Preserves P true)
        (pinning-Preserves row.sia_object_id)
