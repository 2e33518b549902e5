-- ===== src/Reconciler/Durable.antt =====
-- A sweep and the rule that a pinned row has the id of its Sia object.
use open_weights.Base.{ℕ, All-of_In, arith}
use open_weights.Coalesce.{Hash}
use open_weights.Store.{XorbRow, ShardRow, World}
use open_weights.Store.Preserves.{Preserves, run-Preserves}
use open_weights.Reconciler.Common.{StuckRow}
use open_weights.Reconciler.{reconcile_once}
use open_weights.Reconciler.Xorbs
use open_weights.Reconciler.Shards
use open_weights.Reconciler.Preserves.{KeepsXorb, KeepsShard}
use open_weights.Reconciler.Once.{reconcile_once-Preserves}
use open_weights.Reconciler.KeepsXorbs.{reconcile_xorb_row-Preserves}
use open_weights.Reconciler.KeepsShards.{reconcile_shard_row-Preserves}
use open_weights.Store.Durable.{
  XorbHasObject, ShardHasObject, IsDurable, update_xorb-All, update_shard-All,
}

keeps_xorbs :
    (h : Hash) (f : ℕ → XorbRow → XorbRow)
    → ((now : ℕ) (r : XorbRow) → XorbHasObject r → XorbHasObject (f now r))
    → KeepsXorb IsDurable h f
unfolding IsDurable
keeps_xorbs h f k now d p = (update_xorb-All XorbHasObject h (f now) d.xorbs (k now) p.0, p.1)

keeps_shards :
    (h : Hash) (f : ℕ → ShardRow → ShardRow)
    → ((now : ℕ) (r : ShardRow) → ShardHasObject r → ShardHasObject (f now r))
    → KeepsShard IsDurable h f
unfolding IsDurable
keeps_shards h f k now d p = (p.0, update_shard-All ShardHasObject h (f now) d.shards (k now) p.1)

xorb_row-IsDurable : (row : StuckRow) → Preserves IsDurable (Xorbs.reconcile_xorb_row row)
unfolding Xorbs.pin_row Xorbs.orphan_row Xorbs.touch_row Xorbs.count_row
xorb_row-IsDurable row =
    reconcile_xorb_row-Preserves IsDurable row
      (λ sia_id. keeps_xorbs row.hash (Xorbs.pin_row sia_id) λ now r q. ground (arith, q))
      (keeps_xorbs row.hash Xorbs.orphan_row λ now r q. ground arith)
      (keeps_xorbs row.hash Xorbs.touch_row λ now r q. q)
      (keeps_xorbs row.hash Xorbs.count_row λ now r q. q)

shard_row-IsDurable : (row : StuckRow) → Preserves IsDurable (Shards.reconcile_shard_row row)
unfolding Shards.pin_row Shards.orphan_row Shards.touch_row Shards.count_row
shard_row-IsDurable row =
    reconcile_shard_row-Preserves IsDurable row
      (λ sia_id. keeps_shards row.hash (Shards.pin_row sia_id) λ now r q. ground (arith, q))
      (keeps_shards row.hash Shards.orphan_row λ now r q. ground arith)
      (keeps_shards row.hash Shards.touch_row λ now r q. q)
      (keeps_shards row.hash Shards.count_row λ now r q. q)

-- A sweep, whatever fails in it and whatever the adapter answers, leaves every pinned row of both
-- tables with the id of its Sia object, where every pinned row had one.
pub reconcile_once-IsDurable :
    (w : World) → IsDurable w.tables → IsDurable ((reconcile_once w).1).tables
reconcile_once-IsDurable = run-Preserves IsDurable reconcile_once (
    reconcile_once-Preserves IsDurable
      (λ w rows p e. All-of_In _ rows λ row i. shard_row-IsDurable row)
      (λ w rows p e. All-of_In _ rows λ row i. xorb_row-IsDurable row))
