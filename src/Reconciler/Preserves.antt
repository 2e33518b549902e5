-- ===== src/Reconciler/Preserves.antt =====
-- What the updates of one row keep true, a sweep of reconciler.rs keeps true.
use open_weights.Base.{ℕ, Bool, List, [], ◌∷◌, All}
use open_weights.Coalesce.{Hash}
use open_weights.Store.{Db, XorbRow, ShardRow, M, ReconcilerMetrics}
use open_weights.Store.Xorbs.{update_xorb}
use open_weights.Store.Shards.{update_shard}
use open_weights.Store.Preserves.{Preserves}
use open_weights.Reconciler.Common.{StuckRow, count, inc_orphaned_xorb, inc_orphaned_shard}
use open_weights.Reconciler.{sweep}

pub sweep-Preserves :
    (P : Db → Type 0) (f : StuckRow → M Bool) (rows : List StuckRow)
    → All (λ row. Preserves P (f row)) rows
    → Preserves P (sweep f rows)
unfolding sweep Preserves
sweep-Preserves P f [] a w p = p
sweep-Preserves P f (row ∷ rows) a w p = sweep-Preserves P f rows a.1 ((f row w).1) (a.0 w p)

pub count-Preserves :
    (P : Db → Type 0) (f : ReconcilerMetrics → ReconcilerMetrics) → Preserves P (count f)
unfolding Preserves
count-Preserves P f w p = p

pub inc_orphaned_xorb-Preserves : (P : Db → Type 0) → Preserves P inc_orphaned_xorb
unfolding inc_orphaned_xorb
inc_orphaned_xorb-Preserves P = count-Preserves P _

pub inc_orphaned_shard-Preserves : (P : Db → Type 0) → Preserves P inc_orphaned_shard
unfolding inc_orphaned_shard
inc_orphaned_shard-Preserves P = count-Preserves P _

module _ (P : Db → Type 0) (h : Hash) where
  -- The update of one row of `xorbs` keeps `P`.
  abbrev pub KeepsXorb : (ℕ → XorbRow → XorbRow) → Type 0
  KeepsXorb f = (now : ℕ) (d : Db) → P d → P (record d { xorbs = update_xorb h (f now) d.xorbs })

  abbrev pub KeepsShard : (ℕ → ShardRow → ShardRow) → Type 0
  KeepsShard f =
      (now : ℕ) (d : Db) → P d → P (record d { shards = update_shard h (f now) d.shards })
