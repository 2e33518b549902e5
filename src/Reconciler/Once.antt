-- ===== src/Reconciler/Once.antt =====
-- A whole sweep keeps what the fetched rows keep.
use open_weights.Base.{ℕ, ◌+◌, ◌≡◌, List, All, ltb}
use open_weights.Store.{Db, World, ok, pure}
use open_weights.Store.Preserves.{
  Preserves, read-Preserves, pure-Preserves, bind-Preserves, bind_outcome-Preserves, if-Preserves,
}
use open_weights.Reconciler.Common.{StuckRow, inc_sweep, sort_by_age, rows_of, reconciler_batch}
use open_weights.Base.{take}
use open_weights.Reconciler.{sweep, count_sweep, sweep_shards, reconcile_once}
use open_weights.Reconciler.Xorbs.{fetch_stuck_xorbs, reconcile_xorb_row, stuck_xorbs}
use open_weights.Reconciler.Shards.{fetch_stuck_shards, reconcile_shard_row, stuck_shards}
use open_weights.Reconciler.Preserves.{sweep-Preserves, count-Preserves}

module _ (P : Db → Type 0) where
  fetch_stuck_xorbs-Preserves : Preserves P fetch_stuck_xorbs
  unfolding fetch_stuck_xorbs Preserves
  fetch_stuck_xorbs-Preserves w =
      read-Preserves P
        (λ d. take reconciler_batch (rows_of (sort_by_age (stuck_xorbs w.now_ms d.xorbs)))) w

  fetch_stuck_shards-Preserves : Preserves P fetch_stuck_shards
  unfolding fetch_stuck_shards Preserves
  fetch_stuck_shards-Preserves w =
      read-Preserves P
        (λ d. take reconciler_batch (rows_of (sort_by_age (stuck_shards w.now_ms d.shards)))) w

  inc_sweep-Preserves : Preserves P inc_sweep
  unfolding inc_sweep
  inc_sweep-Preserves = count-Preserves P _

  count_sweep-Preserves : (n : ℕ) → Preserves P (count_sweep n)
  unfolding count_sweep
  count_sweep-Preserves n =
      if-Preserves P (ltb 0 n) _ _
        (bind-Preserves P inc_sweep (λ _. pure n) inc_sweep-Preserves λ _. pure-Preserves P n)
        (pure-Preserves P n)

  module _
      (ks : (w : World) (rows : List StuckRow)
        → P w.tables
        → (fetch_stuck_shards w).0 ≡ ok rows
        → All (λ row. Preserves P (reconcile_shard_row row)) rows) where
    sweep_shards-Preserves : (handled : ℕ) → Preserves P (sweep_shards handled)
    unfolding sweep_shards
    sweep_shards-Preserves handled =
        bind_outcome-Preserves P fetch_stuck_shards _ fetch_stuck_shards-Preserves λ w rows p e.
          bind-Preserves P (sweep reconcile_shard_row rows) _
            (sweep-Preserves P _ rows (ks w rows p e))
            λ more. count_sweep-Preserves (handled + more)

    pub reconcile_once-Preserves :
        ((w : World) (rows : List StuckRow)
          → P w.tables
          → (fetch_stuck_xorbs w).0 ≡ ok rows
          → All (λ row. Preserves P (reconcile_xorb_row row)) rows)
        → Preserves P reconcile_once
    unfolding reconcile_once
    reconcile_once-Preserves kx =
        bind_outcome-Preserves P fetch_stuck_xorbs _ fetch_stuck_xorbs-Preserves λ w rows p e.
          bind-Preserves P (sweep reconcile_xorb_row rows) _
            (sweep-Preserves P _ rows (kx w rows p e)) sweep_shards-Preserves
