-- ===== src/Reconciler.antt =====
-- cas/crates/openweights-cas-storage/src/reconciler.rs: the sweep that retries rows stuck in
-- 'uploading' or 'pinning'. A `sqlx::Error` is `db`.
pub mod Common
pub mod Xorbs
pub mod Shards
pub mod Preserves
pub mod KeepsXorbs
pub mod KeepsShards
pub mod Durable
pub mod Once
pub mod Pinned
pub mod Outcomes
pub mod Attempts
pub mod Retries
mod Tests
use open_weights.Base.{ℕ, ◌+◌, Bool, true, false, List, [], ◌∷◌, ltb, if◌then◌else◌}
use open_weights.Store.{Result, ok, err, M, pure, ◌>>=◌, ◌>>◌}
use open_weights.Reconciler.Common.{StuckRow, inc_sweep, inc_failure}
use open_weights.Reconciler.Xorbs.{fetch_stuck_xorbs, reconcile_xorb_row}
use open_weights.Reconciler.Shards.{fetch_stuck_shards, reconcile_shard_row}

abbrev pub add_handled : Result Bool → Result ℕ → Result ℕ
add_handled r (err e) = err e
add_handled (ok true) (ok n) = ok (n + 1)
add_handled _ (ok n) = ok n

-- The loop of one half: an error of one row is logged and the next row taken. The rows handled.
unfoldable pub sweep : (StuckRow → M Bool) → List StuckRow → M ℕ
sweep reconcile_row [] w = (ok 0, w)
sweep reconcile_row (row ∷ rows) w =
    let (r, w') = reconcile_row row w in
    let (n, w'') = sweep reconcile_row rows w' in (add_handled r n, w'')

-- The end of `reconcile_once`.
unfoldable pub count_sweep : ℕ → M ℕ
unfolding inc_sweep
count_sweep handled = if ltb 0 handled then (inc_sweep >> pure handled) else pure handled

-- (B) of `reconcile_once`, after `handled` rows.
unfoldable pub sweep_shards : ℕ → M ℕ
unfolding fetch_stuck_shards sweep reconcile_shard_row count_sweep
sweep_shards handled = do
  rows ← fetch_stuck_shards
  more ← sweep reconcile_shard_row rows
  count_sweep (handled + more)

unfoldable pub reconcile_once : M ℕ
unfolding fetch_stuck_xorbs sweep reconcile_xorb_row sweep_shards
reconcile_once = do
  rows ← fetch_stuck_xorbs
  handled ← sweep reconcile_xorb_row rows
  sweep_shards handled

-- One tick of `run_reconciler`: a failed sweep is counted.
unfoldable pub tick : M (Unit {0})
unfolding reconcile_once inc_failure
tick w = let (r, w') = reconcile_once w in elim r [ ok n ↦ (ok tt, w') | err e ↦ inc_failure w' ]
