-- ===== src/Reconciler/Tests.antt =====
-- Runs of the reconciler on the small database.
use open_weights.Base.{◌≡◌, refl, arith, some, [], ◌∷◌}
use open_weights.Store.{pinning, orphaned, refused, accepted, other_failure}
use open_weights.Store.Xorbs.{find_xorb}
use open_weights.Store.Durable.{IsDurable}
use open_weights.Store.Tests.{pinned_row, small_db, small_world, small_db-IsDurable}
use open_weights.Reconciler.{reconcile_once}
use open_weights.Reconciler.Common.{StuckRow}
use open_weights.Reconciler.Xorbs.{reconcile_xorb_row}
use open_weights.Reconciler.Durable.{reconcile_once-IsDurable}
use open_weights.Reconciler.Pinned.{IsPinnedRow, reconcile_once-IsPinnedRow}
use open_weights.Reconciler.Outcomes.{reconcile_xorb_row-overwrites_pinned}

-- The row of xorb 7 as a sweep read it before an upload pinned it.
abbrev stale : StuckRow
stale = record { hash = 7; sia_object_id = some (1 ∷ []); pin_state = pinning; pin_attempts = 4 }

small-IsPinnedRow : IsPinnedRow 7 pinned_row small_db
unfolding IsPinnedRow
small-IsPinnedRow = ground arith

reconcile_once-IsDurable_example :
    IsDurable ((reconcile_once (small_world (accepted [] ∷ []))).1).tables
reconcile_once-IsDurable_example =
    reconcile_once-IsDurable (small_world (accepted [] ∷ [])) small_db-IsDurable

reconcile_once-IsPinnedRow_example :
    IsPinnedRow 7 pinned_row ((reconcile_once (small_world (refused other_failure ∷ []))).1).tables
reconcile_once-IsPinnedRow_example =
    reconcile_once-IsPinnedRow 7 pinned_row (small_world (refused other_failure ∷ [])) refl
      small-IsPinnedRow

reconcile_xorb_row-overwrites_pinned_example :
    find_xorb 7
      ((((reconcile_xorb_row stale (small_world (refused other_failure ∷ []))).1).tables).xorbs)
    ≡ some (record pinned_row {
      pin_state = orphaned;
      pin_attempts = 1;
      last_pin_attempt_at = some 1000000;
    })
reconcile_xorb_row-overwrites_pinned_example =
    reconcile_xorb_row-overwrites_pinned stale (1 ∷ []) []
      (small_world (refused other_failure ∷ [])) pinned_row refl refl refl refl refl refl refl
