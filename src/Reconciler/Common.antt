-- ===== src/Reconciler/Common.antt =====
-- What the xorb and shard halves of reconciler.rs share: the row under reconciliation, the order and
-- the filter of the two stuck-row queries, and the outcome of a failed pin.
use open_weights.Base.{
  ℕ, ◌+◌, Bool, true, false, ◌||◌, ◌&&◌, Option, none, some, List, [], ◌∷◌, ltb, leb, if◌then◌else◌,
}
use open_weights.Coalesce.{Hash}
use open_weights.ShardParse.{Bytes}
use open_weights.Store.{
  XorbPinState, uploading, pinning, SiaAdapterError, unavailable, other_failure, ok, M,
  ReconcilerMetrics,
}

abbrev pub max_pin_attempts : ℕ
max_pin_attempts = 5

abbrev pub reconciler_batch : ℕ
reconciler_batch = 20

-- `STUCK_THRESHOLD` in milliseconds
abbrev pub stuck_threshold : ℕ
stuck_threshold = 300000

-- `pin_state::text` is the state itself.
pub record StuckRow : Type 0 where
  pub hash : Hash
  pub sia_object_id : Option Bytes
  pub pin_state : XorbPinState
  pub pin_attempts : ℕ

abbrev pub is_uploading : XorbPinState → Bool
is_uploading uploading = true
is_uploading _ = false

abbrev pub is_pinning : XorbPinState → Bool
is_pinning pinning = true
is_pinning _ = false

-- `last_pin_attempt_at IS NULL OR last_pin_attempt_at < NOW() - INTERVAL '5 minutes'`
abbrev pub is_stale : ℕ → Option ℕ → Bool
is_stale now none = true
is_stale now (some t) = ltb (t + stuck_threshold) now

-- The `WHERE` clause of both queries.
unfoldable pub is_stuck : ℕ → XorbPinState → Option ℕ → ℕ → Bool
is_stuck now state last attempts =
    (is_uploading state || is_pinning state) && (is_stale now last && ltb attempts max_pin_attempts)

-- `ASC NULLS FIRST`
abbrev pub not_after : Option ℕ → Option ℕ → Bool
not_after none t = true
not_after (some s) none = false
not_after (some s) (some t) = leb s t

-- Insertion by the time of the last attempt; among equal times Postgres may answer in any order.
abbrev pub insert_by_age :
    Option ℕ × StuckRow → List (Option ℕ × StuckRow) → List (Option ℕ × StuckRow)
insert_by_age x [] = x ∷ []
insert_by_age x (y ∷ ys) = if not_after x.0 y.0 then x ∷ y ∷ ys else y ∷ insert_by_age x ys

abbrev pub sort_by_age : List (Option ℕ × StuckRow) → List (Option ℕ × StuckRow)
sort_by_age [] = []
sort_by_age (x ∷ xs) = insert_by_age x (sort_by_age xs)

abbrev pub rows_of : List (Option ℕ × StuckRow) → List StuckRow
rows_of [] = []
rows_of ((t, r) ∷ xs) = r ∷ rows_of xs

abbrev pub is_transient : SiaAdapterError → Bool
is_transient unavailable = true
is_transient other_failure = false

abbrev pub count : (ReconcilerMetrics → ReconcilerMetrics) → M (Unit {0})
count f w = (ok tt, record w { metrics = f w.metrics })

unfoldable pub inc_sweep : M (Unit {0})
inc_sweep = count λ m. record m { sweeps = m.sweeps + 1 }

unfoldable pub inc_orphaned_xorb : M (Unit {0})
inc_orphaned_xorb = count λ m. record m { orphaned_xorbs = m.orphaned_xorbs + 1 }

unfoldable pub inc_orphaned_shard : M (Unit {0})
inc_orphaned_shard = count λ m. record m { orphaned_shards = m.orphaned_shards + 1 }

unfoldable pub inc_failure : M (Unit {0})
inc_failure = count λ m. record m { failures = m.failures + 1 }
