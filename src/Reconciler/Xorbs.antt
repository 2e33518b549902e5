-- ===== src/Reconciler/Xorbs.antt =====
-- The xorb half of reconciler.rs.
use open_weights.Base.{
  ℕ, ◌+◌, Bool, true, Option, none, some, List, [], ◌∷◌, ◌==◌, leb, take, if◌then◌else◌,
}
use open_weights.Coalesce.{Hash}
use open_weights.ShardParse.{Bytes}
use open_weights.Store.{
  pinned, orphaned, XorbRow, SiaAdapterError, other_failure, accepted, refused, timed_out, M, pure,
  query, ◌>>=◌, ◌>>◌, pin_only, upload_and_pin,
}
use open_weights.Store.Xorbs.{update_xorb, coalesce, is_pinned}
use open_weights.Reconciler.Common.{
  StuckRow, is_stuck, is_uploading, is_transient, sort_by_age, rows_of, reconciler_batch,
  max_pin_attempts, inc_orphaned_xorb,
}

-- The rows that `fetch_stuck_xorbs` selects, with their age.
unfoldable pub stuck_xorbs : ℕ → List XorbRow → List (Option ℕ × StuckRow)
unfolding is_stuck
stuck_xorbs now [] = []
stuck_xorbs now (r ∷ rs) =
    let rest = stuck_xorbs now rs in
    if is_stuck now r.pin_state r.last_pin_attempt_at r.pin_attempts
    then (
      r.last_pin_attempt_at,
      record {
        hash = r.xorb_merkle_hash;
        sia_object_id = r.sia_object_id;
        pin_state = r.pin_state;
        pin_attempts = r.pin_attempts;
      },
    )
      ∷ rest
    else rest

unfoldable pub fetch_stuck_xorbs : M (List StuckRow)
unfolding stuck_xorbs
fetch_stuck_xorbs w =
    query (λ d. (take reconciler_batch (rows_of (sort_by_age (stuck_xorbs w.now_ms d.xorbs))), d)) w

-- `UPDATE xorbs SET … WHERE xorb_merkle_hash = h`
abbrev pub update : Hash → (ℕ → XorbRow → XorbRow) → M (Unit {0})
update h f w = query (λ d. (tt, record d { xorbs = update_xorb h (f w.now_ms) d.xorbs })) w

-- The three updates of a row, at the time `now`.
unfoldable pub pin_row : Bytes → ℕ → XorbRow → XorbRow
pin_row sia_id now r = if is_pinned r.pin_state then r else record r {
  pin_state = pinned;
  sia_object_id = coalesce r.sia_object_id (some sia_id);
  last_pin_attempt_at = some now;
}

unfoldable pub orphan_row : ℕ → XorbRow → XorbRow
orphan_row now r = record r {
  pin_state = orphaned;
  pin_attempts = r.pin_attempts + 1;
  last_pin_attempt_at = some now;
}

unfoldable pub touch_row : ℕ → XorbRow → XorbRow
touch_row now r = record r { last_pin_attempt_at = some now }

unfoldable pub count_row : ℕ → XorbRow → XorbRow
count_row now r = record r { pin_attempts = r.pin_attempts + 1; last_pin_attempt_at = some now }

unfoldable pub set_pinned_xorb : Hash → Bytes → M (Unit {0})
unfolding pin_row
set_pinned_xorb h sia_id = update h (pin_row sia_id)

unfoldable pub orphan_xorb : Hash → M (Unit {0})
unfolding orphan_row
orphan_xorb h = update h orphan_row

unfoldable pub bump_xorb_attempt : Hash → ℕ → SiaAdapterError → M Bool
unfolding orphan_xorb touch_row count_row inc_orphaned_xorb
bump_xorb_attempt h prior_attempts e =
    if is_transient e
    then (update h touch_row >> pure true)
    else if leb max_pin_attempts (prior_attempts + 1)
    then (orphan_xorb h >> inc_orphaned_xorb >> pure true)
    else (update h count_row >> pure true)

-- `SELECT content FROM xorb_bodies`
abbrev pub find_body : Hash → List (Hash × Bytes) → Option Bytes
find_body h [] = none
find_body h ((k, b) ∷ m) = if h == k then some b else find_body h m

unfoldable pub load_xorb_body : Hash → M (Option Bytes)
load_xorb_body h = query λ d. (find_body h d.xorb_bodies, d)

-- `reconcile_xorb_row`, the arm for a row that has its object id; a timeout counts as permanent.
unfoldable pub retry_pin : StuckRow → Bytes → M Bool
unfolding set_pinned_xorb bump_xorb_attempt
retry_pin row oid = do
  reply ← pin_only
  elim reply [
    | accepted _ ↦ set_pinned_xorb row.hash oid >> pure true
    | refused e ↦ bump_xorb_attempt row.hash row.pin_attempts e
    | timed_out ↦ bump_xorb_attempt row.hash row.pin_attempts other_failure
  ]

-- The arm for a row without one, whose body was found.
unfoldable pub retry_upload : StuckRow → Bytes → M Bool
unfolding set_pinned_xorb bump_xorb_attempt
retry_upload row bytes = do
  reply ← upload_and_pin bytes
  elim reply [
    | accepted sia_id ↦ set_pinned_xorb row.hash sia_id >> pure true
    | refused e ↦ bump_xorb_attempt row.hash row.pin_attempts e
    | timed_out ↦ bump_xorb_attempt row.hash row.pin_attempts other_failure
  ]

-- The arm for a row without an object id.
unfoldable pub retry_body : StuckRow → M Bool
unfolding load_xorb_body retry_upload bump_xorb_attempt
retry_body row = do
  body ← load_xorb_body row.hash
  elim body [
    | some bytes ↦ retry_upload row bytes
    | none ↦ bump_xorb_attempt row.hash row.pin_attempts other_failure
  ]

unfoldable pub reconcile_xorb_row : StuckRow → M Bool
unfolding orphan_xorb inc_orphaned_xorb retry_pin retry_body
reconcile_xorb_row row =
    if is_uploading row.pin_state
    then (orphan_xorb row.hash >> inc_orphaned_xorb >> pure true)
    else elim row.sia_object_id [ some oid ↦ retry_pin row oid | none ↦ retry_body row ]
