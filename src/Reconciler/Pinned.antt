-- ===== src/Reconciler/Pinned.antt =====
-- A sweep does not touch a row that is pinned when it starts.
use open_weights.Base.{
  ℕ, ◌≡◌, ◌≢◌, ◌⊎◌, inl, inr, ap, ◌∙◌, zero, suc, refl, Bool, true, false, Option, some, List, [],
  ◌∷◌, All, All-mono, take, if◌then◌else◌, arith, ◌==◌,
}
use open_weights.Coalesce.{Hash}
use open_weights.Store.{Db, XorbRow, ShardRow, World, XorbPinState, pinned, ok}
use open_weights.Store.Xorbs.{update_xorb, find_xorb}
use open_weights.Store.Preserves.{Preserves, run-Preserves}
use open_weights.Reconciler.Common.{
  StuckRow, is_stuck, sort_by_age, insert_by_age, rows_of, reconciler_batch,
}
use open_weights.Reconciler.{reconcile_once}
use open_weights.Reconciler.Xorbs
use open_weights.Reconciler.Shards
use open_weights.Reconciler.Xorbs.{stuck_xorbs, fetch_stuck_xorbs}
use open_weights.Reconciler.Preserves.{KeepsXorb, KeepsShard}
use open_weights.Reconciler.KeepsXorbs.{reconcile_xorb_row-Preserves}
use open_weights.Reconciler.KeepsShards.{reconcile_shard_row-Preserves}
use open_weights.Reconciler.Once.{reconcile_once-Preserves}
use open_weights.Base.{All-of_In}

-- The hash is the primary key of `xorbs`.
abbrev pub IsKeyed : List XorbRow → Type 0
IsKeyed [] = Unit
IsKeyed (r ∷ rs) = All (λ s. s.xorb_merkle_hash ≢ r.xorb_merkle_hash) rs × IsKeyed rs

pub find-update_xorb :
    (h k : Hash) (f : XorbRow → XorbRow) (rs : List XorbRow)
    → k ≢ h
    → ((r : XorbRow) → (f r).xorb_merkle_hash ≡ r.xorb_merkle_hash)
    → find_xorb h (update_xorb k f rs) ≡ find_xorb h rs
find-update_xorb h k f [] n e = refl
find-update_xorb h k f (r ∷ rs) n e = ground (arith, n, e r, find-update_xorb h k f rs n e)

update_xorb-keys :
    (Q : Hash → Type 0) (k : Hash) (f : XorbRow → XorbRow) (rs : List XorbRow)
    → ((r : XorbRow) → (f r).xorb_merkle_hash ≡ r.xorb_merkle_hash)
    → All (λ s. Q s.xorb_merkle_hash) rs
    → All (λ s. Q s.xorb_merkle_hash) (update_xorb k f rs)
update_xorb-keys Q k f [] e a = tt
update_xorb-keys Q k f (r ∷ rs) e a = ground (arith, e r, a.0, update_xorb-keys Q k f rs e a.1)

-- The rows that a query returns carry another key than a pinned row.
abbrev pub Avoids : Hash → Option ℕ × StuckRow → Type 0
Avoids h x = (x.1).hash ≢ h

stuck_xorbs-Avoids_absent :
    (h : Hash) (now : ℕ) (rs : List XorbRow)
    → All (λ s. s.xorb_merkle_hash ≢ h) rs
    → All (Avoids h) (stuck_xorbs now rs)
unfolding stuck_xorbs
stuck_xorbs-Avoids_absent h now [] a = tt
stuck_xorbs-Avoids_absent h now (r ∷ rs) a =
    ground (arith, a.0, stuck_xorbs-Avoids_absent h now rs a.1)

pinned_not_stuck :
    (now : ℕ) (state : XorbPinState) (last : Option ℕ) (attempts : ℕ)
    → state ≡ pinned
    → is_stuck now state last attempts ≡ false
unfolding is_stuck
pinned_not_stuck now state last attempts e = rw e refl

stuck_xorbs-cons :
    (h : Hash) (now : ℕ) (s : XorbRow) (rs : List XorbRow)
    → (is_stuck now s.pin_state s.last_pin_attempt_at s.pin_attempts ≡ false
        ⊎ s.xorb_merkle_hash ≢ h)
    → All (Avoids h) (stuck_xorbs now rs)
    → All (Avoids h) (stuck_xorbs now (s ∷ rs))
unfolding stuck_xorbs
stuck_xorbs-cons h now s rs c a = ground (arith, c, a)

find-cons :
    (h : Hash) (s : XorbRow) (rs : List XorbRow) (r : XorbRow)
    → find_xorb h (s ∷ rs) ≡ some r
    → ((h ≡ s.xorb_merkle_hash) × (s ≡ r)) ⊎ ((s.xorb_merkle_hash ≢ h) × (find_xorb h rs ≡ some r))
find-cons h s rs r e = ground (arith, e)

stuck_xorbs-Avoids :
    (h : Hash) (now : ℕ) (rs : List XorbRow) (r : XorbRow)
    → IsKeyed rs
    → find_xorb h rs ≡ some r
    → r.pin_state ≡ pinned
    → All (Avoids h) (stuck_xorbs now rs)
unfolding stuck_xorbs
stuck_xorbs-Avoids h now [] r k e p = tt
stuck_xorbs-Avoids h now (s ∷ rs) r k e p = elim (find-cons h s rs r e) [
  | inl (eh, es) ↦
      stuck_xorbs-cons h now s rs
        (inl (
          pinned_not_stuck now s.pin_state s.last_pin_attempt_at s.pin_attempts
            (ap (λ r. r.pin_state) es ∙ p)))
        (stuck_xorbs-Avoids_absent h now rs (rw eh k.0))
  | inr (n, e') ↦ stuck_xorbs-cons h now s rs (inr n) (stuck_xorbs-Avoids h now rs r k.1 e' p)
]

-- Sorting and the limit keep that.
insert_by_age-All :
    (Q : Option ℕ × StuckRow → Type 0) (x : Option ℕ × StuckRow) (xs : List (Option ℕ × StuckRow))
    → Q x
    → All Q xs
    → All Q (insert_by_age x xs)
insert_by_age-All Q x [] q a = (q, tt)
insert_by_age-All Q x (y ∷ ys) q a = ground (arith, q, a, insert_by_age-All Q x ys q a.1)

sort_by_age-All :
    (Q : Option ℕ × StuckRow → Type 0) (xs : List (Option ℕ × StuckRow))
    → All Q xs
    → All Q (sort_by_age xs)
sort_by_age-All Q [] a = tt
sort_by_age-All Q (x ∷ xs) a = insert_by_age-All Q x (sort_by_age xs) a.0 (sort_by_age-All Q xs a.1)

rows_of-All :
    (h : Hash) (n : ℕ) (xs : List (Option ℕ × StuckRow))
    → All (Avoids h) xs
    → All (λ row. row.hash ≢ h) (take n (rows_of xs))
rows_of-All h zero xs a = tt
rows_of-All h (suc n) [] a = tt
rows_of-All h (suc n) ((t, r) ∷ xs) a = (a.0, rows_of-All h n xs a.1)

fetch_stuck_xorbs-Avoids :
    (h : Hash) (w : World) (rows : List StuckRow)
    → All (Avoids h) (stuck_xorbs w.now_ms (w.tables).xorbs)
    → (fetch_stuck_xorbs w).0 ≡ ok rows
    → All (λ row. row.hash ≢ h) rows
unfolding fetch_stuck_xorbs
fetch_stuck_xorbs-Avoids h w rows a e = ground (
  arith,
  rows_of-All h reconciler_batch (sort_by_age (stuck_xorbs w.now_ms (w.tables).xorbs))
      (sort_by_age-All (Avoids h) _ a),
)

-- The row of `h` is `r`, in a table whose keys differ.
unfoldable pub IsPinnedRow : Hash → XorbRow → Db → Type 0
IsPinnedRow h r d = (find_xorb h d.xorbs ≡ some r) × IsKeyed d.xorbs

update_xorb-IsKeyed :
    (k : Hash) (f : XorbRow → XorbRow) (rs : List XorbRow)
    → ((r : XorbRow) → (f r).xorb_merkle_hash ≡ r.xorb_merkle_hash)
    → IsKeyed rs
    → IsKeyed (update_xorb k f rs)
update_xorb-IsKeyed k f [] e a = tt
update_xorb-IsKeyed k f (r ∷ rs) e a =
    (update_xorb-head (k == r.xorb_merkle_hash), update_xorb-IsKeyed k f rs e a.1)
  where
    update_xorb-head :
        (b : Bool)
        → All
            (λ s. s.xorb_merkle_hash ≢ (if b then f r else r).xorb_merkle_hash)
            (update_xorb k f rs)
    update_xorb-head true = rw (e r) (update_xorb-keys (λ j. j ≢ r.xorb_merkle_hash) k f rs e a.0)
    update_xorb-head false = update_xorb-keys (λ j. j ≢ r.xorb_merkle_hash) k f rs e a.0

module _ (h : Hash) (r : XorbRow) (row : StuckRow) where
  keeps_xorbs :
      row.hash ≢ h
      → (f : ℕ → XorbRow → XorbRow)
      → ((now : ℕ) (s : XorbRow) → (f now s).xorb_merkle_hash ≡ s.xorb_merkle_hash)
      → KeepsXorb (IsPinnedRow h r) row.hash f
  unfolding IsPinnedRow
  keeps_xorbs n f e now d p = (
    find-update_xorb h row.hash (f now) d.xorbs n (e now) ∙ p.0,
    update_xorb-IsKeyed row.hash (f now) d.xorbs (e now) p.1,
  )

  keeps_shards : (f : ℕ → ShardRow → ShardRow) → KeepsShard (IsPinnedRow h r) row.hash f
  unfolding IsPinnedRow
  keeps_shards f now d p = p

  xorb_row-IsPinnedRow : row.hash ≢ h → Preserves (IsPinnedRow h r) (Xorbs.reconcile_xorb_row row)
  unfolding Xorbs.pin_row Xorbs.orphan_row Xorbs.touch_row Xorbs.count_row
  xorb_row-IsPinnedRow n =
      reconcile_xorb_row-Preserves (IsPinnedRow h r) row
        (λ sia_id. keeps_xorbs n (Xorbs.pin_row sia_id) λ now s. ground arith)
        (keeps_xorbs n Xorbs.orphan_row λ now s. refl) (keeps_xorbs n Xorbs.touch_row λ now s. refl)
        (keeps_xorbs n Xorbs.count_row λ now s. refl)

  shard_row-IsPinnedRow : Preserves (IsPinnedRow h r) (Shards.reconcile_shard_row row)
  shard_row-IsPinnedRow =
      reconcile_shard_row-Preserves (IsPinnedRow h r) row
        (λ sia_id. keeps_shards (Shards.pin_row sia_id)) (keeps_shards Shards.orphan_row)
        (keeps_shards Shards.touch_row) (keeps_shards Shards.count_row)

fetched-Avoids :
    (h : Hash) (r : XorbRow)
    → r.pin_state ≡ pinned
    → (w : World) (rows : List StuckRow) → IsPinnedRow h r w.tables
    → (fetch_stuck_xorbs w).0 ≡ ok rows
    → All (λ row. row.hash ≢ h) rows
unfolding IsPinnedRow
fetched-Avoids h r q w rows p e =
    fetch_stuck_xorbs-Avoids h w rows (stuck_xorbs-Avoids h w.now_ms (w.tables).xorbs r p.1 p.0 q) e

-- Where the keys of `xorbs` differ and the row of `h` is pinned, a sweep leaves that row as it is,
-- whatever fails in the sweep and whatever the adapter answers for other rows.
pub reconcile_once-IsPinnedRow :
    (h : Hash) (r : XorbRow) (w : World)
    → r.pin_state ≡ pinned
    → IsPinnedRow h r w.tables
    → IsPinnedRow h r ((reconcile_once w).1).tables
reconcile_once-IsPinnedRow h r w q =
    run-Preserves (IsPinnedRow h r) reconcile_once
      (reconcile_once-Preserves (IsPinnedRow h r)
        (λ w rows p e. All-of_In _ rows λ row i. shard_row-IsPinnedRow h r row)
        (λ w rows p e.
          All-mono _ _ rows (λ row n. xorb_row-IsPinnedRow h r row n)
            (fetched-Avoids h r q w rows p e)))
      w
