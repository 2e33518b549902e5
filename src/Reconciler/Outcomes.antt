-- ===== src/Reconciler/Outcomes.antt =====
-- What one row of `xorbs` is worth after `reconcile_xorb_row`, by the adapter's answer.
use open_weights.Base.{
  ℕ, ◌+◌, ◌≡◌, refl, ap, ◌∙◌, Bool, true, false, Option, none, some, List, [], ◌∷◌, leb,
  if◌then◌else◌, arith,
}
use open_weights.Coalesce.{Hash}
use open_weights.ShardParse.{Bytes}
use open_weights.Store.{
  pinned, pinning, orphaned, XorbRow, World, Result, ok, err, M, pure, ◌>>=◌, ◌>>◌, SiaReply,
  accepted, refused, timed_out, SiaAdapterError, unavailable, other_failure, pin_only,
}
use open_weights.Store.Xorbs.{find_xorb, update_xorb}
use open_weights.Reconciler.Common.{StuckRow, is_uploading, max_pin_attempts, inc_orphaned_xorb}
use open_weights.Reconciler.Xorbs.{
  update, pin_row, orphan_row, touch_row, count_row, set_pinned_xorb, orphan_xorb,
  bump_xorb_attempt, retry_pin, retry_body, reconcile_xorb_row,
}

pub find-update_same :
    (h : Hash) (f : XorbRow → XorbRow) (rs : List XorbRow) (r : XorbRow)
    → ((s : XorbRow) → (f s).xorb_merkle_hash ≡ s.xorb_merkle_hash)
    → find_xorb h rs ≡ some r
    → find_xorb h (update_xorb h f rs) ≡ some (f r)
find-update_same h f [] r k e = ground (arith, e)
find-update_same h f (s ∷ rs) r k e = ground (arith, k s, e, find-update_same h f rs r k)

-- The effect of one statement that does not fail.
update-effect :
    (h : Hash) (f : ℕ → XorbRow → XorbRow) (w : World) (r : XorbRow)
    → ((now : ℕ) (s : XorbRow) → (f now s).xorb_merkle_hash ≡ s.xorb_merkle_hash)
    → w.faults ≡ []
    → find_xorb h (w.tables).xorbs ≡ some r
    → find_xorb h ((((update h f w).1).tables).xorbs) ≡ some (f w.now_ms r)
update-effect h f w r k n e =
    ground (arith, n, find-update_same h (f w.now_ms) (w.tables).xorbs r (k w.now_ms) e)

-- What becomes of the row by the error and the attempts that were read.
abbrev pub after_failure : SiaAdapterError → ℕ → ℕ → XorbRow → XorbRow
after_failure unavailable prior now r = touch_row now r
after_failure other_failure prior now r =
    if leb max_pin_attempts (prior + 1) then orphan_row now r else count_row now r

touch_key : (now : ℕ) (s : XorbRow) → (touch_row now s).xorb_merkle_hash ≡ s.xorb_merkle_hash
unfolding touch_row
touch_key now s = refl

pub orphan_key : (now : ℕ) (s : XorbRow) → (orphan_row now s).xorb_merkle_hash ≡ s.xorb_merkle_hash
unfolding orphan_row
orphan_key now s = refl

pub count_key : (now : ℕ) (s : XorbRow) → (count_row now s).xorb_merkle_hash ≡ s.xorb_merkle_hash
unfolding count_row
count_key now s = refl

inc_tables : (v : World) → ((inc_orphaned_xorb v).1).tables ≡ v.tables
unfolding inc_orphaned_xorb
inc_tables v = refl

-- What follows and leaves the tables alone leaves the row alone.
result_then :
    {A B : Type 0} (k : M B) (w : World) (r : Result A × World)
    → ((v : World) → ((k v).1).tables ≡ v.tables)
    → (((((λ _. r) >> k) w).1).tables) ≡ (r.1).tables
result_then k w (ok a, v) e = e v
result_then k w (err x, v) e = refl

tables_then :
    {A B : Type 0} (h : Hash) (m : M A) (k : M B) (w : World) (o : Option XorbRow)
    → ((v : World) → ((k v).1).tables ≡ v.tables)
    → find_xorb h ((((m w).1).tables).xorbs) ≡ o
    → find_xorb h (((((m >> k) w).1).tables).xorbs) ≡ o
tables_then h m k w o e q = ap (λ d. find_xorb h d.xorbs) (result_then k w (m w) e) ∙ q

bump_xorb_attempt-effect :
    (h : Hash) (prior : ℕ) (e : SiaAdapterError) (w : World) (r : XorbRow)
    → w.faults ≡ []
    → find_xorb h (w.tables).xorbs ≡ some r
    → find_xorb h ((((bump_xorb_attempt h prior e w).1).tables).xorbs)
      ≡ some (after_failure e prior w.now_ms r)
unfolding bump_xorb_attempt orphan_xorb
bump_xorb_attempt-effect h prior unavailable w r n e =
    tables_then h (update h touch_row) (pure true) w _ (λ v. refl)
      (update-effect h touch_row w r touch_key n e)
bump_xorb_attempt-effect h prior other_failure w r n e = counted (leb max_pin_attempts (prior + 1))
  where
    counted :
        (b : Bool)
        → find_xorb h (
            ((((if b
                then (update h orphan_row >> inc_orphaned_xorb >> pure true)
                else (update h count_row >> pure true))
              w).1
            ).tables).xorbs)
          ≡ some (if b then orphan_row w.now_ms r else count_row w.now_ms r)
    counted true =
        tables_then h (update h orphan_row >> inc_orphaned_xorb) (pure true) w _ (λ v. refl)
          (tables_then h (update h orphan_row) inc_orphaned_xorb w _ inc_tables
            (update-effect h orphan_row w r orphan_key n e))
    counted false =
        tables_then h (update h count_row) (pure true) w _ (λ v. refl)
          (update-effect h count_row w r count_key n e)

pub bind_ok :
    {A B : Type 0} (m : M A) (k : A → M B) (w : World) (a : A) (v : World)
    → m w ≡ (ok a, v)
    → (m >>= k) w ≡ k a v
bind_ok m k w a v e = ap (λ r. ((λ _. r) >>= k) w) e

pin_only-next :
    (w : World) (reply : SiaReply) (rest : List SiaReply)
    → w.sia_replies ≡ reply ∷ rest
    → pin_only w ≡ (ok reply, record w { sia_replies = rest })
pin_only-next w reply rest e = ground (arith, e)

-- What becomes of the row by the adapter's answer to `pin_only`.
abbrev pub after_reply : Bytes → SiaReply → ℕ → ℕ → XorbRow → XorbRow
after_reply oid (accepted _) prior now r = pin_row oid now r
after_reply oid (refused e) prior now r = after_failure e prior now r
after_reply oid timed_out prior now r = after_failure other_failure prior now r

pin_key :
    (oid : Bytes) (now : ℕ) (s : XorbRow)
    → (pin_row oid now s).xorb_merkle_hash ≡ s.xorb_merkle_hash
unfolding pin_row
pin_key oid now s = ground arith

abbrev on_reply : StuckRow → Bytes → SiaReply → M Bool
on_reply row oid (accepted b) = set_pinned_xorb row.hash oid >> pure true
on_reply row oid (refused e) = bump_xorb_attempt row.hash row.pin_attempts e
on_reply row oid timed_out = bump_xorb_attempt row.hash row.pin_attempts other_failure

retry_pin-effect :
    (row : StuckRow) (oid : Bytes) (reply : SiaReply) (v : World) (r : XorbRow)
    → v.faults ≡ []
    → find_xorb row.hash (v.tables).xorbs ≡ some r
    → find_xorb row.hash ((((on_reply row oid reply v).1).tables).xorbs)
      ≡ some (after_reply oid reply row.pin_attempts v.now_ms r)
unfolding set_pinned_xorb
retry_pin-effect row oid (accepted b) v r n e =
    tables_then row.hash (update row.hash (pin_row oid)) (pure true) v _ (λ v. refl)
      (update-effect row.hash (pin_row oid) v r (pin_key oid) n e)
retry_pin-effect row oid (refused x) v r n e =
    bump_xorb_attempt-effect row.hash row.pin_attempts x v r n e
retry_pin-effect row oid timed_out v r n e =
    bump_xorb_attempt-effect row.hash row.pin_attempts other_failure v r n e

pub pinning_arm :
    (row : StuckRow) (oid : Bytes)
    → row.pin_state ≡ pinning
    → row.sia_object_id ≡ some oid
    → reconcile_xorb_row row ≡ retry_pin row oid
unfolding reconcile_xorb_row
pinning_arm row oid s o =
    ap
      (λ state.
        if is_uploading state
        then (orphan_xorb row.hash >> inc_orphaned_xorb >> pure true)
        else elim row.sia_object_id as (λ _. M Bool) [
          | some i ↦ retry_pin row i
          | none ↦ retry_body row
        ])
      s
    ∙ ap (λ id. elim id as (λ _. M Bool) [ some i ↦ retry_pin row i | none ↦ retry_body row ]) o

retry_pin-next :
    (row : StuckRow) (oid : Bytes) (reply : SiaReply) (rest : List SiaReply) (w : World)
    → w.sia_replies ≡ reply ∷ rest
    → retry_pin row oid w ≡ on_reply row oid reply (record w { sia_replies = rest })
unfolding retry_pin
retry_pin-next row oid reply rest w q =
    bind_ok pin_only (on_reply row oid) w reply _ (pin_only-next w reply rest q)

-- A row read as 'pinning' with its object id `oid`, where no statement fails and the adapter's next
-- answer is `reply`: the row that the table then holds under its hash, whatever it has become since
-- it was read, is pinned on success, only stamped on a transient error, and on any other error or a
-- timeout counted, or orphaned where the attempts that were read are 4 or more.
pub reconcile_xorb_row-outcome :
    (row : StuckRow) (oid : Bytes) (reply : SiaReply) (rest : List SiaReply) (w : World)
    (r : XorbRow)
    → row.pin_state ≡ pinning
    → row.sia_object_id ≡ some oid
    → w.faults ≡ []
    → w.sia_replies ≡ reply ∷ rest
    → find_xorb row.hash (w.tables).xorbs ≡ some r
    → find_xorb row.hash ((((reconcile_xorb_row row w).1).tables).xorbs)
      ≡ some (after_reply oid reply row.pin_attempts w.now_ms r)
reconcile_xorb_row-outcome row oid reply rest w r s o n q e =
    ap (λ m. find_xorb row.hash ((((m w).1).tables).xorbs)) (pinning_arm row oid s o)
    ∙ ap (λ x. find_xorb row.hash (((x.1).tables).xorbs)) (retry_pin-next row oid reply rest w q)
    ∙ retry_pin-effect row oid reply (record w { sia_replies = rest }) r n e

-- A row read as 'pinning' with its object id and 4 attempts, which an upload pinned before the sweep
-- came to it: where no statement fails and the adapter refuses for good, the sweep orphans the pinned
-- row.
pub reconcile_xorb_row-overwrites_pinned :
    (row : StuckRow) (oid : Bytes) (rest : List SiaReply) (w : World) (r : XorbRow)
    → row.pin_state ≡ pinning
    → row.sia_object_id ≡ some oid
    → row.pin_attempts ≡ 4
    → r.pin_state ≡ pinned
    → w.faults ≡ []
    → w.sia_replies ≡ refused other_failure ∷ rest
    → find_xorb row.hash (w.tables).xorbs ≡ some r
    → find_xorb row.hash ((((reconcile_xorb_row row w).1).tables).xorbs)
      ≡ some (record r {
        pin_state = orphaned;
        pin_attempts = r.pin_attempts + 1;
        last_pin_attempt_at = some w.now_ms;
      })
unfolding orphan_row
reconcile_xorb_row-overwrites_pinned row oid rest w r s o four p n q e =
    reconcile_xorb_row-outcome row oid (refused other_failure) rest w r s o n q e
    ∙ ap (λ k. some (after_failure other_failure k w.now_ms r)) four
