-- ===== src/Reconciler/KeepsXorbs.antt =====
-- What the four updates of one row of `xorbs` keep true, `reconcile_xorb_row` keeps true.
use open_weights.Base.{ℕ, ◌+◌, Bool, true, Option, none, some, leb}
use open_weights.ShardParse.{Bytes}
use open_weights.Store.{
  Db, XorbRow, M, SiaAdapterError, SiaReply, accepted, refused, timed_out, other_failure, pure,
  ◌>>◌,
}
use open_weights.Store.Xorbs.{update_xorb}
use open_weights.Store.Preserves.{
  Preserves, read-Preserves, query-Preserves, pure-Preserves, bind-Preserves, if-Preserves,
  pin_only-Preserves, upload_and_pin-Preserves,
}
use open_weights.Reconciler.Common.{StuckRow, is_uploading, is_transient, max_pin_attempts}
use open_weights.Reconciler.Xorbs
use open_weights.Reconciler.Preserves.{KeepsXorb, inc_orphaned_xorb-Preserves}

module _ (P : Db → Type 0) (row : StuckRow)
    (pins : (sia_id : Bytes) → KeepsXorb P row.hash (Xorbs.pin_row sia_id))
    (orphans : KeepsXorb P row.hash Xorbs.orphan_row)
    (touches : KeepsXorb P row.hash Xorbs.touch_row)
    (counts : KeepsXorb P row.hash Xorbs.count_row) where
  update-Preserves :
      (f : ℕ → XorbRow → XorbRow) → KeepsXorb P row.hash f → Preserves P (Xorbs.update row.hash f)
  unfolding Preserves
  update-Preserves f k w p =
      query-Preserves P (λ d. (tt, record d { xorbs = update_xorb row.hash (f w.now_ms) d.xorbs }))
        (k w.now_ms) w p

  bump-Preserves :
      (n : ℕ) (e : SiaAdapterError) → Preserves P (Xorbs.bump_xorb_attempt row.hash n e)
  unfolding Xorbs.bump_xorb_attempt Xorbs.orphan_xorb
  bump-Preserves n e =
      if-Preserves P (is_transient e) _ _
        (bind-Preserves P _ _ (update-Preserves Xorbs.touch_row touches) λ _. pure-Preserves P true)
        (if-Preserves P (leb max_pin_attempts (n + 1)) _ _
          (bind-Preserves P _ _
            (bind-Preserves P _ _ (update-Preserves Xorbs.orphan_row orphans)
              λ _. inc_orphaned_xorb-Preserves P)
            λ _. pure-Preserves P true)
          (bind-Preserves P _ _ (update-Preserves Xorbs.count_row counts)
            λ _. pure-Preserves P true))

  set_pinned-Preserves :
      (sia_id : Bytes) → Preserves P (Xorbs.set_pinned_xorb row.hash sia_id >> pure true)
  unfolding Xorbs.set_pinned_xorb
  set_pinned-Preserves sia_id =
      bind-Preserves P _ _ (update-Preserves (Xorbs.pin_row sia_id) (pins sia_id))
        λ _. pure-Preserves P true

  -- The arms on the adapter's reply.
  reply-Preserves :
      (n : ℕ) (pin : Bytes → M Bool) (timeout : SiaAdapterError)
      → ((b : Bytes) → Preserves P (pin b))
      → (reply : SiaReply)
      → Preserves P (elim reply as (λ _. M Bool) [
        | accepted b ↦ pin b
        | refused e ↦ Xorbs.bump_xorb_attempt row.hash n e
        | timed_out ↦ Xorbs.bump_xorb_attempt row.hash n timeout
      ])
  reply-Preserves n pin timeout k (accepted b) = k b
  reply-Preserves n pin timeout k (refused e) = bump-Preserves n e
  reply-Preserves n pin timeout k timed_out = bump-Preserves n timeout

  retry_upload-Preserves : (bytes : Bytes) → Preserves P (Xorbs.retry_upload row bytes)
  unfolding Xorbs.retry_upload
  retry_upload-Preserves bytes =
      (bind-Preserves P _ _ (upload_and_pin-Preserves P bytes)
        (reply-Preserves row.pin_attempts _ other_failure set_pinned-Preserves))

  retry_pin-Preserves : (oid : Bytes) → Preserves P (Xorbs.retry_pin row oid)
  unfolding Xorbs.retry_pin
  retry_pin-Preserves oid =
      (bind-Preserves P _ _ (pin_only-Preserves P)
        (reply-Preserves row.pin_attempts _ other_failure λ _. set_pinned-Preserves oid))

  body-Preserves :
      (body : Option Bytes)
      → Preserves P (elim body as (λ _. M Bool) [
        | some bytes ↦ Xorbs.retry_upload row bytes
        | none ↦ Xorbs.bump_xorb_attempt row.hash row.pin_attempts other_failure
      ])
  body-Preserves (some bytes) = retry_upload-Preserves bytes
  body-Preserves none = bump-Preserves row.pin_attempts other_failure

  load_xorb_body-Preserves : Preserves P (Xorbs.load_xorb_body row.hash)
  unfolding Xorbs.load_xorb_body
  load_xorb_body-Preserves = read-Preserves P λ d. Xorbs.find_body row.hash d.xorb_bodies

  retry_body-Preserves : Preserves P (Xorbs.retry_body row)
  unfolding Xorbs.retry_body
  retry_body-Preserves = bind-Preserves P _ _ load_xorb_body-Preserves body-Preserves

  pinning-Preserves :
      (oid : Option Bytes)
      → Preserves P (elim oid as (λ _. M Bool) [
        | some b ↦ Xorbs.retry_pin row b
        | none ↦ Xorbs.retry_body row
      ])
  pinning-Preserves (some oid) = retry_pin-Preserves oid
  pinning-Preserves none = retry_body-Preserves

  pub reconcile_xorb_row-Preserves : Preserves P (Xorbs.reconcile_xorb_row row)
  unfolding Xorbs.reconcile_xorb_row Xorbs.orphan_xorb
  reconcile_xorb_row-Preserves =
      if-Preserves P (is_uploading row.pin_state) _ _
        (bind-Preserves P _ _
          (bind-Preserves P _ _ (update-Preserves Xorbs.orphan_row orphans)
            λ _. inc_orphaned_xorb-Preserves P)
          λ _. pure-Preserves P true)
        (pinning-Preserves row.sia_object_id)
