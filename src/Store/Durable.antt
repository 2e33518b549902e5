-- ===== src/Store/Durable.antt =====
-- The rule that a pinned row has the id of its Sia object, and the statements of queries/xorbs.rs and
-- queries/shards.rs that could break it.
use open_weights.Base.{
  ℕ, ◌≡◌, ◌≢◌, true, false, Option, none, List, [], ◌∷◌, ◌++◌, All, All-append, arith,
}
use open_weights.Coalesce.{Hash}
use open_weights.ShardParse.{Bytes, ParsedFile, ParsedTerm, is_empty}
use open_weights.Store.{
  Uuid, Db, XorbRow, ShardRow, XorbPinState, pinned, pure, query, ◌>>◌, UsageRow,
}
use open_weights.Store.Xorbs
use open_weights.Store.Shards
use open_weights.Store.Xorbs.{update_xorb, is_pinned, coalesce, is_none, find_xorb}
use open_weights.Store.Shards.{update_shard}
use open_weights.Store.Preserves.{
  Preserves, query-Preserves, pure-Preserves, bind-Preserves, if-Preserves, throw-Preserves,
}

-- A row that is served or deduplicated against can be fetched.
abbrev pub HasObject : XorbPinState → Option Bytes → Type 0
HasObject state oid = state ≡ pinned → oid ≢ none

abbrev pub XorbHasObject : XorbRow → Type 0
XorbHasObject r = HasObject r.pin_state r.sia_object_id

abbrev pub ShardHasObject : ShardRow → Type 0
ShardHasObject r = HasObject r.pin_state r.sia_object_id

unfoldable pub IsDurable : Db → Type 0
IsDurable d = All XorbHasObject d.xorbs × All ShardHasObject d.shards

pub update_xorb-All :
    (Q : XorbRow → Type 0) (h : Hash) (f : XorbRow → XorbRow) (rs : List XorbRow)
    → ((r : XorbRow) → Q r → Q (f r))
    → All Q rs
    → All Q (update_xorb h f rs)
update_xorb-All Q h f [] k a = tt
update_xorb-All Q h f (r ∷ rs) k a = ground (arith, k r, a.0, update_xorb-All Q h f rs k a.1)

pub update_shard-All :
    (Q : ShardRow → Type 0) (h : Hash) (f : ShardRow → ShardRow) (rs : List ShardRow)
    → ((r : ShardRow) → Q r → Q (f r))
    → All Q rs
    → All Q (update_shard h f rs)
update_shard-All Q h f [] k a = tt
update_shard-All Q h f (r ∷ rs) k a = ground (arith, k r, a.0, update_shard-All Q h f rs k a.1)

stamp_xorbs-IsDurable :
    (now : ℕ) (h : Hash) (state : XorbPinState) (oid : Option Bytes)
    → HasObject state oid
    → (d : Db) → IsDurable d
    → IsDurable (record d { xorbs = update_xorb h (Xorbs.stamp_xorb now state oid) d.xorbs })
unfolding IsDurable Xorbs.stamp_xorb
stamp_xorbs-IsDurable now h state oid k d q = (
  update_xorb-All XorbHasObject h (Xorbs.stamp_xorb now state oid) d.xorbs
      (λ r a. ground (arith, k)) q.0,
  q.1,
)

pub set_xorb_state-IsDurable :
    (h : Hash) (state : XorbPinState) (oid : Option Bytes)
    → HasObject state oid
    → Preserves IsDurable (Xorbs.set_pin_state h state oid)
unfolding Xorbs.set_pin_state Preserves
set_xorb_state-IsDurable h state oid k w =
    query-Preserves IsDurable {A = Unit {0}}
      (λ d. (tt, record d { xorbs = update_xorb h (Xorbs.stamp_xorb w.now_ms state oid) d.xorbs }))
      (stamp_xorbs-IsDurable w.now_ms h state oid k) w

stamp_shards-IsDurable :
    (now : ℕ) (h : Hash) (state : XorbPinState) (oid : Option Bytes)
    → HasObject state oid
    → (d : Db) → IsDurable d
    → IsDurable (record d { shards = update_shard h (Shards.stamp_shard now state oid) d.shards })
unfolding IsDurable Shards.stamp_shard
stamp_shards-IsDurable now h state oid k d q = (
  q.0,
  update_shard-All ShardHasObject h (Shards.stamp_shard now state oid) d.shards
      (λ r a. ground (arith, k)) q.1,
)

pub set_shard_state-IsDurable :
    (h : Hash) (state : XorbPinState) (oid : Option Bytes)
    → HasObject state oid
    → Preserves IsDurable (Shards.set_pin_state h state oid)
unfolding Shards.set_pin_state Preserves
set_shard_state-IsDurable h state oid k w =
    query-Preserves IsDurable {A = Unit {0}}
      (λ d.
        (tt, record d { shards = update_shard h (Shards.stamp_shard w.now_ms state oid) d.shards }))
      (stamp_shards-IsDurable w.now_ms h state oid k) w

pub insert_pending-IsDurable :
    (h : Hash) (size user : ℕ) (key : Uuid) (bs : List ℕ)
    → Preserves IsDurable (Xorbs.insert_pending h size user key bs)
unfolding IsDurable Xorbs.insert_pending Xorbs.insert_xorb Xorbs.new_xorb
insert_pending-IsDurable h size user key bs =
    query-Preserves IsDurable (Xorbs.insert_xorb h size user key bs) λ d q.
      ground
        (arith, q, All-append XorbHasObject d.xorbs (Xorbs.new_xorb h size user key bs ∷ []) q.0)

pub insert_shard_row-IsDurable :
    (h : Hash) (size user : ℕ) (key : Uuid)
    → Preserves IsDurable (query (Shards.insert_shard_row h size user key))
unfolding IsDurable Shards.insert_shard_row Shards.new_shard
insert_shard_row-IsDurable h size user key =
    query-Preserves IsDurable (Shards.insert_shard_row h size user key) λ d q.
      ground
        (arith, q, All-append ShardHasObject d.shards (Shards.new_shard h size user key ∷ []) q.1)

revive-IsDurable :
    (hs : List Hash) (rs : List XorbRow)
    → All XorbHasObject rs
    → All XorbHasObject (Shards.revive hs rs).1
unfolding Shards.revive
revive-IsDurable hs [] a = tt
revive-IsDurable hs (r ∷ rs) a = ground (arith, a.0, revive-IsDurable hs rs a.1)

pub revive_orphaned_xorbs-IsDurable :
    (hs : List Hash) → Preserves IsDurable (Shards.revive_orphaned_xorbs hs)
unfolding Shards.revive_orphaned_xorbs IsDurable
revive_orphaned_xorbs-IsDurable hs =
    if-Preserves IsDurable (is_empty hs) _ _ (pure-Preserves IsDurable 0) (
      query-Preserves IsDurable
        (λ d. let (n, rows) = Shards.revive hs d.xorbs in (n, record d { xorbs = rows }))
        λ d q. (revive-IsDurable hs d.xorbs q.0, q.1))

pub log_usage-IsDurable : (row : UsageRow) → Preserves IsDurable (Shards.log_usage row)
unfolding IsDurable
log_usage-IsDurable row =
    query-Preserves IsDurable (λ d. (tt, record d { usage_log = d.usage_log ++ row ∷ [] })) λ d q. q

pub insert_files-IsDurable :
    (h : Hash) (fs : List ParsedFile) → Preserves IsDurable (Shards.insert_files h fs)
unfolding IsDurable Shards.insert_files
insert_files-IsDurable h fs =
    if-Preserves IsDurable (is_empty fs) _ _ (pure-Preserves IsDurable tt) (
      if-Preserves IsDurable (Shards.repeats fs) _ _ (throw-Preserves IsDurable _ _) (
        query-Preserves IsDurable {A = Unit {0}}
          (λ d. (
            tt,
            record d { reconstruction_files = Shards.upsert_files h fs d.reconstruction_files },
          ))
          λ d q. q))

pub insert_term_rows-IsDurable :
    (ts : List ParsedTerm) → Preserves IsDurable (Shards.insert_term_rows ts)
unfolding IsDurable Shards.insert_term_rows
insert_term_rows-IsDurable ts =
    if-Preserves IsDurable (is_empty ts) _ _ (pure-Preserves IsDurable tt) (
      query-Preserves IsDurable {A = Unit {0}}
        (λ d.
          (tt, record d { reconstruction_terms = Shards.insert_terms ts d.reconstruction_terms }))
        λ d q. q)

pub insert_shard-IsDurable :
    (h : Hash) (size user : ℕ) (key : Uuid) (fs : List ParsedFile) (ts : List ParsedTerm)
    → Preserves IsDurable (Shards.insert_shard_with_reconstruction h size user key fs ts)
unfolding Shards.insert_shard_with_reconstruction
insert_shard-IsDurable h size user key fs ts =
    bind-Preserves IsDurable (query (Shards.insert_shard_row h size user key)) _
      (insert_shard_row-IsDurable h size user key)
      λ fresh.
        if-Preserves IsDurable fresh _ _
          (bind-Preserves IsDurable (Shards.insert_files h fs >> Shards.insert_term_rows ts)
            (λ _. pure true)
            (bind-Preserves IsDurable (Shards.insert_files h fs) _ (insert_files-IsDurable h fs)
              λ _. insert_term_rows-IsDurable ts)
            λ _. pure-Preserves IsDurable true)
          (pure-Preserves IsDurable false)
