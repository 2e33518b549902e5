-- ===== src/Store/Xorbs.antt =====
-- cas/crates/openweights-cas-db/src/queries/xorbs.rs, over the table `xorbs`. Its primary key is
-- the hash.
use open_weights.Base.{
  ℕ, ◌+◌, Bool, true, false, Option, none, some, List, [], ◌∷◌, ◌++◌, ◌==◌, if◌then◌else◌,
}
use open_weights.Coalesce.{Hash}
use open_weights.ShardParse.{Bytes, is_empty}
use open_weights.ShardParse.References.{contains}
use open_weights.Store.{Uuid, XorbPinState, pinning, pinned, XorbRow, Db, M, pure, query}

abbrev pub find_xorb : Hash → List XorbRow → Option XorbRow
find_xorb h [] = none
find_xorb h (r ∷ rs) = if h == r.xorb_merkle_hash then some r else find_xorb h rs

-- `UPDATE xorbs SET … WHERE xorb_merkle_hash = h`
abbrev pub update_xorb : Hash → (XorbRow → XorbRow) → List XorbRow → List XorbRow
update_xorb h f [] = []
update_xorb h f (r ∷ rs) = (if h == r.xorb_merkle_hash then f r else r) ∷ update_xorb h f rs

abbrev pub is_none : {A : Type 0} → Option A → Bool
is_none none = true
is_none (some a) = false

abbrev pub is_pinned : XorbPinState → Bool
is_pinned pinned = true
is_pinned _ = false

-- `COALESCE(a, b)`
abbrev pub coalesce : {A : Type 0} → Option A → Option A → Option A
coalesce none b = b
coalesce (some a) b = some a

unfoldable pub new_xorb : Hash → ℕ → ℕ → Uuid → List ℕ → XorbRow
new_xorb h size_bytes user key boundaries = record {
  xorb_merkle_hash = h;
  sia_object_id = none;
  size_bytes = size_bytes;
  owner_user_id = user;
  owner_api_key_id = key;
  chunk_boundaries = if is_empty boundaries then none else some boundaries;
  pin_state = pinning;
  pin_attempts = 0;
  last_pin_attempt_at = none;
}

-- The statement of `insert_pending`.
unfoldable pub insert_xorb : Hash → ℕ → ℕ → Uuid → List ℕ → Db → Bool × Db
unfolding new_xorb
insert_xorb h size_bytes user key boundaries d =
    if is_none (find_xorb h d.xorbs)
    then (true, record d { xorbs = d.xorbs ++ new_xorb h size_bytes user key boundaries ∷ [] })
    else (false, d)

unfoldable pub insert_pending : Hash → ℕ → ℕ → Uuid → List ℕ → M Bool
unfolding insert_xorb
insert_pending h size_bytes user key boundaries =
    query (insert_xorb h size_bytes user key boundaries)

-- The rows of `get_chunk_boundaries`, without those that have none.
abbrev pub boundaries_of : List Hash → List XorbRow → List (Hash × List ℕ)
boundaries_of hs [] = []
boundaries_of hs (r ∷ rs) =
    if contains r.xorb_merkle_hash hs
    then elim r.chunk_boundaries [
      | none ↦ boundaries_of hs rs
      | some [] ↦ boundaries_of hs rs
      | some (b ∷ bs) ↦ (r.xorb_merkle_hash, b ∷ bs) ∷ boundaries_of hs rs
    ]
    else boundaries_of hs rs

unfoldable pub get_chunk_boundaries : List Hash → M (List (Hash × List ℕ))
get_chunk_boundaries hs =
    if is_empty hs then pure [] else query (λ d. (boundaries_of hs d.xorbs, d))

-- The statement of `set_pin_state`, at the time `now`.
unfoldable pub stamp_xorb : ℕ → XorbPinState → Option Bytes → XorbRow → XorbRow
stamp_xorb now state sia_object_id r = record r {
  pin_state = state;
  sia_object_id = coalesce sia_object_id r.sia_object_id;
  pin_attempts = r.pin_attempts + 1;
  last_pin_attempt_at = some now;
}

unfoldable pub set_pin_state : Hash → XorbPinState → Option Bytes → M (Unit {0})
unfolding stamp_xorb
set_pin_state h state sia_object_id w =
    query
      (λ d.
        (tt, record d { xorbs = update_xorb h (stamp_xorb w.now_ms state sia_object_id) d.xorbs }))
      w

unfoldable pub get_sia_object_id : Hash → M (Option Bytes)
get_sia_object_id h = query λ d. (
  elim (find_xorb h d.xorbs) [
    | none ↦ none
    | some r ↦ if is_pinned r.pin_state then r.sia_object_id else none
  ],
  d,
)

unfoldable pub exists_pinned : Hash → M Bool
exists_pinned h =
    query λ d. (elim (find_xorb h d.xorbs) [ none ↦ false | some r ↦ is_pinned r.pin_state ], d)
