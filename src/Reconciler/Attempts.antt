-- ===== src/Reconciler/Attempts.antt =====
-- reconciler.rs: a sweep of one row of `xorbs` while the adapter refuses for good.
use open_weights.Base.{
  ℕ, ◌+◌, ◌≤◌, ◌<◌, ◌≡◌, refl, ap, ◌∙◌, Bool, true, false, Option, none, some, List, [], ◌∷◌, leb,
  min, if◌then◌else◌, arith, All,
}
use open_weights.Coalesce.{Hash}
use open_weights.ShardParse.{Bytes}
use open_weights.Store.{
  pinning, orphaned, XorbRow, World, ok, pure, ◌>>◌, SiaReply, accepted, refused, timed_out,
  unavailable, other_failure,
}
use open_weights.Store.Xorbs.{find_xorb, update_xorb}
use open_weights.Reconciler.Common.{
  StuckRow, is_stuck, stuck_threshold, max_pin_attempts, inc_orphaned_xorb,
}
use open_weights.Reconciler.Xorbs.{
  update, orphan_row, count_row, orphan_xorb, bump_xorb_attempt, retry_pin, reconcile_xorb_row,
}
use open_weights.Reconciler.Outcomes.{pinning_arm, bind_ok}

-- The row as `fetch_stuck_xorbs` reads it.
abbrev pub read_row : XorbRow → StuckRow
read_row r = record {
  hash = r.xorb_merkle_hash;
  sia_object_id = r.sia_object_id;
  pin_state = r.pin_state;
  pin_attempts = r.pin_attempts;
}

abbrev pub sweep_found : Option XorbRow → World → World
sweep_found none w = w
sweep_found (some r) w =
    if is_stuck w.now_ms r.pin_state r.last_pin_attempt_at r.pin_attempts
    then (reconcile_xorb_row (read_row r) w).1
    else w

-- The part of a sweep that is about the row of the hash `h`: it is read, and reconciled if it is stuck.
unfoldable pub sweep_row : Hash → World → World
sweep_row h w = sweep_found (find_xorb h (w.tables).xorbs) w

-- Sweeps, each after so many milliseconds.
unfoldable pub sweeps_of : Hash → List ℕ → World → World
unfolding sweep_row
sweeps_of h [] w = w
sweeps_of h (d ∷ ds) w = sweeps_of h ds (sweep_row h (record w { now_ms = w.now_ms + d }))

-- A reply that counts as an attempt.
abbrev pub is_permanent : SiaReply → Bool
is_permanent (accepted b) = false
is_permanent (refused unavailable) = false
is_permanent (refused other_failure) = true
is_permanent timed_out = true

-- Time has not gone back behind the last attempt.
abbrev pub IsPast : Option ℕ → ℕ → Type 0
IsPast none now = Unit
IsPast (some t) now = t ≤ now

module _ (h : Hash) (oid : Bytes) (orphans : ℕ) where
  -- After `n` attempts that failed for good: below 5 the row is still to be pinned, from 5 on it is
  -- orphaned, by one sweep, which counts it once.
  pub record HasFailed (n : ℕ) (w : World) : Type 0 where
    pub quiet : w.faults ≡ []
    pub refusing : All (λ reply. is_permanent reply ≡ true) w.sia_replies
    pub row : XorbRow
    pub here : find_xorb h (w.tables).xorbs ≡ some row
    pub key : row.xorb_merkle_hash ≡ h
    pub object : row.sia_object_id ≡ some oid
    pub attempts : row.pin_attempts ≡ min n 5
    pub state : row.pin_state ≡ (if leb 5 n then orphaned else pinning)
    pub past : IsPast row.last_pin_attempt_at w.now_ms
    pub counted : (w.metrics).orphaned_xorbs ≡ orphans + (if leb 5 n then 1 else 0)

-- A statement that does not fail.
pub update-runs :
    (h : Hash) (f : ℕ → XorbRow → XorbRow) (w : World)
    → w.faults ≡ []
    → update h f w ≡ (
      ok tt,
      record w {
        tables = record (w.tables) { xorbs = update_xorb h (f w.now_ms) (w.tables).xorbs };
      },
    )
update-runs h f w n = ground (arith, n)

pub bump-counts :
    (h : Hash) (prior : ℕ) (w : World)
    → w.faults ≡ []
    → prior + 1 < 5
    → (bump_xorb_attempt h prior other_failure w).1 ≡ record w {
      tables = record (w.tables) { xorbs = update_xorb h (count_row w.now_ms) (w.tables).xorbs };
    }
unfolding bump_xorb_attempt
bump-counts h prior w n few =
    let more : leb max_pin_attempts (prior + 1) ≡ false = ground arith in
    rw more (
      ap (λ r. r.1)
        (bind_ok (update h count_row) (λ _. pure true) w tt _ (update-runs h count_row w n)))

pub bump-orphans :
    (h : Hash) (prior : ℕ) (w : World)
    → w.faults ≡ []
    → 5 ≤ prior + 1
    → (bump_xorb_attempt h prior other_failure w).1 ≡ record w {
      tables = record (w.tables) { xorbs = update_xorb h (orphan_row w.now_ms) (w.tables).xorbs };
      metrics = record (w.metrics) { orphaned_xorbs = (w.metrics).orphaned_xorbs + 1 };
    }
unfolding bump_xorb_attempt orphan_xorb inc_orphaned_xorb
bump-orphans h prior w n many =
    let more : leb max_pin_attempts (prior + 1) ≡ true = ground arith in
    rw more (
      ap (λ r. r.1)
        (bind_ok (update h orphan_row >> inc_orphaned_xorb) (λ _. pure true) w tt _
          (bind_ok (update h orphan_row) (λ _. inc_orphaned_xorb) w tt _
            (update-runs h orphan_row w n))))

abbrev pub tail : List SiaReply → List SiaReply
tail [] = []
tail (r ∷ rs) = rs

refused-bumps :
    (row : StuckRow) (oid : Bytes) (w : World) (rs : List SiaReply)
    → All (λ reply. is_permanent reply ≡ true) rs
    → retry_pin row oid (record w { sia_replies = rs })
      ≡ bump_xorb_attempt row.hash row.pin_attempts other_failure
          (record w { sia_replies = tail rs })
unfolding retry_pin
refused-bumps row oid w [] h = refl
refused-bumps row oid w (accepted b ∷ rs) h = let no = h.0 in absurd (ground arith)
refused-bumps row oid w (refused unavailable ∷ rs) h = let no = h.0 in absurd (ground arith)
refused-bumps row oid w (refused other_failure ∷ rs) h = refl
refused-bumps row oid w (timed_out ∷ rs) h = refl

pub All-tail :
    (rs : List SiaReply)
    → All (λ reply. is_permanent reply ≡ true) rs
    → All (λ reply. is_permanent reply ≡ true) (tail rs)
All-tail [] h = tt
All-tail (r ∷ rs) h = h.1

is_stuck-due :
    (last : Option ℕ) (now d attempts : ℕ)
    → IsPast last now
    → stuck_threshold < d
    → attempts < 5
    → is_stuck (now + d) pinning last attempts ≡ true
unfolding is_stuck
is_stuck-due none now d attempts past late few = ground arith
is_stuck-due (some t) now d attempts past late few = ground arith

pub is_stuck-orphaned :
    (last : Option ℕ) (now attempts : ℕ) → is_stuck now orphaned last attempts ≡ false
unfolding is_stuck
is_stuck-orphaned last now attempts = refl

-- The sweep of a row that is due, where the adapter refuses.
pub sweep-bumps :
    (h : Hash) (oid : Bytes) (row : XorbRow) (n d : ℕ) (w : World)
    → All (λ reply. is_permanent reply ≡ true) w.sia_replies
    → find_xorb h (w.tables).xorbs ≡ some row
    → row.xorb_merkle_hash ≡ h
    → row.sia_object_id ≡ some oid
    → row.pin_attempts ≡ n
    → row.pin_state ≡ pinning
    → IsPast row.last_pin_attempt_at w.now_ms
    → stuck_threshold < d
    → n < 5
    → sweep_row h (record w { now_ms = w.now_ms + d })
      ≡ (bump_xorb_attempt h n other_failure
          (record w { now_ms = w.now_ms + d; sia_replies = tail w.sia_replies })).1
unfolding sweep_row
sweep-bumps h oid row n d w refusing here key object attempts state past late few =
    let w' = record w { now_ms = w.now_ms + d } in
    let due : is_stuck (w.now_ms + d) row.pin_state row.last_pin_attempt_at row.pin_attempts
        ≡ true =
      rw (state, attempts) (is_stuck-due row.last_pin_attempt_at w.now_ms d n past late few) in
    ap (λ o. sweep_found o w') here
    ∙ ap (λ b. if b then (reconcile_xorb_row (read_row row) w').1 else w') due
    ∙ ap (λ m. (m w').1) (pinning_arm (read_row row) oid state object)
    ∙ ap (λ r. r.1) (refused-bumps (read_row row) oid w' w.sia_replies refusing)
    ∙ ap
        (λ k.
          (bump_xorb_attempt k row.pin_attempts other_failure
            (record w' { sia_replies = tail w.sia_replies })).1)
        key
    ∙ ap
        (λ k.
          (bump_xorb_attempt h k other_failure (record w' { sia_replies = tail w.sia_replies })).1)
        attempts
