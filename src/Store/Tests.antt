-- ===== src/Store/Tests.antt =====
-- A small database: xorb 7 is pinned, xorb 9 is stuck in 'pinning', and file 5 has a term in each.
use open_weights.Base.{ℕ, arith, Option, none, some, List, [], ◌∷◌}
use open_weights.Coalesce.{Hash}
use open_weights.ShardParse.{Bytes}
use open_weights.Store.{
  XorbPinState, pinning, pinned, AuthContext, XorbRow, TermRow, Db, SiaReply, World,
}
use open_weights.Store.Durable.{IsDurable}

abbrev pub ctx : AuthContext
ctx = record { api_key_id = 3; user_id = 1; scopes = [] }

abbrev xorb_row : Hash → Option Bytes → XorbPinState → ℕ → XorbRow
xorb_row h sia_object_id state attempts = record {
  xorb_merkle_hash = h;
  sia_object_id = sia_object_id;
  size_bytes = 18;
  owner_user_id = 1;
  owner_api_key_id = 3;
  chunk_boundaries = some (18 ∷ []);
  pin_state = state;
  pin_attempts = attempts;
  last_pin_attempt_at = none;
}

abbrev pub pinned_row : XorbRow
pinned_row = xorb_row 7 (some (1 ∷ [])) pinned 0

abbrev pub stuck_row : XorbRow
stuck_row = xorb_row 9 (some (2 ∷ [])) pinning 4

abbrev term_row : ℕ → Hash → TermRow
term_row index xorb = record {
  file_id = 5;
  term_index = index;
  xorb_hash = xorb;
  xorb_start = 0;
  xorb_end = 1;
  xorb_byte_start = 0;
  xorb_byte_end = 18;
  unpacked_start = 0;
  unpacked_end = 10;
}

abbrev pub small_db : Db
small_db = record {
  xorbs = pinned_row ∷ stuck_row ∷ [];
  xorb_bodies = (7, 0 ∷ []) ∷ (9, 0 ∷ []) ∷ [];
  shards = [];
  reconstruction_files =
      record { file_id = 5; shard_hash = 4; total_size = 20; sha256 = none } ∷ [];
  reconstruction_terms = term_row 1 9 ∷ term_row 0 7 ∷ [];
  usage_log = [];
}

abbrev pub small_world : List SiaReply → World
small_world replies = record {
  tables = small_db;
  faults = [];
  now_ms = 1000000;
  redis_ms = 1000000;
  buckets = λ class key. record { count = none; ts = none; expires_at = 0 };
  sia_replies = replies;
  sia_uploads = [];
  metrics = record { sweeps = 0; failures = 0; orphaned_xorbs = 0; orphaned_shards = 0 };
}

pub small_db-IsDurable : IsDurable small_db
unfolding IsDurable
small_db-IsDurable = ground arith
