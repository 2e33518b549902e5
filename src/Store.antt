-- ===== src/Store.antt =====
-- What the handlers work on: the tables that the SQL of cas/crates/openweights-cas-db/src/queries
-- reads and writes, the rate-limit buckets and the Sia adapter, and the error type of
-- cas/crates/openweights-cas-core/src/errors.rs. Each statement may fail: `faults` says which.
pub mod Xorbs
pub mod Shards
pub mod Files
pub mod Preserves
pub mod Durable
pub mod Inserted
pub mod Tests
use Prim.Native.String.{String}
use open_weights.Base.{
  ℕ, ◌+◌, Bool, true, false, Option, none, some, List, [], ◌∷◌, ◌++◌, ◌==◌, ◌&&◌, if◌then◌else◌,
}
use open_weights.Coalesce.{Hash}
use open_weights.ShardParse.{Bytes}
use open_weights.RateLimit.{RateLimitClass, RateLimitDefaults, Bucket, check_bucket, same_class}

abbrev pub Uuid : Type 0
Uuid = ℕ

pub data XorbPinState : Type 0 where
  uploading pinning pinned orphaned : XorbPinState

pub data ApiKeyScope : Type 0 where
  upload download admin : ApiKeyScope

pub record AuthContext : Type 0 where
  pub api_key_id : Uuid
  pub user_id : ℕ
  pub scopes : List ApiKeyScope

pub data AppError : Type 0 where
  unauthenticated forbidden not_found range_not_satisfiable : AppError
  bad_request : String → AppError
  hash_mismatch : Hash → Hash → AppError
  shard_missing_xorbs : List Hash → AppError
  shard_version_unsupported : AppError
  rate_limited : ℕ → AppError
  sia_unavailable db other : AppError

-- A row of `xorbs`.
pub record XorbRow : Type 0 where
  pub xorb_merkle_hash : Hash
  pub sia_object_id : Option Bytes
  pub size_bytes : ℕ
  pub owner_user_id : ℕ
  pub owner_api_key_id : Uuid
  pub chunk_boundaries : Option (List ℕ)
  pub pin_state : XorbPinState
  pub pin_attempts : ℕ
  pub last_pin_attempt_at : Option ℕ

-- A row of `shards`.
pub record ShardRow : Type 0 where
  pub shard_hash : Hash
  pub sia_object_id : Option Bytes
  pub size_bytes : ℕ
  pub owner_user_id : ℕ
  pub owner_api_key_id : Uuid
  pub pin_state : XorbPinState
  pub pin_attempts : ℕ
  pub last_pin_attempt_at : Option ℕ

-- A row of `reconstruction_files`.
pub record FileRow : Type 0 where
  pub file_id : Hash
  pub shard_hash : Hash
  pub total_size : ℕ
  pub sha256 : Option Hash

-- A row of `reconstruction_terms`.
pub record TermRow : Type 0 where
  pub file_id : Hash
  pub term_index : ℕ
  pub xorb_hash : Hash
  pub xorb_start : ℕ
  pub xorb_end : ℕ
  pub xorb_byte_start : ℕ
  pub xorb_byte_end : ℕ
  pub unpacked_start : ℕ
  pub unpacked_end : ℕ

pub data UsageEvent : Type 0 where
  xorb_upload shard_upload reconstruction : UsageEvent

-- A row of `usage_log`.
pub record UsageRow : Type 0 where
  pub event : UsageEvent
  pub api_key_id : Uuid
  pub user_id : ℕ
  pub xorb_hash : Option Hash
  pub shard_hash : Option Hash
  pub file_id : Option Hash
  pub bytes : Option ℕ

pub record Db : Type 0 where
  pub xorbs : List XorbRow
  pub xorb_bodies : List (Hash × Bytes)
  pub shards : List ShardRow
  pub reconstruction_files : List FileRow
  pub reconstruction_terms : List TermRow
  pub usage_log : List UsageRow

-- `SiaAdapterError`, whose variant `Other` is `other_failure`
pub data SiaAdapterError : Type 0 where
  unavailable other_failure : SiaAdapterError

-- What a call of the Sia adapter under its timeout comes back with.
pub data SiaReply : Type 0 where
  accepted : Bytes → SiaReply
  refused : SiaAdapterError → SiaReply
  timed_out : SiaReply

-- The counters behind `ReconcilerMetrics`.
pub record ReconcilerMetrics : Type 0 where
  pub sweeps : ℕ
  pub failures : ℕ
  pub orphaned_xorbs : ℕ
  pub orphaned_shards : ℕ

pub record World : Type 0 where
  pub tables : Db
  -- whether each next statement fails; none fails after the end
  pub faults : List Bool
  pub now_ms : ℕ
  -- the clock of Redis
  pub redis_ms : ℕ
  pub buckets : RateLimitClass → Uuid → Bucket
  -- the adapter's next replies, a timeout after the end, and the bodies that it was given
  pub sia_replies : List SiaReply
  pub sia_uploads : List Bytes
  pub metrics : ReconcilerMetrics

pub data Result (A : Type 0) : Type 0 where
  ok : A → Result A
  err : AppError → Result A

abbrev pub M : Type 0 → Type 0
M A = World → Result A × World

abbrev pub pure : {A : Type 0} → A → M A
pure a w = (ok a, w)

abbrev pub throw : {A : Type 0} → AppError → M A
throw e w = (err e, w)

infixl 5 ◌>>=◌ ◌>>◌
abbrev pub ◌>>=◌ : {A B : Type 0} → M A → (A → M B) → M B
◌>>=◌ m f w = let (r, w') = m w in elim r [ ok a ↦ f a w' | err e ↦ (err e, w') ]

abbrev pub ◌>>◌ : {A B : Type 0} → M A → M B → M B
m >> k = m >>= λ _. k

-- `let _ = …`, and `metering::log_on_err`: an error is dropped.
abbrev pub ignore : {A : Type 0} → M A → M (Unit {0})
ignore m w = (ok tt, (m w).1)

-- Whether the next statement fails, and the world after asking.
abbrev pub next_fault : World → Bool × World
next_fault w = elim w.faults [ [] ↦ (false, w) | b ∷ rest ↦ (b, record w { faults = rest }) ]

-- One SQL statement; a `sqlx::Error` becomes `AppError::Db`.
abbrev pub query : {A : Type 0} → (Db → A × Db) → M A
query f w =
    let (fails, w') = next_fault w in
    if fails then (err db, w') else (let (a, d) = f w'.tables in (ok a, record w' { tables = d }))

-- `buckets` with one bucket written.
abbrev pub store_bucket :
    RateLimitClass
    → Uuid
    → Bucket
    → (RateLimitClass → Uuid → Bucket)
    → RateLimitClass
    → Uuid
    → Bucket
store_bucket c k b old c' k' = if same_class c c' && k == k' then b else old c' k'

-- `rate_limit::check`; a failing Redis becomes `AppError::Other`.
unfoldable pub check : RateLimitDefaults → RateLimitClass → Uuid → M (Unit {0})
unfolding check_bucket
check d class key w =
    let (fails, w') = next_fault w in
    if fails
    then (err other, w')
    else let (denied, b) = check_bucket d class (w'.buckets class key) w'.now_ms w'.redis_ms in
      let w'' = record w' { buckets = store_bucket class key b w'.buckets } in
      elim denied [ none ↦ (ok tt, w'') | some retry_after ↦ (err (rate_limited retry_after), w'') ]

-- `sia.upload_and_pin(bytes)` under its timeout.
abbrev pub upload_and_pin : Bytes → M SiaReply
upload_and_pin bytes w = elim w.sia_replies [
  | [] ↦ (ok timed_out, record w { sia_uploads = w.sia_uploads ++ bytes ∷ [] })
  | r ∷ rest ↦ (ok r, record w { sia_replies = rest; sia_uploads = w.sia_uploads ++ bytes ∷ [] })
]

-- `sia.pin_only(oid)` under its timeout, whose success carries nothing.
abbrev pub pin_only : M SiaReply
pin_only w = elim w.sia_replies [
  | [] ↦ (ok timed_out, w)
  | r ∷ rest ↦ (ok r, record w { sia_replies = rest })
]
