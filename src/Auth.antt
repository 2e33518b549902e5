-- ===== src/Auth.antt =====
-- What authentication works on: the tables `users` and `api_keys` of cas/migrations, the key cache of
-- cas/crates/openweights-cas-core/src/auth.rs and the clocks, and the scopes of scopes.rs. Each
-- statement may fail: `faults` says which. SHA-256, HMAC, base64, serde_json and the `lru` crate are
-- parameters.
pub mod Cache
pub mod XetJwt
pub mod Scoped
pub mod Keys
pub mod Runs
pub mod Settled
pub mod Revoked
pub mod Handlers
pub mod Refused
pub mod Granted
pub mod Admitted
pub mod Minting
pub mod Issued
mod Tests
use Prim.Native.Char.{code}
use Prim.Native.String.{String}
use open_weights.Base.{
  ℕ, ◌+◌, ◌-◌, ◌*◌, Bool, true, false, not, ◌&&◌, ◌||◌, Option, none, some, List, [], ◌∷◌, ◌++◌,
  ◌==◌, ltb, if◌then◌else◌, Str,
}
use open_weights.Base.Maps.{str_eq}
use open_weights.Store.{
  Uuid, ApiKeyScope, upload, download, admin, AuthContext, AppError, unauthenticated, forbidden, db,
  other, Result, ok, err,
}

-- The bytes of an ASCII literal.
abbrev pub codes : String → Str
codes String.[] = []
codes (String.◌∷◌ c s) = code c ∷ codes s

-- A row of `api_keys`; a hash is the number of its 32 bytes.
pub record ApiKeyRow : Type 0 where
  pub id : Uuid
  pub user_id : ℕ
  pub key_hash : ℕ
  pub scopes : List ApiKeyScope
  pub label : Option Str
  pub masked_prefix : Option Str
  pub created_at : ℕ
  pub revoked_at : Option ℕ
  pub last_used_at : Option ℕ

-- A row of `users`. Ids are not negative: they are GitHub's, or those of `hf_user_id_to_i64`.
pub record UserRow : Type 0 where
  pub id : ℕ
  pub github_login : Str
  pub hf_user_id : Option Str

pub record ActiveKey : Type 0 where
  pub id : Uuid
  pub user_id : ℕ
  pub scopes : List ApiKeyScope
  pub loaded_at : ℕ

-- An `i64`; `below_zero n` is `-(n + 1)`.
pub data I64 : Type 0 where
  nonneg below_zero : ℕ → I64

pub record XetJwtClaims : Type 0 where
  pub repo_id : Str
  pub user_id : Str
  pub access : Str
  pub iat : I64
  pub exp : I64
  pub iss : Str

-- What the crates behind auth.rs and xet_jwt.rs offer, over their type of caches.
pub record AuthCrates (Lru : Type 0) : Type 0 where
  pub sha256 : Str → ℕ
  pub hmac_sha256 : Str → Str → Str
  pub b64_url_encode : Str → Str
  pub b64_url_decode : Str → Option Str
  -- `str::trim`
  pub trim : Str → Str
  pub claims_from_json : Str → Option XetJwtClaims
  -- the default of `api_keys.id`
  pub gen_random_uuid : List ApiKeyRow → Uuid
  pub lru_peek : ℕ → Lru → Option ActiveKey
  pub lru_get : ℕ → Lru → Option ActiveKey × Lru
  pub lru_put : ℕ → ActiveKey → Lru → Lru
  pub lru_pop : ℕ → Lru → Lru

pub record AuthState (Lru : Type 0) : Type 0 where
  pub users : List UserRow
  pub api_keys : List ApiKeyRow
  pub cache : Lru
  -- whether each next statement fails; none fails after the end
  pub faults : List Bool
  -- `Instant::now()` in nanoseconds, and the system time in seconds
  pub instant : ℕ
  pub now_unix : ℕ

-- The constants of scopes.rs.
abbrev pub scope_upload : ℕ
scope_upload = 0

abbrev pub scope_download : ℕ
scope_download = 1

abbrev pub scope_admin : ℕ
scope_admin = 2

abbrev pub scope_any : ℕ
scope_any = 255

unfoldable pub from_u8 : ℕ → Option ApiKeyScope
from_u8 v =
    if v == scope_upload
    then some upload
    else if v == scope_download
    then some download
    else if v == scope_admin
    then some admin
    else none

abbrev pub same_scope : ApiKeyScope → ApiKeyScope → Bool
same_scope upload upload = true
same_scope download download = true
same_scope admin admin = true
same_scope _ _ = false

unfoldable pub contains_scope : ApiKeyScope → List ApiKeyScope → Bool
contains_scope s [] = false
contains_scope s (t ∷ ts) = same_scope s t || contains_scope s ts

-- A computation on a state of type `S` that may answer with an error.
abbrev pub Fallible : Type 0 → Type 0 → Type 0
Fallible S T = S → Result T × S

module _ {S : Type 0} where
  abbrev pub pure : {T : Type 0} → T → Fallible S T
  pure a w = (ok a, w)

  abbrev pub throw : {T : Type 0} → AppError → Fallible S T
  throw e w = (err e, w)

  infixl 5 ◌>>=◌ ◌>>◌
  abbrev pub ◌>>=◌ : {T U : Type 0} → Fallible S T → (T → Fallible S U) → Fallible S U
  ◌>>=◌ m f w = let (r, w') = m w in elim r [ ok a ↦ f a w' | err e ↦ (err e, w') ]

  abbrev pub ◌>>◌ : {T U : Type 0} → Fallible S T → Fallible S U → Fallible S U
  m >> k = m >>= λ _. k

  -- A task that is spawned, whose failure is only logged.
  abbrev pub ignore : {T : Type 0} → Fallible S T → Fallible S (Unit {0})
  ignore m w = (ok tt, (m w).1)

  -- `.map_err(AppError::Other)`
  abbrev pub or_other : {T : Type 0} → Fallible S T → Fallible S T
  or_other m w = let (r, w') = m w in elim r [ ok a ↦ (ok a, w') | err e ↦ (err other, w') ]

  abbrev pub of_option : {T : Type 0} → AppError → Option T → Fallible S T
  of_option e none = throw e
  of_option e (some a) = pure a

  -- The test `S != SCOPE_ANY` of auth.rs and what it guards, on both paths.
  unfoldable pub require_scope : ℕ → List ApiKeyScope → Fallible S (Unit {0})
  unfolding from_u8 contains_scope
  require_scope s granted =
      if s == scope_any
      then pure tt
      else (of_option forbidden (from_u8 s) >>= λ required.
          if contains_scope required granted then pure tt else throw forbidden)

abbrev pub A : Type 0 → Type 0 → Type 0
A Lru = Fallible (AuthState Lru)

abbrev pub run_statement : {Lru T : Type 0} → List Bool → A Lru T → A Lru T
run_statement [] f w = f w
run_statement (true ∷ rest) f w = (err db, record w { faults = rest })
run_statement (false ∷ rest) f w = f (record w { faults = rest })

-- One SQL statement, which reads the tables and may write them.
abbrev pub query : {Lru T : Type 0} → A Lru T → A Lru T
query f w = run_statement w.faults f w
