-- ===== src/Sessions.antt =====
-- cas/crates/openweights-cas-core/src/session.rs and handlers/auth/logout.rs: the cookie of a console
-- session, the tables `sessions` and `oauth_state`, and the extractor. Each statement may fail:
-- `faults` says which. Times are in microseconds.
pub mod Ended
pub mod Nonces
pub mod Steps
pub mod Closed
pub mod Minted
pub mod Cookie
mod Tests
use open_weights.Base.{
  ℕ, ◌+◌, Bool, true, false, Option, none, some, List, [], ◌∷◌, ◌++◌, ◌==◌, ◌&&◌, ◌||◌, ltb,
  if◌then◌else◌, Str,
}
use open_weights.Base.Maps.{str_eq}
use open_weights.Download.Request.{strip_prefix, split, trim_start, trim_end}
use open_weights.Store.{Uuid, unauthenticated, db, Result, ok, err}
use open_weights.Auth.{codes, Fallible, pure, throw, ◌>>=◌, of_option}
use open_weights.Auth.Cache.{is_none}

-- A row of `users`, by the columns of the session's join.
pub record SessionUser : Type 0 where
  pub id : ℕ
  pub login : Str
  pub email : Option Str
  pub avatar_url : Option Str
  pub is_admin : Bool

-- A row of `sessions`.
pub record SessionRow : Type 0 where
  pub session_id : Uuid
  pub user_id : ℕ
  pub created_at : ℕ
  pub expires_at : ℕ
  pub revoked_at : Option ℕ
  pub last_seen_at : Option ℕ

-- A row of `oauth_state`.
pub record OauthRow : Type 0 where
  pub state : Str
  pub created_at : ℕ
  pub consumed_at : Option ℕ
  pub expires_at : ℕ

pub record MintedSession : Type 0 where
  pub session_id : Uuid
  pub expires_at : ℕ

pub record SessionState : Type 0 where
  pub users : List SessionUser
  pub sessions : List SessionRow
  pub oauth_states : List OauthRow
  pub faults : List Bool
  pub now : ℕ

-- `Uuid::parse_str` and the `Display` of a `Uuid`.
pub record UuidCrate : Type 0 where
  pub parse_str : Str → Option Uuid
  pub to_string : Uuid → Str

-- 7 days
abbrev pub session_ttl : ℕ
session_ttl = 604800000000

-- 10 minutes
abbrev pub oauth_ttl : ℕ
oauth_ttl = 600000000

abbrev pub session_cookie_name : Str
session_cookie_name = codes "openweights_session"

abbrev pub S : Type 0 → Type 0
S = Fallible SessionState

abbrev pub run_statement : {T : Type 0} → List Bool → S T → S T
run_statement [] f w = f w
run_statement (true ∷ rest) f w = (err db, record w { faults = rest })
run_statement (false ∷ rest) f w = f (record w { faults = rest })

abbrev pub statement : {T : Type 0} → S T → S T
statement f w = run_statement w.faults f w

module _ (u : UuidCrate) where
  unfoldable pub cookie_value : Str → Option Str
  unfolding strip_prefix trim_start trim_end
  cookie_value part = elim (strip_prefix session_cookie_name (trim_end (trim_start part))) [
    | none ↦ none
    | some value ↦ strip_prefix (codes "=") value
  ]

  unfoldable pub session_in : List Str → Option Uuid
  unfolding cookie_value
  session_in [] = none
  session_in (part ∷ parts) =
      let rest = session_in parts in
      elim (cookie_value part) [ none ↦ rest | some v ↦ u.parse_str (trim_end (trim_start v)) ]

  unfoldable pub parse_session_cookie : Str → Option Uuid
  unfolding split session_in
  parse_session_cookie header = let (first, rest) = split 59 header in session_in (first ∷ rest)

  unfoldable pub session_cookie_header : Uuid → Str
  session_cookie_header session_id =
      session_cookie_name
      ++ codes "="
      ++ u.to_string session_id
      ++ codes "; HttpOnly; Secure; SameSite=Lax; Path=/; Max-Age=604800"

unfoldable pub clear_session_cookie_header : Str
clear_session_cookie_header =
    session_cookie_name ++ codes "=; HttpOnly; Secure; SameSite=Lax; Path=/; Max-Age=0"

unfoldable pub known_session : Uuid → List SessionRow → Bool
known_session id [] = false
known_session id (r ∷ rows) = r.session_id == id || known_session id rows

unfoldable pub find_user : ℕ → List SessionUser → Option SessionUser
find_user id [] = none
find_user id (u ∷ users) = if u.id == id then some u else find_user id users

unfoldable pub insert_session : Bool → Option SessionUser → SessionRow → S MintedSession
-- the primary key
insert_session true user row w = (err db, w)
-- the reference to `users`
insert_session false none row w = (err db, w)
insert_session false (some _) row w = (
  ok (record { session_id = row.session_id; expires_at = row.expires_at }),
  record w { sessions = w.sessions ++ row ∷ [] },
)

abbrev pub new_session : Uuid → ℕ → ℕ → SessionRow
new_session session_id user_id now = record {
  session_id = session_id;
  user_id = user_id;
  created_at = now;
  expires_at = now + session_ttl;
  revoked_at = none;
  last_seen_at = some now;
}

-- `session_id` is what `Uuid::new_v4` gives.
unfoldable pub mint_session : Uuid → ℕ → S MintedSession
mint_session session_id user_id = statement λ w.
    insert_session (known_session session_id w.sessions) (find_user user_id w.users)
      (new_session session_id user_id w.now) w

-- Whether the statement of `touch_session` touches the row.
abbrev pub is_live : Uuid → ℕ → SessionRow → Bool
is_live id now r = r.session_id == id && (is_none r.revoked_at && ltb now r.expires_at)

unfoldable pub touch_rows : Uuid → ℕ → List SessionRow → List SessionRow
touch_rows id now [] = []
touch_rows id now (r ∷ rows) =
    (if is_live id now r
      then record r { last_seen_at = some now; expires_at = now + session_ttl }
      else r)
    ∷ touch_rows id now rows

-- The user of the row that is touched; the key of the table admits one.
unfoldable pub touched_user : Uuid → ℕ → List SessionRow → Option ℕ
touched_user id now [] = none
touched_user id now (r ∷ rows) =
    if is_live id now r then some r.user_id else touched_user id now rows

unfoldable pub joined_user : Option ℕ → List SessionUser → Option SessionUser
unfolding find_user
joined_user none users = none
joined_user (some id) users = find_user id users

unfoldable pub touch_session : Uuid → S (Option SessionUser)
touch_session id = statement λ w. (
  ok (joined_user (touched_user id w.now w.sessions) w.users),
  record w { sessions = touch_rows id w.now w.sessions },
)

abbrev pub is_revocable : Uuid → SessionRow → Bool
is_revocable id r = r.session_id == id && is_none r.revoked_at

unfoldable pub revoke_rows : Uuid → ℕ → List SessionRow → List SessionRow
revoke_rows id now [] = []
revoke_rows id now (r ∷ rows) =
    (if is_revocable id r then record r { revoked_at = some now } else r) ∷ revoke_rows id now rows

unfoldable pub revocable : Uuid → List SessionRow → Bool
revocable id [] = false
revocable id (r ∷ rows) = is_revocable id r || revocable id rows

unfoldable pub revoke_session : Uuid → S Bool
revoke_session id =
    statement
      λ w. (ok (revocable id w.sessions), record w { sessions = revoke_rows id w.now w.sessions })

unfoldable pub known_state : Str → List OauthRow → Bool
known_state s [] = false
known_state s (r ∷ rows) = str_eq r.state s || known_state s rows

abbrev pub new_state : Str → ℕ → OauthRow
new_state s now = record {
  state = s;
  created_at = now;
  consumed_at = none;
  expires_at = now + oauth_ttl;
}

unfoldable pub insert_state : Bool → Str → S (Unit {0})
-- the primary key
insert_state true s w = (err db, w)
insert_state false s w =
    (ok tt, record w { oauth_states = w.oauth_states ++ new_state s w.now ∷ [] })

unfoldable pub insert_oauth_state : Str → S (Unit {0})
insert_oauth_state s = statement λ w. insert_state (known_state s w.oauth_states) s w

-- Whether the statement of `consume_oauth_state` touches the row.
abbrev pub is_fresh : Str → ℕ → OauthRow → Bool
is_fresh s now r = str_eq r.state s && (is_none r.consumed_at && ltb now r.expires_at)

unfoldable pub consume_rows : Str → ℕ → List OauthRow → List OauthRow
consume_rows s now [] = []
consume_rows s now (r ∷ rows) =
    (if is_fresh s now r then record r { consumed_at = some now } else r) ∷ consume_rows s now rows

unfoldable pub any_fresh : Str → ℕ → List OauthRow → Bool
any_fresh s now [] = false
any_fresh s now (r ∷ rows) = is_fresh s now r || any_fresh s now rows

unfoldable pub consume_oauth_state : Str → S Bool
consume_oauth_state s = statement λ w. (
  ok (any_fresh s w.now w.oauth_states),
  record w { oauth_states = consume_rows s w.now w.oauth_states },
)

unfoldable pub session_user : Option SessionUser → S SessionUser
session_user (some user) = pure user
session_user none = throw unauthenticated

-- The session of a request, from its `Cookie` header.
module _ (u : UuidCrate) where
  unfoldable pub cookie_session : Option Str → Option Uuid
  unfolding parse_session_cookie
  cookie_session none = none
  cookie_session (some header) = parse_session_cookie u header

  unfoldable pub session_from_request_parts : Option Str → S SessionUser
  session_from_request_parts cookie =
      of_option unauthenticated (cookie_session cookie) >>= λ id. touch_session id >>= session_user

  -- The answer's `Set-Cookie` header.
  unfoldable pub logout : Option Str → S Str
  logout cookie = of_option unauthenticated (cookie_session cookie) >>= λ id.
      revoke_session id >>= λ revoked. pure clear_session_cookie_header
