-- ===== src/Sessions/Minted.antt =====
-- session.rs: a session from its minting to a request within its seven days.
use open_weights.Base.{ℕ, ◌+◌, ◌<◌, ◌≡◌, refl, false, Option, some, List, [], ◌∷◌, ◌++◌, arith, Str}
use open_weights.Store.{ok}
use open_weights.Sessions.{
  SessionUser, SessionRow, SessionState, UuidCrate, session_ttl, known_session, find_user,
  insert_session, new_session, mint_session, touched_user, joined_user, touch_session,
  cookie_session, session_user, session_from_request_parts,
}

-- The row that was appended is the one that a request touches.
touched_user-append :
    (id user_id now more : ℕ) (rows : List SessionRow)
    → known_session id rows ≡ false
    → more < session_ttl
    → touched_user id (now + more) (rows ++ new_session id user_id now ∷ []) ≡ some user_id
unfolding known_session touched_user
touched_user-append id user_id now more [] new soon = ground arith
touched_user-append id user_id now more (r ∷ rows) new soon =
    ground (arith, touched_user-append id user_id now more rows)

minted :
    (id user_id : ℕ) (user : SessionUser) (w : SessionState)
    → w.faults ≡ []
    → known_session id w.sessions ≡ false
    → find_user user_id w.users ≡ some user
    → (mint_session id user_id w).1
      ≡ record w { sessions = w.sessions ++ new_session id user_id w.now ∷ [] }
unfolding mint_session insert_session
minted id user_id user w quiet new owner = rw quiet (rw new (rw owner refl))

-- Where no statement fails, the key is new to the table and the user exists, a session that
-- `mint_session` inserts admits its user at every moment before seven days have passed.
pub mint_session_authenticates :
    (u : UuidCrate) (cookie : Option Str) (id user_id more : ℕ) (user : SessionUser)
    (w : SessionState)
    → w.faults ≡ []
    → known_session id w.sessions ≡ false
    → find_user user_id w.users ≡ some user
    → cookie_session u cookie ≡ some id
    → more < session_ttl
    → (session_from_request_parts u cookie
        (record (mint_session id user_id w).1 { now = w.now + more })).0
      ≡ ok user
unfolding session_from_request_parts touch_session joined_user session_user
mint_session_authenticates u cookie id user_id more user w quiet new owner named soon =
    rw (minted id user_id user w quiet new owner) (
      rw named (
        rw quiet
          (rw (touched_user-append id user_id w.now more w.sessions new soon) (rw owner refl))))
