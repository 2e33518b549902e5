-- ===== src/Sessions/Tests.antt =====
-- A user with a session and a login under way, and a stand-in for the crate of UUIDs.
use open_weights.Base.{
  ℕ, zero, suc, length, ◌+◌, ◌≡◌, ◌≢◌, refl, false, true, Option, none, some, [], ◌∷◌, ◌++◌, arith,
  Str,
}
use open_weights.Store.{Uuid, ok, unauthenticated, err}
use open_weights.Auth.{codes}
use open_weights.Auth.Refused.{IsRefused}
use open_weights.Sessions.{
  SessionUser, SessionState, UuidCrate, new_session, new_state, session_cookie_name, session_ttl,
  parse_session_cookie, clear_session_cookie_header, cookie_session, session_from_request_parts,
  logout, revoke_session, mint_session, consume_oauth_state, insert_oauth_state, known_session,
  any_fresh, find_user, session_user, joined_user, touched_user, touch_session, insert_session,
}
use open_weights.Sessions.Steps.{here, later, tick, start}
use open_weights.Sessions.Closed.{logout-IsRefused}
use open_weights.Sessions.Nonces.{consume_oauth_state_once}
use open_weights.Sessions.Minted.{mint_session_authenticates}

-- A UUID of one byte.
abbrev one_byte : Str → Option Uuid
one_byte [] = none
one_byte (b ∷ []) = some b
one_byte (b ∷ c ∷ s) = none

abbrev uuids : UuidCrate
uuids = record { parse_str = one_byte; to_string = λ id. id ∷ [] }

abbrev ada : SessionUser
ada = record { id = 3; login = codes "ada"; email = none; avatar_url = none; is_admin = false }

abbrev start_state : SessionState
start_state = record {
  users = ada ∷ [];
  sessions = new_session 55 3 1000 ∷ [];
  oauth_states = new_state (codes "n1") 1000 ∷ [];
  faults = [];
  now = 2000;
}

abbrev cookies : Str
cookies = codes "other=abc; openweights_session=7; another=xyz"

abbrev lone_cookie : Str
lone_cookie = codes " openweights_session= 7"

-- The tests of session.rs on the cookie.
parse_round_trip : parse_session_cookie uuids cookies ≡ some 55
unfolding parse_session_cookie
parse_round_trip = refl

parse_missing : parse_session_cookie uuids (codes "other=abc") ≡ none
unfolding parse_session_cookie
parse_missing = refl

parse_bad_uuid : parse_session_cookie uuids (codes "openweights_session=not-a-uuid") ≡ none
unfolding parse_session_cookie
parse_bad_uuid = refl

-- What a mint sends, the next request sends back.
parse_minted : parse_session_cookie uuids (session_cookie_name ++ codes "=" ++ 55 ∷ []) ≡ some 55
unfolding parse_session_cookie
parse_minted = refl

named : cookie_session uuids (some cookies) ≡ some 55
unfolding cookie_session
named = refl

named_alone : cookie_session uuids (some lone_cookie) ≡ some 55
unfolding cookie_session
named_alone = refl

admitted : (session_from_request_parts uuids (some cookies) start_state).0 ≡ ok ada
unfolding session_from_request_parts cookie_session touch_session session_user joined_user
    touched_user
admitted = refl

logged_out :
    logout uuids (some cookies) start_state
    ≡ (ok clear_session_cookie_header, (logout uuids (some cookies) start_state).1)
unfolding logout cookie_session revoke_session
logged_out = refl

logout-IsRefused_example :
    IsRefused
      (session_from_request_parts uuids
        (some lone_cookie)
        (record (logout uuids (some cookies) start_state).1 { now = 2500 })).0
unfolding known_session logout cookie_session revoke_session
logout-IsRefused_example =
    logout-IsRefused 55 uuids (some cookies) (some lone_cookie) start_state _ _
      clear_session_cookie_header named refl logged_out (later here (tick 500)) named_alone

consume_oauth_state_once_example :
    (consume_oauth_state
      (codes "n1")
      (insert_oauth_state (codes "n1") (consume_oauth_state (codes "n1") start_state).1).1).0
    ≢ ok true
unfolding consume_oauth_state any_fresh
consume_oauth_state_once_example =
    consume_oauth_state_once (codes "n1") start_state _ refl (later here (start (codes "n1")))

mint_session_authenticates_example :
    (session_from_request_parts uuids
      (some (codes "openweights_session=8"))
      (record (mint_session 56 3 start_state).1 { now = 2000 + 604799999999 })).0
    ≡ ok ada
unfolding known_session find_user cookie_session
mint_session_authenticates_example =
    mint_session_authenticates uuids (some (codes "openweights_session=8")) 56 3 604799999999 ada
      start_state refl refl refl refl (omega arith)

-- At the end of the seven days the session is over.
expired :
    (session_from_request_parts uuids
      (some (codes "openweights_session=8"))
      (record (mint_session 56 3 start_state).1 { now = 2000 + session_ttl })).0
    ≡ err unauthenticated
unfolding session_from_request_parts mint_session cookie_session touch_session insert_session
    known_session find_user session_user joined_user touched_user
expired = refl

-- A UUID printed as so many letters.
abbrev unary : ℕ → Str
unary zero = []
unary (suc n) = b'a' ∷ unary n

abbrev letters : UuidCrate
letters = record { parse_str = λ s. some (length s); to_string = unary }
