-- ===== src/Sessions/Closed.antt =====
-- session.rs, handlers/auth/logout.rs: a request with the cookie of a session that has ended.
use open_weights.Base.{
  ◌≡◌, refl, ap, subst, Bool, true, false, Option, none, some, List, [], ◌∷◌, arith, inl, inr, Str,
}
use open_weights.Store.{Uuid, unauthenticated, ok}
use mathlib.Core.Option.{some-injective}
use open_weights.Auth.{pure, ◌>>=◌, of_option}
use open_weights.Auth.Runs.{run_elim}
use open_weights.Auth.Refused.{IsRefused}
use open_weights.Sessions.{
  SessionUser, SessionRow, SessionState, UuidCrate, run_statement, known_session, insert_session,
  new_session, mint_session, touch_rows, touched_user, joined_user, touch_session, revoke_rows,
  revocable, revoke_session, insert_state, insert_oauth_state, consume_oauth_state, known_state,
  logout, clear_session_cookie_header, cookie_session, session_user, session_from_request_parts,
}
use open_weights.Sessions.Ended.{
  IsEnded, known_session-touch_rows, any_live-touch_rows, known_session-revoke_rows,
  any_live-revoke_rows, revoke_rows-ends, any_live_later, known_session-append, any_live-append,
  new_key, touched_user-none,
}
use open_weights.Sessions.Steps.{
  Step, mint, touch, revoke, start, callback, change_users, tick, fail, Run, IsSteady,
  statement-Keeps, Run-keeps,
}

module _ (id : Uuid) where
  -- The session has ended in the tables of the state.
  abbrev HasEnded : SessionState → Type 0
  HasEnded w = IsEnded id w.now w.sessions

  steady : IsSteady HasEnded
  steady w rest i = i

  insert_session-HasEnded :
      (known : Bool) (user : Option SessionUser) (row : SessionRow) (w : SessionState)
      → known_session row.session_id w.sessions ≡ known
      → HasEnded w
      → HasEnded (insert_session known user row w).1
  unfolding insert_session IsEnded
  insert_session-HasEnded true user row w e i = i
  insert_session-HasEnded false none row w e i = i
  insert_session-HasEnded false (some u) row w e (known, dead) = (
    known_session-append id w.sessions row known,
    any_live-append id w.now w.sessions row dead (new_key id row.session_id w.sessions known e),
  )

  insert_state-HasEnded :
      (known : Bool) (s : Str) (w : SessionState) → HasEnded w → HasEnded (insert_state known s w).1
  unfolding insert_state
  insert_state-HasEnded true s w i = i
  insert_state-HasEnded false s w i = i

  Step-HasEnded : {w v : SessionState} → Step w v → HasEnded w → HasEnded v
  unfolding mint_session touch_session revoke_session insert_oauth_state consume_oauth_state IsEnded
  Step-HasEnded {w} (mint other user) i =
      statement-Keeps HasEnded steady _
        (λ w i. insert_session-HasEnded _ _ (new_session other user w.now) w refl i) w i
  Step-HasEnded {w} (touch other) i =
      statement-Keeps HasEnded steady _
        (λ w i. (
          rw (known_session-touch_rows id other w.now w.sessions) i.0,
          any_live-touch_rows id other w.now w.sessions i.1,
        ))
        w i
  Step-HasEnded {w} (revoke other) i =
      statement-Keeps HasEnded steady _
        (λ w i. (
          rw (known_session-revoke_rows id other w.now w.sessions) i.0,
          any_live-revoke_rows id other w.now w.sessions i.1,
        ))
        w i
  Step-HasEnded {w} (start s) i =
      statement-Keeps HasEnded steady _
        (λ w i. insert_state-HasEnded (known_state s w.oauth_states) s w i) w i
  Step-HasEnded {w} (callback s) i = statement-Keeps HasEnded steady _ (λ w i. i) w i
  Step-HasEnded {w} (change_users users) i = i
  Step-HasEnded {w} (tick micros) (known, dead) =
      (known, any_live_later id w.now micros w.sessions dead)
  Step-HasEnded {w} (fail faults) i = i

  touch-IsRefused :
      (faults : List Bool) (w : SessionState)
      → HasEnded w
      → IsRefused
          ((run_statement faults (λ w. (
            ok (joined_user (touched_user id w.now w.sessions) w.users),
            record w { sessions = touch_rows id w.now w.sessions },
          ))
              >>= session_user)
            w).0
  unfolding IsEnded joined_user session_user
  touch-IsRefused [] w (known, dead) = inl (rw (touched_user-none id w.now w.sessions dead) refl)
  touch-IsRefused (true ∷ rest) w i = inr refl
  touch-IsRefused (false ∷ rest) w (known, dead) =
      inl (rw (touched_user-none id w.now w.sessions dead) refl)

  request-IsRefused :
      (u : UuidCrate) (cookie : Option Str) (w : SessionState)
      → cookie_session u cookie ≡ some id
      → HasEnded w
      → IsRefused (session_from_request_parts u cookie w).0
  unfolding session_from_request_parts touch_session
  request-IsRefused u cookie w e i = rw e (touch-IsRefused w.faults w i)

  -- Once a session is revoked or past its expiry, in whatever order sessions are minted, touched and
  -- revoked, logins start and return, users change, time passes and statements fail, the extractor
  -- `Session` turns every later request with its cookie away as unauthenticated, or the database fails.
  pub ended_session-IsRefused :
      (u : UuidCrate) (cookie : Option Str) (w v : SessionState)
      → IsEnded id w.now w.sessions
      → Run w v
      → cookie_session u cookie ≡ some id
      → IsRefused (session_from_request_parts u cookie v).0
  ended_session-IsRefused u cookie w v i r e =
      request-IsRefused u cookie v e (Run-keeps HasEnded (λ v u st i. Step-HasEnded st i) r i)

  -- The answer of `logout` aside, the session it names has ended where its statement did not fail.
  statement_ends :
      (faults : List Bool) (w : SessionState)
      → known_session id w.sessions ≡ true
      → (let r =
            run_statement faults
              (λ w. (
                ok (revocable id w.sessions),
                record w { sessions = revoke_rows id w.now w.sessions },
              ))
              w in
          (b : Bool) → r.0 ≡ ok b → HasEnded r.1)
  unfolding IsEnded
  statement_ends [] w known b e = (
    rw (known_session-revoke_rows id id w.now w.sessions) known,
    revoke_rows-ends id w.now w.sessions,
  )
  statement_ends (true ∷ rest) w known b e = absurd (ground arith)
  statement_ends (false ∷ rest) w known b e = (
    rw (known_session-revoke_rows id id w.now w.sessions) known,
    revoke_rows-ends id w.now w.sessions,
  )

  revoke_session-ends :
      (w w' : SessionState) (b : Bool)
      → known_session id w.sessions ≡ true
      → revoke_session id w ≡ (ok b, w')
      → HasEnded w'
  unfolding revoke_session
  revoke_session-ends w w' b known e =
      subst (λ v. HasEnded v) (ap (λ r. r.1) e)
        (statement_ends w.faults w known b (ap (λ r. r.0) e))

  named_session-ends :
      (o : Option Uuid) (w w' : SessionState) (header : Str)
      → o ≡ some id
      → known_session id w.sessions ≡ true
      → (of_option unauthenticated o >>= λ id.
            revoke_session id >>= λ revoked. pure clear_session_cookie_header)
          w
        ≡ (ok header, w')
      → HasEnded w'
  named_session-ends none w w' header e known h = absurd (ground arith)
  named_session-ends (some other) w w' header e known h =
      run_elim (revoke_session other) (λ revoked. pure clear_session_cookie_header) w h
        λ b v run last.
          subst (λ v. HasEnded v) (ap (λ r. r.1) last)
            (revoke_session-ends w v b known
              (subst (λ i. revoke_session i w ≡ (ok b, v)) (some-injective _ _ e) run))

  -- Once `logout` has answered for a session of the table, no later request passes the extractor
  -- `Session` with its cookie, whatever runs in between: the extractor answers that the request is
  -- unauthenticated, or the database fails. (`logout` itself has an extractor of its own.)
  pub logout-IsRefused :
      (u : UuidCrate) (cookie later_cookie : Option Str) (w w' v : SessionState) (header : Str)
      → cookie_session u cookie ≡ some id
      → known_session id w.sessions ≡ true
      → logout u cookie w ≡ (ok header, w')
      → Run w' v
      → cookie_session u later_cookie ≡ some id
      → IsRefused (session_from_request_parts u later_cookie v).0
  unfolding logout
  logout-IsRefused u cookie later_cookie w w' v header e known h r e' =
      ended_session-IsRefused u later_cookie w' v
        (named_session-ends (cookie_session u cookie) w w' header e known h) r e'
