-- ===== src/Sessions/Nonces.antt =====
-- session.rs: the nonces of the OAuth logins, which handlers/auth/github.rs stores and consumes.
use open_weights.Base.{
  ℕ, ◌+◌, ◌≡◌, ◌≢◌, refl, ap, sym, ◌∙◌, Bool, true, false, Option, none, some, List, [], ◌∷◌, ◌++◌,
  arith, Str,
}
use open_weights.Base.Maps.{str_eq, str_eq_iff}
use open_weights.Store.{ok}
use open_weights.Auth.Runs.{ok-injective}
use open_weights.Sessions.{
  SessionUser, OauthRow, SessionState, run_statement, known_session, find_user, insert_session,
  new_session, mint_session, touch_session, revoke_session, known_state, new_state, insert_state,
  insert_oauth_state, consume_rows, any_fresh, consume_oauth_state,
}
use open_weights.Sessions.Steps.{
  Step, mint, touch, revoke, start, callback, change_users, tick, fail, Run, IsSteady,
  statement-Keeps, Run-keeps,
}

-- The nonce is in the table, and consumed or past its expiry.
unfoldable pub IsSpent : Str → ℕ → List OauthRow → Type 0
IsSpent s now rows = (known_state s rows ≡ true) × (any_fresh s now rows ≡ false)

known_state-consume_rows :
    (s t : Str) (now : ℕ) (rows : List OauthRow)
    → known_state s (consume_rows t now rows) ≡ known_state s rows
unfolding known_state consume_rows
known_state-consume_rows s t now [] = refl
known_state-consume_rows s t now (r ∷ rows) = ground (arith, known_state-consume_rows s t now rows)

any_fresh-consume_rows :
    (s t : Str) (now : ℕ) (rows : List OauthRow)
    → any_fresh s now rows ≡ false
    → any_fresh s now (consume_rows t now rows) ≡ false
unfolding any_fresh consume_rows
any_fresh-consume_rows s t now [] h = refl
any_fresh-consume_rows s t now (r ∷ rows) h = ground (arith, any_fresh-consume_rows s t now rows)

consume_rows-spends :
    (s : Str) (now : ℕ) (rows : List OauthRow) → any_fresh s now (consume_rows s now rows) ≡ false
unfolding any_fresh consume_rows
consume_rows-spends s now [] = refl
consume_rows-spends s now (r ∷ rows) = ground (arith, consume_rows-spends s now rows)

any_fresh_known :
    (s : Str) (now : ℕ) (rows : List OauthRow)
    → any_fresh s now rows ≡ true
    → known_state s rows ≡ true
unfolding any_fresh known_state
any_fresh_known s now [] h = ground arith
any_fresh_known s now (r ∷ rows) h = ground (arith, any_fresh_known s now rows)

any_fresh_later :
    (s : Str) (now more : ℕ) (rows : List OauthRow)
    → any_fresh s now rows ≡ false
    → any_fresh s (now + more) rows ≡ false
unfolding any_fresh
any_fresh_later s now more [] h = refl
any_fresh_later s now more (r ∷ rows) h = ground (arith, any_fresh_later s now more rows)

known_state-append :
    (s : Str) (rows : List OauthRow) (r : OauthRow)
    → known_state s rows ≡ true
    → known_state s (rows ++ r ∷ []) ≡ true
unfolding known_state
known_state-append s [] r h = ground arith
known_state-append s (q ∷ rows) r h = ground (arith, known_state-append s rows r)

any_fresh-append :
    (s : Str) (now : ℕ) (rows : List OauthRow) (r : OauthRow)
    → any_fresh s now rows ≡ false
    → str_eq r.state s ≡ false
    → any_fresh s now (rows ++ r ∷ []) ≡ false
unfolding any_fresh
any_fresh-append s now [] r h new = ground arith
any_fresh-append s now (q ∷ rows) r h new = ground (arith, any_fresh-append s now rows r)

same_key :
    (s t : Str) (rows : List OauthRow) (b : Bool)
    → str_eq t s ≡ b
    → known_state s rows ≡ true
    → known_state t rows ≡ false
    → b ≡ false
same_key s t rows false e h new = refl
same_key s t rows true e h new =
    let same : known_state t rows ≡ known_state s rows =
      ap (λ k. known_state k rows) ((str_eq_iff t s).0 e) in
    sym h ∙ sym same ∙ new

module _ (s : Str) where
  abbrev HasSpent : SessionState → Type 0
  HasSpent w = IsSpent s w.now w.oauth_states

  steady : IsSteady HasSpent
  steady w rest i = i

  insert_state-HasSpent :
      (known : Bool) (t : Str) (w : SessionState)
      → known_state t w.oauth_states ≡ known
      → HasSpent w
      → HasSpent (insert_state known t w).1
  unfolding insert_state IsSpent
  insert_state-HasSpent true t w e i = i
  insert_state-HasSpent false t w e (known, dead) = (
    known_state-append s w.oauth_states (new_state t w.now) known,
    any_fresh-append s w.now w.oauth_states (new_state t w.now) dead
        (same_key s t w.oauth_states (str_eq t s) refl known e),
  )

  insert_session-HasSpent :
      (known : Bool) (user : Option SessionUser) (id user_id : ℕ) (w : SessionState)
      → HasSpent w
      → HasSpent (insert_session known user (new_session id user_id w.now) w).1
  unfolding insert_session
  insert_session-HasSpent true user id user_id w i = i
  insert_session-HasSpent false none id user_id w i = i
  insert_session-HasSpent false (some u) id user_id w i = i

  Step-HasSpent : (w v : SessionState) → Step w v → HasSpent w → HasSpent v
  unfolding mint_session touch_session revoke_session insert_oauth_state consume_oauth_state IsSpent
  Step-HasSpent w v (mint id user_id) i =
      statement-Keeps HasSpent steady _
        (λ w i.
          insert_session-HasSpent (known_session id w.sessions) (find_user user_id w.users) id
            user_id w i)
        w i
  Step-HasSpent w v (touch id) i = statement-Keeps HasSpent steady _ (λ w i. i) w i
  Step-HasSpent w v (revoke id) i = statement-Keeps HasSpent steady _ (λ w i. i) w i
  Step-HasSpent w v (start t) i =
      statement-Keeps HasSpent steady _
        (λ w i. insert_state-HasSpent (known_state t w.oauth_states) t w refl i) w i
  Step-HasSpent w v (callback t) i =
      statement-Keeps HasSpent steady _
        (λ w i. (
          rw (known_state-consume_rows s t w.now w.oauth_states) i.0,
          any_fresh-consume_rows s t w.now w.oauth_states i.1,
        ))
        w i
  Step-HasSpent w v (change_users users) i = i
  Step-HasSpent w v (tick micros) (known, dead) =
      (known, any_fresh_later s w.now micros w.oauth_states dead)
  Step-HasSpent w v (fail faults) i = i

  consumed-HasSpent :
      (faults : List Bool) (w : SessionState)
      → (let r =
            run_statement faults
              (λ w. (
                ok (any_fresh s w.now w.oauth_states),
                record w { oauth_states = consume_rows s w.now w.oauth_states },
              ))
              w in
          r.0 ≡ ok true → HasSpent r.1)
  unfolding IsSpent
  consumed-HasSpent [] w e = (
    rw (known_state-consume_rows s s w.now w.oauth_states)
        (any_fresh_known s w.now w.oauth_states (ok-injective _ _ e)),
    consume_rows-spends s w.now w.oauth_states,
  )
  consumed-HasSpent (true ∷ rest) w e = absurd (ground arith)
  consumed-HasSpent (false ∷ rest) w e = (
    rw (known_state-consume_rows s s w.now w.oauth_states)
        (any_fresh_known s w.now w.oauth_states (ok-injective _ _ e)),
    consume_rows-spends s w.now w.oauth_states,
  )

  spent_refused :
      (faults : List Bool) (w : SessionState)
      → HasSpent w
      → (run_statement faults
          (λ w. (
            ok (any_fresh s w.now w.oauth_states),
            record w { oauth_states = consume_rows s w.now w.oauth_states },
          ))
          w).0
        ≢ ok true
  unfolding IsSpent
  spent_refused [] w (known, dead) e = ground (arith, ok-injective _ _ e)
  spent_refused (true ∷ rest) w (known, dead) e = ground arith
  spent_refused (false ∷ rest) w (known, dead) e = ground (arith, ok-injective _ _ e)

  -- A nonce that `consume_oauth_state` has accepted is never accepted again, in whatever order logins
  -- start (with this nonce too) and return, sessions change, time passes and statements fail.
  pub consume_oauth_state_once :
      (w v : SessionState)
      → (consume_oauth_state s w).0 ≡ ok true
      → Run (consume_oauth_state s w).1 v
      → (consume_oauth_state s v).0 ≢ ok true
  unfolding consume_oauth_state
  consume_oauth_state_once w v e r =
      spent_refused v.faults v (Run-keeps HasSpent Step-HasSpent r (consumed-HasSpent w.faults w e))
