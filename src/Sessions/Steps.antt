-- ===== src/Sessions/Steps.antt =====
-- session.rs: the statements in any order, with the passing of time and the database's failures.
use open_weights.Base.{ℕ, ◌+◌, Bool, true, false, List, [], ◌∷◌, Str}
use open_weights.Store.{Uuid}
use open_weights.Sessions.{
  SessionUser, SessionState, S, run_statement, statement, mint_session, touch_session,
  revoke_session, insert_oauth_state, consume_oauth_state,
}

pub data Step (w : SessionState) : SessionState → Type 0 where
  mint : (session_id : Uuid) (user_id : ℕ) → Step w (mint_session session_id user_id w).1
  touch : (id : Uuid) → Step w (touch_session id w).1
  revoke : (id : Uuid) → Step w (revoke_session id w).1
  start : (s : Str) → Step w (insert_oauth_state s w).1
  callback : (s : Str) → Step w (consume_oauth_state s w).1
  -- any change of the table `users`
  change_users : (users : List SessionUser) → Step w (record w { users = users })
  tick : (micros : ℕ) → Step w (record w { now = w.now + micros })
  fail : (faults : List Bool) → Step w (record w { faults = faults })

pub data Run (w : SessionState) : SessionState → Type 0 where
  here : Run w w
  later : {v u : SessionState} → Run w v → Step v u → Run w u

-- A predicate that does not ask for the faults to come.
abbrev pub IsSteady : (SessionState → Type 0) → Type 0
IsSteady I = (w : SessionState) (rest : List Bool) → I w → I (record w { faults = rest })

module _ (I : SessionState → Type 0) (steady : IsSteady I) where
  run_statement-Keeps :
      {T : Type 0} (f : S T)
      → ((w : SessionState) → I w → I (f w).1)
      → (faults : List Bool) (w : SessionState) → I w
      → I (run_statement faults f w).1
  run_statement-Keeps f k [] w i = k w i
  run_statement-Keeps f k (true ∷ rest) w i = steady w rest i
  run_statement-Keeps f k (false ∷ rest) w i = k (record w { faults = rest }) (steady w rest i)

  -- A statement keeps what its body keeps.
  pub statement-Keeps :
      {T : Type 0} (f : S T)
      → ((w : SessionState) → I w → I (f w).1)
      → (w : SessionState) → I w
      → I (statement f w).1
  statement-Keeps f k w i = run_statement-Keeps f k w.faults w i

-- What every step keeps, a run keeps.
pub Run-keeps :
    (I : SessionState → Type 0)
    → ((v u : SessionState) → Step v u → I v → I u)
    → {w v : SessionState} → Run w v
    → I w
    → I v
Run-keeps I k here i = i
Run-keeps I k (later r st) i = k _ _ st (Run-keeps I k r i)
