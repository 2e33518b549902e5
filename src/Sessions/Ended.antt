-- ===== src/Sessions/Ended.antt =====
-- session.rs, handlers/auth/logout.rs: a session that has ended, over every run of the statements.
use open_weights.Base.{
  ℕ, ◌+◌, ◌≡◌, refl, Bool, true, false, none, List, [], ◌∷◌, ◌++◌, ◌==◌, ◌||◌, arith,
}
use open_weights.Store.{Uuid}
use open_weights.Sessions.{
  SessionRow, known_session, is_live, touch_rows, touched_user, revoke_rows,
}

-- Whether a row of the session may still be touched.
unfoldable pub any_live : Uuid → ℕ → List SessionRow → Bool
any_live id now [] = false
any_live id now (r ∷ rows) = is_live id now r || any_live id now rows

-- The session is in the table, and revoked or past its expiry.
unfoldable pub IsEnded : Uuid → ℕ → List SessionRow → Type 0
IsEnded id now rows = (known_session id rows ≡ true) × (any_live id now rows ≡ false)

pub known_session-touch_rows :
    (id other : Uuid) (now : ℕ) (rows : List SessionRow)
    → known_session id (touch_rows other now rows) ≡ known_session id rows
unfolding known_session touch_rows
known_session-touch_rows id other now [] = refl
known_session-touch_rows id other now (r ∷ rows) =
    ground (arith, known_session-touch_rows id other now rows)

pub any_live-touch_rows :
    (id other : Uuid) (now : ℕ) (rows : List SessionRow)
    → any_live id now rows ≡ false
    → any_live id now (touch_rows other now rows) ≡ false
unfolding any_live touch_rows
any_live-touch_rows id other now [] h = refl
any_live-touch_rows id other now (r ∷ rows) h =
    ground (arith, any_live-touch_rows id other now rows)

pub known_session-revoke_rows :
    (id other : Uuid) (now : ℕ) (rows : List SessionRow)
    → known_session id (revoke_rows other now rows) ≡ known_session id rows
unfolding known_session revoke_rows
known_session-revoke_rows id other now [] = refl
known_session-revoke_rows id other now (r ∷ rows) =
    ground (arith, known_session-revoke_rows id other now rows)

pub any_live-revoke_rows :
    (id other : Uuid) (now : ℕ) (rows : List SessionRow)
    → any_live id now rows ≡ false
    → any_live id now (revoke_rows other now rows) ≡ false
unfolding any_live revoke_rows
any_live-revoke_rows id other now [] h = refl
any_live-revoke_rows id other now (r ∷ rows) h =
    ground (arith, any_live-revoke_rows id other now rows)

-- No row of the session is live once it is revoked.
pub revoke_rows-ends :
    (id : Uuid) (now : ℕ) (rows : List SessionRow)
    → any_live id now (revoke_rows id now rows) ≡ false
unfolding any_live revoke_rows
revoke_rows-ends id now [] = refl
revoke_rows-ends id now (r ∷ rows) = ground (arith, revoke_rows-ends id now rows)

pub any_live_later :
    (id : Uuid) (now more : ℕ) (rows : List SessionRow)
    → any_live id now rows ≡ false
    → any_live id (now + more) rows ≡ false
unfolding any_live
any_live_later id now more [] h = refl
any_live_later id now more (r ∷ rows) h = ground (arith, any_live_later id now more rows)

pub known_session-append :
    (id : Uuid) (rows : List SessionRow) (r : SessionRow)
    → known_session id rows ≡ true
    → known_session id (rows ++ r ∷ []) ≡ true
unfolding known_session
known_session-append id [] r h = ground arith
known_session-append id (q ∷ rows) r h = ground (arith, known_session-append id rows r)

pub any_live-append :
    (id : Uuid) (now : ℕ) (rows : List SessionRow) (r : SessionRow)
    → any_live id now rows ≡ false
    → (r.session_id == id) ≡ false
    → any_live id now (rows ++ r ∷ []) ≡ false
unfolding any_live
any_live-append id now [] r h new = ground arith
any_live-append id now (q ∷ rows) r h new = ground (arith, any_live-append id now rows r)

-- A key that the table lacks is not that of the session.
pub new_key :
    (id other : Uuid) (rows : List SessionRow)
    → known_session id rows ≡ true
    → known_session other rows ≡ false
    → (other == id) ≡ false
unfolding known_session
new_key id other [] h new = ground arith
new_key id other (r ∷ rows) h new = ground (arith, new_key id other rows)

pub touched_user-none :
    (id : Uuid) (now : ℕ) (rows : List SessionRow)
    → any_live id now rows ≡ false
    → touched_user id now rows ≡ none
unfolding any_live touched_user
touched_user-none id now [] h = refl
touched_user-none id now (r ∷ rows) h = ground (arith, touched_user-none id now rows)
