-- ===== src/Auth/Runs.antt =====
-- How a computation on the state of authentication goes: what it keeps, and how it succeeds.
use open_weights.Base.{
  ℕ, ◌≡◌, refl, ap, Bool, true, false, Option, none, some, List, [], ◌∷◌, ◌==◌, if◌then◌else◌,
  arith,
}
use open_weights.Store.{ApiKeyScope, AppError, Result, ok, err, forbidden}
use open_weights.Auth.{
  AuthState, Fallible, A, pure, throw, ◌>>=◌, ignore, or_other, of_option, run_statement, query,
  from_u8, contains_scope, require_scope, scope_any,
}

pub ok-injective : {T : Type 0} (a b : T) → ok a ≡ ok b → a ≡ b
ok-injective a b e = ground arith

err-injective : {T : Type 0} (a b : AppError) → ◌≡◌ {A = Result T} (err a) (err b) → a ≡ b
err-injective a b e = ground arith

module _ {S : Type 0} where
  result_elim :
      {T U P : Type 0} (f : T → Fallible S U) (w : S) (r : Result T × S) {b : U} {w'' : S}
      → ((λ _. r) >>= f) w ≡ (ok b, w'')
      → ((a : T) (w' : S) → r ≡ (ok a, w') → f a w' ≡ (ok b, w'') → P)
      → P
  result_elim f w (ok a, w') h k = k a w' refl h
  result_elim f w (err e, w') h k = absurd (ground arith)

  -- A run that succeeds does so through its first step.
  pub run_elim :
      {T U P : Type 0} (m : Fallible S T) (f : T → Fallible S U) (w : S) {b : U} {w'' : S}
      → (m >>= f) w ≡ (ok b, w'')
      → ((a : T) (w' : S) → m w ≡ (ok a, w') → f a w' ≡ (ok b, w'') → P)
      → P
  run_elim m f w h k = result_elim f w (m w) h k

  answer_ok :
      {T U : Type 0} (f : T → Fallible S U) (w : S) (r : Result T × S) (a : T)
      → r.0 ≡ ok a
      → (((λ _. r) >>= f) w).0 ≡ (f a r.1).0
  answer_ok f w (ok b, w') a e = ap (λ x. (f x w').0) (ok-injective b a e)
  answer_ok f w (err b, w') a e = absurd (ground arith)

  answer_err :
      {T U : Type 0} (f : T → Fallible S U) (w : S) (r : Result T × S) (e : AppError)
      → r.0 ≡ err e
      → (((λ _. r) >>= f) w).0 ≡ err e
  answer_err f w (ok b, w') e h = absurd (ground arith)
  answer_err f w (err b, w') e h = ap err (err-injective b e h)

  -- The answer of a chain from that of its first step.
  pub answer_after :
      {T U : Type 0} (m : Fallible S T) (f : T → Fallible S U) (w : S) (a : T)
      → (m w).0 ≡ ok a
      → ((m >>= f) w).0 ≡ (f a (m w).1).0
  answer_after m f w a e = answer_ok f w (m w) a e

  pub answer_of_err :
      {T U : Type 0} (m : Fallible S T) (f : T → Fallible S U) (w : S) (e : AppError)
      → (m w).0 ≡ err e
      → ((m >>= f) w).0 ≡ err e
  answer_of_err m f w e h = answer_err f w (m w) e h

  -- The predicate holds after the computation if it did before.
  unfoldable pub Keeps : (S → Type 0) → {T : Type 0} → Fallible S T → Type 0
  Keeps I m = (w : S) → I w → I (m w).1

  module _ (I : S → Type 0) where
    pub run-Keeps : {T : Type 0} (m : Fallible S T) → Keeps I m → (w : S) → I w → I (m w).1
    unfolding Keeps
    run-Keeps m k = k

    pub pure-Keeps : {T : Type 0} (a : T) → Keeps I (pure a)
    unfolding Keeps
    pure-Keeps a w i = i

    pub throw-Keeps : (T : Type 0) (e : AppError) → Keeps I (throw {T = T} e)
    unfolding Keeps
    throw-Keeps T e w i = i

    result-Keeps :
        {T U : Type 0} (f : T → Fallible S U)
        → ((a : T) → Keeps I (f a))
        → (w : S) (r : Result T × S) → I r.1
        → I (((λ _. r) >>= f) w).1
    unfolding Keeps
    result-Keeps f l w (ok a, w') i = l a w' i
    result-Keeps f l w (err e, w') i = i

    pub bind-Keeps :
        {T U : Type 0} (m : Fallible S T) (f : T → Fallible S U)
        → Keeps I m
        → ((a : T) → Keeps I (f a))
        → Keeps I (m >>= f)
    unfolding Keeps
    bind-Keeps m f k l w i = result-Keeps f l w (m w) (k w i)

    outcome-Keeps :
        {T U : Type 0} (f : T → Fallible S U) (w : S) (r : Result T × S)
        → ((a : T) → r.0 ≡ ok a → Keeps I (f a))
        → I r.1
        → I (((λ _. r) >>= f) w).1
    unfolding Keeps
    outcome-Keeps f w (ok a, w') l i = l a refl w' i
    outcome-Keeps f w (err e, w') l i = i

    -- What follows may count on what the first part returned.
    pub bind_outcome-Keeps :
        {T U : Type 0} (m : Fallible S T) (f : T → Fallible S U)
        → Keeps I m
        → ((w : S) (a : T) → I w → (m w).0 ≡ ok a → Keeps I (f a))
        → Keeps I (m >>= f)
    unfolding Keeps
    bind_outcome-Keeps m f k l w i = outcome-Keeps f w (m w) (λ a e. l w a i e) (k w i)

    mapped-Keeps : {T : Type 0} (w : S) (r : Result T × S) → I r.1 → I (or_other (λ _. r) w).1
    mapped-Keeps w (ok a, w') i = i
    mapped-Keeps w (err e, w') i = i

    pub or_other-Keeps : {T : Type 0} (m : Fallible S T) → Keeps I m → Keeps I (or_other m)
    unfolding Keeps
    or_other-Keeps m k w i = mapped-Keeps w (m w) (k w i)

    pub ignore-Keeps : {T : Type 0} (m : Fallible S T) → Keeps I m → Keeps I (ignore m)
    unfolding Keeps
    ignore-Keeps m k w i = k w i

    pub if-Keeps :
        {T : Type 0} (b : Bool) (m n : Fallible S T)
        → Keeps I m
        → Keeps I n
        → Keeps I (if b then m else n)
    if-Keeps true m n k l = k
    if-Keeps false m n k l = l

    pub of_option-Keeps : {T : Type 0} (e : AppError) (o : Option T) → Keeps I (of_option e o)
    unfolding Keeps
    of_option-Keeps e none w i = i
    of_option-Keeps e (some a) w i = i

    pub require_scope-Keeps :
        (s : ℕ) (granted : List ApiKeyScope) → Keeps I (require_scope s granted)
    unfolding require_scope
    require_scope-Keeps s granted = if-Keeps (s == scope_any) _ _ (pure-Keeps tt) (
        bind-Keeps (of_option forbidden (from_u8 s)) _ (of_option-Keeps forbidden (from_u8 s))
          λ required.
            if-Keeps (contains_scope required granted) _ _ (pure-Keeps tt)
              (throw-Keeps Unit forbidden))

-- A statement that does not fail.
pub query_ok : {Lru T : Type 0} (f : A Lru T) (w : AuthState Lru) → w.faults ≡ [] → query f w ≡ f w
query_ok f w quiet = ap (λ faults. run_statement faults f w) quiet

-- A predicate that does not ask for the faults to come.
abbrev pub IsSteady : {Lru : Type 0} → (AuthState Lru → Type 0) → Type 0
IsSteady {Lru} I = (w : AuthState Lru) (rest : List Bool) → I w → I (record w { faults = rest })

module _ {Lru : Type 0} (I : AuthState Lru → Type 0) where
  run_statement-Keeps :
      {T : Type 0} (f : A Lru T)
      → IsSteady I
      → Keeps I f
      → (faults : List Bool) → Keeps I (run_statement faults f)
  unfolding Keeps
  run_statement-Keeps f steady k [] w i = k w i
  run_statement-Keeps f steady k (true ∷ rest) w i = steady w rest i
  run_statement-Keeps f steady k (false ∷ rest) w i =
      k (record w { faults = rest }) (steady w rest i)

  -- A statement keeps what its body keeps.
  pub query-Keeps : {T : Type 0} (f : A Lru T) → IsSteady I → Keeps I f → Keeps I (query f)
  unfolding Keeps
  query-Keeps f steady k w i = run_statement-Keeps f steady k w.faults w i
