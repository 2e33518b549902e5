-- ===== src/Store/Preserves.antt =====
-- What a handler leaves true of the tables, put together from its statements.
use open_weights.Base.{◌≡◌, refl, Bool, true, false, if◌then◌else◌, arith}
use open_weights.Store.{
  Uuid, Db, World, Result, ok, err, M, AppError, pure, throw, ◌>>=◌, ignore, query, check,
  upload_and_pin, pin_only,
}
use open_weights.RateLimit.{RateLimitClass, RateLimitDefaults}
use open_weights.ShardParse.{Bytes}

module _ (P : Db → Type 0) where
  unfoldable pub Preserves : {A : Type 0} → M A → Type 0
  Preserves m = (w : World) → P w.tables → P ((m w).1).tables

  pub run-Preserves :
      {A : Type 0} (m : M A) → Preserves m → (w : World) → P w.tables → P ((m w).1).tables
  unfolding Preserves
  run-Preserves m h = h

  pub query-Preserves :
      {A : Type 0} (f : Db → A × Db) → ((d : Db) → P d → P (f d).1) → Preserves (query f)
  unfolding Preserves
  query-Preserves f h w p = ground (arith, h w.tables p)

  -- A statement that only reads.
  pub read-Preserves : {A : Type 0} (f : Db → A) → Preserves (query λ d. (f d, d))
  read-Preserves f = query-Preserves (λ d. (f d, d)) λ d p. p

  pub pure-Preserves : {A : Type 0} (a : A) → Preserves (pure a)
  unfolding Preserves
  pure-Preserves a w p = p

  pub throw-Preserves : (A : Type 0) (e : AppError) → Preserves (throw {A = A} e)
  unfolding Preserves
  throw-Preserves A e w p = p

  pub ignore-Preserves : {A : Type 0} (m : M A) → Preserves m → Preserves (ignore m)
  unfolding Preserves
  ignore-Preserves m h w p = h w p

  result-Preserves :
      {A B : Type 0} (f : A → M B)
      → ((a : A) → Preserves (f a))
      → (w : World) (r : Result A × World) → P (r.1).tables
      → P ((((λ _. r) >>= f) w).1).tables
  unfolding Preserves
  result-Preserves f g w (ok a, w') p = g a w' p
  result-Preserves f g w (err e, w') p = p

  pub bind-Preserves :
      {A B : Type 0} (m : M A) (f : A → M B)
      → Preserves m
      → ((a : A) → Preserves (f a))
      → Preserves (m >>= f)
  unfolding Preserves
  bind-Preserves m f h g w p = result-Preserves f g w (m w) (h w p)

  outcome-Preserves :
      {A B : Type 0} (f : A → M B) (w : World) (r : Result A × World)
      → ((a : A) → r.0 ≡ ok a → Preserves (f a))
      → P (r.1).tables
      → P ((((λ _. r) >>= f) w).1).tables
  unfolding Preserves
  outcome-Preserves f w (ok a, w') g p = g a refl w' p
  outcome-Preserves f w (err e, w') g p = p

  -- What follows may count on what the first part returned.
  pub bind_outcome-Preserves :
      {A B : Type 0} (m : M A) (f : A → M B)
      → Preserves m
      → ((w : World) (a : A) → P w.tables → (m w).0 ≡ ok a → Preserves (f a))
      → Preserves (m >>= f)
  unfolding Preserves
  bind_outcome-Preserves m f h g w p = outcome-Preserves f w (m w) (λ a e. g w a p e) (h w p)

  pub if-Preserves :
      {A : Type 0} (b : Bool) (m n : M A)
      → Preserves m
      → Preserves n
      → Preserves (if b then m else n)
  unfolding Preserves
  if-Preserves true m n h g = h
  if-Preserves false m n h g = g

  pub upload_and_pin-Preserves : (bytes : Bytes) → Preserves (upload_and_pin bytes)
  unfolding Preserves
  upload_and_pin-Preserves bytes w p = ground arith

  pub pin_only-Preserves : Preserves pin_only
  unfolding Preserves
  pin_only-Preserves w p = ground arith

  pub check-Preserves :
      (d : RateLimitDefaults) (c : RateLimitClass) (key : Uuid) → Preserves (check d c key)
  unfolding check Preserves
  check-Preserves d c key w p = ground arith

-- What a statement that only reads returns.
pub read-outcome :
    {A : Type 0} (f : Db → A) (w : World) (a : A)
    → (query (λ d. (f d, d)) w).0 ≡ ok a
    → f w.tables ≡ a
read-outcome f w a e = ground (arith, e)
