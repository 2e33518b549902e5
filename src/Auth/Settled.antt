-- ===== src/Auth/Settled.antt =====
-- A key whose rows are all revoked, in a table that only grows and revokes.
use open_weights.Base.{
  ℕ, ◌≡◌, ◌≢◌, refl, ap, sym, ◌∙◌, false, none, List, [], ◌∷◌, ◌++◌, ◌==◌, arith, Bool-cases, inl,
  inr, All, All-append, Any, ==_iff,
}
use open_weights.Store.{Uuid}
use open_weights.Auth.{ApiKeyRow}
use open_weights.Auth.Cache.{is_none, active_key, touch_rows}
use open_weights.Auth.XetJwt.{find_by_hash, touch_hash}
use open_weights.Auth.Keys.{is_revocable, revoke_rows}

-- The table has a row of the hash, and none that is not revoked.
abbrev pub IsSettled : ℕ → List ApiKeyRow → Type 0
IsSettled hash rows =
    All (λ q. q.key_hash ≡ hash → is_none q.revoked_at ≡ false) rows
    × Any (λ q. q.key_hash ≡ hash) rows

-- Row by row, the hash is the same and a revocation stays.
abbrev pub Follows : List ApiKeyRow → List ApiKeyRow → Type 0
Follows [] [] = Unit
Follows [] (q ∷ qs) = ⊥
Follows (r ∷ rs) [] = ⊥
Follows (r ∷ rs) (q ∷ qs) =
    (q.key_hash ≡ r.key_hash)
    × (is_none r.revoked_at ≡ false → is_none q.revoked_at ≡ false)
    × Follows rs qs

pub touch_rows-Follows :
    (id : Uuid) (now : ℕ) (rows : List ApiKeyRow) → Follows rows (touch_rows id now rows)
unfolding touch_rows
touch_rows-Follows id now [] = tt
touch_rows-Follows id now (r ∷ rows) = elim (Bool-cases (r.id == id)) [
  | inl same ↦ rw same (refl, (λ e. e), touch_rows-Follows id now rows)
  | inr other ↦ rw other (refl, (λ e. e), touch_rows-Follows id now rows)
]

pub touch_hash-Follows :
    (hash now : ℕ) (rows : List ApiKeyRow) → Follows rows (touch_hash hash now rows)
unfolding touch_hash
touch_hash-Follows hash now [] = tt
touch_hash-Follows hash now (r ∷ rows) = elim (Bool-cases (r.key_hash == hash)) [
  | inl same ↦ rw same (refl, (λ e. e), touch_hash-Follows hash now rows)
  | inr other ↦ rw other (refl, (λ e. e), touch_hash-Follows hash now rows)
]

pub revoke_rows-Follows :
    (id : Uuid) (user_id now : ℕ) (rows : List ApiKeyRow)
    → Follows rows (revoke_rows id user_id now rows)
unfolding revoke_rows
revoke_rows-Follows id user_id now [] = tt
revoke_rows-Follows id user_id now (r ∷ rows) = elim (Bool-cases (is_revocable id user_id r)) [
  | inl same ↦ rw same (refl, (λ e. refl), revoke_rows-Follows id user_id now rows)
  | inr other ↦ rw other (refl, (λ e. e), revoke_rows-Follows id user_id now rows)
]

pub Follows-IsSettled :
    (hash : ℕ) (rows rows' : List ApiKeyRow)
    → Follows rows rows'
    → IsSettled hash rows
    → IsSettled hash rows'
Follows-IsSettled hash rows rows' f (all, any) = (go_all rows rows' f all, go_any rows rows' f any)
  where
    go_all :
        (rs qs : List ApiKeyRow)
        → Follows rs qs
        → All (λ q. q.key_hash ≡ hash → is_none q.revoked_at ≡ false) rs
        → All (λ q. q.key_hash ≡ hash → is_none q.revoked_at ≡ false) qs
    go_all [] [] g a = tt
    go_all [] (q ∷ qs) g a = absurd g
    go_all (r ∷ rs) [] g a = absurd g
    go_all (r ∷ rs) (q ∷ qs) (same, stays, g) a =
        ((λ e. stays (a.0 (sym same ∙ e))), go_all rs qs g a.1)

    go_any :
        (rs qs : List ApiKeyRow)
        → Follows rs qs
        → Any (λ q. q.key_hash ≡ hash) rs
        → Any (λ q. q.key_hash ≡ hash) qs
    go_any [] qs g a = absurd a
    go_any (r ∷ rs) [] g a = absurd g
    go_any (r ∷ rs) (q ∷ qs) (same, stays, g) (inl e) = inl (same ∙ e)
    go_any (r ∷ rs) (q ∷ qs) (same, stays, g) (inr a) = inr (go_any rs qs g a)

find_by_hash-Any :
    (hash : ℕ) (rows : List ApiKeyRow)
    → Any (λ q. q.key_hash ≡ hash) rows
    → find_by_hash hash rows ≢ none
unfolding find_by_hash
find_by_hash-Any hash [] a e = a
find_by_hash-Any hash (r ∷ rows) (inl same) e = absurd (ground arith)
find_by_hash-Any hash (r ∷ rows) (inr a) e = elim (Bool-cases (r.key_hash == hash)) [
  | inl same ↦ absurd (ground arith)
  | inr other ↦ find_by_hash-Any hash rows a (ground arith)
]

Any-append :
    (P : ApiKeyRow → Type 0) (rows more : List ApiKeyRow) → Any P rows → Any P (rows ++ more)
Any-append P [] more a = absurd a
Any-append P (r ∷ rows) more (inl p) = inl p
Any-append P (r ∷ rows) more (inr a) = inr (Any-append P rows more a)

-- A row whose hash the table did not have.
pub append-IsSettled :
    (hash : ℕ) (rows : List ApiKeyRow) (q : ApiKeyRow)
    → find_by_hash q.key_hash rows ≡ none
    → IsSettled hash rows
    → IsSettled hash (rows ++ q ∷ [])
append-IsSettled hash rows q absent (all, any) = (
  All-append (λ p. p.key_hash ≡ hash → is_none p.revoked_at ≡ false) rows (q ∷ []) all
      (
        (λ e.
            absurd
              (find_by_hash-Any hash rows any (ap (λ h. find_by_hash h rows) (sym e) ∙ absent))),
        tt,
      ),
  Any-append (λ p. p.key_hash ≡ hash) rows (q ∷ []) any,
)

active_key-revoked :
    (hash instant : ℕ) (rows : List ApiKeyRow)
    → All (λ q. q.key_hash ≡ hash → is_none q.revoked_at ≡ false) rows
    → active_key hash instant rows ≡ none
unfolding active_key
active_key-revoked hash instant [] a = refl
active_key-revoked hash instant (r ∷ rows) a = elim (Bool-cases (r.key_hash == hash)) [
  | inl same ↦
      rw (same, a.0 ((==_iff r.key_hash hash).0 same)) (active_key-revoked hash instant rows a.1)
  | inr other ↦ rw other (active_key-revoked hash instant rows a.1)
]

-- The query of the bearer path does not find the key.
pub active_key-IsSettled :
    (hash instant : ℕ) (rows : List ApiKeyRow)
    → IsSettled hash rows
    → active_key hash instant rows ≡ none
active_key-IsSettled hash instant rows settled = active_key-revoked hash instant rows settled.0
