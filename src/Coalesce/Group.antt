-- ===== src/Coalesce/Group.antt =====
-- The map of step 1 of `coalesce_terms_by_xorb`: its keys ascend, and each key holds its terms'
-- values in their order.
use open_weights.Base.{
  ◌≤◌, ◌<◌, ◌≡◌, refl, List, [], ◌∷◌, ◌++◌, arith, ◌==◌, if◌then◌else◌, length, Option, none, some,
  Any, Bool-cases, inl, inr, length-append,
}
use mathlib.Core.List.{append-nil, append_assoc}
use open_weights.Coalesce.{Hash, Term, Span, Groups, entry_push, group_from}

-- `m.get(h).cloned().unwrap_or_default()`
abbrev pub get_or_default {ℓ} : {V : Type ℓ} → Hash → Groups V → List V
get_or_default h [] = []
get_or_default h ((k, vs) ∷ m) = if h == k then vs else get_or_default h m

-- The keys ascend from above `k`.
abbrev pub Above {ℓ} : {V : Type ℓ} → Hash → Groups V → Type 0
Above k [] = Unit
Above k ((j, vs) ∷ m) = (k < j) × Above j m

abbrev pub IsAscending {ℓ} : {V : Type ℓ} → Groups V → Type 0
IsAscending [] = Unit
IsAscending ((k, vs) ∷ m) = Above k m

-- No key is there without a value.
abbrev pub AllNonempty {ℓ} : {V : Type ℓ} → Groups V → Type 0
AllNonempty [] = Unit
AllNonempty ((k, vs) ∷ m) = (0 < length vs) × AllNonempty m

-- The byte spans of the terms of one xorb, in the order of the terms.
abbrev pub spans_of : Hash → List Term → List Span
spans_of h [] = []
spans_of h (t ∷ ts) =
    if h == t.xorb_hash then (t.xorb_byte_start, t.xorb_byte_end) ∷ spans_of h ts else spans_of h ts

module _ {ℓ} {V : Type ℓ} where
  get_or_default_below : (h k : Hash) (m : Groups V) → Above k m → h ≤ k → get_or_default h m ≡ []
  get_or_default_below h k [] a le = refl
  get_or_default_below h k ((j, vs) ∷ m) a le = ground (arith, get_or_default_below h j m a.1)

  Above-entry_push :
      (b k : Hash) (v : V) (m : Groups V) → b < k → Above b m → Above b (entry_push k v m)
  unfolding entry_push
  Above-entry_push b k v [] lt a = (lt, tt)
  Above-entry_push b k v ((j, vs) ∷ m) lt a = ground (arith, Above-entry_push j k v m)

  pub entry_push-IsAscending :
      (k : Hash) (v : V) (m : Groups V) → IsAscending m → IsAscending (entry_push k v m)
  unfolding entry_push
  entry_push-IsAscending k v [] a = tt
  entry_push-IsAscending k v ((j, vs) ∷ m) a = ground (arith, Above-entry_push j k v m)

  pub get_or_default-entry_push :
      (h k : Hash) (v : V) (m : Groups V)
      → IsAscending m
      → get_or_default h (entry_push k v m)
        ≡ (if h == k then get_or_default h m ++ v ∷ [] else get_or_default h m)
  unfolding entry_push
  get_or_default-entry_push h k v [] a = ground arith
  get_or_default-entry_push h k v ((j, vs) ∷ []) a = ground arith
  get_or_default-entry_push h k v ((j, vs) ∷ (i, ws) ∷ m) a = ground (
    arith,
    get_or_default-entry_push h k v ((i, ws) ∷ m) a.1,
    get_or_default_below h j ((i, ws) ∷ m) a,
  )

pub Above-IsAscending {ℓ} : {V : Type ℓ} (k : Hash) (m : Groups V) → Above k m → IsAscending m
Above-IsAscending k [] a = tt
Above-IsAscending k ((j, vs) ∷ m) a = a.1

pub group_from-IsAscending :
    (ts : List Term) (m : Groups Span) → IsAscending m → IsAscending (group_from m ts)
unfolding group_from
group_from-IsAscending [] m a = a
group_from-IsAscending (t ∷ ts) m a =
    group_from-IsAscending ts _ (entry_push-IsAscending t.xorb_hash _ m a)

entry_push-AllNonempty {ℓ} :
    {V : Type ℓ} (k : Hash) (v : V) (m : Groups V) → AllNonempty m → AllNonempty (entry_push k v m)
unfolding entry_push
entry_push-AllNonempty k v [] a = (omega arith, tt)
entry_push-AllNonempty k v ((j, vs) ∷ m) a =
    ground (arith, entry_push-AllNonempty k v m a.1, length-append vs (v ∷ []))

pub group_from-AllNonempty :
    (ts : List Term) (m : Groups Span) → AllNonempty m → AllNonempty (group_from m ts)
unfolding group_from
group_from-AllNonempty [] m a = a
group_from-AllNonempty (t ∷ ts) m a =
    group_from-AllNonempty ts _ (entry_push-AllNonempty t.xorb_hash _ m a)

pub get_or_default-group_from :
    (h : Hash) (ts : List Term) (m : Groups Span)
    → IsAscending m
    → get_or_default h (group_from m ts) ≡ get_or_default h m ++ spans_of h ts
unfolding group_from
get_or_default-group_from h [] m a = rw append-nil
get_or_default-group_from h (t ∷ ts) m a =
    let span : Span = (t.xorb_byte_start, t.xorb_byte_end) in
    ground (
      arith,
      get_or_default-group_from h ts (entry_push t.xorb_hash span m)
          (entry_push-IsAscending t.xorb_hash span m a),
      get_or_default-entry_push h t.xorb_hash span m a,
      append_assoc (get_or_default h m) (span ∷ []) (spans_of h ts),
    )

-- `m.get(h)`
abbrev pub find_group {ℓ} : {V : Type ℓ} → Hash → Groups V → Option (List V)
find_group h [] = none
find_group h ((k, vs) ∷ m) = if h == k then some vs else find_group h m

pub find_group_below {ℓ} :
    {V : Type ℓ} (h k : Hash) (m : Groups V) → Above k m → h ≤ k → find_group h m ≡ none
find_group_below h k [] a le = refl
find_group_below h k ((j, vs) ∷ m) a le = ground (arith, find_group_below h j m a.1)

-- A key with a value is there.
pub find_group-some :
    {V : Type 0} (h : Hash) (m : Groups V) (P : V → Type 0)
    → Any P (get_or_default h m)
    → find_group h m ≡ some (get_or_default h m)
find_group-some h [] P a = absurd a
find_group-some h ((k, vs) ∷ m) P a = elim (Bool-cases (h == k)) [
  | inl same ↦ rw same
  | inr other ↦ rw other (find_group-some h m P (rw other at a))
]
