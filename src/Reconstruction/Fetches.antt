-- ===== src/Reconstruction/Fetches.antt =====
-- Under which key of the response the fetches of a xorb stand.
use open_weights.Base.{
  ℕ, ◌<◌, ◌≡◌, refl, ◌∙◌, ap, true, false, Option, none, some, List, [], ◌∷◌, map, arith, All,
  All-In, ltb, In, inl, inr, Bool-cases, Str, BTreeMap, ◌==◌,
}
use open_weights.Base.Maps.{get, insert, get-insert, str_eq, str_eq_iff, str_ord}
use open_weights.Coalesce.{
  Hash, Term, ByteRange, Groups, Span, u64_mod, entry_push, group_from, coalesce_group,
  coalesce_terms_by_xorb,
}
use open_weights.Coalesce.Group.{
  get_or_default, IsAscending, find_group, find_group_below, find_group-some, Above-IsAscending,
}
use open_weights.Coalesce.Canonical.{coalesce-IsAscending}
use open_weights.Coalesce.Contains.{coalesce-contains}
use open_weights.Reconstruction.{
  TermSpan, span_table, UrlMinter, Uuid, to_entry, fetch_from, build_response, FetchInfoEntry,
  ReconstructionRow,
}

-- A predicate holds of each key.
abbrev AllKeys {ℓ} : {V : Type ℓ} → (Hash → Type 0) → Groups V → Type 0
AllKeys P [] = Unit
AllKeys P ((k, v) ∷ m) = P k × AllKeys P m

entry_push-AllKeys {ℓ} :
    {V : Type ℓ} (P : Hash → Type 0) (k : Hash) (v : V) (m : Groups V)
    → P k
    → AllKeys P m
    → AllKeys P (entry_push k v m)
unfolding entry_push
entry_push-AllKeys P k v [] p ps = (p, tt)
entry_push-AllKeys P k v ((j, vs) ∷ m) p ps = elim (Bool-cases (k == j)) [
  | inl same ↦ rw same ps
  | inr other ↦ elim (Bool-cases (ltb k j)) [
    | inl below ↦ rw (other, below) (p, ps)
    | inr above ↦ rw (other, above) (ps.0, entry_push-AllKeys P k v m p ps.1)
  ]
]

group_from-AllKeys :
    (P : Hash → Type 0) (ts : List Term) (m : Groups Span)
    → All (λ t. P t.xorb_hash) ts
    → AllKeys P m
    → AllKeys P (group_from m ts)
unfolding group_from
group_from-AllKeys P [] m ps qs = qs
group_from-AllKeys P (t ∷ ts) m ps qs =
    group_from-AllKeys P ts _ ps.1 (entry_push-AllKeys P t.xorb_hash _ m ps.0 qs)

map-AllKeys : (P : Hash → Type 0) (m : Groups Span) → AllKeys P m → AllKeys P (map coalesce_group m)
unfolding coalesce_group
map-AllKeys P [] ps = tt
map-AllKeys P ((k, vs) ∷ m) ps = (ps.0, map-AllKeys P m ps.1)

coalesce-AllKeys :
    (P : Hash → Type 0) (ts : List Term)
    → All (λ t. P t.xorb_hash) ts
    → AllKeys P (coalesce_terms_by_xorb ts)
unfolding coalesce_terms_by_xorb
coalesce-AllKeys P ts ps = map-AllKeys P (group_from [] ts) (group_from-AllKeys P ts [] ps tt)

module _ (hex : Hash → Str) (signer : UrlMinter) (kid : Uuid) (now_unix : ℕ) where
  abbrev Entries : Type 0
  Entries = List FetchInfoEntry

  abbrev entries_or :
      Option Entries → (List ByteRange → Entries) → Option (List ByteRange) → Option Entries
  entries_or before f none = before
  entries_or before f (some brs) = some (f brs)

  module _ (P : Hash → Type 0)
      (hex-injective : (a b : Hash) → P a → P b → hex a ≡ hex b → a ≡ b) where
    get-fetch_from :
        (table : Groups TermSpan) (h : Hash) (m : Groups ByteRange)
        (acc : BTreeMap Str (List FetchInfoEntry))
        → P h
        → AllKeys P m
        → IsAscending m
        → get (hex h) (fetch_from hex signer kid now_unix table acc m)
          ≡ entries_or
              (get (hex h) acc)
              (map (to_entry hex signer kid now_unix h (get_or_default h table)))
              (find_group h m)
    unfolding fetch_from
    get-fetch_from table h [] acc p ps a = refl
    get-fetch_from table h ((k, brs) ∷ m) acc p ps a =
        let found = map (to_entry hex signer kid now_unix k (get_or_default k table)) brs in
        get-fetch_from table h m (insert (hex k) found acc) p ps.1 (Above-IsAscending k m a)
        ∙ elim (Bool-cases (h == k)) [
          | inl same ↦
              let e : h ≡ k = ground arith in
              let hit : str_eq (hex h) (hex k) ≡ true = (str_eq_iff (hex h) (hex k)).1 (ap hex e) in
              rw (
                get-insert (hex h) (hex k) found acc,
                hit,
                same,
                e,
                find_group_below k k m a (omega arith),
              )
          | inr other ↦ rw (get-insert (hex h) (hex k) found acc, miss other, other)
        ]
      where
        miss : (h == k) ≡ false → str_eq (hex h) (hex k) ≡ false
        miss other = elim (Bool-cases (str_eq (hex h) (hex k))) [
          | inl hit ↦
              absurd (unequal (hex-injective h k p ps.0 ((str_eq_iff (hex h) (hex k)).0 hit)))
          | inr out ↦ out
        ]
          where
            unequal : h ≡ k → ⊥
            unequal e = ground arith

    -- The fetches of a xorb that some term of the row names.
    pub build_response-entries :
        (row : ReconstructionRow) (t : Term)
        → All (λ u. (0 < u.xorb_byte_end) × (u.xorb_byte_end < u64_mod)) row.terms
        → All (λ u. P u.xorb_hash) row.terms
        → In t row.terms
        → get (hex t.xorb_hash) (build_response hex signer kid now_unix row).fetch_info
          ≡ some (
              map
                (to_entry hex signer kid now_unix t.xorb_hash
                  (get_or_default t.xorb_hash (span_table [] row.terms)))
                (get_or_default t.xorb_hash (coalesce_terms_by_xorb row.terms)))
    unfolding build_response get
    build_response-entries row t ends ps i =
        let h = t.xorb_hash in
        let ts = row.terms in
        let spans = get_or_default h (span_table [] ts) in
        get-fetch_from (span_table [] ts) h (coalesce_terms_by_xorb ts) []
          (All-In (λ u. P u.xorb_hash) ts t ps i) (coalesce-AllKeys P ts ps)
          (coalesce-IsAscending ts).0
        ∙ ap (entries_or none (map (to_entry hex signer kid now_unix h spans)))
            (find_group-some h (coalesce_terms_by_xorb ts) _ (coalesce-contains t ts ends i))
