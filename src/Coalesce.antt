-- ===== src/Coalesce.antt =====
-- cas/crates/openweights-cas-core/src/coalesce.rs, over the rows of
-- cas/crates/openweights-cas-db/src/queries/reconstruction.rs.
pub mod Group
mod Tests
pub mod Cover
pub mod Canonical
pub mod Contains
use open_weights.Base.{
  ℕ, ◌+◌, ◌-◌, ◌%◌, ◌^◌, max, true, false, List, [], ◌∷◌, ◌++◌, map, ltb, leb, ◌==◌, if◌then◌else◌,
}

-- A 32-byte array, read as a big-endian number: the order of `[u8; 32]` is that of the numbers.
abbrev pub Hash : Type 0
Hash = ℕ

abbrev pub u64_mod : ℕ
u64_mod = 2 ^ 64

abbrev pub u32_mod : ℕ
u32_mod = 2 ^ 32

-- The BIGINT columns hold values that the shard parser computes from `u32` fields, so none is
-- negative; `as u64` then changes nothing.
pub record Term : Type 0 where
  pub xorb_hash : Hash
  pub xorb_start : ℕ
  pub xorb_end : ℕ
  pub xorb_byte_start : ℕ
  pub xorb_byte_end : ℕ
  pub unpacked_start : ℕ
  pub unpacked_end : ℕ

pub record ByteRange : Type 0 where
  pub start : ℕ
  pub end_inclusive : ℕ

-- `(start, end_EXCLUSIVE)`
abbrev pub Span : Type 0
Span = ℕ × ℕ

-- A `BTreeMap` is its entries in ascending order of keys.
abbrev pub Groups {ℓ} : Type ℓ → Type ℓ
Groups V = List (Hash × List V)

-- `groups.entry(k).or_default().push(v)`
unfoldable pub entry_push {ℓ} : {V : Type ℓ} → Hash → V → Groups V → Groups V
entry_push k v [] = (k, v ∷ []) ∷ []
entry_push k v ((j, vs) ∷ m) =
    if k == j
    then (j, vs ++ v ∷ []) ∷ m
    else if ltb k j
    then (k, v ∷ []) ∷ (j, vs) ∷ m
    else (j, vs) ∷ entry_push k v m

-- Step 1: the loop over the terms.
unfoldable pub group_from : Groups Span → List Term → Groups Span
group_from m [] = m
group_from m (t ∷ ts) =
    group_from (entry_push t.xorb_hash (t.xorb_byte_start, t.xorb_byte_end) m) ts

-- `spans.sort_unstable_by_key(|&(s, _)| s)`
unfoldable pub insert_span : Span → List Span → List Span
insert_span x [] = x ∷ []
insert_span x (y ∷ ys) = if leb x.0 y.0 then x ∷ y ∷ ys else y ∷ insert_span x ys

unfoldable pub sort_spans : List Span → List Span
unfolding insert_span
sort_spans [] = []
sort_spans (x ∷ xs) = insert_span x (sort_spans xs)

-- The loop over the sorted spans, with `last` the last entry of `merged`.
unfoldable pub merge_from : Span → List Span → List Span
merge_from last [] = last ∷ []
merge_from last ((s, e) ∷ rest) = elim (leb s last.1) [
  | true ↦ merge_from (last.0, max last.1 e) rest
  | false ↦ last ∷ merge_from (s, e) rest
]

unfoldable pub merge_spans : List Span → List Span
unfolding merge_from
merge_spans [] = []
merge_spans (x ∷ xs) = merge_from x xs

-- The one conversion site; `e - 1` wraps in a release build.
unfoldable pub to_byte_range : Span → ByteRange
to_byte_range (s, e) = record { start = s; end_inclusive = (e + u64_mod - 1) % u64_mod }

unfoldable pub coalesce_group : Hash × List Span → Hash × List ByteRange
unfolding sort_spans merge_spans to_byte_range
coalesce_group (xorb, spans) = (xorb, map to_byte_range (merge_spans (sort_spans spans)))

unfoldable pub coalesce_terms_by_xorb : List Term → Groups ByteRange
unfolding entry_push group_from coalesce_group
coalesce_terms_by_xorb terms = map coalesce_group (group_from [] terms)
