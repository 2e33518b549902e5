-- ===== src/Reconstruction.antt =====
-- The pure part of cas/crates/openweights-cas-core/src/handlers/reconstruction.rs: the wire types
-- and `build_response`. The codec `MerkleHash::hex` belongs to another crate and is a parameter; the
-- signer is the trait `UrlMinter` of signed_url.rs.
pub mod Fetches
pub mod Serves
pub mod Tests
use open_weights.Base.{
  ℕ, ◌+◌, ◌-◌, ◌%◌, min, max, Option, none, some, List, [], ◌∷◌, map, leb, ◌&&◌, if◌then◌else◌, Str,
  BTreeMap,
}
use open_weights.Base.Maps.{insert, str_ord}
use open_weights.Coalesce.{
  Hash, Term, ByteRange, Groups, u64_mod, u32_mod, entry_push, coalesce_terms_by_xorb,
}
use open_weights.Coalesce.Group.{get_or_default}

-- END-EXCLUSIVE chunk indices
pub record ChunkRange : Type 0 where
  pub start : ℕ
  pub finish : ℕ

-- END-INCLUSIVE bytes
pub record UrlRange : Type 0 where
  pub start : ℕ
  pub end_inclusive : ℕ

pub record ReconstructionTerm : Type 0 where
  pub hash : Str
  pub unpacked_length : ℕ
  pub range : ChunkRange

pub record FetchInfoEntry : Type 0 where
  pub range : ChunkRange
  pub url : Str
  pub url_range : UrlRange

pub record QueryReconstructionResponse : Type 0 where
  pub offset_into_first_range : ℕ
  pub terms : List ReconstructionTerm
  pub fetch_info : BTreeMap Str (List FetchInfoEntry)

pub record ReconstructionFile : Type 0 where
  pub file_id : Hash
  pub total_size : ℕ

pub record ReconstructionRow : Type 0 where
  pub file : ReconstructionFile
  pub terms : List Term

-- A `Uuid` is its 128-bit number.
abbrev pub Uuid : Type 0
Uuid = ℕ

-- The trait of signed_url.rs, without the default TTL, which no builder reads.
pub record UrlMinter : Type 0 where
  pub mint_v1 : Hash → Option (ℕ × ℕ) → Uuid → ℕ → Str
  pub mint_v1_multi_range : Hash → List (ℕ × ℕ) → Uuid → ℕ → Str

pub record TermSpan : Type 0 where
  pub byte_start : ℕ
  pub byte_end : ℕ
  pub chunk_start : ℕ
  pub chunk_end : ℕ

-- `build_response`, the closure over the terms; `as u64` of a negative difference wraps.
unfoldable pub to_term : (Hash → Str) → Term → ReconstructionTerm
to_term hex t = record {
  hash = hex t.xorb_hash;
  unpacked_length = (t.unpacked_end + u64_mod - t.unpacked_start) % u64_mod;
  range = record { start = t.xorb_start % u32_mod; finish = t.xorb_end % u32_mod };
}

-- `build_response`, the bundle of one term.
abbrev pub to_span : Term → TermSpan
to_span t = record {
  byte_start = t.xorb_byte_start;
  byte_end = t.xorb_byte_end;
  chunk_start = t.xorb_start % u32_mod;
  chunk_end = t.xorb_end % u32_mod;
}

-- `build_response`, the loop that fills `chunk_spans_per_xorb`.
unfoldable pub span_table : Groups TermSpan → List Term → Groups TermSpan
span_table m [] = m
span_table m (t ∷ ts) = span_table (entry_push t.xorb_hash (to_span t) m) ts

-- `x.map_or(d, |x| f(x))` of the two folds over chunk indices
abbrev pub min_opt : Option ℕ → ℕ → Option ℕ
min_opt none d = some d
min_opt (some x) d = some (min x d)

abbrev pub max_opt : Option ℕ → ℕ → Option ℕ
max_opt none d = some d
max_opt (some x) d = some (max x d)

abbrev pub unwrap_or : ℕ → Option ℕ → ℕ
unwrap_or d none = d
unwrap_or d (some x) = x

-- `build_response`, the loop over `term_spans` for one merged range, whose END-EXCLUSIVE end is
-- `upto`.
unfoldable pub chunk_union : ℕ → ℕ → List TermSpan → Option ℕ × Option ℕ → Option ℕ × Option ℕ
chunk_union from upto [] acc = acc
chunk_union from upto (ts ∷ rest) (cs, ce) = chunk_union from upto rest (
    if leb from ts.byte_start && leb ts.byte_end upto
    then (min_opt cs ts.chunk_start, max_opt ce ts.chunk_end)
    else (cs, ce))

unfoldable pub chunk_range_of : ByteRange → List TermSpan → ChunkRange
unfolding chunk_union
chunk_range_of br spans =
    let merged_end_exclusive = (br.end_inclusive + 1) % u64_mod in
    let (cs, ce) = chunk_union br.start merged_end_exclusive spans (none, none) in
    record { start = unwrap_or 0 cs; finish = unwrap_or 0 ce }

module _ (hex : Hash → Str) (signer : UrlMinter) (kid : Uuid) (now_unix : ℕ) where
  unfoldable pub to_entry : Hash → List TermSpan → ByteRange → FetchInfoEntry
  unfolding chunk_range_of
  to_entry xorb spans br = record {
    range = chunk_range_of br spans;
    url = signer.mint_v1 xorb (some (br.start, br.end_inclusive)) kid now_unix;
    url_range = record { start = br.start; end_inclusive = br.end_inclusive };
  }

  -- The loop over `coalesced`.
  unfoldable pub fetch_from :
      Groups TermSpan
      → BTreeMap Str (List FetchInfoEntry)
      → Groups ByteRange
      → BTreeMap Str (List FetchInfoEntry)
  unfolding to_entry
  fetch_from table acc [] = acc
  fetch_from table acc ((xorb, brs) ∷ m) =
      fetch_from table (insert (hex xorb) (map (to_entry xorb (get_or_default xorb table)) brs) acc)
        m

  unfoldable pub build_response : ReconstructionRow → QueryReconstructionResponse
  unfolding fetch_from to_term span_table
  build_response row = record {
    offset_into_first_range = 0;
    terms = map (to_term hex) row.terms;
    fetch_info = fetch_from (span_table [] row.terms) [] (coalesce_terms_by_xorb row.terms);
  }
