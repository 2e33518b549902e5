-- ===== src/ReconstructionV2.antt =====
-- The pure part of cas/crates/openweights-cas-core/src/handlers/reconstruction_v2.rs: the wire types
-- and `build_v2_response`, which the source writes out again beside `build_response`.
pub mod Agrees
mod Tests
use open_weights.Base.{
  ℕ, ◌+◌, ◌-◌, ◌%◌, Option, none, List, [], ◌∷◌, map, leb, ◌&&◌, if◌then◌else◌, Str, BTreeMap,
}
use open_weights.Base.Maps.{insert, str_ord}
use open_weights.Coalesce.{
  Hash, Term, ByteRange, Groups, u64_mod, u32_mod, entry_push, coalesce_terms_by_xorb,
}
use open_weights.Coalesce.Group.{get_or_default}
use open_weights.Reconstruction.{
  ChunkRange, UrlRange, ReconstructionTerm, ReconstructionRow, UrlMinter, Uuid, min_opt, max_opt,
  unwrap_or,
}

pub record RangeSegment : Type 0 where
  pub chunk_range : ChunkRange
  pub url_range : UrlRange

pub record XorbFetchInfoV2 : Type 0 where
  pub url : Str
  pub ranges : List RangeSegment

pub record QueryReconstructionResponseV2 : Type 0 where
  pub offset_into_first_range : ℕ
  pub terms : List ReconstructionTerm
  pub fetch_info : BTreeMap Str (List XorbFetchInfoV2)

pub record TermSpanV2 : Type 0 where
  pub byte_start : ℕ
  pub byte_end : ℕ
  pub chunk_start : ℕ
  pub chunk_end : ℕ

-- `build_v2_response`, the closure over the terms.
unfoldable pub to_term_v2 : (Hash → Str) → Term → ReconstructionTerm
to_term_v2 hex t = record {
  hash = hex t.xorb_hash;
  unpacked_length = (t.unpacked_end + u64_mod - t.unpacked_start) % u64_mod;
  range = record { start = t.xorb_start % u32_mod; finish = t.xorb_end % u32_mod };
}

-- `build_v2_response`, the bundle of one term.
abbrev pub to_span_v2 : Term → TermSpanV2
to_span_v2 t = record {
  byte_start = t.xorb_byte_start;
  byte_end = t.xorb_byte_end;
  chunk_start = t.xorb_start % u32_mod;
  chunk_end = t.xorb_end % u32_mod;
}

-- `build_v2_response`, the loop that fills `chunk_spans_per_xorb`.
unfoldable pub span_table_v2 : Groups TermSpanV2 → List Term → Groups TermSpanV2
span_table_v2 m [] = m
span_table_v2 m (t ∷ ts) = span_table_v2 (entry_push t.xorb_hash (to_span_v2 t) m) ts

-- `build_v2_response`, the loop over `term_spans` for the merged range `br`.
unfoldable pub chunk_union_v2 :
    ByteRange → ℕ → List TermSpanV2 → Option ℕ × Option ℕ → Option ℕ × Option ℕ
chunk_union_v2 br merged_end_exclusive [] acc = acc
chunk_union_v2 br merged_end_exclusive (ts ∷ rest) (cs, ce) =
    chunk_union_v2 br merged_end_exclusive rest (
      if leb br.start ts.byte_start && leb ts.byte_end merged_end_exclusive
      then (min_opt cs ts.chunk_start, max_opt ce ts.chunk_end)
      else (cs, ce))

-- What one round of the loop over `byte_ranges` pushes to `ranges`.
unfoldable pub to_segment : List TermSpanV2 → ByteRange → RangeSegment
unfolding chunk_union_v2
to_segment spans br =
    let merged_end_exclusive = (br.end_inclusive + 1) % u64_mod in
    let (cs, ce) = chunk_union_v2 br merged_end_exclusive spans (none, none) in
    record {
      chunk_range = record { start = unwrap_or 0 cs; finish = unwrap_or 0 ce };
      url_range = record { start = br.start; end_inclusive = br.end_inclusive };
    }

-- What it pushes to `signed_segments`.
unfoldable pub to_signed : ByteRange → ℕ × ℕ
to_signed br = (br.start, br.end_inclusive)

module _ (hex : Hash → Str) (signer : UrlMinter) (kid : Uuid) (now_unix : ℕ) where
  -- The one value that is inserted for a xorb.
  unfoldable pub to_fetch_v2 : Hash → List TermSpanV2 → List ByteRange → List XorbFetchInfoV2
  unfolding to_segment to_signed
  to_fetch_v2 xorb spans brs =
      record {
        url = signer.mint_v1_multi_range xorb (map to_signed brs) kid now_unix;
        ranges = map (to_segment spans) brs;
      }
      ∷ []

  -- The loop over `coalesced`.
  unfoldable pub fetch_from_v2 :
      Groups TermSpanV2
      → BTreeMap Str (List XorbFetchInfoV2)
      → Groups ByteRange
      → BTreeMap Str (List XorbFetchInfoV2)
  unfolding to_fetch_v2
  fetch_from_v2 table acc [] = acc
  fetch_from_v2 table acc ((xorb, brs) ∷ m) =
      fetch_from_v2 table (insert (hex xorb) (to_fetch_v2 xorb (get_or_default xorb table) brs) acc)
        m

  unfoldable pub build_v2_response : ReconstructionRow → QueryReconstructionResponseV2
  unfolding fetch_from_v2 to_term_v2 span_table_v2
  build_v2_response row = record {
    offset_into_first_range = 0;
    terms = map (to_term_v2 hex) row.terms;
    fetch_info = fetch_from_v2 (span_table_v2 [] row.terms) [] (coalesce_terms_by_xorb row.terms);
  }
