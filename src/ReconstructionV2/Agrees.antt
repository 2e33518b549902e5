-- ===== src/ReconstructionV2/Agrees.antt =====
-- The two versions of the response tell a client the same.
use open_weights.Base.{
  ℕ, ◌+◌, ◌%◌, ◌≡◌, refl, ◌∙◌, ap, Option, none, some, List, [], ◌∷◌, ◌++◌, map, arith, Str,
  BTreeMap, Bool-cases, inl, inr,
}
use open_weights.Base.Maps.{get, insert, get-insert, str_eq_iff, str_ord, str_eq}
use open_weights.Coalesce.{Hash, Term, ByteRange, Groups, u64_mod, entry_push}
use open_weights.Reconstruction.{
  TermSpan, to_span, to_term, span_table, chunk_union, to_entry, fetch_from, build_response,
  UrlMinter, Uuid, ReconstructionRow, FetchInfoEntry,
}
use open_weights.ReconstructionV2.{
  TermSpanV2, to_term_v2, span_table_v2, chunk_union_v2, to_segment, to_signed, to_fetch_v2,
  fetch_from_v2, build_v2_response, XorbFetchInfoV2, RangeSegment,
}
use open_weights.Coalesce.{coalesce_terms_by_xorb}
use open_weights.Coalesce.Group.{get_or_default}

abbrev widen : TermSpan → TermSpanV2
widen s = record {
  byte_start = s.byte_start;
  byte_end = s.byte_end;
  chunk_start = s.chunk_start;
  chunk_end = s.chunk_end;
}

abbrev widen_groups : Groups TermSpan → Groups TermSpanV2
widen_groups [] = []
widen_groups ((k, vs) ∷ m) = (k, map widen vs) ∷ widen_groups m

map-append_one :
    (vs : List TermSpan) (v : TermSpan) → map widen (vs ++ v ∷ []) ≡ map widen vs ++ widen v ∷ []
map-append_one [] v = refl
map-append_one (w ∷ vs) v = ap (◌∷◌ (widen w)) (map-append_one vs v)

entry_push-widen :
    (k : Hash) (v : TermSpan) (m : Groups TermSpan)
    → entry_push k (widen v) (widen_groups m) ≡ widen_groups (entry_push k v m)
unfolding entry_push
entry_push-widen k v [] = refl
entry_push-widen k v ((j, vs) ∷ m) = ground (arith, entry_push-widen k v m, map-append_one vs v)

span_table-widen :
    (ts : List Term) (m : Groups TermSpan)
    → span_table_v2 (widen_groups m) ts ≡ widen_groups (span_table m ts)
unfolding span_table span_table_v2
span_table-widen [] m = refl
span_table-widen (t ∷ ts) m =
    ap (λ n. span_table_v2 n ts) (entry_push-widen t.xorb_hash (to_span t) m)
    ∙ span_table-widen ts (entry_push t.xorb_hash (to_span t) m)

get_or_default-widen :
    (h : Hash) (m : Groups TermSpan)
    → get_or_default h (widen_groups m) ≡ map widen (get_or_default h m)
get_or_default-widen h [] = refl
get_or_default-widen h ((k, vs) ∷ m) = ground (arith, get_or_default-widen h m)

chunk_union-widen :
    (br : ByteRange) (upto : ℕ) (spans : List TermSpan) (acc : Option ℕ × Option ℕ)
    → chunk_union_v2 br upto (map widen spans) acc ≡ chunk_union br.start upto spans acc
unfolding chunk_union chunk_union_v2
chunk_union-widen br upto [] acc = refl
chunk_union-widen br upto (s ∷ spans) (cs, ce) = chunk_union-widen br upto spans _

-- What a V1 entry says, without its URL.
abbrev pub as_segment : FetchInfoEntry → RangeSegment
as_segment e = record { chunk_range = e.range; url_range = e.url_range }

-- The byte range of a V1 entry, as a pair.
abbrev pub as_signed : FetchInfoEntry → ℕ × ℕ
as_signed e = (e.url_range.start, e.url_range.end_inclusive)

map-to_term : (hex : Hash → Str) (ts : List Term) → map (to_term_v2 hex) ts ≡ map (to_term hex) ts
unfolding to_term to_term_v2
map-to_term hex [] = refl
map-to_term hex (t ∷ ts) = ap (◌∷◌ (to_term hex t)) (map-to_term hex ts)

module _ (hex : Hash → Str) (signer : UrlMinter) (kid : Uuid) (now_unix : ℕ) where
  map-as_segment :
      (h : Hash) (spans : List TermSpan) (brs : List ByteRange)
      → map (to_segment (map widen spans)) brs
        ≡ map as_segment (map (to_entry hex signer kid now_unix h spans) brs)
  unfolding to_segment to_entry
  map-as_segment h spans [] = refl
  map-as_segment h spans (br ∷ brs) = rw (
    chunk_union-widen br ((br.end_inclusive + 1) % u64_mod) spans (none, none),
    map-as_segment h spans brs,
  )

  map-as_signed :
      (h : Hash) (spans : List TermSpan) (brs : List ByteRange)
      → map to_signed brs ≡ map as_signed (map (to_entry hex signer kid now_unix h spans) brs)
  unfolding to_signed to_entry
  map-as_signed h spans [] = refl
  map-as_signed h spans (br ∷ brs) =
      ap (◌∷◌ (br.start, br.end_inclusive)) (map-as_signed h spans brs)

  -- The V2 value that a V1 list of entries for xorb `h` stands for: all ranges under one URL, which
  -- is signed for exactly their bytes.
  abbrev pub as_fetch_v2 : Hash → Option (List FetchInfoEntry) → Option (List XorbFetchInfoV2)
  as_fetch_v2 h none = none
  as_fetch_v2 h (some es) = some (
      record {
        url = signer.mint_v1_multi_range h (map as_signed es) kid now_unix;
        ranges = map as_segment es;
      }
      ∷ [])

  to_fetch_v2-as_fetch_v2 :
      (h : Hash) (spans : List TermSpan) (brs : List ByteRange)
      → some (to_fetch_v2 hex signer kid now_unix h (map widen spans) brs)
        ≡ as_fetch_v2 h (some (map (to_entry hex signer kid now_unix h spans) brs))
  unfolding to_fetch_v2
  to_fetch_v2-as_fetch_v2 h spans brs =
      rw (← map-as_signed h spans brs, ← map-as_segment h spans brs)

  module _ (hex-injective : (a b : Hash) → hex a ≡ hex b → a ≡ b) where
    fetch_from-as_fetch_v2 :
        (h : Hash) (table : Groups TermSpan) (m : Groups ByteRange)
        (acc : BTreeMap Str (List FetchInfoEntry)) (acc' : BTreeMap Str (List XorbFetchInfoV2))
        → get (hex h) acc' ≡ as_fetch_v2 h (get (hex h) acc)
        → get (hex h) (fetch_from_v2 hex signer kid now_unix (widen_groups table) acc' m)
          ≡ as_fetch_v2 h (get (hex h) (fetch_from hex signer kid now_unix table acc m))
    unfolding fetch_from fetch_from_v2
    fetch_from-as_fetch_v2 h table [] acc acc' e = e
    fetch_from-as_fetch_v2 h table ((k, brs) ∷ m) acc acc' e =
        fetch_from-as_fetch_v2 h table m (insert (hex k) (found k) acc)
          (insert (hex k) (found_v2 k) acc')
          (rw
            (get-insert (hex h) (hex k) (found_v2 k) acc', get-insert (hex h) (hex k) (found k) acc)
            (elim (Bool-cases (str_eq (hex h) (hex k))) [
              | inl hit ↦
                  rw
                    (
                      hit,
                      hex-injective h k ((str_eq_iff (hex h) (hex k)).0 hit),
                      get_or_default-widen k table,
                    )
                    (to_fetch_v2-as_fetch_v2 k (get_or_default k table) brs)
              | inr out ↦ rw out e
            ]))
      where
        found : Hash → List FetchInfoEntry
        found j = map (to_entry hex signer kid now_unix j (get_or_default j table)) brs

        found_v2 : Hash → List XorbFetchInfoV2
        found_v2 j =
            to_fetch_v2 hex signer kid now_unix j (get_or_default j (widen_groups table)) brs

    -- If the hex codec does not merge two hashes, the V2 response has the same terms as the V1
    -- response, and under each xorb the same chunk ranges and byte ranges in the same order, with
    -- one URL that is signed for exactly those byte ranges; a xorb has an entry in both or in none.
    pub build_v2_response-Agrees :
        (row : ReconstructionRow) (h : Hash)
        → ((build_v2_response hex signer kid now_unix row).terms
            ≡ (build_response hex signer kid now_unix row).terms)
          × (get (hex h) (build_v2_response hex signer kid now_unix row).fetch_info
              ≡ as_fetch_v2 h (get (hex h) (build_response hex signer kid now_unix row).fetch_info))
    unfolding build_v2_response build_response get
    build_v2_response-Agrees row h = (
      map-to_term hex row.terms,
      rw (span_table-widen row.terms []) (
          fetch_from-as_fetch_v2 h (span_table [] row.terms) (coalesce_terms_by_xorb row.terms) []
            [] refl),
    )
