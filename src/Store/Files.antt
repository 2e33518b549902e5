-- ===== src/Store/Files.antt =====
-- cas/crates/openweights-cas-db/src/queries/reconstruction.rs: the two queries that read a
-- reconstruction, with their join on pinned xorbs.
use open_weights.Base.{
  Bool, false, ◌&&◌, Option, none, some, List, [], ◌∷◌, map, ◌==◌, leb, if◌then◌else◌,
}
use open_weights.Coalesce.{Hash, Term}
use open_weights.ShardParse.{is_empty}
use open_weights.ShardParse.References.{contains}
use open_weights.Reconstruction.{ReconstructionRow}
use open_weights.Store.{XorbRow, FileRow, TermRow, Db, M, pure, query}
use open_weights.Store.Xorbs.{find_xorb, is_pinned}

abbrev pub find_file : Hash → List FileRow → Option FileRow
find_file h [] = none
find_file h (f ∷ fs) = if h == f.file_id then some f else find_file h fs

-- `JOIN xorbs x ON … AND x.pin_state = 'pinned'` for one term
abbrev pub is_served : List XorbRow → Hash → Bool
is_served xorbs h = elim (find_xorb h xorbs) [ none ↦ false | some r ↦ is_pinned r.pin_state ]

unfoldable pub joined_terms : Hash → List XorbRow → List TermRow → List TermRow
joined_terms h xorbs [] = []
joined_terms h xorbs (t ∷ ts) =
    let rest = joined_terms h xorbs ts in
    if h == t.file_id && is_served xorbs t.xorb_hash then t ∷ rest else rest

-- `ORDER BY t.term_index ASC`; the index is a part of the primary key, so there are no ties.
unfoldable pub insert_by_index : TermRow → List TermRow → List TermRow
insert_by_index t [] = t ∷ []
insert_by_index t (u ∷ us) =
    if leb t.term_index u.term_index then t ∷ u ∷ us else u ∷ insert_by_index t us

unfoldable pub sort_by_index : List TermRow → List TermRow
unfolding insert_by_index
sort_by_index [] = []
sort_by_index (t ∷ ts) = insert_by_index t (sort_by_index ts)

unfoldable pub term_of_row : TermRow → Term
term_of_row r = record {
  xorb_hash = r.xorb_hash;
  xorb_start = r.xorb_start;
  xorb_end = r.xorb_end;
  xorb_byte_start = r.xorb_byte_start;
  xorb_byte_end = r.xorb_byte_end;
  unpacked_start = r.unpacked_start;
  unpacked_end = r.unpacked_end;
}

-- The rows of one file, as `ReconstructionRow`; `none` where the join is empty.
unfoldable pub row_of : Db → FileRow → Option ReconstructionRow
unfolding joined_terms sort_by_index term_of_row
row_of d f =
    let rows = sort_by_index (joined_terms f.file_id d.xorbs d.reconstruction_terms) in
    if is_empty rows
    then none
    else some (record {
      file = record { file_id = f.file_id; total_size = f.total_size };
      terms = map term_of_row rows;
    })

unfoldable pub get_reconstruction : Hash → M (Option ReconstructionRow)
unfolding row_of
get_reconstruction h =
    query λ d. (elim (find_file h d.reconstruction_files) [ none ↦ none | some f ↦ row_of d f ], d)

-- The map of `get_reconstructions_batch`, whose order of iteration is left to the hasher.
unfoldable pub rows_among : List Hash → Db → List FileRow → List ReconstructionRow
unfolding row_of
rows_among hs d [] = []
rows_among hs d (f ∷ fs) =
    let rest = rows_among hs d fs in
    if contains f.file_id hs
    then elim (row_of d f) [ none ↦ rest | some row ↦ row ∷ rest ]
    else rest

unfoldable pub get_reconstructions_batch : List Hash → M (List ReconstructionRow)
unfolding rows_among
get_reconstructions_batch hs =
    if is_empty hs then pure [] else query λ d. (rows_among hs d d.reconstruction_files, d)
