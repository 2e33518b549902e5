-- ===== src/Download/Pinned.antt =====
-- The rows that a download reads: the terms of one file, in order, each in a pinned xorb.
use open_weights.Base.{
  ◌≡◌, ◌∙◌, refl, true, Option, none, some, List, [], ◌∷◌, map, subst, All, All-map, if◌then◌else◌,
  arith,
}
use mathlib.Core.Option.{none-ne-some, some-injective}
use open_weights.Coalesce.{Hash}
use open_weights.ShardParse.{is_empty}
use open_weights.Reconstruction.{ReconstructionRow}
use open_weights.Store.{XorbRow, FileRow, TermRow, Db, World, ok}
use open_weights.Store.Preserves.{read-outcome}
use open_weights.Store.Files.{
  is_served, joined_terms, insert_by_index, sort_by_index, term_of_row, row_of, get_reconstruction,
  find_file,
}

module _ (Q : TermRow → Type 0) where
  insert_by_index-All :
      (t : TermRow) (ts : List TermRow) → Q t → All Q ts → All Q (insert_by_index t ts)
  unfolding insert_by_index
  insert_by_index-All t [] q a = (q, tt)
  insert_by_index-All t (u ∷ us) q a = ground (arith, q, a, insert_by_index-All t us q a.1)

  sort_by_index-All : (ts : List TermRow) → All Q ts → All Q (sort_by_index ts)
  unfolding sort_by_index
  sort_by_index-All [] a = tt
  sort_by_index-All (t ∷ ts) a =
      insert_by_index-All t (sort_by_index ts) a.0 (sort_by_index-All ts a.1)

joined_terms-served :
    (h : Hash) (xorbs : List XorbRow) (ts : List TermRow)
    → All (λ t. is_served xorbs t.xorb_hash ≡ true) (joined_terms h xorbs ts)
unfolding joined_terms
joined_terms-served h xorbs [] = tt
joined_terms-served h xorbs (t ∷ ts) = ground (arith, joined_terms-served h xorbs ts)

served_rows :
    (d : Db) (f : FileRow) (rows : List TermRow) (row : ReconstructionRow)
    → All (λ t. is_served d.xorbs t.xorb_hash ≡ true) rows
    → (if is_empty rows
        then none
        else some (record {
          file = record { file_id = f.file_id; total_size = f.total_size };
          terms = map term_of_row rows;
        }))
      ≡ some row
    → (row.file.file_id ≡ f.file_id) × All (λ t. is_served d.xorbs t.xorb_hash ≡ true) row.terms
unfolding term_of_row
served_rows d f [] row a e = absurd (none-ne-some row e)
served_rows d f (t ∷ ts) row a e =
    subst
      (λ row.
        (row.file.file_id ≡ f.file_id) × All (λ t. is_served d.xorbs t.xorb_hash ≡ true) row.terms)
      (some-injective _ _ e)
      (
        refl,
        All-map _ (λ t. is_served d.xorbs t.xorb_hash ≡ true) term_of_row (t ∷ ts) (λ t p. p) a,
      )

row_of-served :
    (d : Db) (f : FileRow) (row : ReconstructionRow)
    → row_of d f ≡ some row
    → (row.file.file_id ≡ f.file_id) × All (λ t. is_served d.xorbs t.xorb_hash ≡ true) row.terms
unfolding row_of
row_of-served d f row e =
    served_rows d f _ row
      (sort_by_index-All _ _ (joined_terms-served f.file_id d.xorbs d.reconstruction_terms)) e

find_file-key :
    (h : Hash) (fs : List FileRow) (f : FileRow) → find_file h fs ≡ some f → f.file_id ≡ h
find_file-key h [] f e = absurd (none-ne-some f e)
find_file-key h (g ∷ fs) f e = ground (arith, e, find_file-key h fs f)

found-served :
    (h : Hash) (d : Db) (found : Option FileRow) (row : ReconstructionRow)
    → find_file h d.reconstruction_files ≡ found
    → (elim found [ none ↦ none | some f ↦ row_of d f ]) ≡ some row
    → (row.file.file_id ≡ h) × All (λ t. is_served d.xorbs t.xorb_hash ≡ true) row.terms
found-served h d none row q e = absurd (none-ne-some row e)
found-served h d (some f) row q e =
    let (k, a) = row_of-served d f row e in (k ∙ find_file-key h d.reconstruction_files f q, a)

-- A reconstruction that the query finds is that of the file asked for, and every term of it is in a
-- xorb that is pinned in the tables that the query read.
pub get_reconstruction-Served :
    (h : Hash) (w : World) (row : ReconstructionRow)
    → (get_reconstruction h w).0 ≡ ok (some row)
    → (row.file.file_id ≡ h) × All (λ t. is_served (w.tables).xorbs t.xorb_hash ≡ true) row.terms
unfolding get_reconstruction
get_reconstruction-Served h w row e = found-served h w.tables _ row refl (
    read-outcome
      (λ d. elim (find_file h d.reconstruction_files) as (λ _. Option ReconstructionRow) [
        | none ↦ none
        | some f ↦ row_of d f
      ])
      w (some row) e)
