-- ===== src/Store/Inserted.antt =====
-- queries/shards.rs: what a statement that succeeds leaves in the tables of shards.
use open_weights.Base.{
  ℕ, ◌≡◌, ap, sym, ◌∙◌, Bool, true, false, ◌||◌, ◌&&◌, none, some, List, [], ◌∷◌, ◌++◌, ◌==◌,
  if◌then◌else◌, arith, All, subst, Bool-cases, inl, inr,
}
use open_weights.Coalesce.{Hash}
use open_weights.ShardParse.{ParsedFile, ParsedTerm}
use open_weights.Store.{
  ShardRow, FileRow, TermRow, Db, World, Result, ok, err, db, throw, query, next_fault,
}
use open_weights.Auth.Runs.{ok-injective}
use open_weights.Store.Shards.{
  find_shard, upsert_file, upsert_files, repeats, insert_term, insert_terms, insert_files,
  insert_term_rows,
}

abbrev pub has_file : Hash → List FileRow → Bool
has_file id [] = false
has_file id (r ∷ rs) = id == r.file_id || has_file id rs

abbrev pub has_term : Hash → ℕ → List TermRow → Bool
has_term id index [] = false
has_term id index (r ∷ rs) = (id == r.file_id && index == r.term_index) || has_term id index rs

has_file-upsert_own :
    (shard : Hash) (f : ParsedFile) (rows : List FileRow)
    → has_file f.file_id (upsert_file shard f rows) ≡ true
unfolding upsert_file
has_file-upsert_own shard f [] = ground arith
has_file-upsert_own shard f (r ∷ rows) = ground (arith, has_file-upsert_own shard f rows)

has_file-upsert :
    (id shard : Hash) (f : ParsedFile) (rows : List FileRow)
    → has_file id rows ≡ true
    → has_file id (upsert_file shard f rows) ≡ true
unfolding upsert_file
has_file-upsert id shard f [] h = ground arith
has_file-upsert id shard f (r ∷ rows) h = ground (arith, has_file-upsert id shard f rows)

has_file-upsert_files :
    (id shard : Hash) (fs : List ParsedFile) (rows : List FileRow)
    → has_file id rows ≡ true
    → has_file id (upsert_files shard fs rows) ≡ true
unfolding upsert_files
has_file-upsert_files id shard [] rows h = h
has_file-upsert_files id shard (f ∷ fs) rows h =
    has_file-upsert_files id shard fs (upsert_file shard f rows) (has_file-upsert id shard f rows h)

-- Each file has a row.
abbrev pub HasFiles : List ParsedFile → List FileRow → Type 0
HasFiles fs rows = All (λ f. has_file f.file_id rows ≡ true) fs

upsert_files-HasFiles :
    (shard : Hash) (fs : List ParsedFile) (rows : List FileRow)
    → HasFiles fs (upsert_files shard fs rows)
unfolding upsert_files
upsert_files-HasFiles shard [] rows = tt
upsert_files-HasFiles shard (f ∷ fs) rows = (
  has_file-upsert_files f.file_id shard fs (upsert_file shard f rows)
      (has_file-upsert_own shard f rows),
  upsert_files-HasFiles shard fs (upsert_file shard f rows),
)

has_term-insert_own :
    (t : ParsedTerm) (rows : List TermRow)
    → has_term t.file_id t.term_index (insert_term t rows) ≡ true
unfolding insert_term
has_term-insert_own t [] = ground arith
has_term-insert_own t (r ∷ rows) = ground (arith, has_term-insert_own t rows)

has_term-insert :
    (id : Hash) (index : ℕ) (t : ParsedTerm) (rows : List TermRow)
    → has_term id index rows ≡ true
    → has_term id index (insert_term t rows) ≡ true
unfolding insert_term
has_term-insert id index t [] h = ground arith
has_term-insert id index t (r ∷ rows) h = ground (arith, has_term-insert id index t rows)

has_term-insert_terms :
    (id : Hash) (index : ℕ) (ts : List ParsedTerm) (rows : List TermRow)
    → has_term id index rows ≡ true
    → has_term id index (insert_terms ts rows) ≡ true
unfolding insert_terms
has_term-insert_terms id index [] rows h = h
has_term-insert_terms id index (t ∷ ts) rows h =
    has_term-insert_terms id index ts (insert_term t rows) (has_term-insert id index t rows h)

-- Each term has a row.
abbrev pub HasTerms : List ParsedTerm → List TermRow → Type 0
HasTerms ts rows = All (λ t. has_term t.file_id t.term_index rows ≡ true) ts

insert_terms-HasTerms :
    (ts : List ParsedTerm) (rows : List TermRow) → HasTerms ts (insert_terms ts rows)
unfolding insert_terms
insert_terms-HasTerms [] rows = tt
insert_terms-HasTerms (t ∷ ts) rows = (
  has_term-insert_terms t.file_id t.term_index ts (insert_term t rows) (has_term-insert_own t rows),
  insert_terms-HasTerms ts (insert_term t rows),
)

pub find_shard-append :
    (h : Hash) (rows : List ShardRow) (r : ShardRow)
    → find_shard h rows ≡ none
    → r.shard_hash ≡ h
    → find_shard h (rows ++ r ∷ []) ≡ some r
find_shard-append h [] r e k = ground (arith, k)
find_shard-append h (q ∷ rows) r e k = ground (arith, e, find_shard-append h rows r)

pub next_fault-tables : (w : World) → ((next_fault w).1).tables ≡ w.tables
next_fault-tables w = ground arith

query_outcome :
    {A : Type 0} (f : Db → A × Db) (d : Db) (fails : Bool) (v w' : World) (a : A)
    → ◌≡◌ {A = Result A × World}
        (if fails then (err db, v) else (ok (f v.tables).0, record v { tables = (f v.tables).1 }))
        (ok a, w')
    → v.tables ≡ d
    → ((f d).0 ≡ a) × ((f d).1 ≡ w'.tables)
query_outcome f d true v w' a e same = absurd (ground arith)
query_outcome f d false v w' a e same = (
  sym (ap (λ t. (f t).0) same) ∙ ok-injective _ _ (ap (λ r. r.0) e),
  sym (ap (λ t. (f t).1) same) ∙ ap (λ r. (r.1).tables) e,
)

-- What a statement that succeeds has done.
pub query-done :
    {A : Type 0} (f : Db → A × Db) (w w' : World) (a : A)
    → query f w ≡ (ok a, w')
    → ((f w.tables).0 ≡ a) × ((f w.tables).1 ≡ w'.tables)
query-done f w w' a e =
    query_outcome f w.tables (next_fault w).0 (next_fault w).1 w' a e (next_fault-tables w)

abbrev write_files : Hash → List ParsedFile → Db → Unit {0} × Db
write_files shard fs d =
    (tt, record d { reconstruction_files = upsert_files shard fs d.reconstruction_files })

abbrev write_terms : List ParsedTerm → Db → Unit {0} × Db
write_terms ts d = (tt, record d { reconstruction_terms = insert_terms ts d.reconstruction_terms })

-- The insert of the files of a shard writes `reconstruction_files` alone, where each has then a row.
pub insert_files-done :
    (shard : Hash) (fs : List ParsedFile) (w w' : World)
    → insert_files shard fs w ≡ (ok tt, w')
    → (rows : List FileRow) × (w'.tables ≡ record (w.tables) { reconstruction_files = rows })
      × HasFiles fs rows
unfolding insert_files
insert_files-done shard [] w w' e = (_, sym (ap (λ r. (r.1).tables) e), tt)
insert_files-done shard (f ∷ fs) w w' e = elim (Bool-cases (repeats (f ∷ fs))) [
  | inl twice ↦ absurd (ground (arith, e, twice))
  | inr once ↦
      let rows = upsert_files shard (f ∷ fs) (w.tables).reconstruction_files in
      let run : query (write_files shard (f ∷ fs)) w ≡ (ok tt, w') =
        subst (λ b. (if b then throw db else query (write_files shard (f ∷ fs))) w ≡ (ok tt, w'))
          once e in
      (
        rows,
        sym (query-done (write_files shard (f ∷ fs)) w w' tt run).1,
        upsert_files-HasFiles shard (f ∷ fs) (w.tables).reconstruction_files,
      )
]

-- The insert of the terms writes `reconstruction_terms` alone, where each has then a row.
pub insert_term_rows-done :
    (ts : List ParsedTerm) (w w' : World)
    → insert_term_rows ts w ≡ (ok tt, w')
    → (rows : List TermRow) × (w'.tables ≡ record (w.tables) { reconstruction_terms = rows })
      × HasTerms ts rows
unfolding insert_term_rows
insert_term_rows-done [] w w' e = (_, sym (ap (λ r. (r.1).tables) e), tt)
insert_term_rows-done (t ∷ ts) w w' e = (
  insert_terms (t ∷ ts) (w.tables).reconstruction_terms,
  sym (query-done (write_terms (t ∷ ts)) w w' tt e).1,
  insert_terms-HasTerms (t ∷ ts) (w.tables).reconstruction_terms,
)
