-- ===== src/ShardParse/Terms.antt =====
-- The rows of a shard that is accepted.
use open_weights.Base.{
  ℕ, ◌+◌, ◌-◌, ◌≤◌, ◌<◌, ◌≡◌, refl, subst, ◌∙◌, none, some, List, [], ◌∷◌, ◌++◌, arith, length,
  get_or, Option-cases, inl, inr, ◌⊎◌, All, All-append, Str,
}
use mathlib.Core.List.{append-nil, append_assoc}
use open_weights.Coalesce.{Hash}
use open_weights.ShardParse.{
  Parse, ok, err, ◌>>=◌, XorbIndex, Chunk, lookup, ParsedTerm, ParsedFile, FileSegment, MdbFileInfo,
  MdbXorbInfo, Rows, ParsedShard, index_from, total_bytes, byte_range_of, term_of, segments_from,
  files_from, assemble,
}

-- A parse in two steps that succeeds: what the first step returned, and the second on it.
pub both-ok :
    {X Y : Type 0} {y : Y} (next : X → Parse Y) (step : Parse X)
    → (step >>= next) ≡ ok y
    → (x : X) × (step ≡ ok x) × (next x ≡ ok y)
both-ok next (err fault) e = cc
both-ok next (ok x) e = (x, refl, e)

-- The bytes of a term: those of its chunks, first to last, where the shard describes the xorb, and
-- the mark (0, 0) where it does not.
abbrev pub HasBytes : XorbIndex → ParsedTerm → Type 0
HasBytes index t =
    ((lookup t.xorb_hash index ≡ none) × (t.xorb_byte_start ≡ 0) × (t.xorb_byte_end ≡ 0))
    ⊎ ((cs : List Chunk) × (lookup t.xorb_hash index ≡ some cs)
        × (t.xorb_end ≤ length cs)
        × (t.xorb_byte_start ≡ (get_or cs t.xorb_start (0, 0)).0)
        × (t.xorb_byte_end
            ≡ (get_or cs (t.xorb_end - 1) (0, 0)).0 + (get_or cs (t.xorb_end - 1) (0, 0)).1)
        × (t.xorb_byte_start < t.xorb_byte_end))

abbrev pub IsConsistent : XorbIndex → ParsedTerm → Type 0
IsConsistent index t = (t.xorb_start < t.xorb_end) × HasBytes index t

-- The terms of one file from index `idx` on: numbered in order, each starting in the file where the
-- one before ends, from byte `cur` to byte `total`.
abbrev pub Tiles : Hash → ℕ → ℕ → ℕ → List ParsedTerm → Type 0
Tiles file_id idx cur total [] = cur ≡ total
Tiles file_id idx cur total (t ∷ ts) =
    (t.file_id ≡ file_id)
    × (t.term_index ≡ idx)
    × (t.unpacked_start ≡ cur)
    × (cur ≤ t.unpacked_end)
    × Tiles file_id (idx + 1) t.unpacked_end total ts

-- The terms are those of the files, file by file.
abbrev pub Tiled : List ParsedFile → List ParsedTerm → Type 0
Tiled [] ts = ts ≡ []
Tiled (f ∷ fs) ts =
    (xs : List ParsedTerm) × (ys : List ParsedTerm) × (ts ≡ xs ++ ys)
    × Tiles f.file_id 0 0 f.total_size xs
    × Tiled fs ys

-- What `term_of` gives.
abbrev pub TermOf : XorbIndex → Hash → ℕ → ℕ → FileSegment → ParsedTerm → Type 0
TermOf index file_id idx cur seg t =
    (t.file_id ≡ file_id)
    × (t.term_index ≡ idx)
    × (t.xorb_hash ≡ seg.xorb_hash)
    × (t.unpacked_start ≡ cur)
    × (t.unpacked_end ≡ cur + seg.unpacked_segment_bytes)
    × IsConsistent index t

pub term_of-TermOf :
    (index : XorbIndex) (file_id : Hash) (idx cur : ℕ) (seg : FileSegment) (t : ParsedTerm)
    → term_of index file_id idx cur seg ≡ ok t
    → TermOf index file_id idx cur seg t
unfolding term_of byte_range_of
term_of-TermOf index file_id idx cur seg t e = elim (Option-cases (lookup seg.xorb_hash index)) [
  | inl outside ↦ ground arith
  | inr (cs, inside) ↦ (
    ground arith,
    ground arith,
    ground arith,
    ground arith,
    ground arith,
    (ground arith, inr (cs, ground arith, ground arith, ground arith, ground arith, ground arith)),
  )
]

-- The rows that one file adds.
abbrev SegmentsAdd : XorbIndex → Hash → ℕ → ℕ → ℕ → Rows → Rows → Type 0
SegmentsAdd index file_id idx cur total rows rows' =
    (xs : List ParsedTerm) × (rows'.terms ≡ rows.terms ++ xs)
    × (rows'.files ≡ rows.files)
    × Tiles file_id idx cur total xs
    × All (IsConsistent index) xs

segments_from-SegmentsAdd :
    (index : XorbIndex) (file_id : Hash) (segs : List FileSegment) (idx cur : ℕ) (rows rows' : Rows)
    → segments_from index file_id idx cur segs rows ≡ ok rows'
    → SegmentsAdd index file_id idx cur (cur + total_bytes segs) rows rows'
unfolding segments_from total_bytes
segments_from-SegmentsAdd index file_id [] idx cur rows rows' e =
    let same : rows ≡ rows' = cc in ([], rw (append-nil rows.terms, same), rw same, omega arith, tt)
segments_from-SegmentsAdd index file_id (seg ∷ segs) idx cur rows rows' e =
    let (t, made, rest) = both-ok _ (term_of index file_id idx cur seg) e in
    let facts = term_of-TermOf index file_id idx cur seg t made in
    let (xs, terms, files, tiles, good) =
      segments_from-SegmentsAdd index file_id segs (idx + 1) t.unpacked_end _ rows' rest in
    (
      t ∷ xs,
      terms ∙ append_assoc rows.terms (t ∷ []) xs,
      files,
      (
        facts.0,
        facts.1,
        facts.3,
        omega (arith, facts.4),
        subst (λ n. Tiles file_id (idx + 1) t.unpacked_end n xs) (omega (arith, facts.4)) tiles,
      ),
      (facts.5, good),
    )

Tiled-nil : (fs : List ParsedFile) (ts : List ParsedTerm) → Tiled fs ts → Tiled fs (ts ++ [])
Tiled-nil fs ts h = rw (append-nil ts) h

-- A file and its terms go to the end.
Tiled-append :
    (fs : List ParsedFile) (ts xs : List ParsedTerm) (f : ParsedFile)
    → Tiled fs ts
    → Tiles f.file_id 0 0 f.total_size xs
    → Tiled (fs ++ f ∷ []) (ts ++ xs)
Tiled-append [] ts xs f h tiles = (xs, [], rw (h, append-nil xs), tiles, refl)
Tiled-append (g ∷ fs) ts xs f (us, ys, e, own, rest) tiles =
    (us, ys ++ xs, rw (e, append_assoc us ys xs), own, Tiled-append fs ys xs f rest tiles)

files_from-Tiled :
    (hex : Hash → Str) (index : XorbIndex) (fis : List MdbFileInfo) (rows rows' : Rows)
    → files_from hex index fis rows ≡ ok rows'
    → Tiled rows.files rows.terms
    → All (IsConsistent index) rows.terms
    → Tiled rows'.files rows'.terms × All (IsConsistent index) rows'.terms
unfolding files_from
files_from-Tiled hex index [] rows rows' e tiled good =
    let same : rows ≡ rows' = cc in (rw (← same) tiled, rw (← same) good)
files_from-Tiled hex index (fi ∷ fis) rows rows' e tiled good =
    let (mid, made, rest) = both-ok _ (segments_from index fi.file_hash 0 0 fi.segments _) e in
    let (xs, terms, files, tiles, good') =
      segments_from-SegmentsAdd index fi.file_hash fi.segments 0 0 _ mid made in
    files_from-Tiled hex index fis mid rows' rest
      (rw (files, terms)
        (Tiled-append rows.files rows.terms xs _ tiled
          (subst (λ n. Tiles fi.file_hash 0 0 n xs) (omega arith) tiles)))
      (rw terms (All-append (IsConsistent index) rows.terms xs good good'))

-- In a shard that is accepted the terms are those of its files, file by file; within a file they are
-- numbered from 0, and their byte ranges in the file follow each other without gap or overlap from
-- 0 to the size of the file.
pub assemble-Tiled :
    (hex : Hash → Str) (version : ℕ) (fis : List MdbFileInfo) (xis : List MdbXorbInfo)
    (p : ParsedShard)
    → assemble hex version fis xis ≡ ok p
    → Tiled p.files p.terms
unfolding assemble
assemble-Tiled hex version fis xis p e =
    let (rows, made, rest) = both-ok _ (files_from hex (index_from [] xis) fis _) e in
    let both = files_from-Tiled hex (index_from [] xis) fis _ rows made refl tt in
    let files : rows.files ≡ p.files = ground arith in
    let terms : rows.terms ≡ p.terms = ground arith in rw (← files, ← terms) both.0

-- In a shard that is accepted each term names at least one chunk; if the shard describes its xorb,
-- the term's chunks are among those of the xorb and its byte range, which is not empty, reaches from
-- the start of the first to the end of the last; if not, the byte range is the mark (0, 0).
pub assemble-IsConsistent :
    (hex : Hash → Str) (version : ℕ) (fis : List MdbFileInfo) (xis : List MdbXorbInfo)
    (p : ParsedShard)
    → assemble hex version fis xis ≡ ok p
    → All (IsConsistent (index_from [] xis)) p.terms
unfolding assemble
assemble-IsConsistent hex version fis xis p e =
    let (rows, made, rest) = both-ok _ (files_from hex (index_from [] xis) fis _) e in
    let both = files_from-Tiled hex (index_from [] xis) fis _ rows made refl tt in
    let terms : rows.terms ≡ p.terms = ground arith in rw (← terms) both.1
