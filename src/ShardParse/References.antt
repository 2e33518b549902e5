-- ===== src/ShardParse/References.antt =====
-- The list of referenced xorbs.
use open_weights.Base.{
  ℕ, ◌+◌, ◌<◌, ◌≡◌, refl, sym, ◌∙◌, Bool, false, ◌||◌, List, [], ◌∷◌, ◌++◌, arith, ◌==◌, Str,
}
use open_weights.Coalesce.{Hash}
use open_weights.ShardParse.{
  ok, XorbIndex, ParsedTerm, FileSegment, MdbFileInfo, MdbXorbInfo, Rows, ParsedShard, index_from,
  insert_key, insert_sorted, sort, term_of, segments_from, files_from, assemble,
}
use open_weights.ShardParse.Terms.{both-ok, term_of-TermOf}

abbrev pub contains : Hash → List Hash → Bool
contains h [] = false
contains h (k ∷ ks) = h == k || contains h ks

-- Some term is on xorb `h`.
abbrev pub uses : Hash → List ParsedTerm → Bool
uses h [] = false
uses h (t ∷ ts) = h == t.xorb_hash || uses h ts

-- Strictly ascending, so without repetition.
abbrev pub IsIncreasing : List Hash → Type 0
IsIncreasing [] = Unit
IsIncreasing (h ∷ []) = Unit
IsIncreasing (h ∷ k ∷ ks) = (h < k) × IsIncreasing (k ∷ ks)

-- `k` is in the list at most at its end of the insertion: no key is there twice.
abbrev Distinct : List Hash → Type 0
Distinct [] = Unit
Distinct (h ∷ hs) = (contains h hs ≡ false) × Distinct hs

contains-insert_key :
    (h k : Hash) (ks : List Hash) → contains h (insert_key k ks) ≡ (h == k || contains h ks)
unfolding insert_key
contains-insert_key h k [] = refl
contains-insert_key h k (j ∷ ks) = ground (arith, contains-insert_key h k ks)

insert_key-Distinct : (k : Hash) (ks : List Hash) → Distinct ks → Distinct (insert_key k ks)
unfolding insert_key
insert_key-Distinct k [] d = (refl, tt)
insert_key-Distinct k (j ∷ ks) d =
    ground (arith, insert_key-Distinct k ks d.1, contains-insert_key j k ks)

contains-insert_sorted :
    (h k : Hash) (ks : List Hash) → contains h (insert_sorted k ks) ≡ (h == k || contains h ks)
unfolding insert_sorted
contains-insert_sorted h k [] = refl
contains-insert_sorted h k (j ∷ ks) = ground (arith, contains-insert_sorted h k ks)

contains-sort : (h : Hash) (ks : List Hash) → contains h (sort ks) ≡ contains h ks
unfolding sort
contains-sort h [] = refl
contains-sort h (k ∷ ks) = ground (arith, contains-insert_sorted h k (sort ks), contains-sort h ks)

insert_sorted-IsIncreasing :
    (k : Hash) (ks : List Hash)
    → contains k ks ≡ false
    → IsIncreasing ks
    → IsIncreasing (insert_sorted k ks)
unfolding insert_sorted
insert_sorted-IsIncreasing k [] fresh inc = tt
insert_sorted-IsIncreasing k (j ∷ []) fresh inc = ground arith
insert_sorted-IsIncreasing k (j ∷ i ∷ ks) fresh inc =
    ground (arith, insert_sorted-IsIncreasing k (i ∷ ks))

sort-IsIncreasing : (ks : List Hash) → Distinct ks → IsIncreasing (sort ks)
unfolding sort
sort-IsIncreasing [] d = tt
sort-IsIncreasing (k ∷ ks) d =
    insert_sorted-IsIncreasing k (sort ks) (contains-sort k ks ∙ d.0) (sort-IsIncreasing ks d.1)

-- The set holds exactly the xorbs of the terms so far.
abbrev IsTracked : Rows → Type 0
IsTracked rows =
    Distinct rows.referenced × ((h : Hash) → contains h rows.referenced ≡ uses h rows.terms)

uses-append :
    (h : Hash) (ts : List ParsedTerm) (t : ParsedTerm)
    → uses h (ts ++ t ∷ []) ≡ (h == t.xorb_hash || uses h ts)
uses-append h [] t = refl
uses-append h (u ∷ ts) t = ground (arith, uses-append h ts t)

segments_from-IsTracked :
    (index : XorbIndex) (file_id : Hash) (segs : List FileSegment) (idx cur : ℕ) (rows rows' : Rows)
    → segments_from index file_id idx cur segs rows ≡ ok rows'
    → IsTracked rows
    → IsTracked rows'
unfolding segments_from
segments_from-IsTracked index file_id [] idx cur rows rows' e tr =
    let same : rows ≡ rows' = cc in rw (← same) tr
segments_from-IsTracked index file_id (seg ∷ segs) idx cur rows rows' e tr =
    let (t, made, rest) = both-ok _ (term_of index file_id idx cur seg) e in
    let facts = term_of-TermOf index file_id idx cur seg t made in
    segments_from-IsTracked index file_id segs (idx + 1) t.unpacked_end _ rows' rest (
      insert_key-Distinct seg.xorb_hash rows.referenced tr.0,
      λ h.
          contains-insert_key h seg.xorb_hash rows.referenced
          ∙ rw (tr.1 h, ← facts.2) (sym (uses-append h rows.terms t)),
    )

files_from-IsTracked :
    (hex : Hash → Str) (index : XorbIndex) (fis : List MdbFileInfo) (rows rows' : Rows)
    → files_from hex index fis rows ≡ ok rows'
    → IsTracked rows
    → IsTracked rows'
unfolding files_from
files_from-IsTracked hex index [] rows rows' e tr = let same : rows ≡ rows' = cc in rw (← same) tr
files_from-IsTracked hex index (fi ∷ fis) rows rows' e tr =
    let (mid, made, rest) = both-ok _ (segments_from index fi.file_hash 0 0 fi.segments _) e in
    files_from-IsTracked hex index fis mid rows' rest
      (segments_from-IsTracked index fi.file_hash fi.segments 0 0 _ mid made tr)

pub assemble-references :
    (hex : Hash → Str) (version : ℕ) (fis : List MdbFileInfo) (xis : List MdbXorbInfo)
    (p : ParsedShard)
    → assemble hex version fis xis ≡ ok p
    → IsIncreasing p.referenced_xorb_hashes
      × ((h : Hash) → contains h p.referenced_xorb_hashes ≡ uses h p.terms)
unfolding assemble
assemble-references hex version fis xis p e =
    let (rows, made, rest) = both-ok _ (files_from hex (index_from [] xis) fis _) e in
    let tr = files_from-IsTracked hex (index_from [] xis) fis _ rows made (tt, λ h. refl) in
    let refs : sort rows.referenced ≡ p.referenced_xorb_hashes = ground arith in
    let terms : rows.terms ≡ p.terms = ground arith in
    (
      rw (← refs) (sort-IsIncreasing rows.referenced tr.0),
      λ h. rw (← refs, ← terms) (contains-sort h rows.referenced ∙ tr.1 h),
    )
