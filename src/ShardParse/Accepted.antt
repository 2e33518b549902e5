-- ===== src/ShardParse/Accepted.antt =====
-- What an accepted body says.
use open_weights.Base.{
  ℕ, ◌≡◌, Option, none, some, List, [], ◌∷◌, arith, Bool-cases, inl, inr, ltb, ◌==◌, length, Str,
}
use open_weights.Coalesce.{Hash}
use open_weights.ShardParse.{
  Bytes, Parse, ok, err, Readers, MdbFileInfo, MdbXorbInfo, ParsedShard, assemble, after_xorb_infos,
  after_file_infos, after_header, parse_and_validate, read_entries, bad_xorb_info, bad_file_info,
}
use open_weights.ShardParse.Terms.{Tiled, assemble-Tiled}
use open_weights.ShardParse.References.{IsIncreasing, contains, uses, assemble-references}

-- The shard is assembled from a header of version 2, file infos and xorb infos.
abbrev Assembled : (Hash → Str) → ParsedShard → Type 0
Assembled hex p =
    (fis : List MdbFileInfo) × (xis : List MdbXorbInfo) × (assemble hex 2 fis xis ≡ ok p)

after_xorb_infos-Assembled :
    (hex : Hash → Str) (fis : List MdbFileInfo) (o : Option (Parse (List MdbXorbInfo × Bytes)))
    (p : ParsedShard)
    → after_xorb_infos hex 2 fis o ≡ some (ok p)
    → Assembled hex p
unfolding after_xorb_infos
after_xorb_infos-Assembled hex fis none p e = absurd (cc)
after_xorb_infos-Assembled hex fis (some (err x)) p e = absurd (cc)
after_xorb_infos-Assembled hex fis (some (ok (xis, rest))) p e = (fis, xis, cc)

after_file_infos-Assembled :
    (hex : Hash → Str) (readers : Readers) (fuel : ℕ)
    (o : Option (Parse (List MdbFileInfo × Bytes))) (p : ParsedShard)
    → after_file_infos hex readers fuel 2 o ≡ some (ok p)
    → Assembled hex p
unfolding after_file_infos
after_file_infos-Assembled hex readers fuel none p e = absurd (cc)
after_file_infos-Assembled hex readers fuel (some (err x)) p e = absurd (cc)
after_file_infos-Assembled hex readers fuel (some (ok ([], cur))) p e = absurd (cc)
after_file_infos-Assembled hex readers fuel (some (ok (fi ∷ fis, cur))) p e =
    after_xorb_infos-Assembled hex (fi ∷ fis)
      (read_entries readers.read_xorb_info bad_xorb_info fuel cur []) p e

after_header-Assembled :
    (hex : Hash → Str) (readers : Readers) (fuel : ℕ) (o : Option (ℕ × Bytes)) (p : ParsedShard)
    → after_header hex readers fuel o ≡ some (ok p)
    → Assembled hex p
unfolding after_header
after_header-Assembled hex readers fuel none p e = absurd (cc)
after_header-Assembled hex readers fuel (some (version, cur)) p e =
    elim (Bool-cases (version == 2)) [
      | inl same ↦
          let two : version ≡ 2 = ground arith in
          after_file_infos-Assembled hex readers fuel
            (read_entries readers.read_file_info bad_file_info fuel cur []) p (rw (same, two) at e)
      | inr other ↦ absurd (cc (rw other at e))
    ]

parse_and_validate-Assembled :
    (hex : Hash → Str) (readers : Readers) (fuel : ℕ) (bytes : Bytes) (p : ParsedShard)
    → parse_and_validate hex readers fuel bytes ≡ some (ok p)
    → Assembled hex p
unfolding parse_and_validate
parse_and_validate-Assembled hex readers fuel bytes p e =
    elim (Bool-cases (ltb (length bytes) 48)) [
      | inl small ↦ absurd (cc (rw small at e))
      | inr large ↦
          after_header-Assembled hex readers fuel (readers.read_header bytes) p (rw large at e)
    ]

-- In a shard that the parser accepts the terms are those of its files, file by file; within a file
-- they are numbered from 0, and their byte ranges in the file follow each other without gap or
-- overlap from 0 to the size of the file.
pub parse_and_validate-Tiled :
    (hex : Hash → Str) (readers : Readers) (fuel : ℕ) (bytes : Bytes) (p : ParsedShard)
    → parse_and_validate hex readers fuel bytes ≡ some (ok p)
    → Tiled p.files p.terms
parse_and_validate-Tiled hex readers fuel bytes p e =
    let (fis, xis, made) = parse_and_validate-Assembled hex readers fuel bytes p e in
    assemble-Tiled hex 2 fis xis p made

-- The referenced xorbs of a shard that the parser accepts ascend without repetition, and a xorb is
-- among them exactly when some term is on it.
pub parse_and_validate-references :
    (hex : Hash → Str) (readers : Readers) (fuel : ℕ) (bytes : Bytes) (p : ParsedShard)
    → parse_and_validate hex readers fuel bytes ≡ some (ok p)
    → IsIncreasing p.referenced_xorb_hashes
      × ((h : Hash) → contains h p.referenced_xorb_hashes ≡ uses h p.terms)
parse_and_validate-references hex readers fuel bytes p e =
    let (fis, xis, made) = parse_and_validate-Assembled hex readers fuel bytes p e in
    assemble-references hex 2 fis xis p made
