-- ===== src/ShardParse/Loops.antt =====
-- The loops over the sections of a shard end.
use open_weights.Base.{
  ℕ, zero, suc, ◌≤◌, ◌<◌, ◌≡◌, refl, Option, none, some, List, [], ◌∷◌, ◌++◌, arith, length,
  Option-cases, inl, inr, sym, ◌∙◌, Bool-cases, ltb, ◌==◌, Str,
}
use open_weights.Coalesce.{Hash}
use open_weights.ShardParse.{
  Bytes, Parse, ok, err, Malformed, malformed, bad_header, bad_file_info, bad_xorb_info, too_small,
  header_version, empty_file_list, Readers, MdbFileInfo, MdbXorbInfo, ParsedShard, read_entries,
  assemble, after_xorb_infos, after_file_infos, after_header, parse_and_validate,
}

-- xet-core's readers move the cursor past at least one byte when they return an entry, and never
-- back.
pub record Consumes {A : Type 0} (read : Bytes → Option (Option A × Bytes)) : Type 0 where
  pub entry_consumes :
      (cur rest : Bytes) (a : A) → read cur ≡ some (some a, rest) → length rest < length cur
  pub bookend_keeps : (cur rest : Bytes) → read cur ≡ some (none, rest) → length rest ≤ length cur

none≢some : {A : Type 0} {a : A} → none ≡ some a → ⊥
none≢some e = cc

module _ {A : Type 0} (read : Bytes → Option (Option A × Bytes)) (c : Consumes read)
    (bad : Malformed) where
  read_entries-total :
      (fuel : ℕ) (cur : Bytes) (acc : List A)
      → length cur < fuel
      → (r : Parse (List A × Bytes)) × (read_entries read bad fuel cur acc ≡ some r)
  unfolding read_entries
  read_entries-total zero cur acc h = absurd (omega arith)
  read_entries-total (suc fuel) cur acc h = elim (Option-cases (read cur)) [
    | inl e ↦ (err (malformed bad), rw (e, read_entries))
    | inr ((none, rest), e) ↦ (ok (acc, rest), rw (e, read_entries))
    | inr ((some a, rest), e) ↦
        let next = c.entry_consumes cur rest a e in
        rw (e, read_entries) (read_entries-total fuel rest (acc ++ a ∷ []) (omega arith))
  ]

  read_entries-le :
      (fuel : ℕ) (cur : Bytes) (acc out : List A) (rest : Bytes)
      → read_entries read bad fuel cur acc ≡ some (ok (out, rest))
      → length rest ≤ length cur
  unfolding read_entries
  read_entries-le zero cur acc out rest h = cc
  read_entries-le (suc fuel) cur acc out rest h = elim (Option-cases (read cur)) [
    | inl e ↦ cc (rw (e, read_entries) at h)
    | inr ((none, r), e) ↦
        let same : r ≡ rest = cc (rw (e, read_entries) at h) in
        rw (← same) (c.bookend_keeps cur r e)
    | inr ((some a, r), e) ↦
        let next = c.entry_consumes cur r a e in
        let later = read_entries-le fuel r (acc ++ a ∷ []) out rest (rw (e, read_entries) at h) in
        omega arith
  ]

module _ (hex : Hash → Str) (readers : Readers) (fuel : ℕ) (cf : Consumes readers.read_file_info)
    (cx : Consumes readers.read_xorb_info) where
  after_file_infos-total :
      (version : ℕ) (cur : Bytes) (o : Option (Parse (List MdbFileInfo × Bytes)))
      → length cur < fuel
      → read_entries readers.read_file_info bad_file_info fuel cur [] ≡ o
      → (r : Parse ParsedShard) × (after_file_infos hex readers fuel version o ≡ some r)
  unfolding after_file_infos after_xorb_infos
  after_file_infos-total version cur none h e =
      let (r, found) = read_entries-total readers.read_file_info cf bad_file_info fuel cur [] h in
      absurd (none≢some (sym e ∙ found))
  after_file_infos-total version cur (some (err x)) h e = (err x, refl)
  after_file_infos-total version cur (some (ok ([], rest))) h e = (err empty_file_list, refl)
  after_file_infos-total version cur (some (ok (fi ∷ fis, rest))) h e =
      let le =
        read_entries-le readers.read_file_info cf bad_file_info fuel cur [] (fi ∷ fis) rest e in
      let (r, found) =
        read_entries-total readers.read_xorb_info cx bad_xorb_info fuel rest [] (omega arith) in
      rw found (xorbs r)
    where
      xorbs :
          (r : Parse (List MdbXorbInfo × Bytes))
          → (q : Parse ParsedShard) × (after_xorb_infos hex version (fi ∷ fis) (some r) ≡ some q)
      xorbs (err x) = (err x, refl)
      xorbs (ok (xis, rest')) = (assemble hex version (fi ∷ fis) xis, refl)

  after_header-total :
      (bytes : Bytes) (o : Option (ℕ × Bytes))
      → length bytes < fuel
      → ((v : ℕ) (rest : Bytes) → o ≡ some (v, rest) → length rest ≤ length bytes)
      → (r : Parse ParsedShard) × (after_header hex readers fuel o ≡ some r)
  unfolding after_header
  after_header-total bytes none h le = (err (malformed bad_header), refl)
  after_header-total bytes (some (version, cur)) h le =
      let shorter = le version cur refl in
      elim (Bool-cases (version == 2)) [
        | inl same ↦ rw same (after_file_infos-total version cur _ (omega arith) refl)
        | inr other ↦ rw other (err (header_version version), refl)
      ]

  -- If xet-core's readers consume what they read, and the header's never moves back, fuel above the
  -- length of the body suffices: the parser returns a shard or an error on every body.
  pub parse_and_validate-total :
      (bytes : Bytes)
      → ((v : ℕ) (rest : Bytes)
          → readers.read_header bytes ≡ some (v, rest)
          → length rest ≤ length bytes)
      → length bytes < fuel
      → (r : Parse ParsedShard) × (parse_and_validate hex readers fuel bytes ≡ some r)
  unfolding parse_and_validate
  parse_and_validate-total bytes ch h = elim (Bool-cases (ltb (length bytes) 48)) [
    | inl small ↦ rw small (err (malformed (too_small (length bytes))), refl)
    | inr large ↦ rw large (after_header-total bytes (readers.read_header bytes) h ch)
  ]
