-- ===== src/XorbUpload/Tiles.antt =====
-- What `walk_chunk_boundaries` recovers: the ends of the chunks, where they tile the body.
use mathlib.Core.Option.{none-ne-some}
use mathlib.Core.List.{append-nil, append_assoc}
use open_weights.Base.{
  ℕ, zero, suc, ◌+◌, ◌≤◌, ◌<◌, ◌≡◌, ◌≢◌, ◌↔◌, ◌⊎◌, inl, inr, refl, sym, subst, ap, ◌∙◌, false,
  Bool-cases, Option, none, some, Option-cases, List, [], ◌∷◌, ◌++◌, ltb, length, take, drop, arith,
}
use open_weights.ShardParse.{Bytes}
use open_weights.XorbUpload.Walk.{walk_from, walk_chunk_boundaries, xorb_chunk_header_length}

module _ (parse_chunk_header : Bytes → Option ℕ) (bytes : Bytes) where
  -- From `offset` on, the body is a sequence of chunks, a header and the data that it announces each,
  -- that end at the offsets `bs`.
  abbrev pub Tiles : ℕ → List ℕ → Type 0
  Tiles offset [] = offset ≡ length bytes
  Tiles offset (b ∷ bs) =
      ((len : ℕ) × ((parse_chunk_header (take xorb_chunk_header_length (drop offset bytes))
            ≡ some len)
          × (b ≡ offset + (xorb_chunk_header_length + len))))
      × Tiles b bs

  Tiles-below : (offset : ℕ) (bs : List ℕ) → Tiles offset bs → offset ≤ length bytes
  Tiles-below offset [] t = omega arith
  Tiles-below offset (b ∷ bs) ((len, (p, e)), t) = ground (arith, e, Tiles-below b bs t)

  walk_from-next :
      (fuel offset len : ℕ) (acc : List ℕ)
      → parse_chunk_header (take xorb_chunk_header_length (drop offset bytes)) ≡ some len
      → offset + (xorb_chunk_header_length + len) ≤ length bytes
      → walk_from parse_chunk_header (suc fuel) bytes offset acc
        ≡ walk_from parse_chunk_header fuel bytes
            (offset + (xorb_chunk_header_length + len))
            (acc ++ (offset + (xorb_chunk_header_length + len)) ∷ [])
  unfolding walk_from
  walk_from-next fuel offset len acc p le = ground (arith, p, le)

  walk_from-end :
      (fuel offset : ℕ) (acc : List ℕ)
      → length bytes ≤ offset
      → walk_from parse_chunk_header (suc fuel) bytes offset acc ≡ some acc
  unfolding walk_from
  walk_from-end fuel offset acc le = ground (arith, le)

  -- Enough fuel finds a tiling.
  walk_from_complete :
      (fuel offset : ℕ) (acc bs : List ℕ)
      → Tiles offset bs
      → length bytes < fuel + offset
      → walk_from parse_chunk_header fuel bytes offset acc ≡ some (acc ++ bs)
  walk_from_complete zero offset acc bs t lt = absurd (no_fuel (Tiles-below offset bs t) lt)
    where
      no_fuel : offset ≤ length bytes → length bytes < 0 + offset → ⊥
      no_fuel a b = omega arith
  walk_from_complete (suc fuel) offset acc [] t lt =
      walk_from-end fuel offset acc (omega arith) ∙ ap some (sym (append-nil acc))
  walk_from_complete (suc fuel) offset acc (b ∷ bs) ((len, (p, e)), t) lt =
      walk_from-next fuel offset len acc p (subst (λ x. x ≤ length bytes) e (Tiles-below b bs t))
      ∙ walk_from_complete fuel (offset + (xorb_chunk_header_length + len)) _ bs
          (subst (λ x. Tiles x bs) e t) (omega arith)
      ∙ ap some (append_assoc acc _ bs ∙ ap (λ x. acc ++ x ∷ bs) (sym e))

  -- Where a walk stops short, it returns the empty list.
  walk_from-cases :
      (fuel offset : ℕ) (acc r : List ℕ)
      → walk_from parse_chunk_header (suc fuel) bytes offset acc ≡ some r
      → (r ≡ [])
        ⊎ ((length bytes ≤ offset) × (r ≡ acc))
        ⊎ ((len : ℕ) × ((parse_chunk_header (take xorb_chunk_header_length (drop offset bytes))
                ≡ some len)
              × (offset + (xorb_chunk_header_length + len) ≤ length bytes)))
  unfolding walk_from
  walk_from-cases fuel offset acc r e =
      elim (Option-cases (parse_chunk_header (take xorb_chunk_header_length (drop offset bytes)))) [
        | inl p ↦ ground (arith, p, e)
        | inr (len, p) ↦
            elim (Bool-cases (ltb (length bytes) (offset + (xorb_chunk_header_length + len)))) [
              | inl c ↦ ground (arith, p, e, c)
              | inr c ↦ inr (inr (len, (p, within c)))
            ]
      ]
    where
      within : {n m : ℕ} → ltb n m ≡ false → m ≤ n
      within c = ground arith

  walk_from_sound :
      (fuel offset : ℕ) (acc r : List ℕ)
      → walk_from parse_chunk_header fuel bytes offset acc ≡ some r
      → offset ≤ length bytes
      → (r ≡ []) ⊎ ((bs : List ℕ) × ((r ≡ acc ++ bs) × Tiles offset bs))
  unfolding walk_from
  walk_from_sound zero offset acc r e le = absurd (none-ne-some r e)
  walk_from_sound (suc fuel) offset acc r e le = elim (walk_from-cases fuel offset acc r e) [
    | inl z ↦ inl z
    | inr (inl (le', q)) ↦ inr ([], (q ∙ sym (append-nil acc), omega arith))
    | inr (inr (len, (p, le'))) ↦
        let next = offset + (xorb_chunk_header_length + len) in
        elim (walk_from_sound fuel next (acc ++ next ∷ []) r
          (sym (walk_from-next fuel offset len acc p le') ∙ e) le') [
            | inl z ↦ inl z
            | inr (bs, (q, t)) ↦
                inr (next ∷ bs, (q ∙ append_assoc acc (next ∷ []) bs, ((len, (p, refl)), t)))
          ]
  ]

  walk_sound :
      (o : Option (List ℕ)) (bs : List ℕ)
      → walk_from parse_chunk_header (suc (length bytes)) bytes 0 [] ≡ o
      → bs ≢ []
      → (elim o [ none ↦ [] | some r ↦ r ]) ≡ bs
      → Tiles 0 bs
  walk_sound none bs e ne q = absurd (ne (sym q))
  walk_sound (some r) bs e ne q = elim (walk_from_sound _ 0 [] r e (omega arith)) [
    | inl z ↦ absurd (ne (sym q ∙ z))
    | inr (cs, (z, t)) ↦ subst (Tiles 0) (sym z ∙ q) t
  ]

  -- For a list that is not empty: the walk returns it exactly where it lists the ends of chunks that
  -- tile the body.
  pub walk_chunk_boundaries-Tiles :
      (bs : List ℕ) → bs ≢ [] → (walk_chunk_boundaries parse_chunk_header bytes ≡ bs) ↔ Tiles 0 bs
  unfolding walk_chunk_boundaries
  walk_chunk_boundaries-Tiles bs ne = (
    walk_sound _ bs refl ne,
    λ t.
        ap (λ o. elim o as (λ _. List ℕ) [ none ↦ [] | some r ↦ r ])
          (walk_from_complete (suc (length bytes)) 0 [] bs t (omega arith)),
  )
