-- ===== src/Base/Maps.antt =====
-- `BTreeMap`: the entries in ascending order of keys.
use Prim.Native.Nat.{ℕ}
use mathlib.Core.Path.{◌≡◌, refl}
use mathlib.Core.Logic.{◌↔◌}
use mathlib.Core.Bool.{Bool, true, false, ◌&&◌, ◌||◌}
use mathlib.Core.Option.{Option, none, some}
use mathlib.Core.List.{List, [], ◌∷◌}
use native.Mathlib.Omega.{arith}
use open_weights.Base.Tests.{ltb, ◌==◌, if◌then◌else◌, ==_iff}

-- The order of the keys. Only the test for equality matters for what a map holds.
pub record Ord (K : Type 0) : Type 0 where
  pub eqb : K → K → Bool
  pub below : K → K → Bool
  pub eqb_iff : (a b : K) → (eqb a b ≡ true) ↔ (a ≡ b)

instance abbrev pub nat_ord : Ord ℕ
nat_ord = record { eqb = ◌==◌; below = ltb; eqb_iff = ==_iff }

-- A string, or a slice of bytes, by the codes of its bytes.
abbrev pub Str : Type 0
Str = List ℕ

abbrev pub str_eq : Str → Str → Bool
str_eq [] [] = true
str_eq [] (d ∷ ds) = false
str_eq (c ∷ cs) [] = false
str_eq (c ∷ cs) (d ∷ ds) = c == d && str_eq cs ds

abbrev pub str_below : Str → Str → Bool
str_below cs [] = false
str_below [] (d ∷ ds) = true
str_below (c ∷ cs) (d ∷ ds) = ltb c d || (c == d && str_below cs ds)

str_eq→eq : (a b : Str) → str_eq a b ≡ true → a ≡ b
str_eq→eq [] [] h = refl
str_eq→eq [] (d ∷ ds) h = ground arith
str_eq→eq (c ∷ cs) [] h = ground arith
str_eq→eq (c ∷ cs) (d ∷ ds) h = ground (arith, str_eq→eq cs ds)

str_eq_refl : (a : Str) → str_eq a a ≡ true
str_eq_refl [] = refl
str_eq_refl (c ∷ cs) = ground (arith, str_eq_refl cs)

pub str_eq_iff : (a b : Str) → (str_eq a b ≡ true) ↔ (a ≡ b)
str_eq_iff a b = (str_eq→eq a b, λ e. rw e (str_eq_refl b))

instance abbrev pub str_ord : Ord Str
str_ord = record { eqb = str_eq; below = str_below; eqb_iff = str_eq_iff }

abbrev pub BTreeMap : Type 0 → Type 0 → Type 0
BTreeMap K V = List (K × V)

module _ {K V : Type 0} ⦃o : Ord K⦄ where
  unfoldable pub get : K → BTreeMap K V → Option V
  get k [] = none
  get k ((j, v) ∷ m) = if o.eqb k j then some v else get k m

  -- The old value of the key is replaced.
  unfoldable pub insert : K → V → BTreeMap K V → BTreeMap K V
  insert k v [] = (k, v) ∷ []
  insert k v ((j, w) ∷ m) =
      if o.eqb k j
      then (k, v) ∷ m
      else if o.below k j
      then (k, v) ∷ (j, w) ∷ m
      else (j, w) ∷ insert k v m

  pub get-insert :
      (j k : K) (v : V) (m : BTreeMap K V)
      → get j (insert k v m) ≡ (if o.eqb j k then some v else get j m)
  unfolding get insert
  get-insert j k v [] = refl
  get-insert j k v ((i, w) ∷ m) =
      ground (arith, o.eqb_iff j k, o.eqb_iff k i, o.eqb_iff j i, get-insert j k v m)
