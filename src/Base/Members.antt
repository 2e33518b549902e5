-- ===== src/Base/Members.antt =====
-- Predicates on the elements of a list.
use mathlib.Core.Path.{◌≡◌, refl, subst, sym}
use mathlib.Core.Logic.{◌⊎◌, inl, inr}
use mathlib.Core.List.{List, [], ◌∷◌, ◌++◌, map}

-- A predicate holds of each element.
abbrev pub All {ℓ κ} : {A : Type ℓ} → (A → Type κ) → List A → Type κ
All P [] = Unit
All P (x ∷ xs) = P x × All P xs

-- A predicate holds of some element.
abbrev pub Any {ℓ} : {A : Type ℓ} → (A → Type 0) → List A → Type 0
Any P [] = ⊥
Any P (x ∷ xs) = P x ⊎ Any P xs

abbrev pub In : {A : Type 0} → A → List A → Type 0
In x = Any λ y. x ≡ y

module _ {A : Type 0} where
  pub All-In : (P : A → Type 0) (xs : List A) (x : A) → All P xs → In x xs → P x
  All-In P [] x a i = absurd i
  All-In P (y ∷ ys) x a (inl e) = subst P (sym e) a.0
  All-In P (y ∷ ys) x a (inr i) = All-In P ys x a.1 i

  pub All-of_In : (P : A → Type 0) (xs : List A) → ((x : A) → In x xs → P x) → All P xs
  All-of_In P [] f = tt
  All-of_In P (x ∷ xs) f = (f x (inl refl), All-of_In P xs (λ y i. f y (inr i)))

  pub All-append : (P : A → Type 0) (xs ys : List A) → All P xs → All P ys → All P (xs ++ ys)
  All-append P [] ys a b = b
  All-append P (x ∷ xs) ys a b = (a.0, All-append P xs ys a.1 b)

  pub All-mono : (P Q : A → Type 0) (xs : List A) → ((x : A) → P x → Q x) → All P xs → All Q xs
  All-mono P Q [] f a = tt
  All-mono P Q (x ∷ xs) f a = (f x a.0, All-mono P Q xs f a.1)

  pub Any-mono : (P Q : A → Type 0) (xs : List A) → ((x : A) → P x → Q x) → Any P xs → Any Q xs
  Any-mono P Q [] f a = a
  Any-mono P Q (x ∷ xs) f (inl p) = inl (f x p)
  Any-mono P Q (x ∷ xs) f (inr a) = inr (Any-mono P Q xs f a)

module _ {A B : Type 0} where
  -- Along a map, with a fact that holds of each element of the source.
  pub Any-map :
      (R P : A → Type 0) (Q : B → Type 0) (f : A → B) (xs : List A)
      → ((x : A) → R x → P x → Q (f x))
      → All R xs
      → Any P xs
      → Any Q (map f xs)
  Any-map R P Q f [] g r a = a
  Any-map R P Q f (x ∷ xs) g r (inl p) = inl (g x r.0 p)
  Any-map R P Q f (x ∷ xs) g r (inr a) = inr (Any-map R P Q f xs g r.1 a)

  pub All-map :
      (P : A → Type 0) (Q : B → Type 0) (f : A → B) (xs : List A)
      → ((x : A) → P x → Q (f x))
      → All P xs
      → All Q (map f xs)
  All-map P Q f [] g a = tt
  All-map P Q f (x ∷ xs) g a = (g x a.0, All-map P Q f xs g a.1)
