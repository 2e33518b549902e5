-- ===== src/SignedUrl/Readers.antt =====
-- How a chain of fallible steps comes to succeed, and what the small readers of signed_url.rs accept.
use mathlib.Core.Option.{none-ne-some, some-injective}
use open_weights.Base.{
  sym, subst, ◌∙◌, Option-cases, ◌==◌, ℕ, ◌≤◌, ◌≡◌, inl, inr, refl, Bool, true, false, Option, none,
  some, List, [], ◌∷◌, ◌++◌, arith, Str, All, Bool-cases,
}
use open_weights.Download.Request.{strip_prefix}
use open_weights.SignedUrl.{◌>>=◌, ok_or, ensure, Outcome, ok, err, panicked, malformed, ranges_of}
use open_weights.SignedUrl.Text.{parse_segment, parse_segments, parse_range_segments}

-- A chain that succeeds does so through its first step.
pub bind_elim :
    {E A B : Type 0} {P : Type 0} (m : Outcome E A) (f : A → Outcome E B) {b : B}
    → (m >>= f) ≡ ok b
    → ((a : A) → m ≡ ok a → f a ≡ ok b → P)
    → P
bind_elim (ok a) f h k = k a refl h
bind_elim (err e) f h k = absurd (ground arith)
bind_elim panicked f h k = absurd (ground arith)

pub ok-injective : {E A : Type 0} (a b : A) → ◌≡◌ {A = Outcome E A} (ok a) (ok b) → a ≡ b
ok-injective a b h = ground arith

pub ok_or_cases : {E A : Type 0} (e : E) (o : Option A) {a : A} → ok_or e o ≡ ok a → o ≡ some a
ok_or_cases e none h = absurd (ground arith)
ok_or_cases e (some b) h = ground arith

pub ensure_cases :
    {E : Type 0} (test : Bool) (e : E) {u : Unit {0}} → ensure test e ≡ ok u → test ≡ true
ensure_cases true e h = refl
ensure_cases false e h = absurd (ground arith)

pub strip_prefix_cases : (p s : Str) {t : Str} → strip_prefix p s ≡ some t → s ≡ p ++ t
unfolding strip_prefix
strip_prefix_cases [] s h = ground arith
strip_prefix_cases (a ∷ p) [] {t} h = absurd (none-ne-some t h)
strip_prefix_cases (a ∷ p) (b ∷ s) {t} h = elim (Bool-cases (a == b)) [
  | inl same ↦
      let rest : strip_prefix p s ≡ some t = ground arith in
      rw (strip_prefix_cases p s rest) (ground arith)
  | inr other ↦ absurd (ground arith)
]

-- No granted range is reversed.
abbrev pub IsOrdered : List (ℕ × ℕ) → Type 0
IsOrdered = All λ x. x.0 ≤ x.1

parse_segment-ordered : (s : Str) (x : ℕ × ℕ) → parse_segment s ≡ some x → x.0 ≤ x.1
unfolding parse_segment
parse_segment-ordered s x h = ground arith

parse_segments-none :
    (p : Str) (ps : List Str) → parse_segment p ≡ none → parse_segments (p ∷ ps) ≡ none
unfolding parse_segments
parse_segments-none p ps e = rw (parse_segments, e)

parse_segments_tail_none :
    (p : Str) (ps : List Str) (x : ℕ × ℕ)
    → parse_segment p ≡ some x
    → parse_segments ps ≡ none
    → parse_segments (p ∷ ps) ≡ none
unfolding parse_segments
parse_segments_tail_none p ps x e e' = rw (parse_segments, e, e')

parse_segments_cons :
    (p : Str) (ps : List Str) (x : ℕ × ℕ) (xs : List (ℕ × ℕ))
    → parse_segment p ≡ some x
    → parse_segments ps ≡ some xs
    → parse_segments (p ∷ ps) ≡ some (x ∷ xs)
unfolding parse_segments
parse_segments_cons p ps x xs e e' = rw (parse_segments, e, e')

parse_segments_nil : parse_segments [] ≡ some []
unfolding parse_segments
parse_segments_nil = refl

parse_segments-IsOrdered :
    (parts : List Str) (xs : List (ℕ × ℕ)) → parse_segments parts ≡ some xs → IsOrdered xs
parse_segments-IsOrdered [] xs h =
    subst IsOrdered (some-injective [] xs (sym parse_segments_nil ∙ h)) tt
parse_segments-IsOrdered (p ∷ ps) xs h = elim (Option-cases (parse_segment p)) [
  | inl bad ↦ absurd (none-ne-some xs (sym (parse_segments-none p ps bad) ∙ h))
  | inr (x, e) ↦ elim (Option-cases (parse_segments ps)) [
    | inl bad ↦ absurd (none-ne-some xs (sym (parse_segments_tail_none p ps x e bad) ∙ h))
    | inr (ys, e') ↦
        subst IsOrdered (some-injective (x ∷ ys) xs (sym (parse_segments_cons p ps x ys e e') ∙ h))
          (parse_segment-ordered p x e, parse_segments-IsOrdered ps ys e')
  ]
]

pub ranges_of-IsOrdered : (r : Option Str) (xs : List (ℕ × ℕ)) → ranges_of r ≡ ok xs → IsOrdered xs
unfolding ranges_of parse_range_segments
ranges_of-IsOrdered none xs h = subst IsOrdered (ok-injective [] xs h) tt
ranges_of-IsOrdered (some []) xs h = absurd (ground arith)
ranges_of-IsOrdered (some (c ∷ s)) xs h =
    parse_segments-IsOrdered _ xs (ok_or_cases (malformed "range") _ h)
