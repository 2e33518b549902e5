-- ===== src/Sessions/Cookie.antt =====
-- session.rs: the cookie, as it is set and as a browser sends it back among others.
use open_weights.Base.{
  ◌^◌, ◌<◌, ◌≡◌, refl, Bool, true, not, ◌&&◌, none, some, List, [], ◌∷◌, ◌++◌, ◌==◌, arith, Str,
}
use open_weights.Download.Request.{is_space, split, trim_start}
use open_weights.SignedUrl.Text.Segments.{Without}
use open_weights.Store.{Uuid}
use open_weights.Auth.{codes}
use open_weights.Sessions.{UuidCrate, session_cookie_name, cookie_value}

-- No byte is white space or a semicolon.
abbrev pub is_plain : Str → Bool
is_plain [] = true
is_plain (c ∷ s) = (not (is_space c) && not (c == 59)) && is_plain s

pub is_plain-Without : (s : Str) → is_plain s ≡ true → Without 59 s
is_plain-Without [] h = tt
is_plain-Without (c ∷ s) h = ((λ e. ground (arith, h, e)), is_plain-Without s (ground (arith, h)))

-- What session.rs relies on in the crate of UUIDs: hex digits and hyphens, which parse back.
pub record UuidLaws (u : UuidCrate) : Type 0 where
  pub to_string-plain : (id : Uuid) → is_plain (u.to_string id) ≡ true
  pub parse-to_string : (id : Uuid) → id < 2 ^ 128 → u.parse_str (u.to_string id) ≡ some id

-- A `Cookie` header: the cookies before ours, ours, and what comes after it.
abbrev pub cookies_with : List Str → Str → Str → Str
cookies_with [] own after = own ++ after
cookies_with (p ∷ ps) own after = p ++ 59 ∷ 32 ∷ cookies_with ps own after

-- Nothing, or a semicolon and anything.
abbrev pub IsRest : Str → Type 0
IsRest [] = Unit
IsRest (c ∷ s) = c ≡ 59

-- The cookie of a `Set-Cookie` header, without its attributes.
abbrev pub set_cookie : Str → Str
set_cookie header = (split 59 header).0

module _ (u : UuidCrate) (laws : UuidLaws u) where
  -- A cookie of another name.
  abbrev pub IsOther : Str → Type 0
  IsOther p = Without 59 p × (cookie_value u p ≡ none)

  own : Uuid → Str
  own id = session_cookie_name ++ codes "=" ++ u.to_string id

  cookie_value-space : (p : Str) → cookie_value u (32 ∷ p) ≡ cookie_value u p
  unfolding cookie_value trim_start
  cookie_value-space p = refl

  -- The two parts of a split as one list.
  abbrev parts : Str → List Str
  parts s = (split 59 s).0 ∷ (split 59 s).1
