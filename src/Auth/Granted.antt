-- ===== src/Auth/Granted.antt =====
-- What the context of an authenticated request carries.
use open_weights.Base.{
  ℕ, ◌≡◌, ◌⊎◌, refl, ap, subst, Bool, true, false, Option, none, some, List, ◌==◌, if◌then◌else◌,
  arith, Bool-cases, inl, inr, Str, ==_iff,
}
use open_weights.Base.Maps.{str_eq}
use open_weights.Store.{Uuid, ApiKeyScope, forbidden, AuthContext, ok}
use open_weights.Auth.{
  XetJwtClaims, AuthCrates, AuthState, A, pure, throw, ◌>>=◌, ◌>>◌, ignore, of_option,
  require_scope, scope_any, from_u8, contains_scope,
}
use open_weights.Auth.Cache.{touch_last_used, find_key}
use open_weights.Auth.XetJwt.{
  XetJwtError, scopes_of, decode_and_validate, verify_openweights_signature, openweights_issuer,
}
use open_weights.Auth.Scoped.{
  looks_like_jwt, signed_identity, admit_decoded, extract, openweights_identity, hf_identity,
  identity, admit_claims, context_of, context_of_key, authenticate_xet_jwt, admit_key,
  authenticate_opaque, authenticate_bearer, bearer_of, from_request_parts,
}
use open_weights.Auth.Runs.{run_elim, ok-injective}

-- The scope that the route asks for is among those of the key or the token.
abbrev pub IsGranted : ℕ → List ApiKeyScope → Type 0
IsGranted s scopes =
    (s ≡ scope_any)
    ⊎ ((required : ApiKeyScope) × (from_u8 s ≡ some required)
        × (contains_scope required scopes ≡ true))

required_elim :
    {S : Type 0} (o : Option ApiKeyScope) (scopes : List ApiKeyScope) (w : S) {w' : S}
    → (of_option forbidden o >>= λ required.
          if contains_scope required scopes then pure tt else throw forbidden)
        w
      ≡ (ok tt, w')
    → (required : ApiKeyScope) × (o ≡ some required) × (contains_scope required scopes ≡ true)
required_elim none scopes w h = absurd (ground arith)
required_elim (some required) scopes w h = elim (Bool-cases (contains_scope required scopes)) [
  | inl e ↦ (required, refl, e)
  | inr e ↦ absurd (ground arith)
]

scope_cases :
    {S : Type 0} (s : ℕ) (b : Bool) (scopes : List ApiKeyScope) (w : S) {w' : S}
    → (s == scope_any) ≡ b
    → (if b
          then pure tt
          else (of_option forbidden (from_u8 s) >>= λ required.
              if contains_scope required scopes then pure tt else throw forbidden))
        w
      ≡ (ok tt, w')
    → IsGranted s scopes
scope_cases s true scopes w e h = inl ((==_iff s scope_any).0 e)
scope_cases s false scopes w e h = inr (required_elim (from_u8 s) scopes w h)

require_scope-IsGranted :
    {S : Type 0} (s : ℕ) (scopes : List ApiKeyScope) (w : S) {w' : S}
    → require_scope s scopes w ≡ (ok tt, w')
    → IsGranted s scopes
unfolding require_scope
require_scope-IsGranted s scopes w h = scope_cases s (s == scope_any) scopes w refl h

-- Behind a token that was accepted.
pub record IsVouched {Lru : Type 0} (c : AuthCrates Lru) (signing_key token : Str) (now : ℕ)
    (ctx : AuthContext) : Type 0 where
  pub claims : XetJwtClaims
  pub decoded : decode_and_validate c token now ≡ inr claims
  pub scopes : ctx.scopes ≡ scopes_of claims.access
  pub signed :
      str_eq claims.iss openweights_issuer ≡ true
      → verify_openweights_signature c token signing_key ≡ none

module _ {Lru : Type 0} (c : AuthCrates Lru) where
  signed_identity-none :
      (claims : XetJwtClaims) (fault : Option XetJwtError) (w w' : AuthState Lru) (who : ℕ × Uuid)
      → signed_identity c claims fault w ≡ (ok who, w')
      → fault ≡ none
  unfolding signed_identity
  signed_identity-none claims none w w' who h = refl
  signed_identity-none claims (some e) w w' who h = absurd (ground arith)

  identity_cases :
      (b : Bool) (signing_key token : Str) (claims : XetJwtClaims) (w w' : AuthState Lru)
      (who : ℕ × Uuid)
      → (if b then openweights_identity c signing_key token claims else hf_identity c claims) w
        ≡ (ok who, w')
      → b ≡ true
      → verify_openweights_signature c token signing_key ≡ none
  unfolding openweights_identity
  identity_cases true signing_key token claims w w' who h e =
      signed_identity-none claims (verify_openweights_signature c token signing_key) w w' who h
  identity_cases false signing_key token claims w w' who h e = absurd (ground arith)

  identity_signed :
      (signing_key token : Str) (claims : XetJwtClaims) (w w' : AuthState Lru) (who : ℕ × Uuid)
      → identity c signing_key token claims w ≡ (ok who, w')
      → str_eq claims.iss openweights_issuer ≡ true
      → verify_openweights_signature c token signing_key ≡ none
  unfolding identity
  identity_signed signing_key token claims w w' who h ours =
      identity_cases (str_eq claims.iss openweights_issuer) signing_key token claims w w' who h ours

  admit_decoded-IsVouched :
      (s : ℕ) (signing_key token : Str) (now : ℕ) (decoded : XetJwtError ⊎ XetJwtClaims)
      (w w' : AuthState Lru) (ctx : AuthContext)
      → decode_and_validate c token now ≡ decoded
      → admit_decoded c s signing_key token decoded w ≡ (ok ctx, w')
      → IsVouched c signing_key token now ctx × IsGranted s ctx.scopes
  unfolding admit_decoded admit_claims
  admit_decoded-IsVouched s signing_key token now (inl e) w w' ctx d h = absurd (ground arith)
  admit_decoded-IsVouched s signing_key token now (inr claims) w w' ctx d h =
      let granted = scopes_of claims.access in
      let finish : ℕ × Uuid → A Lru AuthContext = λ who. pure (context_of granted who) in
      run_elim (require_scope s granted) (λ _. identity c signing_key token claims >>= finish) w h
        λ u w₁ e₁ h₁. run_elim (identity c signing_key token claims) finish w₁ h₁ λ who w₂ e₂ h₂.
          subst (λ x. IsVouched c signing_key token now x × IsGranted s x.scopes)
            (ok-injective (context_of granted who) ctx (ap (λ p. p.0) h₂))
            (
              record {
                claims = claims;
                decoded = d;
                scopes = refl;
                signed = identity_signed signing_key token claims w₁ w₂ who e₂;
              },
              require_scope-IsGranted s granted w e₁,
            )

  pub authenticate_xet_jwt-IsVouched :
      (s : ℕ) (signing_key token : Str) (w w' : AuthState Lru) (ctx : AuthContext)
      → authenticate_xet_jwt c s signing_key token w ≡ (ok ctx, w')
      → IsVouched c signing_key token w.now_unix ctx × IsGranted s ctx.scopes
  unfolding authenticate_xet_jwt
  authenticate_xet_jwt-IsVouched s signing_key token w w' ctx h =
      admit_decoded-IsVouched s signing_key token w.now_unix _ w w' ctx refl h

  authenticate_opaque-IsGranted :
      (s : ℕ) (plaintext : Str) (w w' : AuthState Lru) (ctx : AuthContext)
      → authenticate_opaque c s plaintext w ≡ (ok ctx, w')
      → IsGranted s ctx.scopes
  unfolding authenticate_opaque admit_key
  authenticate_opaque-IsGranted s plaintext w w' ctx h =
      run_elim (find_key c (c.sha256 plaintext)) (admit_key c s) w h λ key w₁ e₁ h₁.
        let touch : A Lru (Unit {0}) = ignore (touch_last_used c key.id) in
        run_elim (require_scope s key.scopes) (λ _. touch >> pure (context_of_key key)) w₁ h₁
          λ u w₂ e₂ h₂.
            run_elim touch (λ _. pure (context_of_key key)) w₂ h₂
              λ u' w₃ e₃ h₃.
                subst (λ x. IsGranted s x.scopes)
                  (ok-injective (context_of_key key) ctx (ap (λ p. p.0) h₃))
                  (require_scope-IsGranted s key.scopes w₁ e₂)

  bearer_cases :
      (s : ℕ) (signing_key plaintext : Str) (b : Bool) (w w' : AuthState Lru) (ctx : AuthContext)
      → (if b
            then authenticate_xet_jwt c s signing_key plaintext
            else authenticate_opaque c s plaintext)
          w
        ≡ (ok ctx, w')
      → IsGranted s ctx.scopes
  bearer_cases s signing_key plaintext true w w' ctx h =
      (authenticate_xet_jwt-IsVouched s signing_key plaintext w w' ctx h).1
  bearer_cases s signing_key plaintext false w w' ctx h =
      authenticate_opaque-IsGranted s plaintext w w' ctx h

  extract-IsGranted :
      (s : ℕ) (signing_key : Str) (bearer xet : Option Str) (w w' : AuthState Lru)
      (ctx : AuthContext)
      → extract c s signing_key bearer xet w ≡ (ok ctx, w')
      → IsGranted s ctx.scopes
  unfolding extract authenticate_bearer
  extract-IsGranted s signing_key (some plaintext) xet w w' ctx h =
      bearer_cases s signing_key plaintext (looks_like_jwt plaintext) w w' ctx h
  extract-IsGranted s signing_key none (some token) w w' ctx h =
      (authenticate_xet_jwt-IsVouched s signing_key token w w' ctx h).1
  extract-IsGranted s signing_key none none w w' ctx h = absurd (ground arith)

  -- A request that is let through has the scope that the route asks for, unless the route asks for none.
  pub from_request_parts-IsGranted :
      (s : ℕ) (signing_key : Str) (auth xet : Option Str) (w w' : AuthState Lru) (ctx : AuthContext)
      → from_request_parts c s signing_key auth xet w ≡ (ok ctx, w')
      → IsGranted s ctx.scopes
  unfolding from_request_parts
  from_request_parts-IsGranted s signing_key auth xet w w' ctx h =
      extract-IsGranted s signing_key (bearer_of auth) xet w w' ctx h
