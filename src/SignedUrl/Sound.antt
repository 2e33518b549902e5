-- ===== src/SignedUrl/Sound.antt =====
-- What an accepted URL carries.
use open_weights.Base.{
  ap, sym, subst, ◌∙◌, Option-cases, ℕ, ◌<◌, ◌≡◌, inl, inr, refl, Bool, true, false, Option, none,
  some, ◌++◌, arith, Str, Bool-cases, ltb,
}
use open_weights.Download.Request.{strip_prefix}
use open_weights.SignedUrl.{
  ok_or, ensure, Crates, UrlSigner, Outcome, ok, err, VerifyErr, malformed, expired, bad_signature,
  VerifyOk, Params, no_params, xorb_prefix, or_empty, ranges_of, check_hex, ct_eq, signed_by_prev,
  canonical_string_raw, canonical_version, read_pairs, check_signature, verify_params, verify,
}
use open_weights.SignedUrl.Laws.{Laws, ct_eq_iff, signed_by-hmac}
use open_weights.SignedUrl.Readers.{
  bind_elim, ok-injective, ok_or_cases, ensure_cases, strip_prefix_cases, IsOrdered,
  ranges_of-IsOrdered,
}

module _ {Key Url : Type 0} (c : Crates Key Url) (l : Laws c) where
  -- Which key of the signer `accepted_by_prev_key` names.
  abbrev pub IsKey : UrlSigner Key Url → Bool → Key → Type 0
  IsKey s false key = s.key_current ≡ key
  IsKey s true key = s.key_prev ≡ some key

  -- The two comparisons, once every signature decodes.
  abbrev compared : Bool → Option Bool → Outcome VerifyErr Bool
  compared true prev = ok false
  compared false none = err bad_signature
  compared false (some true) = ok true
  compared false (some false) = err bad_signature

  abbrev prev_matches : Option Key → Str → Str → Option Bool
  prev_matches none canonical provided = none
  prev_matches (some key) canonical provided = some (ct_eq c (c.hmac key canonical) provided)

  check_signature-compared :
      (s : UrlSigner Key Url) (canonical provided : Str)
      → check_signature c s canonical provided
        ≡ compared
            (ct_eq c (c.hmac s.key_current canonical) provided)
            (prev_matches s.key_prev canonical provided)
  unfolding check_signature signed_by_prev
  check_signature-compared s canonical provided =
      rw (signed_by-hmac c l s.key_current canonical provided)
        (elim (Bool-cases (ct_eq c (c.hmac s.key_current canonical) provided)) [
          | inl same ↦ rw same
          | inr other ↦ elim (Option-cases s.key_prev) [
            | inl alone ↦ rw (other, alone)
            | inr (key, e) ↦
                rw (other, e, signed_by-hmac c l key canonical provided)
                  (elim (Bool-cases (ct_eq c (c.hmac key canonical) provided)) [
                    | inl same ↦ rw same
                    | inr differs ↦ rw differs
                  ])
          ]
        ])

  compared-IsKey :
      (s : UrlSigner Key Url) (canonical provided : Str) (b : Bool) (o : Option Key) (prev : Bool)
      → ct_eq c (c.hmac s.key_current canonical) provided ≡ b
      → s.key_prev ≡ o
      → compared b (prev_matches o canonical provided) ≡ ok prev
      → (key : Key) × IsKey s prev key × (c.hmac key canonical ≡ provided)
  compared-IsKey s canonical provided true o false same e h =
      (s.key_current, refl, (ct_eq_iff c l (c.hmac s.key_current canonical) provided).0 same)
  compared-IsKey s canonical provided true o true same e h = absurd (ground arith)
  compared-IsKey s canonical provided false none prev differs e h = absurd (ground arith)
  compared-IsKey s canonical provided false (some key) prev differs e h =
      elim (Bool-cases (ct_eq c (c.hmac key canonical) provided)) [
        | inl same ↦
            let flag : true ≡ prev = ground arith in
            (
              key,
              subst (λ b. IsKey s b key) flag e,
              (ct_eq_iff c l (c.hmac key canonical) provided).0 same,
            )
        | inr other ↦ absurd (ground arith)
      ]

  check_signature-IsKey :
      (s : UrlSigner Key Url) (canonical provided : Str) (prev : Bool)
      → check_signature c s canonical provided ≡ ok prev
      → (key : Key) × IsKey s prev key × (c.hmac key canonical ≡ provided)
  check_signature-IsKey s canonical provided prev h =
      compared-IsKey s canonical provided _ s.key_prev prev refl refl
        (sym (check_signature-compared s canonical provided) ∙ h)

  -- What stands behind the answer of `verify` for a URL.
  pub record IsVouched (s : UrlSigner Key Url) (text : Str) (v : VerifyOk) : Type 0 where
    pub url : Url
    pub parsed : c.parse_url text ≡ some url
    pub at : c.path url ≡ xorb_prefix ++ v.xorb_hash_hex
    pub q : Params
    pub read : read_pairs c no_params (c.query_pairs url) ≡ q
    pub granted : ranges_of q.r_raw ≡ ok v.ranges
    pub ordered : IsOrdered v.ranges
    pub key : Key
    pub is_key : IsKey s v.accepted_by_prev_key key
    pub sig : Str
    pub signs : q.sig ≡ some sig
    pub signed :
        c.b64_url_decode sig
        ≡ some (
            c.hmac key (
              canonical_string_raw c canonical_version v.xorb_hash_hex v.exp
                (or_empty q.r_raw)
                v.kid))

  verify_params-IsVouched :
      (s : UrlSigner Key Url) (text hex : Str) (url : Url) (q : Params) (now : ℕ) (v : VerifyOk)
      → c.parse_url text ≡ some url
      → c.path url ≡ xorb_prefix ++ hex
      → read_pairs c no_params (c.query_pairs url) ≡ q
      → verify_params c s hex q now ≡ ok v
      → IsVouched s text v × (now < v.exp)
  unfolding verify_params
  verify_params-IsVouched s text hex url q now v parsed at read h =
      bind_elim (ok_or (malformed "exp") q.exp) _ h λ exp e₁ h₁.
        bind_elim (ok_or (malformed "kid") q.kid) _ h₁ λ kid e₂ h₂.
          bind_elim (ok_or (malformed "sig") q.sig) _ h₂ λ sig e₃ h₃.
            bind_elim (ranges_of q.r_raw) _ h₃ λ ranges e₄ h₄.
              bind_elim (ensure (ltb now exp) expired) _ h₄ λ _ e₅ h₅.
                bind_elim (ok_or (malformed "sig_b64") (c.b64_url_decode sig)) _ h₅
                  λ provided e₆ h₆.
                    bind_elim
                      (check_signature c s
                        (canonical_string_raw c canonical_version hex exp (or_empty q.r_raw) kid)
                        provided)
                      _ h₆
                      λ prev e₇ h₇.
                        let (key, is_key, mac) = check_signature-IsKey s _ provided prev e₇ in
                        let timely = ensure_cases (ltb now exp) expired e₅ in
                        subst (λ w. IsVouched s text w × (now < w.exp)) (ok-injective _ v h₇)
                          (
                            record {
                              url = url;
                              parsed = parsed;
                              at = at;
                              q = q;
                              read = read;
                              granted = e₄;
                              ordered = ranges_of-IsOrdered q.r_raw ranges e₄;
                              key = key;
                              is_key = is_key;
                              sig = sig;
                              signs = ok_or_cases (malformed "sig") q.sig e₃;
                              signed =
                                  ok_or_cases (malformed "sig_b64") (c.b64_url_decode sig) e₆
                                  ∙ ap some (sym mac);
                            },
                            ground arith,
                          )

  -- A URL that `verify` accepts has not expired, and is vouched for: it names the xorb, its ranges are not
  -- reversed, and the signature that it carries is that of the key that the answer names, over the
  -- canonical string of its own hash, expiry, range text and key id.
  pub verify-IsVouched :
      (s : UrlSigner Key Url) (text : Str) (now : ℕ) (v : VerifyOk)
      → verify c s text now ≡ ok v
      → IsVouched s text v × (now < v.exp)
  unfolding verify
  verify-IsVouched s text now v h =
      bind_elim (ok_or (malformed "parse") (c.parse_url text)) _ h λ url e₁ h₁.
        bind_elim (ok_or (malformed "path_prefix") (strip_prefix xorb_prefix (c.path url))) _ h₁
          λ hex e₂ h₂. bind_elim (check_hex hex) _ h₂ λ _ e₃ h₃.
            verify_params-IsVouched s text hex url (read_pairs c no_params (c.query_pairs url)) now
              v (ok_or_cases (malformed "parse") (c.parse_url text) e₁)
              (strip_prefix_cases xorb_prefix (c.path url)
                (ok_or_cases (malformed "path_prefix") (strip_prefix xorb_prefix (c.path url)) e₂))
              refl h₃
