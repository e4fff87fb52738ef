-- ===== src/Auth/Tokens.antt =====
-- internal/api/middleware/auth.go: a token from its issue to its use.
use defi_demo.Base.{
  ℕ, ◌≡◌, refl, ◌∙◌, true, false, Option, none, some, [], ◌∷◌, ◌++◌, arith, nat_eqb, All, ◌==◌,
}
use defi_demo.Base.Int.{ℤ, ◌+ℤ◌, ◌<ℤ◌, ◌≤ℤ◌}
use defi_demo.Base.Texts.{Text, codes, to_lower, cut, text_eq, text_beq_iff}
use defi_demo.Auth.{
  AuthConfig, Claims, Method, hmac, Jwt, generate_jwt, key_for, validate_jwt, passed, invalid_token,
  authenticate,
}

-- What the token library documents: a token that was signed with the secret is parsed with it to the
-- signed claims before it expires, and not from then on.
pub record IsJwt (jwt : Jwt) : Type 0 where
  pub parses :
      (claims : Claims) (secret token : Text) (key : Method → Option Text) (now : ℤ)
      → jwt.signed_string claims secret ≡ some token
      → key hmac ≡ some secret
      → now <ℤ claims.expires_at
      → jwt.parse_with_claims key now token ≡ some (record { claims = some claims; valid = true })
  pub expires :
      (claims : Claims) (secret token : Text) (key : Method → Option Text) (now : ℤ)
      → jwt.signed_string claims secret ≡ some token
      → key hmac ≡ some secret
      → claims.expires_at ≤ℤ now
      → jwt.parse_with_claims key now token ≡ none

abbrev Without : ℕ → Text → Type 0
Without sep s = All (λ (c : ℕ). nat_eqb c sep ≡ false) s

cut-append : (sep : ℕ) (s t : Text) → Without sep s → cut sep (s ++ (sep ∷ t)) ≡ some (s, t)
unfolding cut
cut-append sep [] t h = ground arith
cut-append sep (c ∷ s) t h = rw (h.0, cut-append sep s t h.1) refl

-- A text without a space, before and after lowering.
unspaced : (s r : Text) → to_lower s ≡ r → Without 32 r → Without 32 s
unspaced [] r e h = tt
unspaced (c ∷ s) [] e h = absurd (ground arith)
unspaced (c ∷ s) (d ∷ r) e h = (ground (arith, h.0), unspaced s r (ground (arith, e)) h.1)

scheme_cut :
    (scheme token : Text)
    → to_lower scheme ≡ codes "bearer"
    → cut 32 (scheme ++ (32 ∷ token)) ≡ some (scheme, token)
scheme_cut scheme token e =
    cut-append 32 scheme token
      (unspaced scheme (codes "bearer") e (refl, (refl, (refl, (refl, (refl, (refl, tt)))))))

header_present : (scheme token : Text) → ((scheme ++ (32 ∷ token)) == []) ≡ false
header_present [] token = refl
header_present (c ∷ s) token = refl

module _ (jwt : Jwt) (laws : IsJwt jwt) (cfg : AuthConfig) where
  signed_claims : Text → ℤ → Claims
  signed_claims address issued = record {
    address = to_lower address;
    issuer = cfg.issuer;
    issued_at = issued;
    expires_at = issued +ℤ cfg.expiration;
  }

  authenticate_scheme :
      (scheme token : Text) (now : ℤ)
      → to_lower scheme ≡ codes "bearer"
      → authenticate jwt cfg (scheme ++ (32 ∷ token)) now ≡ (elim (validate_jwt jwt cfg token now) [
        | none ↦ invalid_token
        | some claims ↦ passed claims.address
      ])
  unfolding authenticate
  authenticate_scheme scheme token now e =
      rw (authenticate, header_present scheme token, scheme_cut scheme token e)
        (rw ((text_beq_iff (to_lower scheme) (codes "bearer")).1 e) refl)

  pub authenticate_issued :
      (address scheme token : Text) (issued now : ℤ)
      → generate_jwt jwt cfg address issued ≡ some token
      → to_lower scheme ≡ codes "bearer"
      → now <ℤ issued +ℤ cfg.expiration
      → authenticate jwt cfg (scheme ++ (32 ∷ token)) now ≡ passed (to_lower address)
  unfolding generate_jwt signed_claims validate_jwt key_for
  authenticate_issued address scheme token issued now g e live =
      let parsed =
        laws.parses (signed_claims address issued) cfg.secret token (key_for jwt cfg) now g refl
          live in
      authenticate_scheme scheme token now e ∙ rw (validate_jwt, parsed) refl

  pub authenticate_expired :
      (address scheme token : Text) (issued now : ℤ)
      → generate_jwt jwt cfg address issued ≡ some token
      → to_lower scheme ≡ codes "bearer"
      → issued +ℤ cfg.expiration ≤ℤ now
      → authenticate jwt cfg (scheme ++ (32 ∷ token)) now ≡ invalid_token
  unfolding generate_jwt signed_claims validate_jwt key_for
  authenticate_expired address scheme token issued now g e over =
      let parsed =
        laws.expires (signed_claims address issued) cfg.secret token (key_for jwt cfg) now g refl
          over in
      authenticate_scheme scheme token now e ∙ rw (validate_jwt, parsed) refl
