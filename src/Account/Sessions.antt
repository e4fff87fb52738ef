-- ===== src/Account/Sessions.antt =====
-- internal/account/handler.go: what a login grants, and for how long.
use defi_demo.Base.{
  ℕ, ◌≡◌, refl, ap, sym, subst, ◌∙◌, get_elem?, Bool, true, false, not, Option, none, some, ◌∷◌,
  ◌++◌, String, arith, inl, inr, Bool-cases, Option-cases, if◌then◌else◌, nat_eq, ◌==◌, ◌||◌,
}
use defi_demo.Base.Int.{ℤ, ◌+ℤ◌, ◌<ℤ◌, ◌≤ℤ◌, ltb_ℤ}
use defi_demo.Base.Texts.{Text, codes, to_lower, split, trim_space}
use defi_demo.Http.{Reply, ok, error}
use defi_demo.Auth.{
  AuthConfig, Claims, Jwt, Ethereum, generate_jwt, verify_signature, extract_address,
}
use defi_demo.Auth.Tokens.{IsJwt, authenticate_issued, authenticate_expired}
use defi_demo.Account.Handlers.{LoginRequest, LoginResponse, issue, login, authed}

not_ok :
    (status : ℕ) (message : String) (response : LoginResponse)
    → error status message ≡ ok response
    → ⊥
not_ok status message response h = ground arith

ltb_sound : (a b : ℤ) → ltb_ℤ a b ≡ true → a <ℤ b
ltb_sound a b h = ground arith

ltb_complete : (a b : ℤ) → ltb_ℤ a b ≡ false → b ≤ℤ a
ltb_complete a b h = ground arith

text_injective : (a b : Text) → some a ≡ some b → a ≡ b
text_injective a b h = ap (λ (o : Option Text). elim o [ none ↦ a | some t ↦ t ]) h

reply_injective : (a b : LoginResponse) → ok a ≡ ok b → a ≡ b
reply_injective a b h = ap (λ (r : Reply LoginResponse). elim r [ ok x ↦ x | error s m ↦ a ]) h

module _ (jwt : Jwt) (cfg : AuthConfig) (ethereum : Ethereum) where
  abbrev mismatch : Text → ℕ → Bool
  mismatch claimed recovered =
      not (ethereum.is_hex_address claimed) || not (ethereum.hex_to_address claimed == recovered)

  same_address :
      (claimed : Text) (recovered : ℕ)
      → mismatch claimed recovered ≡ false
      → ethereum.hex_to_address claimed ≡ recovered
  same_address claimed recovered h = ground arith

  issue_ok :
      (recovered : ℕ) (now : ℤ) (response : LoginResponse)
      → issue jwt cfg ethereum recovered now ≡ ok response
      → (response.address ≡ ethereum.hex recovered)
        × (generate_jwt jwt cfg (ethereum.hex recovered) now ≡ some response.token)
  unfolding issue
  issue_ok recovered now response h =
      elim (Option-cases (generate_jwt jwt cfg (ethereum.hex recovered) now)) [
        | inl failed ↦ absurd (not_ok 500 _ response (rw (issue, failed) at h))
        | inr (token, e) ↦
            let same = reply_injective _ response (rw (issue, e) at h) in
            (
              sym (ap (λ (r : LoginResponse). r.address) same),
              e ∙ ap (λ (r : LoginResponse). some r.token) same,
            )
      ]

  -- A login that succeeds was signed by the address that its message names.
  pub login_ok :
      (req : LoginRequest) (now : ℤ) (response : LoginResponse)
      → login jwt cfg ethereum (some req) now ≡ ok response
      → (recovered : ℕ) × (claimed : Text) × (verify_signature ethereum req.message req.signature
          ≡ some recovered)
        × (extract_address ethereum req.message ≡ some claimed)
        × (ethereum.hex_to_address claimed ≡ recovered)
        × (issue jwt cfg ethereum recovered now ≡ ok response)
  unfolding login
  login_ok req now response h =
      elim (Option-cases (verify_signature ethereum req.message req.signature)) [
        | inl unsigned ↦ absurd (not_ok 401 _ response (rw (login, unsigned) at h))
        | inr (recovered, e) ↦ elim (Option-cases (extract_address ethereum req.message)) [
          | inl malformed ↦ absurd (not_ok 400 _ response (rw (login, e, malformed) at h))
          | inr (claimed, f) ↦ elim (Bool-cases (mismatch claimed recovered)) [
            | inl differs ↦ absurd (not_ok 401 _ response (rw (login, e, f, differs) at h))
            | inr agrees ↦ (
              recovered,
              claimed,
              e,
              f,
              same_address claimed recovered agrees,
              rw (login, e, f, agrees) at h,
            )
          ]
        ]
      ]

  agrees :
      (claimed : Text) (recovered : ℕ)
      → ethereum.is_hex_address claimed ≡ true
      → ethereum.hex_to_address claimed ≡ recovered
      → mismatch claimed recovered ≡ false
  agrees claimed recovered g h = ground arith

  extracted_hex :
      (message claimed : Text)
      → extract_address ethereum message ≡ some claimed
      → ethereum.is_hex_address claimed ≡ true
  unfolding extract_address
  extracted_hex message claimed h = elim (Option-cases (get_elem? (split 10 message) 1)) [
    | inl missing ↦
        let bad : none ≡ some claimed = rw (extract_address, missing) at h in ground arith
    | inr (line, e) ↦ elim (Bool-cases (ethereum.is_hex_address (trim_space line))) [
      | inr no_address ↦
          let bad : none ≡ some claimed = rw (extract_address, e, no_address) at h in ground arith
      | inl address ↦
          let same : some (trim_space line) ≡ some claimed =
            rw (extract_address, e, address) at h in
          subst (λ (t : Text). ethereum.is_hex_address t ≡ true) (text_injective _ claimed same)
            address
    ]
  ]

  claims_at : Text → ℤ → Claims
  claims_at address now = record {
    address = to_lower address;
    issuer = cfg.issuer;
    issued_at = now;
    expires_at = now +ℤ cfg.expiration;
  }

  -- A login that succeeds once.
  granted :
      (recovered : ℕ) (claimed : Text) (req : LoginRequest) (now : ℤ) (token : Text)
      → verify_signature ethereum req.message req.signature ≡ some recovered
      → extract_address ethereum req.message ≡ some claimed
      → ethereum.is_hex_address claimed ≡ true
      → ethereum.hex_to_address claimed ≡ recovered
      → generate_jwt jwt cfg (ethereum.hex recovered) now ≡ some token
      → login jwt cfg ethereum (some req) now
        ≡ ok (record { token = token; address = ethereum.hex recovered })
  unfolding login issue
  granted recovered claimed req now token e f g h t =
      rw (login, e, f, agrees claimed recovered g h, issue, t) refl

  -- Of a request that logged in once, each later login succeeds for the same address, at any time,
  -- if the token library signs every claim.
  pub login_again :
      (req : LoginRequest) (first later : ℤ) (response : LoginResponse)
      → ((claims : Claims) → (token : Text) × (jwt.signed_string claims cfg.secret ≡ some token))
      → login jwt cfg ethereum (some req) first ≡ ok response
      → (again : LoginResponse) × (login jwt cfg ethereum (some req) later ≡ ok again)
        × (again.address ≡ response.address)
  unfolding generate_jwt claims_at
  login_again req first later response signs h =
      let (recovered, claimed, e, f, same, issued) = login_ok req first response h in
      let (token, signed) = signs (claims_at (ethereum.hex recovered) later) in
      (
        record { token = token; address = ethereum.hex recovered },
        granted recovered claimed req later token e f (extracted_hex req.message claimed f) same
            signed,
        sym (issue_ok recovered first response issued).0,
      )

  module _ (laws : IsJwt jwt) {A : Type 0} where
    -- A login that succeeds opens a session: with its token after any spelling of Bearer, a request
    -- reaches its handler with the lowered address of the login until the expiration has passed
    -- since the login, and is refused as unauthorized from then on.
    pub login-authed :
        (req : LoginRequest) (issued now : ℤ) (response : LoginResponse) (scheme : Text)
        (handler : Text → Reply A)
        → login jwt cfg ethereum (some req) issued ≡ ok response
        → to_lower scheme ≡ codes "bearer"
        → authed jwt cfg (scheme ++ (32 ∷ response.token)) now handler ≡ (
            if ltb_ℤ now (issued +ℤ cfg.expiration)
            then handler (to_lower response.address)
            else error 401 "invalid token")
    unfolding authed
    login-authed req issued now response scheme handler h spelled =
        let (recovered, claimed, e, f, same, i) = login_ok req issued response h in
        let (address, token) = issue_ok recovered issued response i in
        elim (Bool-cases (ltb_ℤ now (issued +ℤ cfg.expiration))) [
          | inl live ↦
              let reached =
                authenticate_issued jwt laws cfg (ethereum.hex recovered) scheme response.token
                  issued now token spelled (ltb_sound now (issued +ℤ cfg.expiration) live) in
              rw (authed, reached) (rw (live, address) refl)
          | inr over ↦
              let refused =
                authenticate_expired jwt laws cfg (ethereum.hex recovered) scheme response.token
                  issued now token spelled (ltb_complete now (issued +ℤ cfg.expiration) over) in
              rw (authed, refused) (rw over refl)
        ]
