-- ===== src/Auth.antt =====
-- internal/api/middleware/auth.go: tokens, signatures and the middleware that authenticates.
-- Texts are byte strings. The token library and go-ethereum are parameters, as is the clock, in
-- seconds; an address is a number.
pub mod Tokens
use defi_demo.Base.{
  ℕ, ◌+◌, ◌-◌, ◌≡◌, Bool, true, false, not, Option, none, some, List, [], ◌∷◌, ◌++◌, String,
  if◌then◌else◌, ltb, leb, nat_eqb, ◌||◌, ◌>>=◌, length, set, get_elem?, nat_eq, ◌==◌,
}
use defi_demo.Base.Int.{ℤ, ◌+ℤ◌, ◌<ℤ◌, ◌≤ℤ◌}
use defi_demo.Base.Texts.{Text, codes, to_lower, cut, split, trim_space, decimal, text_eq}

pub record AuthConfig : Type 0 where
  pub secret : Text
  pub issuer : Text
  pub expiration : ℤ

pub record Claims : Type 0 where
  pub address : Text
  pub issuer : Text
  pub issued_at : ℤ
  pub expires_at : ℤ

pub data Method : Type 0 where
  hmac other : Method

-- What `jwt.ParseWithClaims` returns without an error.
pub record Token : Type 0 where
  pub claims : Option Claims
  pub valid : Bool

-- The token library: signing by HS256 with a secret, and parsing with a function that gives the key
-- for the method that the token's header names.
pub record Jwt : Type 0 where
  pub signed_string : Claims → Text → Option Text
  pub parse_with_claims : (Method → Option Text) → ℤ → Text → Option Token

-- go-ethereum.
pub record Ethereum : Type 1 where
  pub PublicKey : Type 0
  pub decode_hex : Text → Option (List ℕ)
  pub keccak256 : List ℕ → List ℕ
  pub ecrecover : List ℕ → List ℕ → Option (List ℕ)
  pub unmarshal_pubkey : List ℕ → Option PublicKey
  pub pubkey_to_address : PublicKey → ℕ
  pub is_hex_address : Text → Bool
  pub hex_to_address : Text → ℕ
  pub hex : ℕ → Text

module _ (jwt : Jwt) (cfg : AuthConfig) where
  open jwt use {signed_string, parse_with_claims}

  unfoldable pub generate_jwt : Text → ℤ → Option Text
  generate_jwt address now =
      signed_string
        (record {
          address = to_lower address;
          issuer = cfg.issuer;
          issued_at = now;
          expires_at = now +ℤ cfg.expiration;
        })
        cfg.secret

  -- The key is given for the HMAC methods only.
  unfoldable pub key_for : Method → Option Text
  key_for hmac = some cfg.secret
  key_for other = none

  unfoldable pub validate_jwt : Text → ℤ → Option Claims
  validate_jwt token_str now = do
    token ← parse_with_claims key_for now token_str
    claims ← token.claims
    if token.valid then some claims else none

-- The recovery byte: 27 and 28 become 0 and 1. An index below the length is checked before.
unfoldable pub adjust_v : List ℕ → List ℕ
adjust_v sig = elim (get_elem? sig 64) [
  | none ↦ sig
  | some v ↦ if leb 27 v then set sig 64 (v - 27) else sig
]

unfoldable pub prefixed : Text → Text
prefixed message =
    (25 ∷ codes "Ethereum Signed Message:") ++ (10 ∷ (decimal (length message) ++ message))

module _ (ethereum : Ethereum) where
  open ethereum use {
    decode_hex, keccak256, ecrecover, unmarshal_pubkey, pubkey_to_address, is_hex_address,
  }

  unfoldable pub verify_signature : Text → Text → Option ℕ
  verify_signature message signature_hex = do
    sig ← decode_hex signature_hex
    checked ← if nat_eqb (length sig) 65 then some (adjust_v sig) else none
    pub_key ← ecrecover (keccak256 (prefixed message)) checked
    key ← unmarshal_pubkey pub_key
    some (pubkey_to_address key)

  -- The second line of the message.
  unfoldable pub extract_address : Text → Option Text
  extract_address message = do
    line ← get_elem? (split 10 message) 1
    let address = trim_space line
    if is_hex_address address then some address else none

-- What the middleware does with a request: passed on with the wallet's address, or refused with the
-- status 401.
pub data Verdict : Type 0 where
  passed : Text → Verdict
  missing_header invalid_format invalid_token : Verdict

module _ (jwt : Jwt) (cfg : AuthConfig) where
  -- `authHeader == ""` is a missing header.
  unfoldable pub authenticate : Text → ℤ → Verdict
  authenticate header now = if header == [] then missing_header else (elim (cut 32 header) [
    | none ↦ invalid_format
    | some (scheme, token) ↦
        if not (to_lower scheme == codes "bearer")
        then invalid_format
        else (elim (validate_jwt jwt cfg token now) [
          | none ↦ invalid_token
          | some claims ↦ passed claims.address
        ])
  ])
