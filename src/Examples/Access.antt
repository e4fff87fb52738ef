-- ===== src/Examples/Access.antt =====
-- A login and its session, and a limited address, on concrete values.
use defi_demo.Base.{
  ℕ, ◌+◌, ◌-◌, ◌≡◌, refl, ap, Bool, true, false, Option, none, some, List, [], ◌∷◌, ◌++◌, arith,
  inl, inr, Bool-cases, if◌then◌else◌, ◌&&◌, ◌==◌, replicate,
}
use defi_demo.Base.Int.{ℤ, pos, ◌+ℤ◌, ◌<ℤ◌, ◌≤ℤ◌, ltb_ℤ}
use defi_demo.Base.Texts.{
  Text, codes, decimal, digits_on, text_eq, text_beq_iff, to_lower, split, trim_space, trim_right,
  trim_left,
}
use defi_demo.Http.{ok, error}
use defi_demo.Auth.{
  AuthConfig, Claims, Method, hmac, Jwt, Ethereum, generate_jwt, verify_signature, extract_address,
}
use defi_demo.Auth.Tokens.{IsJwt}
use defi_demo.Account.Handlers.{LoginRequest, LoginResponse, login, issue, authed}
use defi_demo.Account.Sessions.{login-authed, login_again}
use defi_demo.RateLimit.{RateLimitStore, key_of}
use defi_demo.RateLimit.Windows.{IsCounter, served_for, requests_for, served_for_lem, min}

abbrev config : AuthConfig
config = record { secret = codes "s"; issuer = codes "i"; expiration = pos 60 }

-- The claims of a login at time 5.
abbrev claimed : Claims
claimed = record {
  address = codes "0x07";
  issuer = codes "i";
  issued_at = pos 5;
  expires_at = pos 65;
}

abbrev int_eqb : ℤ → ℤ → Bool
int_eqb a b = if ltb_ℤ a b then false else (if ltb_ℤ b a then false else true)

abbrev is_claimed : Claims → Text → Bool
is_claimed c secret =
    (c.address == codes "0x07" && c.issuer == codes "i")
    && ((int_eqb c.issued_at (pos 5) && int_eqb c.expires_at (pos 65)) && secret == codes "s")

abbrev knows : Option Text → Bool
knows none = false
knows (some s) = s == codes "s"

-- A library that signs these claims only, by the text `t`.
abbrev tokens : Jwt
tokens = record {
  signed_string =
      λ (c : Claims) (secret : Text). (if is_claimed c secret then some (codes "t") else none);
  parse_with_claims = λ (key : Method → Option Text) (now : ℤ) (token : Text).
      (if ltb_ℤ now (pos 65) && knows (key hmac)
        then some (record { claims = some claimed; valid = true })
        else none);
}

int_eqb_sound : (a b : ℤ) → int_eqb a b ≡ true → a ≡ b
int_eqb_sound a b h = ground arith

claimed_secret : (c : Claims) (secret : Text) → is_claimed c secret ≡ true → secret ≡ codes "s"
claimed_secret c secret h = (text_beq_iff secret (codes "s")).0 (ground arith)

claimed_only : (c : Claims) (secret : Text) → is_claimed c secret ≡ true → c ≡ claimed
claimed_only c secret h =
    let address = (text_beq_iff c.address (codes "0x07")).0 (ground arith) in
    let issuer = (text_beq_iff c.issuer (codes "i")).0 (ground arith) in
    let issued = int_eqb_sound c.issued_at (pos 5) (ground arith) in
    let expires = int_eqb_sound c.expires_at (pos 65) (ground arith) in
    λ i. record {
      address = address i;
      issuer = issuer i;
      issued_at = issued i;
      expires_at = expires i;
    }

signed_claims :
    (c : Claims) (secret token : Text)
    → tokens.signed_string c secret ≡ some token
    → is_claimed c secret ≡ true
signed_claims c secret token h = elim (Bool-cases (is_claimed c secret)) [
  | inl same ↦ same
  | inr other ↦ let bad : none ≡ some token = rw other at h in ground arith
]

knows_key :
    (key : Option Text) (secret : Text) → key ≡ some secret → secret ≡ codes "s" → knows key ≡ true
knows_key key secret e s = rw (e, s) refl

early : (now end : ℤ) → end ≡ pos 65 → now <ℤ end → ltb_ℤ now (pos 65) ≡ true
early now end e live = ground arith

late : (now end : ℤ) → end ≡ pos 65 → end ≤ℤ now → ltb_ℤ now (pos 65) ≡ false
late now end e over = ground arith

before_end : (now : ℤ) (c : Claims) → c ≡ claimed → now <ℤ c.expires_at → ltb_ℤ now (pos 65) ≡ true
before_end now c same live =
    let e : c.expires_at ≡ pos 65 = ap (λ (x : Claims). x.expires_at) same in
    early now c.expires_at e live

after_end : (now : ℤ) (c : Claims) → c ≡ claimed → c.expires_at ≤ℤ now → ltb_ℤ now (pos 65) ≡ false
after_end now c same over =
    let e : c.expires_at ≡ pos 65 = ap (λ (x : Claims). x.expires_at) same in
    late now c.expires_at e over

tokens_laws : IsJwt tokens
tokens_laws = record {
  parses = λ c secret token key now signed k live.
      let same = signed_claims c secret token signed in
      let known = knows_key (key hmac) secret k (claimed_secret c secret same) in
      let fields = claimed_only c secret same in
      let early : ltb_ℤ now (pos 65) ≡ true = before_end now c fields live in
      rw (early, known, fields) refl;
  expires = λ c secret token key now signed k over.
      let same = signed_claims c secret token signed in
      let fields = claimed_only c secret same in
      let late : ltb_ℤ now (pos 65) ≡ false = after_end now c fields over in rw late refl;
}

abbrev node : Ethereum
node = record {
  PublicKey = ℕ;
  decode_hex = λ (t : Text). some t;
  keccak256 = λ (bs : List ℕ). bs;
  ecrecover = λ (hash sig : List ℕ). some sig;
  unmarshal_pubkey = λ (bs : List ℕ). some 7;
  pubkey_to_address = λ (k : ℕ). k;
  is_hex_address = λ (t : Text). t == codes "0x07";
  hex_to_address = λ (t : Text). 7;
  hex = λ (a : ℕ). codes "0x07";
}

abbrev request : LoginRequest
request = record {
  message = codes "example.com wants you to sign in" ++ (10 ∷ codes " 0x07 ");
  signature = replicate 65 27;
}

abbrev response : LoginResponse
response = record { token = codes "t"; address = codes "0x07" }

logged_in : login tokens config node (some request) (pos 5) ≡ ok response
unfolding login issue generate_jwt verify_signature extract_address ◌+ℤ◌ split trim_space trim_right
    trim_left
logged_in = refl

login-authed_example :
    authed tokens config
      (codes "BEARER" ++ (32 ∷ response.token))
      (pos 20)
      (λ (address : Text). ok address)
    ≡ (if ltb_ℤ (pos 20) (pos 5 +ℤ config.expiration)
        then ok (to_lower response.address)
        else error 401 "invalid token")
login-authed_example =
    login-authed tokens config node tokens_laws request (pos 5) (pos 20) response (codes "BEARER")
      (λ (address : Text). ok address) logged_in refl

-- A library that signs everything.
abbrev signer : Jwt
signer = record {
  signed_string = λ (c : Claims) (secret : Text). some (codes "t");
  parse_with_claims = λ (key : Method → Option Text) (now : ℤ) (token : Text). none;
}

signer_logged_in : login signer config node (some request) (pos 5) ≡ ok response
unfolding login issue generate_jwt verify_signature extract_address split trim_space trim_right
    trim_left
signer_logged_in = refl

login_again_example :
    (again : LoginResponse) × (login signer config node (some request) (pos 5000) ≡ ok again)
    × (again.address ≡ response.address)
login_again_example =
    login_again signer config node request (pos 5) (pos 5000) response
      (λ (c : Claims). (codes "t", refl)) signer_logged_in

-- The counters are the keys that were incremented.
abbrev occurrences : Text → List Text → ℕ
occurrences key [] = 0
occurrences key (k ∷ ks) = if k == key then occurrences key ks + 1 else occurrences key ks

abbrev counters : RateLimitStore
counters = record {
  World = List Text;
  increment =
      λ (key : Text) (window : ℕ) (w : List Text). (some (pos (occurrences key w + 1)), key ∷ w);
}

abbrev counters_laws : IsCounter counters
counters_laws = record {
  count = occurrences;
  counts = λ key window w. refl;
  counted = λ key other window w. refl;
}

-- Two addresses in one minute, and the first again in the next.
abbrev requests : List (Text × ℕ)
requests = (codes "a", 3) ∷ (codes "b", 4) ∷ (codes "a", 5) ∷ (codes "a", 59) ∷ (codes "a", 60) ∷ []

served_for_lem_example :
    served_for counters 2 (key_of (codes "a") 3) requests []
    ≡ min (2 - 0) (requests_for (key_of (codes "a") 3) requests)
served_for_lem_example = served_for_lem counters 2 counters_laws (key_of (codes "a") 3) requests []

-- Three of them fall under the key, and two are served.
requests_counted : requests_for (key_of (codes "a") 3) requests ≡ 3
unfolding requests_for key_of decimal digits_on
requests_counted = refl
