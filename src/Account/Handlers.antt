-- ===== src/Account/Handlers.antt =====
-- internal/account/handler.go: login and the authenticated requests. A body that cannot be bound is
-- `none`; a query parameter that is absent is its default text.
use defi_demo.Base.{ℕ, not, Option, none, some, List, String, if◌then◌else◌, ◌||◌, nat_eq, ◌==◌}
use defi_demo.Base.Floats.{Floats}
use defi_demo.Base.Int.{ℤ}
use defi_demo.Base.Texts.{Text, parse_int}
use defi_demo.Http.{Reply, ok, error}
use defi_demo.Auth.{
  AuthConfig, Jwt, Ethereum, passed, missing_header, invalid_format, invalid_token, generate_jwt,
  verify_signature, extract_address, authenticate,
}
use defi_demo.Account.{
  Database, AccountOverview, TxHistoryEntry, TxBuildRequest, TxBuildResponse, built, invalid_amount,
  unknown_action, panic, get_overview, get_history, build_transaction,
}

pub record LoginRequest : Type 0 where
  pub message : Text
  pub signature : Text

pub record LoginResponse : Type 0 where
  pub token : Text
  pub address : Text

module _ (jwt : Jwt) (cfg : AuthConfig) (ethereum : Ethereum) where
  open ethereum use {is_hex_address, hex_to_address, hex}

  unfoldable pub issue : ℕ → ℤ → Reply LoginResponse
  issue recovered now = elim (generate_jwt jwt cfg (hex recovered) now) [
    | none ↦ error 500 "failed to generate token"
    | some token ↦ ok (record { token = token; address = hex recovered })
  ]

  unfoldable pub login : Option LoginRequest → ℤ → Reply LoginResponse
  login none now = error 400 "invalid request body"
  login (some req) now = elim (verify_signature ethereum req.message req.signature) [
    | none ↦ error 401 "invalid signature"
    | some recovered ↦ elim (extract_address ethereum req.message) [
      | none ↦ error 400 "invalid SIWE message"
      | some claimed ↦
          if not (is_hex_address claimed) || not (hex_to_address claimed == recovered)
          then error 401 "address mismatch"
          else issue recovered now
    ]
  ]

-- The middleware before a handler.
module _ (jwt : Jwt) (cfg : AuthConfig) {A : Type 0} where
  unfoldable pub authed : Text → ℤ → (Text → Reply A) → Reply A
  authed header now handler = elim (authenticate jwt cfg header now) [
    | passed address ↦ handler address
    | missing_header ↦ error 401 "missing authorization header"
    | invalid_format ↦ error 401 "invalid authorization format"
    | invalid_token ↦ error 401 "invalid token"
  ]

module _ (db : Database) (floats : Floats) (big_int : String → Option ℤ) where
  unfoldable pub get_positions : Text → db.World → Text → Reply (AccountOverview db floats big_int)
  get_positions chain_id w address =
      elim (get_overview db floats big_int address (parse_int chain_id).0 w) [
        | none ↦ error 500 "failed to get positions"
        | some overview ↦ ok overview
      ]

  unfoldable pub get_history_page :
      Text → Text → Text → db.World → Text → Reply (List TxHistoryEntry)
  get_history_page chain_id limit offset w address =
      elim (get_history db floats big_int address (parse_int chain_id).0 (parse_int limit).0
        (parse_int offset).0 w) [
          | none ↦ error 500 "failed to get history"
          | some entries ↦ ok entries
        ]

  -- A panic is answered by the recovery of the router.
  unfoldable pub build_tx : (String → List ℕ) → ℕ → Option TxBuildRequest → Reply TxBuildResponse
  build_tx keccak256 pool none = error 400 "invalid request body"
  build_tx keccak256 pool (some req) =
      elim (build_transaction db floats big_int keccak256 req pool) [
        | built response ↦ ok response
        | invalid_amount ↦ error 400 "invalid amount"
        | unknown_action ↦ error 400 "unknown action"
        | panic ↦ error 500 ""
      ]
