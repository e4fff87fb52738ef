-- ===== src/Account.antt =====
-- internal/account/service.go: the overview of an account, its history and the calldata of an action.
-- The database, the texts' parsers and keccak are parameters; an address is a number, and a text where the code has a text.
pub mod Calls
pub mod Pages
pub mod Handlers
pub mod Sessions
use defi_demo.Base.{
  ℕ, ◌+◌, ◌-◌, Bool, true, false, Option, none, some, List, [], ◌∷◌, String, string_eq, ◌==◌,
  if◌then◌else◌, ltb, ◌||◌, ◌>>=◌, length, replicate, take,
}
use defi_demo.Base.Bytes.{bytes, to_word, copy_at}
use defi_demo.Base.Texts.{Text}
use defi_demo.Base.Floats.{Floats}
use defi_demo.Base.Int.{ℤ, pos, pos_part, neg_part, ◌+ℤ◌, ◌-ℤ◌, ltb_ℤ, leb_ℤ}

pub record PositionSummary : Type 0 where
  pub market_id : ℕ
  pub chain_id : ℕ
  pub asset_symbol : String
  pub asset_address : String
  pub supply_balance : String
  pub borrow_balance : String
  pub supply_value_usd : String
  pub borrow_value_usd : String

pub record TxHistoryEntry : Type 0 where
  pub chain_id : ℕ
  pub tx_hash : String
  pub event_type : String
  pub asset_symbol : String
  pub amount : String
  pub timestamp : ℕ

pub record TxBuildRequest : Type 0 where
  pub chain_id : ℕ
  pub action : String
  pub asset : ℕ
  pub amount : String

pub record TxBuildResponse : Type 0 where
  pub to : ℕ
  pub payload : List ℕ
  pub value : ℕ
  pub gas_limit : ℕ

pub data Built : Type 0 where
  built : TxBuildResponse → Built
  invalid_amount : Built
  unknown_action : Built
  -- A slice bound below 0.
  panic : Built

-- The signature that an action's selector is taken from.
unfoldable pub function_signature : String → Option String
function_signature action =
    if action == "deposit"
    then some "deposit(address,uint256,address,uint16)"
    else if action == "withdraw"
    then some "withdraw(address,uint256,address)"
    else if action == "borrow"
    then some "borrow(address,uint256,uint256,uint16,address)"
    else if action == "repay"
    then some "repay(address,uint256,uint256,address)"
    else none

-- The 68 bytes; the amount's bytes end at the last one, and its sign is dropped.
unfoldable pub action_calldata : List ℕ → ℕ → ℤ → Option (List ℕ)
action_calldata selector asset amount =
    let amount_bytes = bytes (pos_part amount + neg_part amount) in
    let with_selector = copy_at (replicate 68 0) 0 selector in
    let with_asset = copy_at with_selector 16 (to_word 20 asset) in
    if ltb 68 (length amount_bytes)
    then none
    else some (copy_at with_asset (68 - length amount_bytes) amount_bytes)

-- The page that is asked of the database.
unfoldable pub page_limit : ℤ → ℤ
page_limit limit = if leb_ℤ limit (pos 0) || ltb_ℤ (pos 100) limit then pos 20 else limit

unfoldable pub page_offset : ℤ → ℤ
page_offset offset = if ltb_ℤ offset (pos 0) then pos 0 else offset

pub record Database : Type 1 where
  pub World : Type 0
  pub get_positions : Text → ℤ → World → Option (List PositionSummary)
  pub get_tx_history : Text → ℤ → ℤ → ℤ → World → Option (List TxHistoryEntry)

module _ (db : Database) (floats : Floats) (parse_int : String → Option ℤ) where
  open db use {World, get_positions, get_tx_history}
  open floats use {Float, quo}

  -- A value that is no number counts for nothing.
  unfoldable pub total_of : (PositionSummary → String) → List PositionSummary → ℤ
  total_of field [] = pos 0
  total_of field (p ∷ ps) =
      let rest = total_of field ps in
      elim (parse_int (field p)) [ none ↦ rest | some v ↦ v +ℤ rest ]

  -- A health factor without debt is infinite, `none`.
  pub record AccountOverview : Type 0 where
    pub address : Text
    pub total_supply_usd : ℤ
    pub total_borrow_usd : ℤ
    pub net_worth_usd : ℤ
    pub health_factor : Option Float
    pub positions : List PositionSummary

  unfoldable pub overview_of : Text → List PositionSummary → AccountOverview
  overview_of address positions =
      let supply = total_of (λ (p : PositionSummary). p.supply_value_usd) positions in
      let borrow = total_of (λ (p : PositionSummary). p.borrow_value_usd) positions in
      record {
        address = address;
        total_supply_usd = supply;
        total_borrow_usd = borrow;
        net_worth_usd = supply -ℤ borrow;
        health_factor = if ltb_ℤ (pos 0) borrow then some (quo supply borrow) else none;
        positions = positions;
      }

  unfoldable pub get_overview : Text → ℤ → World → Option AccountOverview
  get_overview address chain_id w = do
    positions ← get_positions address chain_id w
    some (overview_of address positions)

  unfoldable pub get_history : Text → ℤ → ℤ → ℤ → World → Option (List TxHistoryEntry)
  get_history address chain_id limit offset w =
      get_tx_history address chain_id (page_limit limit) (page_offset offset) w

  module _ (keccak256 : String → List ℕ) where
    unfoldable pub build_transaction : TxBuildRequest → ℕ → Built
    build_transaction req pool = elim (parse_int req.amount) [
      | none ↦ invalid_amount
      | some amount ↦ elim (function_signature req.action) [
        | none ↦ unknown_action
        | some sig ↦ elim (action_calldata (take 4 (keccak256 sig)) req.asset amount) [
          | none ↦ panic
          | some calldata ↦
              built (record { to = pool; payload = calldata; value = 0; gas_limit = 300000 })
        ]
      ]
    ]
