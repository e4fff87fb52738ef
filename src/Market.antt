-- ===== src/Market.antt =====
-- internal/market/service.go and repository.go: market data read through a cache. The database, the
-- cache and the JSON encoding are parameters; the yield is behind the floating-point interface.
pub mod Cached
pub mod Handlers
use defi_demo.Base.{
  ℕ, suc, Bool, true, false, Option, none, some, List, [], ◌∷◌, ◌++◌, String, if◌then◌else◌,
}
use defi_demo.Base.Int.{ℤ, pos, negsuc}
use defi_demo.Base.Texts.{Text, codes}
use defi_demo.Base.Numerals.{signed_decimal}

pub record MarketInfo : Type 0 where
  pub id : ℤ
  pub chain_id : ℤ
  pub asset_address : String
  pub asset_symbol : String
  pub asset_decimals : ℤ
  pub pool_address : String
  pub collateral_factor : String
  pub liquidation_threshold : String
  pub borrow_cap : String
  pub supply_cap : String
  pub status : String

pub record MarketStateInfo : Type 0 where
  pub info : MarketInfo
  pub total_supply : String
  pub total_borrow : String
  pub supply_rate : String
  pub borrow_rate : String
  pub utilization_rate : String
  pub liquidity_index : String
  pub borrow_index : String
  pub tvl_usd : String

pub record MarketSnapshot : Type 0 where
  pub market_id : ℤ
  pub total_supply : String
  pub total_borrow : String
  pub supply_rate : String
  pub borrow_rate : String
  pub utilization_rate : String
  pub tvl_usd : String
  pub snapshot_time : ℤ

-- `MarketDB` and `CacheClient`, over one world. `none` is an error, for the cache also a miss; the
-- last argument of `set` before the world is the time to live in seconds.
pub record Stores : Type 1 where
  pub World : Type 0
  pub list_markets : ℤ → World → Option (List MarketInfo)
  pub get_market_state : ℤ → World → Option MarketStateInfo
  pub get_market_snapshots : ℤ → Text → Text → World → Option (List MarketSnapshot)
  pub get : Text → World → Option Text
  pub set : Text → Text → ℕ → World → World

-- `encoding/json` for a type.
pub record Json (A : Type 0) : Type 0 where
  pub marshal : A → Option Text
  pub unmarshal : Text → Option A

abbrev pub list_key : ℤ → Text
list_key chain_id = codes "markets:list:" ++ signed_decimal chain_id

abbrev pub detail_key : ℤ → Text
detail_key market_id = codes "markets:detail:" ++ signed_decimal market_id

module _ (stores : Stores) where
  open stores use {World, get, set}

  -- A cached value that decodes; otherwise the database's answer, which is then cached.
  unfoldable pub cached :
      {A : Type 0} → Json A → Text → ℕ → (World → Option A) → World → Option A × World
  cached {A} json key ttl query w =
      let asked : Option A × World = elim (query w) [
        | none ↦ (none, w)
        | some found ↦ elim (json.marshal found) [
          | none ↦ (some found, w)
          | some text ↦ (some found, set key text ttl w)
        ]
      ] in
      elim (get key w) [
        | none ↦ asked
        | some text ↦ elim (json.unmarshal text) [ none ↦ asked | some value ↦ (some value, w) ]
      ]

  unfoldable pub list_markets :
      Json (List MarketInfo) → ℤ → World → Option (List MarketInfo) × World
  list_markets json chain_id w = cached json (list_key chain_id) 30 (stores.list_markets chain_id) w

  unfoldable pub get_market_detail :
      Json MarketStateInfo → ℤ → World → Option MarketStateInfo × World
  get_market_detail json market_id w =
      cached json (detail_key market_id) 10 (stores.get_market_state market_id) w

  unfoldable pub get_history : ℤ → Text → Text → World → Option (List MarketSnapshot)
  get_history market_id period interval w = stores.get_market_snapshots market_id period interval w
