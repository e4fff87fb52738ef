-- ===== src/Market/Handlers.antt =====
-- internal/market/handler.go: the market endpoints. A query parameter that is absent is its default
-- text, for the chain the empty one.
use defi_demo.Base.{not, none, some, List, [], if◌then◌else◌, ◌==◌}
use defi_demo.Base.Int.{ℤ, pos}
use defi_demo.Base.Texts.{Text, parse_int, text_eq}
use defi_demo.Http.{Reply, ok, error}
use defi_demo.Market.{
  MarketInfo, MarketStateInfo, MarketSnapshot, Stores, Json, list_markets, get_market_detail,
  get_history,
}

module _ (stores : Stores) where
  open stores use {World}

  unfoldable pub listing_of : Json (List MarketInfo) → ℤ → World → Reply (List MarketInfo) × World
  listing_of json chain_id w =
      let (found, w1) = list_markets stores json chain_id w in
      elim found [
        | none ↦ (error 500 "failed to list markets", w1)
        | some markets ↦ (ok markets, w1)
      ]

  unfoldable pub handle_list :
      Json (List MarketInfo) → Text → World → Reply (List MarketInfo) × World
  handle_list json chain w =
      let (chain_id, valid) = parse_int chain in
      if chain == []
      then listing_of json (pos 0) w
      else if valid
      then listing_of json chain_id w
      else (error 400 "invalid chain_id", w)

  unfoldable pub detail_of : Json MarketStateInfo → ℤ → World → Reply MarketStateInfo × World
  detail_of json market_id w =
      let (found, w1) = get_market_detail stores json market_id w in
      elim found [ none ↦ (error 404 "market not found", w1) | some state ↦ (ok state, w1) ]

  unfoldable pub handle_detail : Json MarketStateInfo → Text → World → Reply MarketStateInfo × World
  handle_detail json market w =
      let (market_id, valid) = parse_int market in
      if valid then detail_of json market_id w else (error 400 "invalid market_id", w)

  unfoldable pub handle_history : Text → Text → Text → World → Reply (List MarketSnapshot)
  handle_history market period interval w =
      let (market_id, valid) = parse_int market in
      if not valid
      then error 400 "invalid market_id"
      else (elim (get_history stores market_id period interval w) [
        | none ↦ error 500 "failed to get history"
        | some snapshots ↦ ok snapshots
      ])
