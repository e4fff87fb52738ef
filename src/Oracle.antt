-- ===== src/Oracle.antt =====
-- internal/oracle: reading a Chainlink feed, the price cache, and one round over the feeds. The
-- contract call, Redis, Kafka and the database are the interface `Outside`.
pub mod Decode
pub mod Rounds
pub mod Stored
pub mod Reads
use defi_demo.Base.{
  ℕ, ◌+◌, ◌-◌, ◌*◌, Bool, true, false, Option, none, some, List, [], ◌∷◌, ◌++◌, String, nat_eq,
  if◌then◌else◌, ltb, nat_eqb, ◌&&◌, ◌>>=◌, length, take, drop,
}
use defi_demo.Base.Assoc.{Map, insert}
use defi_demo.Base.Bytes.{from_bytes}
use defi_demo.Base.Floats.{Floats}
use defi_demo.Base.Texts.{Text, codes}
use defi_demo.Base.Int.{ℤ, pos, to_int64, ltb_ℤ, is_zero, ◌-ℤ◌}

pub data PriceSource : Type 0 where
  chainlink fallback : PriceSource

pub record PriceData : Type 0 where
  pub asset_address : ℕ
  pub price_usd : ℤ
  pub decimals : ℕ
  pub source : PriceSource
  pub round_id : ℤ
  pub updated_at : ℤ

pub data DecodeError : Type 0 where
  too_short invalid_price : DecodeError

pub data Decoded : Type 0 where
  round : ℕ → ℕ → ℤ → Decoded
  refused : DecodeError → Decoded

-- `data[from:from+32]` as a number.
unfoldable pub word_of : ℕ → List ℕ → ℕ
word_of from bs = from_bytes (take 32 (drop from bs))

-- The answer is read as an unsigned number, so it is refused only when it is 0.
unfoldable pub decode_latest_round_data : List ℕ → Decoded
decode_latest_round_data bs =
    if ltb (length bs) 160
    then refused too_short
    else (let answer = word_of 32 bs in
        if nat_eqb answer 0
        then refused invalid_price
        else round (word_of 0 bs) answer (to_int64 (pos (word_of 96 bs))))

module _ (floats : Floats) where
  open floats use {Float, of_int, quo, mul, abs_float, gt}

  pub record PriceFeedConfig : Type 0 where
    pub asset_address : ℕ
    pub asset_symbol : String
    pub feed_address : ℕ
    pub decimals : ℕ
    pub heartbeat_sec : ℤ
    pub deviation_pct : Float

  unfoldable pub calculate_deviation : ℤ → ℤ → Float
  calculate_deviation old_price new_price =
      if is_zero old_price
      then of_int (pos 0)
      else abs_float (mul (quo (new_price -ℤ old_price) old_price) (of_int (pos 100)))

  unfoldable pub fetched : PriceFeedConfig → Decoded → Option PriceData
  fetched feed (refused e) = none
  fetched feed (round id price updated_at) = some (record {
    asset_address = feed.asset_address;
    price_usd = pos price;
    decimals = feed.decimals;
    source = chainlink;
    round_id = pos id;
    updated_at = updated_at;
  })

  -- Seconds that the price stays in the cache.
  unfoldable pub ttl_seconds : PriceFeedConfig → ℤ
  ttl_seconds feed =
      if ltb_ℤ (pos 0) feed.heartbeat_sec && ltb_ℤ feed.heartbeat_sec (pos 30)
      then feed.heartbeat_sec
      else pos 30

  -- The calls on other systems; each may fail and each moves the world.
  pub record Outside : Type 1 where
    pub World : Type 0
    -- The bytes that the feed's `latestRoundData()` returns.
    pub call_contract : ℕ → World → Option (List ℕ) × World
    -- `Address.Hex` of go-ethereum and `encoding/json`; `none` is an error.
    pub hex : ℕ → Text
    pub marshal : PriceData → Option Text
    pub unmarshal : Text → Option PriceData
    -- `Get` and `Set` of the Redis client, the last with the seconds to live.
    pub redis_get : Text → World → Option Text × World
    pub redis_set : Text → Text → ℤ → World → Bool × World
    pub publish_price : PriceData → World → Bool × World
    pub save_price : ℕ → PriceData → World → Bool × World
    -- `time.Since` in seconds, above the heartbeat.
    pub is_stale : ℤ → ℤ → World → Bool

  pub data Alert : Type 0 where
    deviation_alert : ℕ → Alert
    stale_alert : ℕ → Alert

  module _ (outside : Outside) where
    open outside use {World, hex, marshal, unmarshal, redis_get, redis_set}

    abbrev pub price_key : ℕ → Text
    price_key asset = codes "price:" ++ hex asset

    -- `PriceCache.Set`
    unfoldable pub cache_set : PriceData → ℤ → World → Bool × World
    cache_set price ttl w = elim (marshal price) [
      | none ↦ (false, w)
      | some text ↦ redis_set (price_key price.asset_address) text ttl w
    ]

    -- `PriceCache.Get`
    unfoldable pub cache_get : ℕ → World → Option PriceData × World
    cache_get asset w =
        let (text, w1) = redis_get (price_key asset) w in
        (elim text [ none ↦ none | some t ↦ unmarshal t ], w1)

  module _ (outside : Outside) (chain_id : ℕ) where
    open outside use {World, call_contract, publish_price, save_price, is_stale}

    unfoldable pub fetch_price : PriceFeedConfig → World → Option PriceData × World
    fetch_price feed w =
        let (result, w1) = call_contract feed.feed_address w in
        (elim result [ none ↦ none | some bs ↦ fetched feed (decode_latest_round_data bs) ], w1)

    -- The warning about the cached price, in the log.
    unfoldable pub deviation_alerts : PriceFeedConfig → PriceData → Option PriceData → List Alert
    deviation_alerts feed price none = []
    deviation_alerts feed price (some cached) =
        let deviation = calculate_deviation cached.price_usd price.price_usd in
        if gt deviation feed.deviation_pct && gt feed.deviation_pct (of_int (pos 0))
        then deviation_alert feed.asset_address ∷ []
        else []

    unfoldable pub heartbeat_alerts : PriceFeedConfig → PriceData → World → List Alert
    heartbeat_alerts feed price w =
        if ltb_ℤ (pos 0) feed.heartbeat_sec && is_stale price.updated_at feed.heartbeat_sec w
        then stale_alert feed.asset_address ∷ []
        else []

    -- Caching, publishing and saving; a failure of one is logged and the next is tried.
    unfoldable pub distribute : PriceFeedConfig → PriceData → World → World
    distribute feed price w =
        let (cached, w1) = cache_set outside price (ttl_seconds feed) w in
        let (published, w2) = publish_price price w1 in
        let (saved, w3) = save_price chain_id price w2 in w3

    -- What a feed led to: the price, none when the call or its answer failed, and the warnings.
    pub record FeedResult : Type 0 where
      pub price : Option PriceData
      pub alerts : List Alert

    -- One feed; the price is distributed whatever the warnings say.
    unfoldable pub update_feed : PriceFeedConfig → World → FeedResult × World
    update_feed feed w =
        let (fetched_price, w1) = fetch_price feed w in
        elim fetched_price [
          | none ↦ (record { price = none; alerts = [] }, w1)
          | some p ↦
              let (cached, w2) = cache_get outside feed.asset_address w1 in
              (
                record {
                  price = some p;
                  alerts = deviation_alerts feed p cached ++ heartbeat_alerts feed p w2;
                },
                distribute feed p w2,
              )
        ]

    unfoldable pub fetch_and_update : List PriceFeedConfig → World → List FeedResult × World
    fetch_and_update [] w = ([], w)
    fetch_and_update (feed ∷ feeds) w =
        let (result, w1) = update_feed feed w in
        let (results, w2) = fetch_and_update feeds w1 in (result ∷ results, w2)

    unfoldable pub get_price : ℕ → World → Option PriceData × World
    get_price asset w = cache_get outside asset w

    -- The cached prices of the assets, the others left out; `found` is the map so far.
    unfoldable pub prices_into : Map ℕ PriceData → List ℕ → World → Map ℕ PriceData × World
    prices_into found [] w = (found, w)
    prices_into found (asset ∷ assets) w =
        let (price, w1) = cache_get outside asset w in
        prices_into (elim price [ none ↦ found | some p ↦ insert asset p found ]) assets w1

    unfoldable pub get_prices : List ℕ → World → Map ℕ PriceData × World
    get_prices = prices_into []
