-- ===== src/Oracle/Rounds.antt =====
-- internal/oracle/service.go and cache.go: the cached prices after a round over the feeds.
use defi_demo.Base.{
  ℕ, ◌≡◌, refl, sym, ap, ◌∙◌, Bool, Option, none, some, List, [], ◌∷◌, nat_eq, ◌==◌, if◌then◌else◌,
  arith, inl, inr, Option-cases, length,
}
use mathlib.Core.Option.{some-injective, none-ne-some}
use defi_demo.Base.Floats.{Floats}
use defi_demo.Base.Int.{ℤ}
use defi_demo.Oracle.{
  PriceData, PriceFeedConfig, Outside, Decoded, refused, round, fetched, fetch_price, FeedResult,
  cache_get, cache_set, distribute, update_feed, ttl_seconds, fetch_and_update,
  decode_latest_round_data,
}

-- What the cache documents of a round in which no price expires and every write succeeds.
pub record CacheLaws (floats : Floats) (outside : Outside floats) : Type 1 where
  pub cached : outside.World → ℕ → Option PriceData
  pub get-value : (a : ℕ) (w : outside.World) → (cache_get floats outside a w).0 ≡ cached w a
  pub get-cached :
      (a b : ℕ) (w : outside.World) → cached (cache_get floats outside a w).1 b ≡ cached w b
  pub set-cached :
      (p : PriceData) (ttl : ℤ) (w : outside.World) (b : ℕ)
      → cached (cache_set floats outside p ttl w).1 b
        ≡ (if p.asset_address == b then some p else cached w b)
  pub call-cached :
      (feed b : ℕ) (w : outside.World) → cached (outside.call_contract feed w).1 b ≡ cached w b
  pub publish-cached :
      (p : PriceData) (w : outside.World) (b : ℕ)
      → cached (outside.publish_price p w).1 b ≡ cached w b
  pub save-cached :
      (c : ℕ) (p : PriceData) (w : outside.World) (b : ℕ)
      → cached (outside.save_price c p w).1 b ≡ cached w b

choose {ℓ} :
    {A : Type ℓ} (b c : Bool) (x y z : A)
    → b ≡ c
    → y ≡ z
    → (if b then x else y) ≡ (if c then x else z)
choose b c x y z e k = rw (e, k) refl

module _ (floats : Floats) where
  fetched-asset :
      (feed : PriceFeedConfig floats) (d : Decoded) (p : PriceData)
      → fetched floats feed d ≡ some p
      → p.asset_address ≡ feed.asset_address
  unfolding fetched
  fetched-asset feed (refused e) p k = absurd (none-ne-some p k)
  fetched-asset feed (round id price updated_at) p k =
      ap (λ (q : PriceData). q.asset_address) (sym (some-injective _ p k))

  module _ (outside : Outside floats) (chain_id : ℕ) where
    -- The price of the last feed of the asset that was fetched, else the one before.
    abbrev pub latest :
        ℕ
        → List (PriceFeedConfig floats)
        → List (FeedResult floats outside chain_id)
        → Option PriceData
        → Option PriceData
    latest b [] results old = old
    latest b (feed ∷ feeds) [] old = old
    latest b (feed ∷ feeds) (result ∷ results) old = latest b feeds results (elim result.price [
      | none ↦ old
      | some p ↦ if feed.asset_address == b then some p else old
    ])

  module _ (outside : Outside floats) (laws : CacheLaws floats outside) (chain_id : ℕ) where
    open outside use {World}
    open laws use {cached}

    fetch_price-asset :
        (feed : PriceFeedConfig floats) (w : World) (p : PriceData)
        → (fetch_price floats outside chain_id feed w).0 ≡ some p
        → p.asset_address ≡ feed.asset_address
    unfolding fetch_price
    fetch_price-asset feed w p e =
        elim (Option-cases (outside.call_contract feed.feed_address w).0) [
          | inl failed ↦ absurd (none-ne-some p (sym (rw failed refl) ∙ e))
          | inr (bs, answer) ↦
              fetched-asset feed (decode_latest_round_data bs) p (sym (rw answer refl) ∙ e)
        ]

    fetch_price-cached :
        (feed : PriceFeedConfig floats) (w : World) (b : ℕ)
        → cached (fetch_price floats outside chain_id feed w).1 b ≡ cached w b
    unfolding fetch_price
    fetch_price-cached feed w b = laws.call-cached feed.feed_address b w

    distribute-cached :
        (feed : PriceFeedConfig floats) (p : PriceData) (w : World) (b : ℕ)
        → cached (distribute floats outside chain_id feed p w) b
          ≡ (if p.asset_address == b then some p else cached w b)
    unfolding distribute
    distribute-cached feed p w b =
        let w1 = (cache_set floats outside p (ttl_seconds floats feed) w).1 in
        laws.save-cached chain_id p (outside.publish_price p w1).1 b
        ∙ laws.publish-cached p w1 b
        ∙ laws.set-cached p (ttl_seconds floats feed) w b

    update_feed-cached :
        (feed : PriceFeedConfig floats) (w : World) (b : ℕ)
        → (let (result, w1) = update_feed floats outside chain_id feed w in
            cached w1 b ≡ elim result.price [
              | none ↦ cached w b
              | some p ↦ if feed.asset_address == b then some p else cached w b
            ])
    unfolding update_feed fetch_price
    update_feed-cached feed w b =
        let w1 = (fetch_price floats outside chain_id feed w).1 in
        let same = fetch_price-cached feed w b in
        elim (Option-cases (fetch_price floats outside chain_id feed w).0) [
          | inl failed ↦ rw failed same
          | inr (p, e) ↦ rw e (
              distribute-cached feed p (cache_get floats outside feed.asset_address w1).1 b
              ∙ choose _ _ (some p) _ _ (ap (λ (a : ℕ). a == b) (fetch_price-asset feed w p e))
                  (laws.get-cached feed.asset_address b w1 ∙ same))
        ]

    -- After a round, the cache holds of each asset the price of the last of its feeds that was
    -- fetched, else what it held before; a feed that fails keeps none of the others from its turn.
    pub fetch_and_update-cached :
        (feeds : List (PriceFeedConfig floats)) (w : World) (b : ℕ)
        → (let (results, w1) = fetch_and_update floats outside chain_id feeds w in
            (length results ≡ length feeds)
            × (cached w1 b ≡ latest outside chain_id b feeds results (cached w b)))
    unfolding fetch_and_update
    fetch_and_update-cached [] w b = (refl, refl)
    fetch_and_update-cached (feed ∷ feeds) w b =
        let (result, w1) = update_feed floats outside chain_id feed w in
        let (size, rest) = fetch_and_update-cached feeds w1 b in
        (
          ground (arith, size),
          rest
              ∙ ap
                  (latest outside chain_id b feeds
                    (fetch_and_update floats outside chain_id feeds w1).0)
                  (update_feed-cached feed w b),
        )
