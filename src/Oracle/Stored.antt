-- ===== src/Oracle/Stored.antt =====
-- internal/oracle/cache.go: the prices that Redis stores.
use defi_demo.Base.{
  ℕ, ◌≡◌, refl, sym, ap, ◌∙◌, true, false, Option, none, some, nat_eq, ◌==◌, if◌then◌else◌, arith,
  inl, inr, Bool-cases, Option-cases,
}
use mathlib.Core.List.{append_cancel_left}
use defi_demo.Base.Assoc.{beq_refl}
use defi_demo.Base.Texts.{Text, codes, text_eq, text_beq_iff}
use defi_demo.Base.Floats.{Floats}
use defi_demo.Base.Int.{ℤ}
use defi_demo.Oracle.{PriceData, Outside, price_key, cache_get, cache_set}
use defi_demo.Oracle.Rounds.{CacheLaws}

-- What is relied on in a round: Redis answers with what was last set under a key, and sets nothing
-- under another; no value expires and no write fails; JSON decodes to the price that it encodes, and
-- the texts of addresses differ. The other systems leave Redis alone.
pub record RedisLaws (floats : Floats) (outside : Outside floats) : Type 1 where
  pub stored : outside.World → Text → Option Text
  pub hex-injective : (a b : ℕ) → outside.hex a ≡ outside.hex b → a ≡ b
  pub encoded :
      (p : PriceData)
      → (text : Text) × (outside.marshal p ≡ some text) × (outside.unmarshal text ≡ some p)
  pub get-value : (key : Text) (w : outside.World) → (outside.redis_get key w).0 ≡ stored w key
  pub get-stored :
      (key other : Text) (w : outside.World)
      → stored (outside.redis_get key w).1 other ≡ stored w other
  pub set-stored :
      (key text other : Text) (ttl : ℤ) (w : outside.World)
      → stored (outside.redis_set key text ttl w).1 other
        ≡ (if key == other then some text else stored w other)
  pub call-stored :
      (feed : ℕ) (key : Text) (w : outside.World)
      → stored (outside.call_contract feed w).1 key ≡ stored w key
  pub publish-stored :
      (p : PriceData) (key : Text) (w : outside.World)
      → stored (outside.publish_price p w).1 key ≡ stored w key
  pub save-stored :
      (c : ℕ) (p : PriceData) (key : Text) (w : outside.World)
      → stored (outside.save_price c p w).1 key ≡ stored w key

module _ (floats : Floats) (outside : Outside floats) (laws : RedisLaws floats outside) where
  open outside use {World, unmarshal}
  open laws use {stored}

  abbrev pub decoded : Option Text → Option PriceData
  decoded none = none
  decoded (some text) = unmarshal text

  -- The price of an asset in the cache.
  abbrev pub price_in : World → ℕ → Option PriceData
  price_in w a = decoded (stored w (price_key floats outside a))

  key_apart :
      (a b : ℕ)
      → (a == b) ≡ false
      → (price_key floats outside a == price_key floats outside b) ≡ false
  key_apart a b other =
      elim (Bool-cases (price_key floats outside a == price_key floats outside b)) [
        | inr apart ↦ apart
        | inl same ↦
            let keys =
              (text_beq_iff (price_key floats outside a) (price_key floats outside b)).0 same in
            let e =
              laws.hex-injective a b
                (append_cancel_left (codes "price:") (outside.hex a) (outside.hex b) keys) in
            absurd (ground (arith, other, (nat_eq.beq_iff a b).1 e))
      ]

  pub cache_get-value : (a : ℕ) (w : World) → (cache_get floats outside a w).0 ≡ price_in w a
  unfolding cache_get
  cache_get-value a w = elim (Option-cases (outside.redis_get (price_key floats outside a) w).0) [
    | inl e ↦ rw e (ap decoded (sym e ∙ laws.get-value (price_key floats outside a) w))
    | inr (text, e) ↦ rw e (ap decoded (sym e ∙ laws.get-value (price_key floats outside a) w))
  ]

  pub cache_get-price_in :
      (a b : ℕ) (w : World) → price_in (cache_get floats outside a w).1 b ≡ price_in w b
  unfolding cache_get
  cache_get-price_in a b w =
      ap decoded (laws.get-stored (price_key floats outside a) (price_key floats outside b) w)

  pub cache_set-price_in :
      (p : PriceData) (ttl : ℤ) (w : World) (b : ℕ)
      → price_in (cache_set floats outside p ttl w).1 b
        ≡ (if p.asset_address == b then some p else price_in w b)
  unfolding cache_set
  cache_set-price_in p ttl w b =
      let (text, e, d) = laws.encoded p in
      let key = price_key floats outside p.asset_address in
      let after = ap decoded (laws.set-stored key text (price_key floats outside b) ttl w) in
      elim (Bool-cases (p.asset_address == b)) [
        | inl same ↦
            let keys : (key == price_key floats outside b) ≡ true =
              ap (λ (a : ℕ). key == price_key floats outside a)
                (sym ((nat_eq.beq_iff p.asset_address b).0 same))
              ∙ beq_refl key in
            rw (cache_set, e, same) (after ∙ rw keys d)
        | inr other ↦ rw (cache_set, e, other) (after ∙ rw (key_apart p.asset_address b other) refl)
      ]

  abbrev pub cache_laws : CacheLaws floats outside
  cache_laws = record {
    cached = price_in;
    get-value = cache_get-value;
    get-cached = cache_get-price_in;
    set-cached = cache_set-price_in;
    call-cached = λ feed b w. ap decoded (laws.call-stored feed (price_key floats outside b) w);
    publish-cached = λ p w b. ap decoded (laws.publish-stored p (price_key floats outside b) w);
    save-cached = λ c p w b. ap decoded (laws.save-stored c p (price_key floats outside b) w);
  }
