-- ===== src/Oracle/Reads.antt =====
-- internal/oracle/service.go and cache.go: reads of the cache after a round over the feeds.
use defi_demo.Base.{
  ℕ, ◌≡◌, refl, ap, ◌∙◌, Bool, true, false, Option, none, some, List, [], ◌∷◌, nat_eq, ◌==◌, ◌||◌,
  if◌then◌else◌, inl, inr, Bool-cases,
}
use defi_demo.Base.Assoc.{Map, lookup, insert, lookup-insert}
use defi_demo.Base.Floats.{Floats}
use defi_demo.Oracle.{
  cache_get, PriceData, PriceFeedConfig, Outside, fetch_and_update, prices_into, get_prices,
}
use defi_demo.Oracle.Stored.{RedisLaws, price_in, cache_laws}
use defi_demo.Oracle.Rounds.{CacheLaws, latest, fetch_and_update-cached}

-- The price, or else what was there.
abbrev pub or_else : Option PriceData → Option PriceData → Option PriceData
or_else none old = old
or_else (some p) old = some p

or_else-none : (o : Option PriceData) → or_else o none ≡ o
or_else-none none = refl
or_else-none (some p) = refl

found_lem :
    (a b : ℕ) (o : Option PriceData) (found : Map ℕ PriceData)
    → lookup b (elim o [ none ↦ found | some p ↦ insert a p found ])
      ≡ (if a == b then or_else o (lookup b found) else lookup b found)
found_lem a b none found = elim (Bool-cases (a == b)) [
  | inl same ↦ rw same refl
  | inr other ↦ rw other refl
]
found_lem a b (some p) found = lookup-insert a b p found

merge :
    (x asked : Bool) (o old now : Option PriceData)
    → now ≡ (if x then or_else o old else old)
    → (if asked then or_else o now else now) ≡ (if x || asked then or_else o old else old)
merge true true none old now k = k
merge true true (some p) old now k = refl
merge true false o old now k = k
merge false true none old now k = k
merge false true (some p) old now k = refl
merge false false o old now k = k

-- The asset is among those asked for.
abbrev pub asked_for : ℕ → List ℕ → Bool
asked_for b [] = false
asked_for b (a ∷ assets) = (a == b) || asked_for b assets

module _ (floats : Floats) (outside : Outside floats) (laws : CacheLaws floats outside)
    (chain_id : ℕ) where
  open outside use {World}
  open laws use {cached}

  same_asset :
      (a b : ℕ) (o old : Option PriceData) (w : World)
      → o ≡ cached w a
      → (if a == b then or_else o old else old) ≡ (if a == b then or_else (cached w b) old else old)
  same_asset a b o old w e = elim (Bool-cases (a == b)) [
    | inr other ↦ rw other refl
    | inl same ↦
        let at : o ≡ cached w b = e ∙ ap (λ (x : ℕ). cached w x) ((nat_eq.beq_iff a b).0 same) in
        ap (λ (p : Option PriceData). if a == b then or_else p old else old) at
  ]

  prices_into-lookup :
      (found : Map ℕ PriceData) (assets : List ℕ) (w : World) (b : ℕ)
      → lookup b (prices_into floats outside chain_id found assets w).0
        ≡ (if asked_for b assets then or_else (cached w b) (lookup b found) else lookup b found)
  unfolding prices_into
  prices_into-lookup found [] w b = refl
  prices_into-lookup found (a ∷ assets) w b =
      let (price, w1) = cache_get floats outside a w in
      let found1 : Map ℕ PriceData = elim price [ none ↦ found | some p ↦ insert a p found ] in
      let first : lookup b found1
          ≡ (if a == b then or_else (cached w b) (lookup b found) else lookup b found) =
        found_lem a b price found ∙ same_asset a b price (lookup b found) w (laws.get-value a w) in
      prices_into-lookup found1 assets w1 b
      ∙ ap
          (λ (o : Option PriceData).
            if asked_for b assets then or_else o (lookup b found1) else lookup b found1)
          (laws.get-cached a b w)
      ∙ merge (a == b) (asked_for b assets) (cached w b) (lookup b found) (lookup b found1) first

  get_prices-cached :
      (feeds : List (PriceFeedConfig floats)) (assets : List ℕ) (w : World) (b : ℕ)
      → (let (results, w1) = fetch_and_update floats outside chain_id feeds w in
          lookup b (get_prices floats outside chain_id assets w1).0 ≡ (
            if asked_for b assets
            then latest floats outside chain_id b feeds results (cached w b)
            else none))
  unfolding get_prices lookup
  get_prices-cached feeds assets w b =
      let w1 = (fetch_and_update floats outside chain_id feeds w).1 in
      prices_into-lookup [] assets w1 b
      ∙ ap (λ (o : Option PriceData). if asked_for b assets then o else none)
          (or_else-none (cached w1 b)
            ∙ (fetch_and_update-cached floats outside laws chain_id feeds w b).1)

-- When Redis answers with what was last set under a key, no value expires and no write fails in the
-- meantime, JSON decodes to the price that it encodes and the texts of addresses differ, reading
-- prices after a round over the feeds gives, of each asset asked for, the price of the last of its
-- feeds that was fetched, else the price that the cache held before, if any, and gives no other
-- price; what becomes of publishing and saving does not matter.
pub get_prices-fetch_and_update :
    (floats : Floats) (outside : Outside floats) (laws : RedisLaws floats outside) (chain_id : ℕ)
    (feeds : List (PriceFeedConfig floats)) (assets : List ℕ) (w : outside.World) (b : ℕ)
    → (let (results, w1) = fetch_and_update floats outside chain_id feeds w in
        lookup b (get_prices floats outside chain_id assets w1).0 ≡ (
          if asked_for b assets
          then latest floats outside chain_id b feeds results (price_in floats outside laws w b)
          else none))
get_prices-fetch_and_update floats outside laws chain_id =
    get_prices-cached floats outside (cache_laws floats outside laws) chain_id
