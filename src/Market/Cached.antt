-- ===== src/Market/Cached.antt =====
-- internal/market/service.go: what the cache may answer.
use defi_demo.Base.{
  ℕ, ◌≡◌, refl, ap, sym, subst, ◌∙◌, ◌⊎◌, inl, inr, Option, none, some, List, arith, Option-cases,
  take, drop,
}
use defi_demo.Base.Int.{ℤ}
use defi_demo.Base.Texts.{Text}
use defi_demo.Base.Numerals.{IsInt64, signed_decimal-injective}
use defi_demo.Market.{
  MarketInfo, MarketStateInfo, Stores, Json, list_key, detail_key, cached, list_markets,
  get_market_detail,
}

-- A text that the cache returns after a write is the written one, if it was asked for by the written
-- key, or one that it returned before: entries may expire at any time.
abbrev pub IsCache : Stores → Type 0
IsCache stores =
    (key other text found : Text) (ttl : ℕ) (w : stores.World)
    → stores.get other (stores.set key text ttl w) ≡ some found
    → ((key ≡ other) × (text ≡ found)) ⊎ (stores.get other w ≡ some found)

-- Encoding loses nothing.
abbrev pub IsJson : (A : Type 0) → Json A → Type 0
IsJson A json = (a : A) (text : Text) → json.marshal a ≡ some text → json.unmarshal text ≡ some a

some_injective : {A : Type 0} (a b : A) → some a ≡ some b → a ≡ b
some_injective {A} a b h = ap (λ (o : Option A). elim o [ none ↦ a | some x ↦ x ]) h

list_key-injective : (a b : ℤ) → IsInt64 a → IsInt64 b → list_key a ≡ list_key b → a ≡ b
list_key-injective a b h k e = signed_decimal-injective a b h k (ap (drop 13) e)

detail_key-injective : (a b : ℤ) → IsInt64 a → IsInt64 b → detail_key a ≡ detail_key b → a ≡ b
detail_key-injective a b h k e = signed_decimal-injective a b h k (ap (drop 15) e)

list_key-ne-detail_key : (a b : ℤ) → list_key a ≡ detail_key b → ⊥
list_key-ne-detail_key a b e = ground (arith, ap (λ (t : Text). take 9 t) e)

-- An error, or an answer of which `P` holds.
abbrev pub Answers : {A : Type 0} → (A → Type 0) → Option A → Type 0
Answers P none = Unit {0}
Answers P (some value) = P value

-- The four ways that a read through the cache ends.
data Ways {A : Type 0} (stores : Stores) (json : Json A) (key : Text) (ttl : ℕ)
    (query : stores.World → Option A) (w : stores.World) (result : Option A × stores.World)
    : Type 0 where
  hit :
      (text : Text) (value : A)
      → stores.get key w ≡ some text
      → json.unmarshal text ≡ some value
      → result ≡ (some value, w)
      → Ways stores json key ttl query w result
  failed : result ≡ (none, w) → Ways stores json key ttl query w result
  uncached :
      (value : A)
      → query w ≡ some value
      → result ≡ (some value, w)
      → Ways stores json key ttl query w result
  stored :
      (text : Text) (value : A)
      → query w ≡ some value
      → json.marshal value ≡ some text
      → result ≡ (some value, stores.set key text ttl w)
      → Ways stores json key ttl query w result

module _ {A : Type 0} (stores : Stores) (json : Json A) (key : Text) (ttl : ℕ)
    (query : stores.World → Option A) (w : stores.World) where
  asked : Option A × stores.World
  asked = elim (query w) [
    | none ↦ (none, w)
    | some found ↦ elim (json.marshal found) [
      | none ↦ (some found, w)
      | some text ↦ (some found, stores.set key text ttl w)
    ]
  ]

  asked-Ways : (r : Option A × stores.World) → r ≡ asked → Ways stores json key ttl query w r
  unfolding asked
  asked-Ways r e = elim (Option-cases (query w)) [
    | inl missing ↦ Ways.failed (e ∙ rw (asked, missing) refl)
    | inr (value, q) ↦ elim (Option-cases (json.marshal value)) [
      | inl unmarked ↦ Ways.uncached value q (e ∙ rw (asked, q, unmarked) refl)
      | inr (text, m) ↦ Ways.stored text value q m (e ∙ rw (asked, q, m) refl)
    ]
  ]

  cached-Ways : Ways stores json key ttl query w (cached stores json key ttl query w)
  unfolding cached asked
  cached-Ways = elim (Option-cases (stores.get key w)) [
    | inl missing ↦ asked-Ways _ (rw (cached, missing) refl)
    | inr (text, g) ↦ elim (Option-cases (json.unmarshal text)) [
      | inl garbled ↦ asked-Ways _ (rw (cached, g, garbled) refl)
      | inr (value, u) ↦ Ways.hit text value g u (rw (cached, g, u) refl)
    ]
  ]

module _ (stores : Stores) (lists : Json (List MarketInfo)) (details : Json MarketStateInfo)
    (Listed : ℤ → List MarketInfo → Type 0) (Stated : ℤ → MarketStateInfo → Type 0) where
  -- Each listing and each state in the cache stands under the key of a chain or market that it is an
  -- answer for.
  pub record IsHonest (w : stores.World) : Type 0 where
    pub listed :
        (chain_id : ℤ) (text : Text) (value : List MarketInfo)
        → IsInt64 chain_id
        → stores.get (list_key chain_id) w ≡ some text
        → lists.unmarshal text ≡ some value
        → Listed chain_id value
    pub stated :
        (market_id : ℤ) (text : Text) (value : MarketStateInfo)
        → IsInt64 market_id
        → stores.get (detail_key market_id) w ≡ some text
        → details.unmarshal text ≡ some value
        → Stated market_id value

  module _ (cache : IsCache stores) (lists_law : IsJson (List MarketInfo) lists)
      (details_law : IsJson MarketStateInfo details) where
    stored_list :
        (chain_id : ℤ) (text : Text) (value : List MarketInfo) (w : stores.World)
        → IsInt64 chain_id
        → IsHonest w
        → Listed chain_id value
        → lists.marshal value ≡ some text
        → IsHonest (stores.set (list_key chain_id) text 30 w)
    stored_list chain_id text value w small honest known m = record {
      listed = λ other t v size g u.
          elim (cache (list_key chain_id) (list_key other) text t 30 w g) [
            | inr earlier ↦ honest.listed other t v size earlier u
            | inl (key, same) ↦
                let chain = list_key-injective chain_id other small size key in
                subst (λ (c : ℤ). Listed c v) chain
                  (subst (Listed chain_id)
                    (some_injective value v
                      (sym (lists_law value text m) ∙ (ap lists.unmarshal same ∙ u)))
                    known)
          ];
      stated = λ other t v size g u.
          elim (cache (list_key chain_id) (detail_key other) text t 30 w g) [
            | inr earlier ↦ honest.stated other t v size earlier u
            | inl (key, same) ↦ absurd (list_key-ne-detail_key chain_id other key)
          ];
    }

    stored_state :
        (market_id : ℤ) (text : Text) (value : MarketStateInfo) (w : stores.World)
        → IsInt64 market_id
        → IsHonest w
        → Stated market_id value
        → details.marshal value ≡ some text
        → IsHonest (stores.set (detail_key market_id) text 10 w)
    stored_state market_id text value w small honest known m = record {
      listed = λ other t v size g u.
          elim (cache (detail_key market_id) (list_key other) text t 10 w g) [
            | inr earlier ↦ honest.listed other t v size earlier u
            | inl (key, same) ↦ absurd (list_key-ne-detail_key other market_id (sym key))
          ];
      stated = λ other t v size g u.
          elim (cache (detail_key market_id) (detail_key other) text t 10 w g) [
            | inr earlier ↦ honest.stated other t v size earlier u
            | inl (key, same) ↦
                let market = detail_key-injective market_id other small size key in
                subst (λ (c : ℤ). Stated c v) market
                  (subst (Stated market_id)
                    (some_injective value v
                      (sym (details_law value text m) ∙ (ap details.unmarshal same ∙ u)))
                    known)
          ];
    }

    -- Whatever the cache forgets, ListMarkets answers with an error or with a listing of this
    -- chain, if the database and the cache hold for each chain only listings of it, and for each
    -- market only states of it; and the cache is left as honest.
    pub list_markets-IsHonest :
        (chain_id : ℤ) (w : stores.World)
        → ((c : ℤ) (v : List MarketInfo) → stores.list_markets c w ≡ some v → Listed c v)
        → IsInt64 chain_id
        → IsHonest w
        → Answers (Listed chain_id) (list_markets stores lists chain_id w).0
          × IsHonest (list_markets stores lists chain_id w).1
    unfolding list_markets
    list_markets-IsHonest chain_id w answers small honest =
        elim (cached-Ways stores lists (list_key chain_id) 30 (stores.list_markets chain_id) w) [
          | hit text value g u e ↦ rw e (honest.listed chain_id text value small g u, honest)
          | failed e ↦ rw e (tt, honest)
          | uncached value q e ↦ rw e (answers chain_id value q, honest)
          | stored text value q m e ↦
              let known = answers chain_id value q in
              rw e (known, stored_list chain_id text value w small honest known m)
        ]

    -- The same of GetMarketDetail and the states of a market.
    pub get_market_detail-IsHonest :
        (market_id : ℤ) (w : stores.World)
        → ((i : ℤ) (v : MarketStateInfo) → stores.get_market_state i w ≡ some v → Stated i v)
        → IsInt64 market_id
        → IsHonest w
        → Answers (Stated market_id) (get_market_detail stores details market_id w).0
          × IsHonest (get_market_detail stores details market_id w).1
    unfolding get_market_detail
    get_market_detail-IsHonest market_id w answers small honest =
        elim (cached-Ways stores details (detail_key market_id) 10
          (stores.get_market_state market_id) w) [
            | hit text value g u e ↦ rw e (honest.stated market_id text value small g u, honest)
            | failed e ↦ rw e (tt, honest)
            | uncached value q e ↦ rw e (answers market_id value q, honest)
            | stored text value q m e ↦
                let known = answers market_id value q in
                rw e (known, stored_state market_id text value w small honest known m)
          ]
