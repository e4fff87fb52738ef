-- ===== src/Examples/Markets.antt =====
-- A listing read through a cache, on concrete values.
use defi_demo.Base.{
  ℕ, ◌≡◌, refl, inl, inr, Option, none, some, List, [], ◌∷◌, arith, Bool-cases, if◌then◌else◌, ◌==◌,
}
use defi_demo.Base.Int.{ℤ, pos}
use defi_demo.Base.Texts.{Text, codes, text_eq, text_beq_iff}
use defi_demo.Market.{MarketInfo, MarketStateInfo, Stores, Json, list_markets}
use defi_demo.Market.Cached.{IsCache, IsJson, IsHonest, Answers, list_markets-IsHonest}

-- The database knows empty listings and no markets; the cache holds what was set last.
abbrev stores : Stores
stores = record {
  World = Option (Text × Text);
  list_markets = λ (chain_id : ℤ) (w : Option (Text × Text)). some [];
  get_market_state = λ (market_id : ℤ) (w : Option (Text × Text)). none;
  get_market_snapshots =
      λ (market_id : ℤ) (period interval : Text) (w : Option (Text × Text)). none;
  get = λ (key : Text) (w : Option (Text × Text)). (elim w [
    | none ↦ none
    | some (k, text) ↦ if k == key then some text else none
  ]);
  set = λ (key text : Text) (ttl : ℕ) (w : Option (Text × Text)). some (key, text);
}

found_same : (a b : Text) → some a ≡ some b → a ≡ b
found_same a b h = ground arith

stores-IsCache : IsCache stores
stores-IsCache key other text found ttl w h = elim (Bool-cases (key == other)) [
  | inl same ↦ inl ((text_beq_iff key other).0 same, found_same text found (rw same at h))
  | inr differ ↦ let bad : none ≡ some found = rw differ at h in absurd (ground arith)
]

abbrev lists : Json (List MarketInfo)
lists = record {
  marshal = λ (v : List MarketInfo). (elim v [ [] ↦ some (codes "[]") | m ∷ ms ↦ none ]);
  unmarshal = λ (t : Text). (if t == codes "[]" then some [] else none);
}

lists_law : IsJson (List MarketInfo) lists
lists_law [] text h = ground (arith, text_beq_iff text (codes "[]"))
lists_law (m ∷ ms) text h = absurd (ground arith)

abbrev details : Json MarketStateInfo
details = record { marshal = λ (v : MarketStateInfo). none; unmarshal = λ (t : Text). none }

details_law : IsJson MarketStateInfo details
details_law v text h = absurd (ground arith)

abbrev IsEmptyListing : ℤ → List MarketInfo → Type 0
IsEmptyListing chain_id v = v ≡ []

abbrev Unstated : ℤ → MarketStateInfo → Type 0
Unstated market_id v = ⊥

empty-IsHonest : IsHonest stores lists details IsEmptyListing Unstated none
empty-IsHonest = record {
  listed = λ chain_id text value small g u. absurd (ground arith);
  stated = λ market_id text value small g u. absurd (ground arith);
}

answers : (c : ℤ) (v : List MarketInfo) → stores.list_markets c none ≡ some v → IsEmptyListing c v
answers c [] h = refl
answers c (m ∷ ms) h = absurd (ground arith)

list_markets-IsHonest_example :
    Answers (IsEmptyListing (pos 1)) (list_markets stores lists (pos 1) none).0
    × IsHonest stores lists details IsEmptyListing Unstated
        (list_markets stores lists (pos 1) none).1
list_markets-IsHonest_example =
    list_markets-IsHonest stores lists details IsEmptyListing Unstated stores-IsCache lists_law
      details_law (pos 1) none answers (omega arith) empty-IsHonest
