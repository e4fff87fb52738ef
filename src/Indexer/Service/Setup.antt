-- ===== src/Indexer/Service/Setup.antt =====
-- internal/indexer/service.go and the chains of common/config/config.go: NewService and Run.
-- An adapter is a value of any type. NewEventParser returns no error.
use defi_demo.Base.{
  ℕ, ◌≡◌, refl, sym, ap, ◌∙◌, Bool, true, false, Option, none, some, List, [], ◌∷◌, String, nat_eq,
  ◌==◌, ◌>>=◌, if◌then◌else◌, inl, inr, Option-cases, Bool-cases,
}
use defi_demo.Base.Assoc.{Map, lookup, insert, lookup-insert}
use defi_demo.Base.Int.{ℤ, pos, ◌*ℤ◌, div_ℤ, ltb_ℤ, to_int64}
use defi_demo.Indexer.Reorg.{Detector, new_detector}

pub record ChainConfig : Type 0 where
  pub name : String
  pub chain_id : ℕ
  pub rpc_urls : List String
  pub ws_url : String
  pub block_time : ℤ
  pub confirmations : ℤ
  pub lending_pool : String

-- `time.Second`, in nanoseconds.
abbrev pub second : ℤ
second = pos 1000000000

-- Half the block time, and at least a second: durations are int64. Go's quotient is truncated, but a
-- negative one is below a second.
unfoldable pub poll_interval : ChainConfig → ℤ
poll_interval cfg =
    let half = div_ℤ (to_int64 (cfg.block_time *ℤ second)) (pos 2) in
    if ltb_ℤ half second then second else half

module _ {ℓ} (Adapter : Type ℓ) where
  pub record ChainIndexer : Type ℓ where
    pub adapter : Adapter
    pub listener_interval : ℤ
    pub detector : Detector
    pub cfg : ChainConfig

  unfoldable pub chain_indexer : Adapter → ChainConfig → ChainIndexer
  chain_indexer adapter cfg = record {
    adapter = adapter;
    listener_interval = poll_interval cfg;
    detector = new_detector (to_int64 (cfg.confirmations *ℤ pos 2));
    cfg = cfg;
  }

  -- The loop over the configurations; `none` is the error of a chain without an adapter.
  unfoldable pub add_chains :
      Map ℕ Adapter → List ChainConfig → Map ℕ ChainIndexer → Option (Map ℕ ChainIndexer)
  add_chains adapters [] chains = some chains
  add_chains adapters (cfg ∷ configs) chains = elim (lookup cfg.chain_id adapters) [
    | none ↦ none
    | some adapter ↦
        add_chains adapters configs (insert cfg.chain_id (chain_indexer adapter cfg) chains)
  ]

  unfoldable pub new_service : Map ℕ Adapter → List ChainConfig → Option (Map ℕ ChainIndexer)
  new_service adapters configs = add_chains adapters configs []

  -- The last configuration of a chain.
  abbrev pub config_of : ℕ → List ChainConfig → Option ChainConfig → Option ChainConfig
  config_of c [] found = found
  config_of c (cfg ∷ configs) found =
      config_of c configs (if cfg.chain_id == c then some cfg else found)

  -- Every configured chain has an adapter.
  abbrev pub adapted : Map ℕ Adapter → List ChainConfig → Bool
  adapted adapters [] = true
  adapted adapters (cfg ∷ configs) = elim (lookup cfg.chain_id adapters) [
    | none ↦ false
    | some a ↦ adapted adapters configs
  ]

  abbrev pub indexer_of : ℕ → Map ℕ Adapter → Option ChainConfig → Option ChainIndexer
  indexer_of c adapters none = none
  indexer_of c adapters (some cfg) = elim (lookup c adapters) [
    | none ↦ none
    | some a ↦ some (chain_indexer a cfg)
  ]

  added :
      (adapters : Map ℕ Adapter) (cfg : ChainConfig) (adapter : Adapter)
      (chains : Map ℕ ChainIndexer) (c : ℕ) (found : Option ChainConfig)
      → lookup cfg.chain_id adapters ≡ some adapter
      → lookup c chains ≡ indexer_of c adapters found
      → lookup c (insert cfg.chain_id (chain_indexer adapter cfg) chains)
        ≡ indexer_of c adapters (if cfg.chain_id == c then some cfg else found)
  added adapters cfg adapter chains c found known e =
      lookup-insert cfg.chain_id c (chain_indexer adapter cfg) chains
      ∙ elim (Bool-cases (cfg.chain_id == c)) [
        | inr other ↦ rw other e
        | inl same ↦
            let own : lookup c adapters ≡ some adapter =
              ap (λ (x : ℕ). lookup x adapters) (sym ((nat_eq.beq_iff cfg.chain_id c).0 same))
              ∙ known in
            rw (same, indexer_of, own) refl
      ]

  add_chains-lookup :
      (adapters : Map ℕ Adapter) (configs : List ChainConfig) (chains : Map ℕ ChainIndexer) (c : ℕ)
      (found : Option ChainConfig)
      → lookup c chains ≡ indexer_of c adapters found
      → (add_chains adapters configs chains >>= λ (m : Map ℕ ChainIndexer). some (lookup c m)) ≡ (
          if adapted adapters configs
          then some (indexer_of c adapters (config_of c configs found))
          else none)
  unfolding add_chains
  add_chains-lookup adapters [] chains c found e = ap some e
  add_chains-lookup adapters (cfg ∷ configs) chains c found e =
      elim (Option-cases (lookup cfg.chain_id adapters)) [
        | inl missing ↦ rw (add_chains, adapted, missing) refl
        | inr (adapter, known) ↦
            rw (add_chains, adapted, known)
              (add_chains-lookup adapters configs
                (insert cfg.chain_id (chain_indexer adapter cfg) chains) c
                (if cfg.chain_id == c then some cfg else found)
                (added adapters cfg adapter chains c found known e))
      ]

  -- The service is created exactly if every configured chain has an adapter, and then has for each
  -- chain the indexer of its last configuration, and no other.
  pub new_service_lem :
      (adapters : Map ℕ Adapter) (configs : List ChainConfig) (c : ℕ)
      → (new_service adapters configs >>= λ (m : Map ℕ ChainIndexer). some (lookup c m)) ≡ (
          if adapted adapters configs
          then some (indexer_of c adapters (config_of c configs none))
          else none)
  unfolding new_service lookup
  new_service_lem adapters configs c = add_chains-lookup adapters configs [] c none refl

-- The listener of a chain ticks at most once in a second.
pub poll_interval_least : (cfg : ChainConfig) → ltb_ℤ (poll_interval cfg) second ≡ false
unfolding poll_interval
poll_interval_least cfg =
    let half = div_ℤ (to_int64 (cfg.block_time *ℤ second)) (pos 2) in
    elim (Bool-cases (ltb_ℤ half second)) [
      | inl short ↦ rw short refl
      | inr long ↦ rw (long, long) refl
    ]
