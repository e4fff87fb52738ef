-- ===== src/Indexer/Parser.antt =====
-- internal/indexer/parser/event_parser.go: logs into events.
-- A hash or a topic is a number, `log.Data` a list of bytes. `Data` holds numbers and addresses
-- where the code stores their decimal or hexadecimal text. A map is iterated in list order.
pub mod Layout
use defi_demo.Base.{
  ◌≡◌, refl, ◌⊎◌, inl, inr, ℕ, Option, none, some, List, [], ◌∷◌, String, map, string_eq, nat_eq,
  leb, if◌then◌else◌, length, take, drop, get_elem?,
}
use defi_demo.Base.Assoc.{Map, lookup, insert}
use defi_demo.Base.Bytes.{from_bytes}
use defi_demo.Types.{
  EventType, deposit, withdraw, borrow, repay, liquidation, reserve_data_updated, accrue_interest,
  ChainEvent,
}

-- go-ethereum's hash function and its conversion of a topic to an address.
pub record Ethereum : Type 0 where
  pub keccak256_hash : String → ℕ
  pub hex_to_address : ℕ → ℕ

-- `types.Log` of go-ethereum.
pub record Log : Type 0 where
  pub address : ℕ
  pub topics : List ℕ
  pub bytes : List ℕ
  pub block_number : ℕ
  pub tx_hash : ℕ
  pub index : ℕ

pub data ParseError : Type 0 where
  unknown_event too_few_topics : ParseError

pub data Parsed : Type 0 where
  event : ChainEvent → Parsed
  failed : ParseError → Parsed

pub Parsed-cases :
    (p : Parsed) → ((e : ChainEvent) × (p ≡ event e)) ⊎ ((x : ParseError) × (p ≡ failed x))
Parsed-cases (event e) = inl (e, refl)
Parsed-cases (failed x) = inr (x, refl)

abbrev pub event_defs : List (EventType × String)
event_defs =
    (deposit, "Deposit(address,address,uint256)")
    ∷ (withdraw, "Withdraw(address,address,uint256)")
    ∷ (borrow, "Borrow(address,address,uint256)")
    ∷ (repay, "Repay(address,address,uint256)")
    ∷ (liquidation, "LiquidationCall(address,address,address,uint256,uint256)")
    ∷ (reserve_data_updated, "ReserveDataUpdated(address,uint256,uint256,uint256,uint256)")
    ∷ (accrue_interest, "AccrueInterest(uint256,uint256,uint256)")
    ∷ []

-- `data[32 * i : 32 * (i + 1)]` as a number.
abbrev pub word_at : ℕ → List ℕ → ℕ
word_at offset bs = from_bytes (take 32 (drop offset bs))

module _ (eth : Ethereum) where
  open eth use {keccak256_hash, hex_to_address}

  -- NewEventParser's loop.
  unfoldable pub register : List (EventType × String) → Map ℕ EventType → Map ℕ EventType
  register [] m = m
  register ((ty, sig) ∷ defs) m = register defs (insert (keccak256_hash sig) ty m)

  unfoldable pub sig_to_type : Map ℕ EventType
  sig_to_type = register event_defs []

  abbrev pub all_signatures : List ℕ
  all_signatures = map (λ e. e.0) sig_to_type

  unfoldable pub topic_address : ℕ → List ℕ → ℕ
  topic_address i topics = elim (get_elem? topics i) [ some t ↦ hex_to_address t | none ↦ 0 ]

  unfoldable pub parse_simple_event : Log → ChainEvent → Parsed
  parse_simple_event log ev =
      if leb 3 (length log.topics)
      then event (record ev {
        market_address = topic_address 1 log.topics;
        user_address = topic_address 2 log.topics;
        amount = if leb 32 (length log.bytes) then some (word_at 0 log.bytes) else ev.amount;
      })
      else failed too_few_topics

  unfoldable pub parse_liquidation_event : Log → ChainEvent → Parsed
  parse_liquidation_event log ev =
      if leb 4 (length log.topics)
      then (let assets =
            insert "debt_asset" (topic_address 2 log.topics)
              (insert "collateral_asset" (topic_address 1 log.topics) ev.payload) in
          let full = leb 64 (length log.bytes) in
          event (record ev {
            user_address = topic_address 3 log.topics;
            amount = if full then some (word_at 0 log.bytes) else ev.amount;
            payload =
                if full then insert "collateral_seized" (word_at 32 log.bytes) assets else assets;
          }))
      else failed too_few_topics

  unfoldable pub parse_reserve_data_updated : Log → ChainEvent → Parsed
  parse_reserve_data_updated log ev =
      if leb 2 (length log.topics)
      then event (record ev {
        market_address = topic_address 1 log.topics;
        payload =
            if leb 128 (length log.bytes)
            then insert "liquidity_index" (word_at 96 log.bytes) (
                insert "variable_borrow_rate" (word_at 64 log.bytes) (
                  insert "stable_borrow_rate" (word_at 32 log.bytes)
                    (insert "liquidity_rate" (word_at 0 log.bytes) ev.payload)))
            else ev.payload;
      })
      else failed too_few_topics

  unfoldable pub parse_accrue_interest : Log → ChainEvent → Parsed
  parse_accrue_interest log ev = event (record ev {
    payload =
        if leb 96 (length log.bytes)
        then insert "borrow_index" (word_at 64 log.bytes) (
            insert "interest_accumulated" (word_at 32 log.bytes)
              (insert "cash_prior" (word_at 0 log.bytes) ev.payload))
        else ev.payload;
  })

  -- The `switch` on the event type.
  unfoldable pub parse_body : EventType → Log → ChainEvent → Parsed
  parse_body deposit log ev = parse_simple_event log ev
  parse_body withdraw log ev = parse_simple_event log ev
  parse_body borrow log ev = parse_simple_event log ev
  parse_body repay log ev = parse_simple_event log ev
  parse_body liquidation log ev = parse_liquidation_event log ev
  parse_body reserve_data_updated log ev = parse_reserve_data_updated log ev
  parse_body accrue_interest log ev = parse_accrue_interest log ev

  -- The fields that every event gets; `now` is the clock.
  abbrev pub blank_event : ℕ → ℕ → Log → EventType → ChainEvent
  blank_event chain_id now log ty = record {
    chain_id = chain_id;
    block_number = log.block_number;
    tx_hash = log.tx_hash;
    log_index = log.index;
    event_type = ty;
    contract_address = log.address;
    user_address = 0;
    market_address = 0;
    amount = none;
    payload = [];
    timestamp = now;
  }

  unfoldable pub parse_log : ℕ → ℕ → Log → Parsed
  parse_log chain_id now log = elim log.topics [
    | [] ↦ failed unknown_event
    | topic ∷ _ ↦ elim (lookup topic sig_to_type) [
      | none ↦ failed unknown_event
      | some ty ↦ parse_body ty log (blank_event chain_id now log ty)
    ]
  ]
