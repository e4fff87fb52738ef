-- ===== src/Types.antt =====
-- internal/common/types/types.go: the values that the components exchange. Hashes and addresses are
-- the numbers that their bytes spell; a chain id and a time are opaque numbers.
use defi_demo.Base.{ℕ, String, Option}
use defi_demo.Base.Assoc.{Map}

pub data EventType : Type 0 where
  deposit withdraw borrow repay liquidation reserve_data_updated accrue_interest : EventType

pub record BlockHeader : Type 0 where
  pub chain_id : ℕ
  pub number : ℕ
  pub hash : ℕ
  pub parent_hash : ℕ
  pub timestamp : ℕ

-- `data` holds numbers and addresses, which the code prints as text.
pub record ChainEvent : Type 0 where
  pub chain_id : ℕ
  pub block_number : ℕ
  pub tx_hash : ℕ
  pub log_index : ℕ
  pub event_type : EventType
  pub contract_address : ℕ
  pub user_address : ℕ
  pub market_address : ℕ
  pub amount : Option ℕ
  pub payload : Map String ℕ
  pub timestamp : ℕ
