-- ===== src/Executor.antt =====
-- internal/liquidation/executor/executor.go: building, sending and tracking liquidations.
-- An address is the number of its 20 bytes. The chain, the signer and go-ethereum's transactions are
-- the interface `Chain`; the order of calls on it is that of the code.
pub mod Calldata
pub mod Nonces
pub mod Pending
use defi_demo.Base.{
  ℕ, ◌+◌, ◌-◌, ◌*◌, ◌%◌, ◌^◌, Bool, true, false, Option, none, some, List, [], ◌∷◌, String, nat_eq,
  if◌then◌else◌, ltb, leb, length, replicate, take, suc, ◌>>=◌,
}
use defi_demo.Base.Assoc.{Map, lookup, insert}
use defi_demo.Base.Bytes.{bytes, to_word, copy_at}
use defi_demo.Base.Int.{ℤ, pos, pos_part, neg_part, ◌-ℤ◌, ◌*ℤ◌, ltb_ℤ, div_ℤ}
use defi_demo.WadRay.{wad}

pub data TxStatus : Type 0 where
  pending confirmed failed dropped : TxStatus

-- `none` is a nil amount or the zero time.
pub record LiquidationTx : Type 0 where
  pub tx_hash : ℕ
  pub borrower : ℕ
  pub debt_asset : ℕ
  pub collateral_asset : ℕ
  pub debt_amount : ℤ
  pub status : TxStatus
  pub gas_used : ℕ
  pub gas_price : ℤ
  pub profit : Option ℤ
  pub submitted_at : ℕ
  pub confirmed_at : Option ℕ
  pub retry_count : ℕ

-- A liquidation's transaction; its value is 0.
pub record Transaction : Type 0 where
  pub nonce : ℕ
  pub to : ℕ
  pub gas_limit : ℕ
  pub gas_price : ℤ
  pub payload : List ℕ

pub record Config : Type 0 where
  pub chain_id : ℕ
  pub lending_pool : ℕ
  pub min_profit_wei : Option ℤ
  pub max_gas_price : Option ℤ
  pub gas_limit : ℕ

pub record Chain : Type 1 where
  pub World : Type 0
  pub Signed : Type 0
  pub suggest_gas_price : World → Option ℤ × World
  pub pending_nonce_at : ℕ → World → Option ℕ × World
  pub send_transaction : Signed → World → Bool × World
  pub sign_tx : Transaction → ℕ → Option Signed
  pub address : ℕ
  pub hash : Signed → ℕ
  -- `crypto.Keccak256` of a text: 32 bytes.
  pub keccak256 : String → List ℕ

pub data ExecuteError : Type 0 where
  gas_price_error nonce_error sign_error send_error : ExecuteError

-- What Execute returns; `panic` is the slice index out of range of an amount beyond 132 bytes.
pub data Executed : Type 0 where
  submitted : LiquidationTx → Executed
  error : ExecuteError → Executed
  panic : Executed

abbrev pub cap_gas_price : Config → ℤ → ℤ
cap_gas_price cfg price = elim cfg.max_gas_price [
  | none ↦ price
  | some limit ↦ if ltb_ℤ limit price then limit else price
]

abbrev pub liquidation_call : String
liquidation_call = "liquidationCall(address,address,address,uint256,bool)"

-- The selector `sig` and the three addresses in the 164 bytes.
unfoldable pub address_part : List ℕ → ℕ → ℕ → ℕ → List ℕ
address_part sig collateral_asset debt_asset borrower =
    let with_sig = copy_at (replicate 164 0) 0 sig in
    let with_collateral = copy_at with_sig 16 (to_word 20 collateral_asset) in
    let with_debt = copy_at with_collateral 48 (to_word 20 debt_asset) in
    copy_at with_debt 80 (to_word 20 borrower)

-- The amount's bytes end at byte 132; its sign is dropped.
unfoldable pub amount_part : List ℕ → ℤ → Option (List ℕ)
amount_part calldata debt_amount =
    let debt_bytes = bytes (pos_part debt_amount + neg_part debt_amount) in
    if ltb 132 (length debt_bytes)
    then none
    else some (copy_at calldata (132 - length debt_bytes) debt_bytes)

unfoldable pub liquidation_calldata : List ℕ → ℕ → ℕ → ℕ → ℤ → Bool → Option (List ℕ)
liquidation_calldata sig collateral_asset debt_asset borrower debt_amount receive_a_token = do
  calldata ← amount_part (address_part sig collateral_asset debt_asset borrower) debt_amount
  some (if receive_a_token then copy_at calldata 163 (1 ∷ []) else calldata)

module _ (chain : Chain) (cfg : Config) where
  open chain use {
    World, Signed, suggest_gas_price, pending_nonce_at, send_transaction, sign_tx, address, hash,
    keccak256,
  }

  pub record Executor : Type 0 where
    pub nonce : ℕ
    pub nonce_set : Bool
    pub transactions : Map ℕ LiquidationTx
    pub world : World

  -- `New`: the nonce is not known yet.
  unfoldable pub new_executor : World → Executor
  new_executor w = record { nonce = 0; nonce_set = false; transactions = []; world = w }

  abbrev pub build_liquidation_calldata : ℕ → ℕ → ℕ → ℤ → Bool → Option (List ℕ)
  build_liquidation_calldata = liquidation_calldata (take 4 (keccak256 liquidation_call))

  -- The profit and the gas price, or the error of the gas price.
  unfoldable pub estimate_profit : ℤ → ℤ → World → Option (ℤ × ℤ) × World
  estimate_profit debt_amount_usd liquidation_bonus w =
      let (suggested, w1) = suggest_gas_price w in
      let estimate : Option (ℤ × ℤ) = do
        price ← suggested
        let gas_price = cap_gas_price cfg price
        let gas_cost = gas_price *ℤ pos cfg.gas_limit
        let bonus_wad = liquidation_bonus -ℤ pos wad
        let bonus_value = div_ℤ (debt_amount_usd *ℤ bonus_wad) (pos wad)
        some (bonus_value -ℤ gas_cost, gas_price)
      in (estimate, w1)

  -- The nonce counter is a uint64. An error of the node leaves it unset.
  unfoldable pub next_nonce : Executor → Option ℕ × Executor
  next_nonce e =
      if e.nonce_set
      then (some e.nonce, record e { nonce = (e.nonce + 1) % 2 ^ 64 })
      else (let (first, w) = pending_nonce_at address e.world in
          elim first [
            | none ↦ (none, record e { world = w })
            | some n ↦ (some n, record e { nonce = (n + 1) % 2 ^ 64; nonce_set = true; world = w })
          ])

  -- Signing, sending and the entry among the pending transactions.
  unfoldable pub submit : LiquidationTx → Transaction → Executor → Executed × Executor
  submit blank tx e = elim (sign_tx tx cfg.chain_id) [
    | none ↦ (error sign_error, e)
    | some signed ↦
        let (accepted, w) = send_transaction signed e.world in
        if accepted
        then (let liq = record blank { tx_hash = hash signed } in
            (
              submitted liq,
              record e { transactions = insert (hash signed) liq e.transactions; world = w },
            ))
        else (error send_error, record e { world = w })
  ]

  -- From the nonce on; `now` is the clock.
  unfoldable pub execute_at : ℤ → List ℕ → ℕ → ℕ → ℕ → ℤ → ℕ → Executor → Executed × Executor
  execute_at gas_price calldata collateral_asset debt_asset borrower debt_amount now e =
      let (reserved, e1) = next_nonce e in
      elim reserved [
        | none ↦ (error nonce_error, e1)
        | some nonce ↦
            submit
              (record {
                tx_hash = 0;
                borrower = borrower;
                debt_asset = debt_asset;
                collateral_asset = collateral_asset;
                debt_amount = debt_amount;
                status = pending;
                gas_used = 0;
                gas_price = gas_price;
                profit = none;
                submitted_at = now;
                confirmed_at = none;
                retry_count = 0;
              })
              (record {
                nonce = nonce;
                to = cfg.lending_pool;
                gas_limit = cfg.gas_limit;
                gas_price = gas_price;
                payload = calldata;
              })
              e1
      ]

  unfoldable pub execute : ℕ → ℕ → ℕ → ℤ → ℕ → Executor → Executed × Executor
  execute collateral_asset debt_asset borrower debt_amount now e =
      elim (build_liquidation_calldata collateral_asset debt_asset borrower debt_amount false) [
        | none ↦ (panic, e)
        | some calldata ↦
            let (suggested, w) = suggest_gas_price e.world in
            let e1 = record e { world = w } in
            elim suggested [
              | none ↦ (error gas_price_error, e1)
              | some price ↦
                  execute_at (cap_gas_price cfg price) calldata collateral_asset debt_asset borrower
                    debt_amount now e1
            ]
      ]

-- The entries are pointers: an update changes the transaction in the map.
unfoldable pub mark_confirmed : ℕ → ℕ → ℤ → ℕ → Map ℕ LiquidationTx → Map ℕ LiquidationTx
mark_confirmed tx_hash gas_used profit now m = elim (lookup tx_hash m) [
  | none ↦ m
  | some tx ↦
      insert tx_hash
        (record tx {
          status = confirmed;
          gas_used = gas_used;
          profit = some profit;
          confirmed_at = some now;
        })
        m
]

unfoldable pub mark_failed : ℕ → Map ℕ LiquidationTx → Map ℕ LiquidationTx
mark_failed tx_hash m = elim (lookup tx_hash m) [
  | none ↦ m
  | some tx ↦ insert tx_hash (record tx { status = failed }) m
]

abbrev pub is_pending : TxStatus → Bool
is_pending pending = true
is_pending _ = false

unfoldable pub pending_count : Map ℕ LiquidationTx → ℕ
pending_count [] = 0
pending_count ((h, tx) ∷ m) =
    let rest = pending_count m in if is_pending tx.status then suc rest else rest
