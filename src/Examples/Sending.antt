-- ===== src/Examples/Sending.antt =====
-- The executor and a scan of the liquidation engine, on a node that accepts every second transaction.
use defi_demo.Base.{
  All, List, ℕ, ◌*◌, ◌%◌, ◌^◌, ◌≡◌, refl, Bool, true, false, Option, none, some, [], ◌∷◌, String,
  nat_eq, replicate, not,
}
use defi_demo.Base.Assoc.{insert, Map, lookup}
use defi_demo.Base.Int.{ℤ, pos, div_ℤ, ◌*ℤ◌, ◌+ℤ◌}
use defi_demo.WadRay.{ray_mul, wad_to_ray}
use defi_demo.Positions.{UserPosition, Scanner}
use defi_demo.Scanner.{
  actual_balance, value_usd, weighted_collateral, total_debt, calculate_health_factor, refresh_all,
  liquidatable_of,
}
use defi_demo.Executor.{
  Executed, LiquidationTx, Transaction, Config, Chain, Executor, error, send_error, pending,
  execute_at,
}
use defi_demo.Executor.Nonces.{execute_at_lem}
use defi_demo.Liquidation.{rate_provider, scan}
use defi_demo.Liquidation.Targets.{AllTargets, scan-AllTargets}
use defi_demo.Rates.{current_borrow_index, current_liquidity_index}
use defi_demo.Positions.{less}
use defi_demo.Positions.Heap.{fix, sift, down, down_on, up, up_on, smaller_child}
use defi_demo.Scanner.{refresh, refresh_list, find_liquidatable}
use defi_demo.WadRay.{ray_div}
use defi_demo.Examples.Queue.{position}

-- A node that accepts every second transaction.
abbrev node : Chain
node = record {
  World = Bool;
  Signed = Transaction;
  suggest_gas_price = λ (w : Bool). (some (pos 30), w);
  pending_nonce_at = λ (a : ℕ) (w : Bool). (some 4, w);
  send_transaction = λ (tx : Transaction) (w : Bool). (w, not w);
  sign_tx = λ (tx : Transaction) (c : ℕ). some tx;
  address = 5;
  hash = λ (tx : Transaction). tx.nonce;
  keccak256 = λ (t : String). replicate 32 7;
}

abbrev config : Config
config = record {
  chain_id = 1;
  lending_pool = 77;
  min_profit_wei = none;
  max_gas_price = some (pos 20);
  gas_limit = 500000;
}

abbrev executor : Executor node config
executor = record { nonce = 4; nonce_set = true; transactions = []; world = false }

execute_at_lem_example :
    (let (r, after) = execute_at node config (pos 20) [] 21 22 23 (pos 25) 100 executor in
      (after.nonce ≡ 5 % 2 ^ 64)
      × (after.world ≡ true)
      × (after.nonce_set ≡ true)
      × ((r ≡ error send_error) × (after.transactions ≡ [])))
execute_at_lem_example =
    execute_at_lem node config (pos 20) [] 21 22 23 (pos 25) 100 executor
      (record { nonce = 4; to = 77; gas_limit = 500000; gas_price = pos 20; payload = [] }) true
      false refl refl refl

abbrev sent_tx : LiquidationTx
sent_tx = record {
  tx_hash = 3;
  borrower = 23;
  debt_asset = 22;
  collateral_asset = 21;
  debt_amount = pos 25;
  status = pending;
  gas_used = 0;
  gas_price = pos 20;
  profit = none;
  submitted_at = 100;
  confirmed_at = none;
  retry_count = 0;
}

abbrev sent_map : Map ℕ LiquidationTx
sent_map = (3, sent_tx) ∷ []

sent_tx-lookup : lookup 3 sent_map ≡ some sent_tx
unfolding lookup
sent_tx-lookup = refl

-- A position with too little collateral, at the only place of the queue.
abbrev poor : Option ℤ → UserPosition
poor factor = record (position 7 factor (some 0)) {
  debts =
      record {
        market_id = 2;
        asset_address = 22;
        borrow_balance = pos 100;
        borrow_index = none;
        price_usd = pos 6;
        decimals = pos 0;
      }
      ∷ [];
}

abbrev poor_scanner : Option ℤ → Scanner
poor_scanner factor = record { positions = (7, poor factor) ∷ []; queue = 7 ∷ [] }

poor-refresh :
    refresh_all (rate_provider []) (pos 0) (poor_scanner none)
    ≡ some (poor_scanner (some (pos (5 * 10 ^ 26))))
unfolding refresh_list refresh calculate_health_factor weighted_collateral total_debt actual_balance
    value_usd ray_mul ray_div wad_to_ray div_ℤ ◌*ℤ◌ ◌+ℤ◌ lookup insert fix sift down down_on up
    up_on smaller_child less current_borrow_index current_liquidity_index
poor-refresh = refl

OnlySeven : ℕ → Type 0
OnlySeven user = user ≡ 7

poor-danger :
    All
      (λ (p : UserPosition). OnlySeven p.user_address)
      (find_liquidatable (poor_scanner (some (pos (5 * 10 ^ 26)))))
unfolding liquidatable_of OnlySeven
poor-danger = (refl, tt)

none_sent : AllTargets OnlySeven []
unfolding AllTargets
none_sent = tt

scan-AllTargets_example :
    (results : List Executed) × (e1 : Executor node config) × (scan node config
        (λ (n : ℕ). false)
        []
        (pos 0)
        (λ (n : ℕ). 100)
        (poor_scanner none)
        executor
      ≡ some (results, e1, poor_scanner (some (pos (5 * 10 ^ 26)))))
    × AllTargets OnlySeven e1.transactions
scan-AllTargets_example =
    scan-AllTargets node config OnlySeven (λ (n : ℕ). false) [] (pos 0) (λ (n : ℕ). 100)
      (poor_scanner none) (poor_scanner (some (pos (5 * 10 ^ 26)))) executor poor-refresh
      poor-danger none_sent
