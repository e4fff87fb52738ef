-- ===== src/Executor/Nonces.antt =====
-- internal/liquidation/executor/executor.go: nonces, and Execute from the nonce on.
use defi_demo.Base.{
  ℕ, ◌+◌, ◌<◌, ◌%◌, ◌^◌, ◌≡◌, refl, ap, Bool, true, false, Option, none, some, List, arith,
  if◌then◌else◌, nat_eq,
}
use defi_demo.Base.Assoc.{lookup, insert, lookup-insert_self}
use defi_demo.Base.Int.{ℤ}
use defi_demo.Executor.{
  pending, LiquidationTx, Transaction, Config, Chain, submitted, error, Executor, next_nonce,
  submit, execute_at, send_error,
}

module _ (chain : Chain) (cfg : Config) where
  open chain use {
    World, Signed, suggest_gas_price, pending_nonce_at, send_transaction, sign_tx, address, hash,
    keccak256,
  }

  -- Two nonces taken in a row from a counter that is set, and not at the end of its range, are
  -- consecutive.
  pub next_nonce_consecutive :
      (e : Executor chain cfg)
      → e.nonce_set ≡ true
      → e.nonce + 1 < 2 ^ 64
      → (let (first, e1) = next_nonce chain cfg e in
          let (second, e2) = next_nonce chain cfg e1 in
          (first ≡ some e.nonce) × (second ≡ some (e.nonce + 1)))
  unfolding next_nonce
  next_nonce_consecutive e h k =
      let small : (e.nonce + 1) % 2 ^ 64 ≡ e.nonce + 1 = omega arith in rw (h, small) (refl, refl)

  next_nonce_set :
      (e : Executor chain cfg)
      → e.nonce_set ≡ true
      → next_nonce chain cfg e ≡ (some e.nonce, record e { nonce = (e.nonce + 1) % 2 ^ 64 })
  unfolding next_nonce
  next_nonce_set e h = rw h refl

  abbrev blank : ℤ → ℕ → ℕ → ℕ → ℤ → ℕ → LiquidationTx
  blank price collateral debt borrower amount now = record {
    tx_hash = 0;
    borrower = borrower;
    debt_asset = debt;
    collateral_asset = collateral;
    debt_amount = amount;
    status = pending;
    gas_used = 0;
    gas_price = price;
    profit = none;
    submitted_at = now;
    confirmed_at = none;
    retry_count = 0;
  }

  abbrev transaction : ℤ → List ℕ → Executor chain cfg → Transaction
  transaction price calldata e = record {
    nonce = e.nonce;
    to = cfg.lending_pool;
    gas_limit = cfg.gas_limit;
    gas_price = price;
    payload = calldata;
  }

  abbrev reserved : Executor chain cfg → Executor chain cfg
  reserved e = record e { nonce = (e.nonce + 1) % 2 ^ 64 }

  execute_at_known :
      (price : ℤ) (calldata : List ℕ) (collateral debt borrower : ℕ) (amount : ℤ) (now : ℕ)
      (e : Executor chain cfg)
      → e.nonce_set ≡ true
      → execute_at chain cfg price calldata collateral debt borrower amount now e
        ≡ submit chain cfg
            (blank price collateral debt borrower amount now)
            (transaction price calldata e)
            (reserved e)
  unfolding execute_at
  execute_at_known price calldata collateral debt borrower amount now e h =
      let e1 = next_nonce_set e h in
      rw
        (
          execute_at,
          ap (λ (z : Option ℕ × Executor chain cfg). z.0) e1,
          ap (λ (z : Option ℕ × Executor chain cfg). z.1) e1,
        )
        refl

  submit_known :
      (fresh : LiquidationTx) (tx : Transaction) (e : Executor chain cfg) (signed : Signed)
      (w : World) (accepted : Bool)
      → sign_tx tx cfg.chain_id ≡ some signed
      → send_transaction signed e.world ≡ (accepted, w)
      → submit chain cfg fresh tx e ≡ (
          if accepted
          then (
            submitted (record fresh { tx_hash = hash signed }),
            record e {
              transactions =
                  insert (hash signed) (record fresh { tx_hash = hash signed }) e.transactions;
              world = w;
            },
          )
          else (error send_error, record e { world = w }))
  unfolding submit
  submit_known fresh tx e signed w accepted sg sent = rw (submit, sg, sent) refl

  -- A liquidation that gets a nonce from the set counter and a signature uses up the nonce whether
  -- or not the node accepts it. Accepted, it is returned and stored as pending under its hash, with
  -- the price, amount and borrower it was built for; refused, the result is the sending error and
  -- no transaction is stored.
  pub execute_at_lem :
      (price : ℤ) (calldata : List ℕ) (collateral debt borrower : ℕ) (amount : ℤ) (now : ℕ)
      (e : Executor chain cfg) (signed : Signed) (w : World) (accepted : Bool)
      → e.nonce_set ≡ true
      → sign_tx (transaction price calldata e) cfg.chain_id ≡ some signed
      → send_transaction signed e.world ≡ (accepted, w)
      → (let (r, after) =
            execute_at chain cfg price calldata collateral debt borrower amount now e in
          (after.nonce ≡ (e.nonce + 1) % 2 ^ 64)
          × (after.world ≡ w)
          × (after.nonce_set ≡ true)
          × (if accepted
              then ((tx : LiquidationTx) × (r ≡ submitted tx)
                  × (lookup (hash signed) after.transactions ≡ some tx)
                  × (tx.status ≡ pending)
                  × (tx.gas_price ≡ price)
                  × (tx.debt_amount ≡ amount)
                  × (tx.borrower ≡ borrower))
              else ((r ≡ error send_error) × (after.transactions ≡ e.transactions))))
  execute_at_lem price calldata collateral debt borrower amount now e signed w true set sg sent =
      rw
        (
          execute_at_known price calldata collateral debt borrower amount now e set,
          submit_known (blank price collateral debt borrower amount now)
              (transaction price calldata e) (reserved e) signed w true sg sent,
        )
        (refl, refl, set, (_, refl, lookup-insert_self _ _ _, refl, refl, refl, refl))
  execute_at_lem price calldata collateral debt borrower amount now e signed w false set sg sent =
      rw
        (
          execute_at_known price calldata collateral debt borrower amount now e set,
          submit_known (blank price collateral debt borrower amount now)
              (transaction price calldata e) (reserved e) signed w false sg sent,
        )
        (refl, refl, set, (refl, refl))
