-- ===== src/Liquidation.antt =====
-- internal/liquidation/service.go: one scan of the liquidation engine. The time is the clock's reading
-- at the start of the scan, `now n` that of the executor at the n-th candidate; `cancelled n` is the
-- context before the n-th candidate.
pub mod Targets
use defi_demo.Base.{
  ℕ, ◌+◌, Bool, true, false, Option, none, some, List, [], ◌∷◌, if◌then◌else◌, ◌>>=◌,
}
use defi_demo.Base.Int.{ℤ, pos, div_ℤ}
use defi_demo.Rates.{RateComputer, current_borrow_index, current_liquidity_index}
use defi_demo.Positions.{CollateralEntry, DebtEntry, UserPosition, Scanner}
use defi_demo.Scanner.{IndexProvider, refresh_all, find_liquidatable}
use defi_demo.Executor.{Chain, Config, Executed, panic, Executor, execute}

-- The rate computer as the index provider of the scanner.
abbrev pub rate_provider : RateComputer → IndexProvider
rate_provider rc = record {
  current_borrow_index = current_borrow_index rc;
  current_liquidity_index = current_liquidity_index rc;
}

pub record Order : Type 0 where
  pub collateral_asset : ℕ
  pub debt_asset : ℕ
  pub borrower : ℕ
  pub amount : ℤ

-- The first debt and the first collateral; half of the debt's principal.
unfoldable pub order_of : UserPosition → Option Order
order_of p = elim p.debts [
  | [] ↦ none
  | debt ∷ _ ↦ elim p.collaterals [
    | [] ↦ none
    | collateral ∷ _ ↦ some (record {
      collateral_asset = collateral.asset_address;
      debt_asset = debt.asset_address;
      borrower = p.user_address;
      amount = div_ℤ debt.borrow_balance (pos 2);
    })
  ]
]

abbrev pub is_panic : Executed → Bool
is_panic panic = true
is_panic _ = false

module _ (chain : Chain) (cfg : Config) (cancelled : ℕ → Bool) where
  -- The results of the executions, in order; a panic ends the program.
  unfoldable pub execute_all :
      List UserPosition → ℕ → (ℕ → ℕ) → Executor chain cfg → List Executed × Executor chain cfg
  execute_all [] n now e = ([], e)
  execute_all (p ∷ ps) n now e =
      let skipped = execute_all ps (n + 1) now e in
      if cancelled n then ([], e) else (elim (order_of p) [
        | none ↦ skipped
        | some o ↦
            let (r, e1) =
              execute chain cfg o.collateral_asset o.debt_asset o.borrower o.amount (now n) e in
            let (rs, e2) = execute_all ps (n + 1) now e1 in
            if is_panic r then (r ∷ [], e1) else (r ∷ rs, e2)
      ])

  unfoldable pub scan :
      RateComputer
      → ℤ
      → (ℕ → ℕ)
      → Scanner
      → Executor chain cfg
      → Option (List Executed × Executor chain cfg × Scanner)
  scan rc time now s e = do
    refreshed ← refresh_all (rate_provider rc) time s
    let (results, e1) = execute_all (find_liquidatable refreshed) 0 now e
    some (results, e1, refreshed)
