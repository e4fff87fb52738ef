-- ===== src/Liquidation/Targets.antt =====
-- internal/liquidation/service.go: the borrowers of the transactions that a scan adds.
use defi_demo.Base.{
  ℕ, ◌+◌, ◌≡◌, refl, ap, sym, subst, Bool, false, Option, none, some, List, [], ◌∷◌, nat_eq, ◌==◌,
  inl, inr, Bool-cases, Option-cases, List-cases, arith, All,
}
use defi_demo.Base.Assoc.{Map, insert}
use defi_demo.Base.Int.{ℤ}
use defi_demo.Rates.{RateComputer}
use defi_demo.Positions.{UserPosition, Scanner}
use defi_demo.Scanner.{refresh_all, find_liquidatable}
use defi_demo.Executor.{
  Chain, Config, Executor, Executed, LiquidationTx, Transaction, cap_gas_price,
  build_liquidation_calldata, next_nonce, submit, execute_at, execute,
}
use defi_demo.Liquidation.{Order, order_of, is_panic, rate_provider, execute_all, scan}

insert-All :
    (Q : ℕ × LiquidationTx → Type 0) (k : ℕ) (tx : LiquidationTx) (m : Map ℕ LiquidationTx)
    → All Q m
    → Q (k, tx)
    → All Q (insert k tx m)
unfolding insert
insert-All Q k tx [] h q = (q, tt)
insert-All Q k tx ((j, old) ∷ m) h q = elim (Bool-cases (j == k)) [
  | inl same ↦ rw same (q, h.1)
  | inr other ↦ rw other (h.0, insert-All Q k tx m h.1 q)
]

-- The borrowers of the transactions satisfy `P`.
unfoldable pub AllTargets : (ℕ → Type 0) → Map ℕ LiquidationTx → Type 0
AllTargets P = All (λ (e : ℕ × LiquidationTx). P e.1.borrower)

module _ (chain : Chain) (cfg : Config) (P : ℕ → Type 0) where
  next_nonce-transactions :
      (e : Executor chain cfg) → (next_nonce chain cfg e).1.transactions ≡ e.transactions
  unfolding next_nonce
  next_nonce-transactions e = elim (Bool-cases e.nonce_set) [
    | inl set ↦ rw (next_nonce, set) refl
    | inr unset ↦ elim (Option-cases (chain.pending_nonce_at chain.address e.world).0) [
      | inl absent ↦ rw (next_nonce, unset, absent) refl
      | inr (n, e1) ↦ rw (next_nonce, unset, e1) refl
    ]
  ]

  submit-AllTargets :
      (blank : LiquidationTx) (tx : Transaction) (e : Executor chain cfg)
      → P blank.borrower
      → AllTargets P e.transactions
      → AllTargets P (submit chain cfg blank tx e).1.transactions
  unfolding submit AllTargets
  submit-AllTargets blank tx e p h = elim (Option-cases (chain.sign_tx tx cfg.chain_id)) [
    | inl refused ↦ rw (submit, refused) h
    | inr (signed, s) ↦ elim (Bool-cases (chain.send_transaction signed e.world).0) [
      | inl accepted ↦
          rw (submit, s, accepted) (insert-All _ (chain.hash signed) _ e.transactions h p)
      | inr rejected ↦ rw (submit, s, rejected) h
    ]
  ]

  execute_at-AllTargets :
      (price : ℤ) (calldata : List ℕ) (collateral debt borrower : ℕ) (amount : ℤ) (now : ℕ)
      (e : Executor chain cfg)
      → P borrower
      → AllTargets P e.transactions
      → AllTargets P
          (execute_at chain cfg price calldata collateral debt borrower amount now e).1.transactions
  unfolding execute_at
  execute_at-AllTargets price calldata collateral debt borrower amount now e p h =
      let kept = subst (AllTargets P) (sym (next_nonce-transactions e)) h in
      elim (Option-cases (next_nonce chain cfg e).0) [
        | inl absent ↦ rw (execute_at, absent) kept
        | inr (n, x) ↦ rw (execute_at, x) (submit-AllTargets _ _ (next_nonce chain cfg e).1 p kept)
      ]

  execute-AllTargets :
      (collateral debt borrower : ℕ) (amount : ℤ) (now : ℕ) (e : Executor chain cfg)
      → P borrower
      → AllTargets P e.transactions
      → AllTargets P (execute chain cfg collateral debt borrower amount now e).1.transactions
  unfolding execute
  execute-AllTargets collateral debt borrower amount now e p h =
      elim (Option-cases
        (build_liquidation_calldata chain cfg collateral debt borrower amount false)) [
          | inl too_long ↦ rw (execute, too_long) h
          | inr (calldata, x) ↦ elim (Option-cases (chain.suggest_gas_price e.world).0) [
            | inl no_price ↦ rw (execute, x, no_price) h
            | inr (price, y) ↦
                rw (execute, x, y)
                  (execute_at-AllTargets (cap_gas_price cfg price) calldata collateral debt borrower
                    amount now _ p h)
          ]
        ]

  order_of-borrower :
      (p : UserPosition) (o : Order) → order_of p ≡ some o → o.borrower ≡ p.user_address
  unfolding order_of
  order_of-borrower p o h = elim (List-cases p.debts) [
    | inl no_debt ↦ let e : none ≡ some o = rw (order_of, no_debt) at h in ground arith
    | inr (d, ds, some_debt) ↦ elim (List-cases p.collaterals) [
      | inl nothing ↦ let e : none ≡ some o = rw (order_of, some_debt, nothing) at h in ground arith
      | inr (c, cs, collateral) ↦
          ap (λ (z : Option Order). elim z [ none ↦ p.user_address | some q ↦ q.borrower ])
            (sym (rw (order_of, some_debt, collateral) at h))
    ]
  ]

  module _ (cancelled : ℕ → Bool) where
    execute_all-AllTargets :
        (ps : List UserPosition) (n : ℕ) (now : ℕ → ℕ) (e : Executor chain cfg)
        → All (λ (p : UserPosition). P p.user_address) ps
        → AllTargets P e.transactions
        → AllTargets P (execute_all chain cfg cancelled ps n now e).1.transactions
    unfolding execute_all
    execute_all-AllTargets [] n now e ps h = h
    execute_all-AllTargets (p ∷ ps) n now e danger h = elim (Bool-cases (cancelled n)) [
      | inl stopped ↦ rw stopped h
      | inr goes ↦ elim (Option-cases (order_of p)) [
        | inl no_order ↦ rw (goes, no_order) (execute_all-AllTargets ps (n + 1) now e danger.1 h)
        | inr (o, x) ↦
            let one =
              execute-AllTargets o.collateral_asset o.debt_asset o.borrower o.amount (now n) e
                (subst P (sym (order_of-borrower p o x)) danger.0) h in
            let e1 =
              (execute chain cfg o.collateral_asset o.debt_asset o.borrower o.amount (now n) e).1 in
            let r =
              (execute chain cfg o.collateral_asset o.debt_asset o.borrower o.amount (now n) e).0 in
            elim (Bool-cases (is_panic r)) [
              | inl dead ↦ rw (goes, x, dead) one
              | inr alive ↦
                  rw (goes, x, alive) (execute_all-AllTargets ps (n + 1) now e1 danger.1 one)
            ]
      ]
    ]

    -- A scan whose refresh succeeds returns the refreshed positions, and if something holds of the
    -- users of all liquidatable positions and of the borrowers of all pending transactions, it
    -- holds of the borrowers of all that are pending afterwards: only liquidatable positions are
    -- liquidated.
    pub scan-AllTargets :
        (rc : RateComputer) (time : ℤ) (now : ℕ → ℕ) (s refreshed : Scanner)
        (e : Executor chain cfg)
        → refresh_all (rate_provider rc) time s ≡ some refreshed
        → All (λ (p : UserPosition). P p.user_address) (find_liquidatable refreshed)
        → AllTargets P e.transactions
        → (results : List Executed) × (e1 : Executor chain cfg) × (scan chain cfg cancelled rc time
              now s e
            ≡ some (results, e1, refreshed))
          × AllTargets P e1.transactions
    unfolding scan
    scan-AllTargets rc time now s refreshed e fresh danger h =
        let done = execute_all chain cfg cancelled (find_liquidatable refreshed) 0 now e in
        (
          done.0,
          done.1,
          rw (scan, fresh) refl,
          execute_all-AllTargets (find_liquidatable refreshed) 0 now e danger h,
        )
