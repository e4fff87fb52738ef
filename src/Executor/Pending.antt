-- ===== src/Executor/Pending.antt =====
-- internal/liquidation/executor/executor.go: the pending transactions and their count.
use defi_demo.Base.{
  ℕ, ◌+◌, ◌≡◌, refl, ap, Option, none, some, [], ◌∷◌, arith, if◌then◌else◌, nat_eq,
}
use defi_demo.Base.Assoc.{Map, lookup, insert, lookup-insert_self}
use defi_demo.Base.Int.{ℤ}
use defi_demo.Executor.{
  confirmed, failed, LiquidationTx, mark_confirmed, mark_failed, is_pending, pending_count,
}

-- One for a pending transaction.
abbrev weight : Option LiquidationTx → ℕ
weight none = 0
weight (some tx) = if is_pending tx.status then 1 else 0

pending_count-insert :
    (h : ℕ) (tx : LiquidationTx) (m : Map ℕ LiquidationTx)
    → pending_count (insert h tx m) + weight (lookup h m) ≡ pending_count m + weight (some tx)
unfolding pending_count lookup insert
pending_count-insert h tx [] = ground arith
pending_count-insert h tx ((j, old) ∷ m) = ground (arith, pending_count-insert h tx m)

abbrev confirm : ℕ → ℤ → ℕ → LiquidationTx → LiquidationTx
confirm gas profit now tx = record tx {
  status = confirmed;
  gas_used = gas;
  profit = some profit;
  confirmed_at = some now;
}

mark_confirmed_known :
    (h gas : ℕ) (profit : ℤ) (now : ℕ) (m : Map ℕ LiquidationTx) (tx : LiquidationTx)
    → lookup h m ≡ some tx
    → mark_confirmed h gas profit now m ≡ insert h (confirm gas profit now tx) m
unfolding mark_confirmed
mark_confirmed_known h gas profit now m tx found = rw (mark_confirmed, found) refl

mark_failed_known :
    (h : ℕ) (m : Map ℕ LiquidationTx) (tx : LiquidationTx)
    → lookup h m ≡ some tx
    → mark_failed h m ≡ insert h (record tx { status = failed }) m
unfolding mark_failed
mark_failed_known h m tx found = rw (mark_failed, found) refl

-- Confirming a known transaction stores it as confirmed with its gas, profit and time, and lowers
-- the number of pending ones by one if it was pending and by nothing otherwise.
pub mark_confirmed_lem :
    (h gas : ℕ) (profit : ℤ) (now : ℕ) (m : Map ℕ LiquidationTx) (tx : LiquidationTx)
    → lookup h m ≡ some tx
    → (let after = mark_confirmed h gas profit now m in
        (lookup h after
          ≡ some (record tx {
            status = confirmed;
            gas_used = gas;
            profit = some profit;
            confirmed_at = some now;
          }))
        × (pending_count after + (if is_pending tx.status then 1 else 0) ≡ pending_count m))
mark_confirmed_lem h gas profit now m tx found =
    let count = pending_count-insert h (confirm gas profit now tx) m in
    rw (mark_confirmed_known h gas profit now m tx found)
      (lookup-insert_self h _ m, omega (arith, count, ap weight found))

-- A failure takes it out as well, and keeps the rest of the transaction.
pub mark_failed_lem :
    (h : ℕ) (m : Map ℕ LiquidationTx) (tx : LiquidationTx)
    → lookup h m ≡ some tx
    → (let after = mark_failed h m in
        (lookup h after ≡ some (record tx { status = failed }))
        × (pending_count after + (if is_pending tx.status then 1 else 0) ≡ pending_count m))
mark_failed_lem h m tx found =
    let count = pending_count-insert h (record tx { status = failed }) m in
    rw (mark_failed_known h m tx found)
      (lookup-insert_self h _ m, omega (arith, count, ap weight found))
