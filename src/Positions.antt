-- ===== src/Positions.antt =====
-- internal/liquidation/scanner/scanner.go: the positions and their priority queue.
-- The queue is the slice that container/heap works on; its elements are the addresses of the
-- positions that the pointers lead to, so a position is written in one place.
pub mod Heap
pub mod Indexed
pub mod Sift
pub mod Ends
pub mod Order
pub mod Ranks
pub mod Heaped
pub mod Kept
pub mod Written
pub mod Placed
use defi_demo.Base.{
  ℕ, ◌+◌, ◌*◌, Bool, true, false, Option, none, some, List, [], ◌∷◌, nat_eq, if◌then◌else◌, ◌>>=◌,
  get_elem?, set,
}
use defi_demo.Base.Assoc.{Map, lookup, insert}
use defi_demo.Base.Int.{ℤ, ltb_ℤ}

-- An index of the user may be nil, `none`; the other amounts are not.
pub record CollateralEntry : Type 0 where
  pub market_id : ℕ
  pub asset_address : ℕ
  pub supply_balance : ℤ
  pub supply_index : Option ℤ
  pub liquidation_threshold : ℤ
  pub liquidation_bonus : ℤ
  pub price_usd : ℤ
  pub decimals : ℤ

pub record DebtEntry : Type 0 where
  pub market_id : ℕ
  pub asset_address : ℕ
  pub borrow_balance : ℤ
  pub borrow_index : Option ℤ
  pub price_usd : ℤ
  pub decimals : ℤ

-- A nil health factor and the heap index -1 are `none`.
pub record UserPosition : Type 0 where
  pub user_address : ℕ
  pub chain_id : ℕ
  pub collaterals : List CollateralEntry
  pub debts : List DebtEntry
  pub health_factor : Option ℤ
  pub total_collateral_usd : Option ℤ
  pub total_debt_usd : Option ℤ
  pub heap_index : Option ℕ

pub record Scanner : Type 0 where
  pub positions : Map ℕ UserPosition
  pub queue : List ℕ

abbrev pub new_scanner : Scanner
new_scanner = record { positions = []; queue = [] }

-- The health factor at place `i` of the queue.
abbrev pub factor_at : Scanner → ℕ → Option ℤ
factor_at s i = do user ← get_elem? s.queue i; p ← lookup user s.positions; p.health_factor

-- A position without a health factor comes last.
abbrev pub less_factor : Option ℤ → Option ℤ → Bool
less_factor none b = false
less_factor (some x) none = true
less_factor (some x) (some y) = ltb_ℤ x y

unfoldable pub less : Scanner → ℕ → ℕ → Bool
less s i j = less_factor (factor_at s i) (factor_at s j)

-- `p.heapIndex = i` for the position of this user.
unfoldable pub set_index : ℕ → Option ℕ → Map ℕ UserPosition → Map ℕ UserPosition
set_index user i m = elim (lookup user m) [
  | none ↦ m
  | some p ↦ insert user (record p { heap_index = i }) m
]

unfoldable pub swap_users : ℕ → ℕ → ℕ → ℕ → Scanner → Scanner
swap_users i j a b s = record {
  positions = set_index a (some j) (set_index b (some i) s.positions);
  queue = set (set s.queue i b) j a;
}

-- Out of range, which the callers avoid, the slice would panic; the model leaves the state.
unfoldable pub swap : ℕ → ℕ → Scanner → Scanner
swap i j s = elim (get_elem? s.queue i) [
  | none ↦ s
  | some a ↦ elim (get_elem? s.queue j) [ none ↦ s | some b ↦ swap_users i j a b s ]
]
