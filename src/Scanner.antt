-- ===== src/Scanner.antt =====
-- internal/liquidation/scanner/scanner.go: health factors and the scanner's operations. A range over
-- the map of positions takes the order of the map's list.
pub mod Health
pub mod Totals
pub mod Consistent
pub mod Ordered
pub mod Least
pub mod Contents
pub mod Runs
use defi_demo.Base.{
  ℕ, ◌^◌, Bool, true, false, Option, none, some, List, [], ◌∷◌, nat_eq, if◌then◌else◌, ◌>>=◌,
  length, get_elem?,
}
use defi_demo.Base.Assoc.{Map, lookup, insert, erase}
use defi_demo.Base.Int.{ℤ, pos, pos_part, ◌+ℤ◌, ◌*ℤ◌, ltb_ℤ, is_zero, div_ℤ}
use defi_demo.WadRay.{ray, ray_mul, ray_div, wad_to_ray, ray_to_wad}
use defi_demo.Positions.{CollateralEntry, DebtEntry, UserPosition, Scanner}
use defi_demo.Positions.Heap.{push, remove_at, fix}

-- The interface that the rate computer implements: the index of a market at a time.
pub record IndexProvider : Type 0 where
  pub current_borrow_index : ℕ → ℤ → Option ℤ
  pub current_liquidity_index : ℕ → ℤ → Option ℤ

-- An unknown market has the index 1.
abbrev pub or_ray : Option ℤ → ℤ
or_ray none = pos ray
or_ray (some index) = index

-- The balance now, from the principal and the index of the user's last change.
unfoldable pub actual_balance : ℤ → Option ℤ → ℤ → Option ℤ
actual_balance principal none current = some principal
actual_balance principal (some user_index) current =
    if ltb_ℤ (pos 0) user_index
    then (do
      growth ← ray_div current user_index
      some (ray_to_wad (ray_mul (wad_to_ray principal) growth)))
    else some principal

-- `big.Int.Exp` of a negative exponent is 1.
unfoldable pub value_usd : ℤ → ℤ → ℤ → ℤ
value_usd balance price decimals = div_ℤ (balance *ℤ price) (pos (10 ^ pos_part decimals))

unfoldable pub weighted_collateral : IndexProvider → ℤ → List CollateralEntry → Option ℤ
weighted_collateral provider now [] = some (pos 0)
weighted_collateral provider now (c ∷ cs) = do
  let index = or_ray (provider.current_liquidity_index c.market_id now)
  balance ← actual_balance c.supply_balance c.supply_index index
  let value = value_usd balance c.price_usd c.decimals
  rest ← weighted_collateral provider now cs
  some (ray_mul (wad_to_ray value) c.liquidation_threshold +ℤ rest)

unfoldable pub total_debt : IndexProvider → ℤ → List DebtEntry → Option ℤ
total_debt provider now [] = some (pos 0)
total_debt provider now (d ∷ ds) = do
  let index = or_ray (provider.current_borrow_index d.market_id now)
  debt ← actual_balance d.borrow_balance d.borrow_index index
  rest ← total_debt provider now ds
  some (wad_to_ray (value_usd debt d.price_usd d.decimals) +ℤ rest)

-- `none` is a division by zero.
unfoldable pub calculate_health_factor : UserPosition → IndexProvider → ℤ → Option ℤ
calculate_health_factor p provider now = do
  collateral ← weighted_collateral provider now p.collaterals
  debt ← total_debt provider now p.debts
  if is_zero debt then some (pos 1000 *ℤ pos ray) else ray_div collateral debt

-- The new values in the object that the map holds.
abbrev pub updated : UserPosition → UserPosition → UserPosition
updated old new = record new {
  user_address = old.user_address;
  chain_id = old.chain_id;
  heap_index = old.heap_index;
}

abbrev pub fix_if : Option ℕ → Scanner → Scanner
fix_if none s = s
fix_if (some i) s = fix i s

unfoldable pub set_position : UserPosition → Scanner → Scanner
set_position p s = elim (lookup p.user_address s.positions) [
  | none ↦
      push p.user_address (record s {
        positions = insert p.user_address (record p { heap_index = none }) s.positions;
      })
  | some old ↦
      fix_if old.heap_index
        (record s { positions = insert p.user_address (updated old p) s.positions })
]

abbrev pub remove_if : Option ℕ → Scanner → Scanner
remove_if none s = s
remove_if (some i) s = remove_at i s

unfoldable pub remove_position : ℕ → Scanner → Scanner
remove_position user s = elim (lookup user s.positions) [
  | none ↦ s
  | some p ↦
      let after = remove_if p.heap_index s in
      record after { positions = erase user after.positions }
]

-- One position of the range; the position is the one the map holds at that moment.
unfoldable pub refresh : IndexProvider → ℤ → ℕ → Scanner → Option Scanner
refresh provider now user s = elim (lookup user s.positions) [
  | none ↦ some s
  | some p ↦ do
    factor ← calculate_health_factor p provider now
    let fresh = record p { health_factor = some factor }
    some (fix_if p.heap_index (record s { positions = insert user fresh s.positions }))
]

unfoldable pub refresh_list : IndexProvider → ℤ → Map ℕ UserPosition → Scanner → Option Scanner
refresh_list provider now [] s = some s
refresh_list provider now ((user, p) ∷ m) s = do
  s1 ← refresh provider now user s
  refresh_list provider now m s1

abbrev pub refresh_all : IndexProvider → ℤ → Scanner → Option Scanner
refresh_all provider now s = refresh_list provider now s.positions s

abbrev pub is_liquidatable : UserPosition → Bool
is_liquidatable p = elim p.health_factor [ none ↦ false | some hf ↦ ltb_ℤ hf (pos ray) ]

unfoldable pub liquidatable_of : Map ℕ UserPosition → List UserPosition
liquidatable_of [] = []
liquidatable_of ((user, p) ∷ m) =
    let rest = liquidatable_of m in if is_liquidatable p then p ∷ rest else rest

abbrev pub find_liquidatable : Scanner → List UserPosition
find_liquidatable s = liquidatable_of s.positions

unfoldable pub most_dangerous : Scanner → Option UserPosition
most_dangerous s = do user ← get_elem? s.queue 0; lookup user s.positions

abbrev pub position_count : Scanner → ℕ
position_count s = length s.positions
