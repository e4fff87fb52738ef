-- ===== src/Rates.antt =====
-- internal/liquidation/ratecomputer/model.go: the jump-rate interest model, and the pools whose
-- indices it extrapolates. `none` is a panic. The map of pools holds pool values: no caller keeps
-- the pointer that it gave to SetPool.
pub mod Curve
pub mod Pools
pub mod Index
use defi_demo.Base.{ℕ, Option, none, some, nat_eq, if◌then◌else◌, ◌>>=◌}
use defi_demo.Base.Int.{ℤ, pos, ◌+ℤ◌, ◌-ℤ◌, ltb_ℤ, leb_ℤ, is_zero, abs, to_int64, to_uint64}
use defi_demo.Base.Assoc.{Map, lookup, insert}
use defi_demo.Base.Floats.{Floats}
use defi_demo.WadRay.{ray, ray_mul, ray_div, wad_to_ray, calculate_linear_interest}

pub record InterestRateModelParams : Type 0 where
  pub base_rate : ℤ
  pub slope1 : ℤ
  pub slope2 : ℤ
  pub optimal_utilization : ℤ

-- Market ids and addresses are opaque numbers; timestamps are int64 seconds.
pub record PoolState : Type 0 where
  pub market_id : ℕ
  pub asset_address : ℕ
  pub total_supply : ℤ
  pub total_borrow : ℤ
  pub liquidity_index : ℤ
  pub borrow_index : ℤ
  pub current_borrow_rate : ℤ
  pub current_supply_rate : ℤ
  pub last_update_timestamp : ℤ
  pub model : InterestRateModelParams

abbrev pub RateComputer : Type 0
RateComputer = Map ℕ PoolState

abbrev pub set_pool : RateComputer → PoolState → RateComputer
set_pool rc state = insert state.market_id state rc

abbrev pub get_pool : RateComputer → ℕ → Option PoolState
get_pool rc market_id = lookup market_id rc

unfoldable pub calculate_utilization_rate : ℤ → ℤ → Option ℤ
calculate_utilization_rate total_supply total_borrow =
    let total = total_supply +ℤ total_borrow in
    if is_zero total then some (pos 0) else ray_div (wad_to_ray total_borrow) (wad_to_ray total)

-- The rate up to the optimal utilization.
unfoldable pub normal_rate : ℤ → InterestRateModelParams → Option ℤ
normal_rate utilization params =
    if is_zero params.optimal_utilization then some params.base_rate else do
      ratio ← ray_div utilization params.optimal_utilization
      some (params.base_rate +ℤ ray_mul ratio params.slope1)

-- The rate above it; a remaining range of 0 counts as the whole range.
unfoldable pub excess_rate : ℤ → InterestRateModelParams → Option ℤ
excess_rate utilization params = do
  let left = pos ray -ℤ params.optimal_utilization
  let remaining = if is_zero left then pos ray else left
  ratio ← ray_div (utilization -ℤ params.optimal_utilization) remaining
  some (params.base_rate +ℤ params.slope1 +ℤ ray_mul ratio params.slope2)

unfoldable pub calculate_borrow_rate : ℤ → InterestRateModelParams → Option ℤ
calculate_borrow_rate utilization params =
    if leb_ℤ utilization params.optimal_utilization
    then normal_rate utilization params
    else excess_rate utilization params

unfoldable pub calculate_supply_rate : ℤ → ℤ → ℤ
calculate_supply_rate borrow_rate utilization = ray_mul borrow_rate utilization

-- The difference of two int64 timestamps wraps around.
unfoldable pub extrapolate_index : ℤ → ℤ → ℤ → ℤ → ℤ
extrapolate_index last_index rate last_timestamp now =
    let time_delta = to_int64 (now -ℤ last_timestamp) in
    if leb_ℤ time_delta (pos 0)
    then last_index
    else ray_mul last_index (calculate_linear_interest rate (to_uint64 time_delta))

-- The fields that every index read goes through.
abbrev pub borrow_index_at : PoolState → ℤ → ℤ
borrow_index_at p now =
    extrapolate_index p.borrow_index p.current_borrow_rate p.last_update_timestamp now

abbrev pub liquidity_index_at : PoolState → ℤ → ℤ
liquidity_index_at p now =
    extrapolate_index p.liquidity_index p.current_supply_rate p.last_update_timestamp now

unfoldable pub current_borrow_index : RateComputer → ℕ → ℤ → Option ℤ
current_borrow_index rc market_id now = do
  pool ← lookup market_id rc
  some (borrow_index_at pool now)

unfoldable pub current_liquidity_index : RateComputer → ℕ → ℤ → Option ℤ
current_liquidity_index rc market_id now = do
  pool ← lookup market_id rc
  some (liquidity_index_at pool now)

-- `Recalculate rates`, which ends both CalibratePool and HandleEvent.
unfoldable pub recalculate_rates : PoolState → Option PoolState
recalculate_rates pool = do
  utilization ← calculate_utilization_rate pool.total_supply pool.total_borrow
  borrow_rate ← calculate_borrow_rate utilization pool.model
  some (record pool {
    current_borrow_rate = borrow_rate;
    current_supply_rate = calculate_supply_rate borrow_rate utilization;
  })

-- The pool that CalibratePool leaves.
unfoldable pub calibrated : PoolState → ℤ → ℤ → ℤ → Option PoolState
calibrated pool chain_borrow_index chain_liquidity_index chain_timestamp =
    recalculate_rates (record pool {
      borrow_index = chain_borrow_index;
      liquidity_index = chain_liquidity_index;
      last_update_timestamp = chain_timestamp;
    })

-- `nil` deltas are `none`; a total below 0 becomes 0.
abbrev pub apply_delta : ℤ → Option ℤ → ℤ
apply_delta total none = total
apply_delta total (some delta) =
    let sum = total +ℤ delta in if ltb_ℤ sum (pos 0) then pos 0 else sum

-- The pool that HandleEvent leaves: interest first, then the deltas.
unfoldable pub after_event : PoolState → Option ℤ → Option ℤ → ℤ → Option PoolState
after_event pool supply_delta borrow_delta chain_timestamp = recalculate_rates (record pool {
  borrow_index = borrow_index_at pool chain_timestamp;
  liquidity_index = liquidity_index_at pool chain_timestamp;
  last_update_timestamp = chain_timestamp;
  total_supply = apply_delta pool.total_supply supply_delta;
  total_borrow = apply_delta pool.total_borrow borrow_delta;
})

unfoldable pub handle_event : RateComputer → ℕ → Option ℤ → Option ℤ → ℤ → Option RateComputer
handle_event rc market_id supply_delta borrow_delta chain_timestamp = elim (lookup market_id rc) [
  | none ↦ some rc
  | some pool ↦ do
    pool' ← after_event pool supply_delta borrow_delta chain_timestamp
    some (insert market_id pool' rc)
]

module _ (f : Floats) where
  open f use {Float, of_int, quo, mul}

  -- |local - chain| / chain, in percent.
  deviation : PoolState → ℤ → ℤ → Float
  deviation pool chain_borrow_index chain_timestamp =
      if ltb_ℤ (pos 0) chain_borrow_index
      then (mul
          (quo (abs (borrow_index_at pool chain_timestamp -ℤ chain_borrow_index))
            chain_borrow_index)
          (of_int (pos 100)))
      else of_int (pos 0)

  unfoldable pub calibrate_pool : RateComputer → ℕ → ℤ → ℤ → ℤ → Option (Float × RateComputer)
  unfolding deviation
  calibrate_pool rc market_id chain_borrow_index chain_liquidity_index chain_timestamp =
      elim (lookup market_id rc) [
        | none ↦ some (of_int (pos 0), rc)
        | some pool ↦ do
          pool' ← calibrated pool chain_borrow_index chain_liquidity_index chain_timestamp
          some (deviation pool chain_borrow_index chain_timestamp, insert market_id pool' rc)
      ]
