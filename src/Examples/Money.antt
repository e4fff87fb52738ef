-- ===== src/Examples/Money.antt =====
-- wadray.go and ratecomputer/model.go on concrete numbers.
use defi_demo.Base.{ℕ, ◌+◌, ◌*◌, ◌^◌, ◌≤◌, ◌<◌, ◌≡◌, refl, none, some, [], ◌∷◌, arith, nat_eq}
use defi_demo.Base.Assoc.{lookup}
use defi_demo.Base.Int.{ℤ, pos, pos_part, ◌*ℤ◌, ◌-ℤ◌, ◌≤ℤ◌, IsInt64}
use defi_demo.WadRay.{ray, ray_mul, ray_div, calculate_linear_interest}
use defi_demo.WadRay.Rounding.{IsRounded, ray_div-IsRounded}
use defi_demo.Rates.{
  InterestRateModelParams, PoolState, RateComputer, calculate_borrow_rate, extrapolate_index,
  handle_event, calibrated, borrow_index_at, liquidity_index_at, current_borrow_index,
}
use defi_demo.Rates.Curve.{calculate_borrow_rate_mono}
use defi_demo.Rates.Pools.{IsCurrent, IsEventOf, handle_event_known}
use defi_demo.Rates.Index.{extrapolate_index_mono, handle_event_stale, calibrated_lem}

ray_div-IsRounded_example :
    (r : ℤ) × (ray_div (pos 7) (pos 2) ≡ some r) × IsRounded (pos 7 *ℤ pos ray) 2 r
ray_div-IsRounded_example = ray_div-IsRounded (pos 7) 2 (omega arith)

-- Base 2 %, slopes 4 % and 75 %, optimum 80 %.
abbrev curve : InterestRateModelParams
curve = record {
  base_rate = pos (2 * 10 ^ 25);
  slope1 = pos (4 * 10 ^ 25);
  slope2 = pos (75 * 10 ^ 25);
  optimal_utilization = pos (80 * 10 ^ 25);
}

calculate_borrow_rate_mono_example :
    (r r' : ℕ) × (calculate_borrow_rate (pos (50 * 10 ^ 25)) curve ≡ some (pos r))
    × (calculate_borrow_rate (pos (90 * 10 ^ 25)) curve ≡ some (pos r'))
    × (2 * 10 ^ 25 ≤ r)
    × (r ≤ r')
    × (r' ≤ 2 * 10 ^ 25 + 4 * 10 ^ 25 + 75 * 10 ^ 25)
calculate_borrow_rate_mono_example =
    calculate_borrow_rate_mono (2 * 10 ^ 25) (4 * 10 ^ 25) (75 * 10 ^ 25) (80 * 10 ^ 25)
      (50 * 10 ^ 25) (90 * 10 ^ 25) (omega arith) (omega arith) (omega arith)

abbrev pool : PoolState
pool = record {
  market_id = 1;
  asset_address = 9;
  total_supply = pos 1000;
  total_borrow = pos 500;
  liquidity_index = pos ray;
  borrow_index = pos ray;
  current_borrow_rate = pos (5 * 10 ^ 25);
  current_supply_rate = pos (2 * 10 ^ 25);
  last_update_timestamp = pos 100;
  model = curve;
}

abbrev pools : RateComputer
pools = (1, pool) ∷ []

pools-lookup : lookup 1 pools ≡ some pool
unfolding lookup
pools-lookup = refl

handle_event_known_example :
    (rc' : RateComputer) × (q : PoolState) × (handle_event pools 1 (some (pos 10)) none (pos 200)
      ≡ some rc')
    × (lookup 1 rc' ≡ some q)
    × (lookup 2 rc' ≡ lookup 2 pools)
    × IsEventOf pool (some (pos 10)) none (pos 200) q
handle_event_known_example =
    handle_event_known pools 1 2 pool (some (pos 10)) none (pos 200) pools-lookup (omega arith)
      (omega arith) (omega arith)

in_range : (a b : ℕ) → a < 2 ^ 62 → b < 2 ^ 62 → IsInt64 (pos a -ℤ pos b)
unfolding ◌-ℤ◌
in_range a b h k = ground arith

extrapolate_index_mono_example :
    (pos ray ≤ℤ extrapolate_index (pos ray) (pos ray) (pos 100) (pos 200))
    × (extrapolate_index (pos ray) (pos ray) (pos 100) (pos 200)
        ≤ℤ extrapolate_index (pos ray) (pos ray) (pos 100) (pos 300))
extrapolate_index_mono_example =
    extrapolate_index_mono ray ray (pos 100) (pos 200) (pos 300)
      (in_range 200 100 (omega arith) (omega arith)) (in_range 300 100 (omega arith) (omega arith))
      (omega arith)

handle_event_stale_example :
    (rc' : RateComputer) × (q : PoolState) × (handle_event pools 1 none none (pos 40) ≡ some rc')
    × (lookup 1 rc' ≡ some q)
    × (q.last_update_timestamp ≡ pos 40)
    × (current_borrow_index pools 1 (pos 100) ≡ some (pos ray))
    × (current_borrow_index rc' 1 (pos 100)
        ≡ some (
            ray_mul
              (pos ray)
              (calculate_linear_interest q.current_borrow_rate (pos_part (pos 100 -ℤ pos 40)))))
handle_event_stale_example =
    handle_event_stale pools 1 pool (pos 40) pools-lookup (omega arith) (omega arith) (omega arith)
      (in_range 40 100 (omega arith) (omega arith)) (in_range 100 40 (omega arith) (omega arith))

calibrated_lem_example :
    (q : PoolState) × (calibrated pool (pos (2 * ray)) (pos ray) (pos 300) ≡ some q)
    × IsCurrent q
    × (borrow_index_at q (pos 300) ≡ pos (2 * ray))
    × (liquidity_index_at q (pos 300) ≡ pos ray)
    × (q.total_supply ≡ pos 1000)
    × (q.total_borrow ≡ pos 500)
calibrated_lem_example = calibrated_lem pool (pos (2 * ray)) (pos ray) (pos 300)
