-- ===== src/WadRay.antt =====
-- internal/common/math/wadray.go: fixed-point numbers in units of 10^-18 (wad) and 10^-27 (ray).
-- A `big.Int` is a ℤ; `none` is the panic of a division by zero.
pub mod Rounding
pub mod Interest
use defi_demo.Base.{◌*◌, ◌/◌, ◌^◌, ℕ, Option, none, some, nat_eqb, if◌then◌else◌}
use defi_demo.Base.Int.{ℤ, pos, ◌+ℤ◌, ◌-ℤ◌, ◌*ℤ◌, is_zero, div_ℤ}

abbrev pub wad : ℕ
wad = 10 ^ 18

abbrev pub ray : ℕ
ray = 10 ^ 27

abbrev pub half_wad : ℕ
half_wad = wad / 2

abbrev pub half_ray : ℕ
half_ray = ray / 2

abbrev pub seconds_per_year : ℕ
seconds_per_year = 365 * 24 * 3600

-- The factor between the two scales, and its half.
abbrev pub wad_ray_ratio : ℕ
wad_ray_ratio = 10 ^ 9

unfoldable pub wad_mul : ℤ → ℤ → ℤ
wad_mul a b = div_ℤ (a *ℤ b +ℤ pos half_wad) (pos wad)

unfoldable pub wad_div : ℤ → ℤ → Option ℤ
wad_div a b = if is_zero b then none else some (div_ℤ (a *ℤ pos wad +ℤ div_ℤ b (pos 2)) b)

unfoldable pub ray_mul : ℤ → ℤ → ℤ
ray_mul a b = div_ℤ (a *ℤ b +ℤ pos half_ray) (pos ray)

unfoldable pub ray_div : ℤ → ℤ → Option ℤ
ray_div a b = if is_zero b then none else some (div_ℤ (a *ℤ pos ray +ℤ div_ℤ b (pos 2)) b)

unfoldable pub wad_to_ray : ℤ → ℤ
wad_to_ray a = a *ℤ pos wad_ray_ratio

unfoldable pub ray_to_wad : ℤ → ℤ
ray_to_wad a = div_ℤ (a +ℤ pos (wad_ray_ratio / 2)) (pos wad_ray_ratio)

-- `timeDelta` is a uint64.
unfoldable pub calculate_linear_interest : ℤ → ℕ → ℤ
calculate_linear_interest rate time_delta =
    if nat_eqb time_delta 0
    then pos ray
    else div_ℤ (rate *ℤ pos time_delta) (pos seconds_per_year) +ℤ pos ray

unfoldable pub calculate_compounded_interest : ℤ → ℕ → ℤ
calculate_compounded_interest rate time_delta =
    if nat_eqb time_delta 0
    then pos ray
    else let td = pos time_delta in
      let term1 = div_ℤ (rate *ℤ td) (pos seconds_per_year) in
      let rate_sq = ray_mul rate rate in
      let td_minus1 = td -ℤ pos 1 in
      let spy_sq = pos seconds_per_year *ℤ pos seconds_per_year in
      let term2 = div_ℤ (div_ℤ (rate_sq *ℤ td *ℤ td_minus1) spy_sq) (pos 2) in
      let rate_cubed = ray_mul rate_sq rate in
      let td_minus2 = td -ℤ pos 2 in
      let spy_cubed = spy_sq *ℤ pos seconds_per_year in
      let term3 = div_ℤ (div_ℤ (rate_cubed *ℤ td *ℤ td_minus1 *ℤ td_minus2) spy_cubed) (pos 6) in
      pos ray +ℤ term1 +ℤ term2 +ℤ term3
