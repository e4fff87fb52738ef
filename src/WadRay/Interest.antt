-- ===== src/WadRay/Interest.antt =====
-- The interest multipliers of wadray.go at rates that are not negative, and the forms that the
-- fixed-point operations take on such numbers.
use defi_demo.Base.{ℕ, zero, suc, ◌+◌, ◌-◌, ◌*◌, ◌/◌, ◌≤◌, ◌<◌, ◌≡◌, some, arith}
use defi_demo.Base.Int.{
  ℤ, pos, pos_part, neg_part, ◌+ℤ◌, ◌-ℤ◌, ◌*ℤ◌, ◌≤ℤ◌, div_ℤ, +ℤ_pos, *ℤ_pos, -ℤ_pos, div_ℤ_pos,
}
use defi_demo.WadRay.{
  ray, half_ray, wad_ray_ratio, seconds_per_year, ray_mul, ray_div, wad_to_ray, ray_to_wad,
  calculate_linear_interest, calculate_compounded_interest,
}

pub ruleset pos_laws = (+ℤ_pos, *ℤ_pos, div_ℤ_pos)

pub ray_mul_pos : (a b : ℕ) → ray_mul (pos a) (pos b) ≡ pos ((a * b + half_ray) / ray)
unfolding ray_mul
ray_mul_pos a b = simp pos_laws

pub ray_div_pos : (a b : ℕ) → 0 < b → ray_div (pos a) (pos b) ≡ some (pos ((a * ray + b / 2) / b))
unfolding ray_div
ray_div_pos a b h = simp pos_laws (ground arith)

pub wad_to_ray_pos : (a : ℕ) → wad_to_ray (pos a) ≡ pos (a * wad_ray_ratio)
unfolding wad_to_ray
wad_to_ray_pos a = simp pos_laws

pub ray_to_wad_pos : (a : ℕ) → ray_to_wad (pos a) ≡ pos ((a + wad_ray_ratio / 2) / wad_ray_ratio)
unfolding ray_to_wad
ray_to_wad_pos a = simp pos_laws

-- Also at a time difference of 0, where the code returns early.
pub calculate_linear_interest_pos :
    (rate td : ℕ)
    → calculate_linear_interest (pos rate) td ≡ pos (rate * td / seconds_per_year + ray)
unfolding calculate_linear_interest
calculate_linear_interest_pos rate zero = ground arith
calculate_linear_interest_pos rate (suc td) = simp pos_laws (ground arith)

-- A non-negative rate never shrinks an index, and more time never gives less.
pub calculate_linear_interest_mono :
    (rate s t : ℕ)
    → s ≤ t
    → (pos ray ≤ℤ calculate_linear_interest (pos rate) s)
      × (calculate_linear_interest (pos rate) s ≤ℤ calculate_linear_interest (pos rate) t)
calculate_linear_interest_mono rate s t h =
    rw (calculate_linear_interest_pos rate s, calculate_linear_interest_pos rate t)
      (omega arith, grind arith)

*ℤ_zero : (a : ℤ) → a *ℤ pos 0 ≡ pos 0
unfolding ◌*ℤ◌
*ℤ_zero a = ground arith

zero_*ℤ : (a : ℤ) → pos 0 *ℤ a ≡ pos 0
unfolding ◌*ℤ◌
zero_*ℤ a = ground arith

-- The factors td - 1 and td - 2 of the expansion.
less_one : (td : ℕ) → pos (suc td) -ℤ pos 1 ≡ pos td
unfolding ◌-ℤ◌
less_one td = ground arith

less_two : (td : ℕ) → pos (suc (suc td)) -ℤ pos 2 ≡ pos td
unfolding ◌-ℤ◌
less_two td = ground arith

-- The three terms of the binomial expansion, over ℕ.
pub calculate_compounded_interest_pos :
    (rate td : ℕ)
    → let sq = (rate * rate + half_ray) / ray in
      let cube = (sq * rate + half_ray) / ray in
      let spy = seconds_per_year in
      calculate_compounded_interest (pos rate) td
      ≡ pos (
          ray
          + rate * td / spy
          + sq * td * (td - 1) / (spy * spy) / 2
          + cube * td * (td - 1) * (td - 2) / (spy * spy * spy) / 6)
unfolding calculate_compounded_interest
calculate_compounded_interest_pos rate zero = ground arith
calculate_compounded_interest_pos rate (suc zero) =
    simp (less_one 0, *ℤ_zero, zero_*ℤ, ray_mul_pos, pos_laws) (ground arith)
calculate_compounded_interest_pos rate (suc (suc td)) =
    simp (less_one (suc td), less_two td, ray_mul_pos, pos_laws) (ground arith)

-- For a rate that is not negative the compounded interest is at least the linear interest over the
-- same time.
pub compounded-ge-linear :
    (rate td : ℕ)
    → calculate_linear_interest (pos rate) td ≤ℤ calculate_compounded_interest (pos rate) td
compounded-ge-linear rate td =
    rw (calculate_linear_interest_pos rate td, calculate_compounded_interest_pos rate td)
      (omega arith)
