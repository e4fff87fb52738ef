-- ===== src/WadRay/Rounding.antt =====
-- internal/common/math/wadray.go: how products and quotients are rounded.
use defi_demo.Base.{ℕ, ◌+◌, ◌*◌, ◌/◌, ◌<◌, ◌≡◌, some, arith}
use defi_demo.Base.Int.{
  ℤ, pos, negsuc, pos_part, neg_part, ◌+ℤ◌, ◌*ℤ◌, ◌≤ℤ◌, ◌<ℤ◌, div_ℤ, div_ℤ_bounds, +ℤ_parts,
}
use defi_demo.WadRay.{
  wad, ray, wad_ray_ratio, wad_mul, wad_div, ray_mul, ray_div, wad_to_ray, ray_to_wad,
}

-- `r` is num / den rounded to the nearest integer, a half upwards:
-- 2 den r ≤ 2 num + den < 2 den (r + 1).
abbrev pub IsRounded : ℤ → ℕ → ℤ → Type 0
IsRounded num den r =
    (pos 2 *ℤ (pos den *ℤ r) ≤ℤ pos 2 *ℤ num +ℤ pos den)
    × (pos 2 *ℤ num +ℤ pos den <ℤ pos 2 *ℤ (pos den *ℤ r) +ℤ pos (2 * den))

double_parts :
    (a : ℤ) → pos_part (pos 2 *ℤ a) + 2 * neg_part a ≡ neg_part (pos 2 *ℤ a) + 2 * pos_part a
unfolding ◌*ℤ◌
double_parts a = ground arith

-- Adding half of the divisor before the division rounds to the nearest.
div_half-IsRounded :
    (num : ℤ) (den : ℕ) → 0 < den → IsRounded num den (div_ℤ (num +ℤ pos (den / 2)) (pos den))
div_half-IsRounded num den h =
    let b = div_ℤ_bounds (num +ℤ pos (den / 2)) den h in
    (
      omega (arith, b.0, b.1, double_parts, +ℤ_parts),
      omega (arith, b.0, b.1, double_parts, +ℤ_parts),
    )

pub wad_mul-IsRounded : (a b : ℤ) → IsRounded (a *ℤ b) wad (wad_mul a b)
unfolding wad_mul
wad_mul-IsRounded a b = div_half-IsRounded (a *ℤ b) wad (omega arith)

pub ray_mul-IsRounded : (a b : ℤ) → IsRounded (a *ℤ b) ray (ray_mul a b)
unfolding ray_mul
ray_mul-IsRounded a b = div_half-IsRounded (a *ℤ b) ray (omega arith)

pub wad_div-IsRounded :
    (a : ℤ) (b : ℕ) → 0 < b → (r : ℤ) × (wad_div a (pos b) ≡ some r) × IsRounded (a *ℤ pos wad) b r
unfolding wad_div div_ℤ
wad_div-IsRounded a b h = (
  div_ℤ (a *ℤ pos wad +ℤ pos (b / 2)) (pos b),
  ground arith,
  div_half-IsRounded (a *ℤ pos wad) b h,
)

-- The ray quotient by a positive number exists and is the exact quotient rounded to the nearest, a
-- half upwards, for negative dividends too.
pub ray_div-IsRounded :
    (a : ℤ) (b : ℕ) → 0 < b → (r : ℤ) × (ray_div a (pos b) ≡ some r) × IsRounded (a *ℤ pos ray) b r
unfolding ray_div div_ℤ
ray_div-IsRounded a b h = (
  div_ℤ (a *ℤ pos ray +ℤ pos (b / 2)) (pos b),
  ground arith,
  div_half-IsRounded (a *ℤ pos ray) b h,
)

pub ray_to_wad-IsRounded : (a : ℤ) → IsRounded a wad_ray_ratio (ray_to_wad a)
unfolding ray_to_wad
ray_to_wad-IsRounded a = div_half-IsRounded a wad_ray_ratio (omega arith)

pub ray_to_wad-wad_to_ray : (a : ℤ) → ray_to_wad (wad_to_ray a) ≡ a
unfolding ray_to_wad wad_to_ray div_ℤ ◌*ℤ◌ ◌+ℤ◌
ray_to_wad-wad_to_ray (pos a) = ground arith
ray_to_wad-wad_to_ray (negsuc a) = ground arith
