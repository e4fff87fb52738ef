-- ===== src/Rates/Curve.antt =====
-- The utilisation and the borrow rate as functions: range, monotonicity, and the two ends of the
-- curve. Amounts and parameters are numbers that are not negative.
use native.Mathlib.Nat.{div-lt_iff_lt-mul, le-div_iff_mul-le, div-mul-le_self}
use defi_demo.Base.{
  ℕ, zero, suc, ◌+◌, ◌-◌, ◌*◌, ◌/◌, ◌≤◌, ◌<◌, ◌≡◌, refl, some, arith, leb, if◌then◌else◌,
}
use defi_demo.Base.Int.{pos, ◌+ℤ◌, +ℤ_pos, -ℤ_pos}
use defi_demo.WadRay.{ray, half_ray, wad_ray_ratio}
use defi_demo.WadRay.Interest.{ray_mul_pos, ray_div_pos, wad_to_ray_pos}
use defi_demo.Rates.{
  InterestRateModelParams, calculate_utilization_rate, calculate_borrow_rate, normal_rate,
  excess_rate,
}

-- Quotients that are rounded to the nearest, over ℕ.
abbrev pub quot : ℕ → ℕ → ℕ
quot a b = (a * ray + b / 2) / b

abbrev pub scale : ℕ → ℕ → ℕ
scale x s = (x * s + half_ray) / ray

pub quot-le-ray : (a b : ℕ) → 0 < b → a ≤ b → quot a b ≤ ray
quot-le-ray a b h k =
    omega (arith, (div-lt_iff_lt-mul {x = a * ray + b / 2} {y = ray + 1} h).1 (omega arith))

pub quot_mono : (a c b : ℕ) → 0 < b → a ≤ c → quot a b ≤ quot c b
quot_mono a c b h k = (le-div_iff_mul-le h).1 (omega (arith, div-mul-le_self (a * ray + b / 2) b))

pub scale_mono : (x y s : ℕ) → x ≤ y → scale x s ≤ scale y s
scale_mono x y s h = grind arith

pub scale-le : (x s : ℕ) → x ≤ ray → scale x s ≤ s
scale-le x s h = grind arith

-- The share of `b` in `s + b`, as the code computes it.
abbrev pub share : ℕ → ℕ → ℕ
share s b = quot (b * wad_ray_ratio) ((s + b) * wad_ray_ratio)

pub share_lem :
    (s b : ℕ) → 0 < s + b → calculate_utilization_rate (pos s) (pos b) ≡ some (pos (share s b))
unfolding calculate_utilization_rate
share_lem s b h = ground (
  arith,
  +ℤ_pos s b,
  wad_to_ray_pos b,
  wad_to_ray_pos (s + b),
  ray_div_pos (b * wad_ray_ratio) ((s + b) * wad_ray_ratio) (omega arith),
)

idle_lem : calculate_utilization_rate (pos 0) (pos 0) ≡ some (pos 0)
unfolding calculate_utilization_rate ◌+ℤ◌
idle_lem = refl

-- The utilisation is a fraction: at most one ray, and 0 when nothing is borrowed.
pub utilization_range :
    (s b : ℕ) → (u : ℕ) × (calculate_utilization_rate (pos s) (pos b) ≡ some (pos u)) × (u ≤ ray)
utilization_range zero zero = (0, idle_lem, omega arith)
utilization_range (suc s) b = (
  share (suc s) b,
  share_lem (suc s) b (omega arith),
  quot-le-ray _ _ (omega arith) (omega arith),
)
utilization_range zero (suc b) = (
  share 0 (suc b),
  share_lem 0 (suc b) (omega arith),
  quot-le-ray _ _ (omega arith) (omega arith),
)

module _ (base s1 s2 opt : ℕ) where
  abbrev params : InterestRateModelParams
  params = record {
    base_rate = pos base;
    slope1 = pos s1;
    slope2 = pos s2;
    optimal_utilization = pos opt;
  }

  abbrev normal : ℕ → ℕ
  normal u = base + scale (quot u opt) s1

  abbrev excess : ℕ → ℕ
  excess u = base + s1 + scale (quot (u - opt) (ray - opt)) s2

  normal_pos :
      (u : ℕ) → 0 < opt → u ≤ opt → calculate_borrow_rate (pos u) params ≡ some (pos (normal u))
  unfolding calculate_borrow_rate normal_rate excess_rate
  normal_pos u h k =
      ground (
        arith,
        ray_div_pos u opt h,
        ray_mul_pos (quot u opt) s1,
        +ℤ_pos base (scale (quot u opt) s1),
      )

  excess_pos :
      (u : ℕ) → opt < ray → opt < u → calculate_borrow_rate (pos u) params ≡ some (pos (excess u))
  unfolding calculate_borrow_rate normal_rate excess_rate
  excess_pos u h k = ground (
    arith,
    -ℤ_pos u opt (omega arith),
    -ℤ_pos ray opt (omega arith),
    ray_div_pos (u - opt) (ray - opt) (omega arith),
    ray_mul_pos (quot (u - opt) (ray - opt)) s2,
    +ℤ_pos base s1,
    +ℤ_pos (base + s1) (scale (quot (u - opt) (ray - opt)) s2),
  )

  normal_zero : opt ≡ 0 → calculate_borrow_rate (pos 0) params ≡ some (pos base)
  unfolding calculate_borrow_rate normal_rate excess_rate
  normal_zero h = ground arith

  -- The curve as a function on ℕ; at an optimum of 0 the first stretch is a single point.
  pub rate_at : ℕ → ℕ
  rate_at u = if leb u opt then (if leb opt 0 then base else normal u) else excess u

  pub rate_at_lem :
      (u : ℕ) → opt ≤ ray → u ≤ ray → calculate_borrow_rate (pos u) params ≡ some (pos (rate_at u))
  unfolding rate_at
  rate_at_lem zero h k = ground (arith, normal_zero, normal_pos 0)
  rate_at_lem (suc u) h k = ground (arith, normal_pos (suc u), excess_pos (suc u))

  module _ (u v : ℕ) (inside : v ≤ ray) (order : u ≤ v) where
    rate_at_mono : rate_at u ≤ rate_at v
    unfolding rate_at
    rate_at_mono = ground (
      arith,
      quot_mono u v opt,
      scale_mono (quot u opt) (quot v opt) s1,
      quot-le-ray u opt,
      scale-le (quot u opt) s1,
      quot_mono (u - opt) (v - opt) (ray - opt),
      scale_mono (quot (u - opt) (ray - opt)) (quot (v - opt) (ray - opt)) s2,
    )

    -- For an optimum of at most 1 and two utilisations of at most 1 in order, the borrow rate
    -- exists at both, does not fall from the first to the second, also across the optimum, and lies
    -- between the base rate and the sum of the base rate and the two slopes.
    pub calculate_borrow_rate_mono :
        opt ≤ ray
        → (r r' : ℕ) × (calculate_borrow_rate (pos u) params ≡ some (pos r))
          × (calculate_borrow_rate (pos v) params ≡ some (pos r'))
          × (base ≤ r)
          × (r ≤ r')
          × (r' ≤ base + s1 + s2)
    unfolding rate_at
    calculate_borrow_rate_mono h = (
      rate_at u,
      rate_at v,
      rate_at_lem u h (omega arith),
      rate_at_lem v h inside,
      omega (arith, lower),
      rate_at_mono,
      upper,
    )
      where
        lower : base ≤ rate_at u
        lower = ground arith

        upper : rate_at v ≤ base + s1 + s2
        upper = ground (
          arith,
          quot-le-ray v opt,
          scale-le (quot v opt) s1,
          quot-le-ray (v - opt) (ray - opt),
          scale-le (quot (v - opt) (ray - opt)) s2,
        )
