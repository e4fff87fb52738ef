-- ===== src/Rates/Pools.antt =====
-- internal/liquidation/ratecomputer/model.go: the pools of the rate computer under events.
use defi_demo.Base.{
  false, ℕ, ◌≡◌, refl, Option, some, arith, inl, inr, Bool-cases, nat_eq, if◌then◌else◌, ◌≢◌, subst,
  sym, none, ◌⊎◌, ◌∙◌, ◌+◌, ◌*◌, ◌/◌, ◌<◌, ◌≤◌,
}
use defi_demo.Base.Assoc.{lookup, insert, lookup-insert}
use defi_demo.Base.Int.{ℤ, pos, leb_ℤ, is_zero, negsuc, ltb_ℤ, ◌<ℤ◌, ◌≤ℤ◌, ◌+ℤ◌, ◌-ℤ◌, ◌*ℤ◌, +ℤ_pos}
use mathlib.Core.Option.{some-injective}
use defi_demo.WadRay.{ray, wad_ray_ratio, ray_mul, ray_div, wad_to_ray}
use defi_demo.WadRay.Interest.{pos_laws, ray_div_pos, wad_to_ray_pos}
use defi_demo.WadRay.Rounding.{IsRounded, ray_mul-IsRounded}
use defi_demo.Rates.{
  InterestRateModelParams, PoolState, RateComputer, calculate_utilization_rate,
  calculate_borrow_rate, normal_rate, excess_rate, recalculate_rates, extrapolate_index,
  calculate_supply_rate, after_event, handle_event, apply_delta,
}

ray_div_total : (a b : ℤ) → is_zero b ≡ false → (r : ℤ) × (ray_div a b ≡ some r)
unfolding ray_div
ray_div_total a b h = rw h (_, refl)

wad_to_ray-nonzero : (a : ℤ) → is_zero a ≡ false → is_zero (wad_to_ray a) ≡ false
unfolding wad_to_ray ◌*ℤ◌
wad_to_ray-nonzero a h = ground arith

-- The guards of the code keep every divisor away from 0, whatever the amounts are.
pub calculate_utilization_rate-total :
    (s b : ℤ) → (u : ℤ) × (calculate_utilization_rate s b ≡ some u)
unfolding calculate_utilization_rate
calculate_utilization_rate-total s b = elim (Bool-cases (is_zero (s +ℤ b))) [
  | inl empty ↦ rw empty (pos 0, refl)
  | inr busy ↦ rw busy (ray_div_total _ _ (wad_to_ray-nonzero (s +ℤ b) busy))
]

normal_rate-total : (u : ℤ) (p : InterestRateModelParams) → (r : ℤ) × (normal_rate u p ≡ some r)
unfolding normal_rate
normal_rate-total u p = elim (Bool-cases (is_zero p.optimal_utilization)) [
  | inl point ↦ rw point (p.base_rate, refl)
  | inr wide ↦ let (q, e) = ray_div_total u p.optimal_utilization wide in rw (wide, e) (_, refl)
]

remaining-nonzero : (a : ℤ) → is_zero (if is_zero a then pos ray else a) ≡ false
remaining-nonzero a = elim (Bool-cases (is_zero a)) [ inl e ↦ rw e | inr e ↦ rw e e ]

excess_rate-total : (u : ℤ) (p : InterestRateModelParams) → (r : ℤ) × (excess_rate u p ≡ some r)
unfolding excess_rate
excess_rate-total u p =
    let left = pos ray -ℤ p.optimal_utilization in
    let (q, e) =
      ray_div_total (u -ℤ p.optimal_utilization) (if is_zero left then pos ray else left)
        (remaining-nonzero left) in
    rw e (_, refl)

-- So do those of the borrow rate, for any parameters.
pub calculate_borrow_rate-total :
    (u : ℤ) (p : InterestRateModelParams) → (r : ℤ) × (calculate_borrow_rate u p ≡ some r)
unfolding calculate_borrow_rate
calculate_borrow_rate-total u p = elim (Bool-cases (leb_ℤ u p.optimal_utilization)) [
  | inl low ↦ rw low (normal_rate-total u p)
  | inr high ↦ rw high (excess_rate-total u p)
]

pub recalculate_rates-total : (p : PoolState) → (q : PoolState) × (recalculate_rates p ≡ some q)
unfolding recalculate_rates
recalculate_rates-total p =
    let (u, e) = calculate_utilization_rate-total p.total_supply p.total_borrow in
    let (r, d) = calculate_borrow_rate-total u p.model in rw (e, d) (_, refl)

-- The rates are those of the model at the pool's totals.
abbrev pub IsCurrent : PoolState → Type 0
IsCurrent p = recalculate_rates p ≡ some p

pub recalculate_rates-IsCurrent :
    (p q : PoolState)
    → recalculate_rates p ≡ some q
    → IsCurrent q
      × (q.total_supply ≡ p.total_supply)
      × (q.total_borrow ≡ p.total_borrow)
      × (q.borrow_index ≡ p.borrow_index)
      × (q.liquidity_index ≡ p.liquidity_index)
      × (q.last_update_timestamp ≡ p.last_update_timestamp)
unfolding recalculate_rates
recalculate_rates-IsCurrent p q h = ground arith

recalculate_rates-model : (p q : PoolState) → recalculate_rates p ≡ some q → q.model ≡ p.model
unfolding recalculate_rates
recalculate_rates-model p q h = ground arith

-- The borrowed share of the totals in ray, rounded to the nearest, and 0 of an empty pool.
abbrev pub IsShare : ℤ → ℤ → ℤ → Type 0
IsShare supply borrow share =
    ((supply +ℤ borrow ≡ pos 0) × (share ≡ pos 0))
    ⊎ ((total : ℕ) × (supply +ℤ borrow ≡ pos total)
        × (0 < total)
        × IsRounded (borrow *ℤ pos ray) total share)

cancel_le : (a c k : ℕ) → 0 < k → a * k ≤ c * k → a ≤ c
cancel_le a c k g h = grind arith

cancel_lt : (a c k : ℕ) → a * k < c * k → a < c
cancel_lt a c k h = grind arith

product_pos : (a b : ℕ) → 0 < a → 0 < b → 0 < a * b
product_pos a b h g = grind arith

quotient_bounds : (n d : ℕ) → 0 < d → (n / d * d ≤ n) × (n < (n / d + 1) * d)
quotient_bounds n d h = (grind arith, grind arith)

scaled_low :
    (b total k x : ℕ)
    → x * (total * k) ≤ b * k * ray + total * k / 2
    → 2 * (total * x) * k ≤ (2 * (b * ray) + total) * k
scaled_low b total k x h = grind arith

scaled_high :
    (b total k x : ℕ)
    → b * k * ray + total * k / 2 < (x + 1) * (total * k)
    → (2 * (b * ray) + total) * k < (2 * (total * x) + 2 * total) * k
scaled_high b total k x h = grind arith

-- The scale of the dividend and the divisor goes out.
unscaled :
    (b total k : ℕ)
    → 0 < total
    → 0 < k
    → IsRounded (pos b *ℤ pos ray) total (pos ((b * k * ray + total * k / 2) / (total * k)))
unscaled b total k h g =
    let x = (b * k * ray + total * k / 2) / (total * k) in
    let (least, greatest) =
      quotient_bounds (b * k * ray + total * k / 2) (total * k) (product_pos total k h g) in
    let low : 2 * (total * x) * k ≤ (2 * (b * ray) + total) * k = scaled_low b total k x least in
    let high : (2 * (b * ray) + total) * k < (2 * (total * x) + 2 * total) * k =
      scaled_high b total k x greatest in
    let a = cancel_le (2 * (total * x)) (2 * (b * ray) + total) k g low in
    let c = cancel_lt (2 * (b * ray) + total) (2 * (total * x) + 2 * total) k high in
    simp pos_laws (ground (arith, a), ground (arith, c))

calculate_utilization_rate-IsShare :
    (supply borrow : ℤ)
    → pos 0 ≤ℤ supply
    → pos 0 ≤ℤ borrow
    → (u : ℤ) × (calculate_utilization_rate supply borrow ≡ some u) × IsShare supply borrow u
unfolding calculate_utilization_rate
calculate_utilization_rate-IsShare (pos s) (pos b) hs hb =
    elim (Bool-cases (is_zero (pos s +ℤ pos b))) [
      | inl empty ↦ (pos 0, rw empty refl, inl (ground (arith, empty), refl))
      | inr busy ↦
          let sum = +ℤ_pos s b in
          let some_total : 0 < s + b = ground (arith, busy, sum) in
          (
            pos (
                (b * wad_ray_ratio * ray + (s + b) * wad_ray_ratio / 2)
                / ((s + b) * wad_ray_ratio)),
            rw (busy, sum, wad_to_ray_pos, wad_to_ray_pos)
                (ray_div_pos (b * wad_ray_ratio) ((s + b) * wad_ray_ratio) (omega arith)),
            inr (s + b, sum, some_total, unscaled b (s + b) wad_ray_ratio some_total (omega arith)),
          )
    ]
calculate_utilization_rate-IsShare (pos s) (negsuc b) hs hb = absurd (omega arith)
calculate_utilization_rate-IsShare (negsuc s) borrow hs hb = absurd (omega arith)

apply_delta-nonneg : (a : ℤ) (d : Option ℤ) → pos 0 ≤ℤ a → pos 0 ≤ℤ apply_delta a d
apply_delta-nonneg a d h = ground arith

-- The total after a delta: the sum, or 0 where the sum is negative.
abbrev pub IsClamped : ℤ → Option ℤ → ℤ → Type 0
IsClamped total none result = result ≡ total
IsClamped total (some delta) result =
    ((pos 0 ≤ℤ total +ℤ delta) × (result ≡ total +ℤ delta))
    ⊎ ((total +ℤ delta <ℤ pos 0) × (result ≡ pos 0))

apply_delta-IsClamped : (total : ℤ) (d : Option ℤ) → IsClamped total d (apply_delta total d)
apply_delta-IsClamped total none = refl
apply_delta-IsClamped total (some delta) = elim (Bool-cases (ltb_ℤ (total +ℤ delta) (pos 0))) [
  | inl below ↦ inr (ground (arith, below), rw below refl)
  | inr above ↦ inl (ground (arith, above), rw above refl)
]

-- The rates of the pool are those of its model at the share of its totals that is borrowed: the
-- supply rate is the part of the borrow rate, rounded to the nearest, that this share pays.
abbrev pub IsPriced : PoolState → Type 0
IsPriced q =
    (share : ℤ) × IsShare q.total_supply q.total_borrow share
    × (calculate_borrow_rate share q.model ≡ some q.current_borrow_rate)
    × IsRounded (q.current_borrow_rate *ℤ share) ray q.current_supply_rate

abbrev priced_at : PoolState → ℤ → ℤ → PoolState
priced_at p r u = record p { current_borrow_rate = r; current_supply_rate = ray_mul r u }

recalculate_rates-IsPriced :
    (p q : PoolState)
    → pos 0 ≤ℤ p.total_supply
    → pos 0 ≤ℤ p.total_borrow
    → recalculate_rates p ≡ some q
    → IsPriced q
unfolding recalculate_rates calculate_supply_rate
recalculate_rates-IsPriced p q hs hb h =
    let (u, e, share) = calculate_utilization_rate-IsShare p.total_supply p.total_borrow hs hb in
    let (r, d) = calculate_borrow_rate-total u p.model in
    let made : recalculate_rates p ≡ some (priced_at p r u) = rw (recalculate_rates, e, d) refl in
    subst IsPriced {x = priced_at p r u} {y = q} (some-injective (priced_at p r u) q (sym made ∙ h))
      (u, share, d, ray_mul-IsRounded r u)

-- What an event at `t` makes of a pool: the totals are the clamped sums, the rates those of the
-- model at the new totals, and the indices those extrapolated at the old rates.
pub record IsEventOf (p : PoolState) (supply_delta borrow_delta : Option ℤ) (t : ℤ) (q : PoolState)
    : Type 0 where
  pub supply : IsClamped p.total_supply supply_delta q.total_supply
  pub borrow : IsClamped p.total_borrow borrow_delta q.total_borrow
  pub supply_nonneg : pos 0 ≤ℤ q.total_supply
  pub borrow_nonneg : pos 0 ≤ℤ q.total_borrow
  pub priced : IsPriced q
  pub borrow_index :
      q.borrow_index
      ≡ extrapolate_index p.borrow_index p.current_borrow_rate p.last_update_timestamp t
  pub liquidity_index :
      q.liquidity_index
      ≡ extrapolate_index p.liquidity_index p.current_supply_rate p.last_update_timestamp t
  pub stamped : q.last_update_timestamp ≡ t
  pub same_model : q.model ≡ p.model

pub after_event_lem :
    (p : PoolState) (supply_delta borrow_delta : Option ℤ) (t : ℤ)
    → pos 0 ≤ℤ p.total_supply
    → pos 0 ≤ℤ p.total_borrow
    → (q : PoolState) × (after_event p supply_delta borrow_delta t ≡ some q)
      × IsEventOf p supply_delta borrow_delta t q
unfolding after_event
after_event_lem p sd bd t hs hb =
    let (q, e) = recalculate_rates-total _ in
    let (current, supply, borrow, bi, li, time) = recalculate_rates-IsCurrent _ q e in
    let hs1 = apply_delta-nonneg p.total_supply sd hs in
    let hb1 = apply_delta-nonneg p.total_borrow bd hb in
    (
      q,
      e,
      record {
        supply =
            subst (λ z. IsClamped p.total_supply sd z) (sym supply)
              (apply_delta-IsClamped p.total_supply sd);
        borrow =
            subst (λ z. IsClamped p.total_borrow bd z) (sym borrow)
              (apply_delta-IsClamped p.total_borrow bd);
        supply_nonneg = subst (λ z. pos 0 ≤ℤ z) (sym supply) hs1;
        borrow_nonneg = subst (λ z. pos 0 ≤ℤ z) (sym borrow) hb1;
        priced = recalculate_rates-IsPriced _ q hs1 hb1 e;
        borrow_index = bi;
        liquidity_index = li;
        stamped = time;
        same_model = recalculate_rates-model _ q e;
      },
    )

-- HandleEvent on a known market with totals that are not negative returns without a division by
-- zero and changes that pool alone. Each total is the sum with its delta, or 0 where the sum is
-- negative, and as before without a delta; the indices are extrapolated to the event from the pool
-- before it, at the old rates; the borrow rate is that of the same model at the borrowed share of
-- the new totals, rounded to the nearest in ray, and the supply rate is the product of the two,
-- rounded to the nearest.
pub handle_event_known :
    (rc : RateComputer) (m j : ℕ) (p : PoolState) (supply_delta borrow_delta : Option ℤ) (t : ℤ)
    → lookup m rc ≡ some p
    → pos 0 ≤ℤ p.total_supply
    → pos 0 ≤ℤ p.total_borrow
    → j ≢ m
    → (rc' : RateComputer) × (q : PoolState) × (handle_event rc m supply_delta borrow_delta t
        ≡ some rc')
      × (lookup m rc' ≡ some q)
      × (lookup j rc' ≡ lookup j rc)
      × IsEventOf p supply_delta borrow_delta t q
unfolding handle_event
handle_event_known rc m j p sd bd t e hs hb n =
    let (q, a, i) = after_event_lem p sd bd t hs hb in
    (
      insert m q rc,
      q,
      rw (e, handle_event) (rw a),
      ground (arith, lookup-insert m m q rc),
      ground (arith, lookup-insert m j q rc),
      i,
    )
