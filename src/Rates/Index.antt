-- ===== src/Rates/Index.antt =====
-- How the indices move: extrapolation, events out of order, and calibration.
use defi_demo.Base.{
  ℕ, ◌+◌, ◌*◌, ◌/◌, ◌^◌, ◌%◌, ap, ◌∙◌, zero, suc, ◌≤◌, ◌<◌, ◌≡◌, none, some, arith, nat_eq,
  if◌then◌else◌,
}
use defi_demo.Base.Assoc.{lookup}
use defi_demo.Base.Int.{
  ℤ, pos, negsuc, pos_part, leb_ℤ, ◌≤ℤ◌, ◌<ℤ◌, ◌-ℤ◌, -ℤ_parts, IsInt64, to_uint64,
  to_int64_of_IsInt64,
}
use defi_demo.WadRay.{ray, half_ray, seconds_per_year, ray_mul, calculate_linear_interest}
use defi_demo.WadRay.Interest.{ray_mul_pos, calculate_linear_interest_pos}
use defi_demo.Rates.{
  PoolState, RateComputer, extrapolate_index, borrow_index_at, liquidity_index_at,
  current_borrow_index, handle_event, calibrated,
}
use defi_demo.Rates.Pools.{
  IsCurrent, handle_event_known, recalculate_rates-total, recalculate_rates-IsCurrent,
}

-- An index after `td` seconds at a yearly rate.
abbrev pub grown : ℕ → ℕ → ℕ → ℕ
grown i r td = (i * (r * td / seconds_per_year + ray) + half_ray) / ray

pub extrapolate_index_early :
    (i r last now : ℤ) → IsInt64 (now -ℤ last) → now ≤ℤ last → extrapolate_index i r last now ≡ i
unfolding extrapolate_index
extrapolate_index_early i r last now w h =
    rw (to_int64_of_IsInt64 (now -ℤ last) w) (ground (arith, -ℤ_parts now last))

small : (n : ℕ) → n < 2 ^ 63 → n % 2 ^ 64 ≡ n
small n h = omega arith

late_case :
    (i r d : ℤ)
    → IsInt64 d
    → pos 0 <ℤ d
    → (if leb_ℤ d (pos 0) then i else ray_mul i (calculate_linear_interest r (to_uint64 d)))
      ≡ ray_mul i (calculate_linear_interest r (pos_part d))
late_case i r (pos n) w h = ground (arith, small n)
late_case i r (negsuc n) w h = absurd (omega arith)

pub extrapolate_index_late :
    (i r last now : ℤ)
    → IsInt64 (now -ℤ last)
    → last <ℤ now
    → extrapolate_index i r last now
      ≡ ray_mul i (calculate_linear_interest r (pos_part (now -ℤ last)))
unfolding extrapolate_index
extrapolate_index_late i r last now w h =
    rw (to_int64_of_IsInt64 (now -ℤ last) w)
      (late_case i r (now -ℤ last) w (omega (arith, -ℤ_parts now last)))

-ℤ_self : (a : ℤ) → a -ℤ a ≡ pos 0
unfolding ◌-ℤ◌
-ℤ_self a = ground arith

extrapolate_index_same : (i r t : ℤ) → extrapolate_index i r t t ≡ i
extrapolate_index_same i r t =
    extrapolate_index_early i r t t (rw (-ℤ_self t) (omega arith)) (omega arith)

grown_zero : (i r : ℕ) → i ≡ grown i r 0
grown_zero i r = grind arith

growth :
    (i r : ℕ) (d : ℤ)
    → IsInt64 d
    → (if leb_ℤ d (pos 0)
        then pos i
        else ray_mul (pos i) (calculate_linear_interest (pos r) (to_uint64 d)))
      ≡ pos (grown i r (pos_part d))
growth i r (pos zero) w = ap pos (grown_zero i r)
growth i r (pos (suc n)) w =
    rw (small (suc n) w.0, calculate_linear_interest_pos r (suc n), ray_mul_pos) (ground arith)
growth i r (negsuc n) w = ground (arith, grown_zero i r)

-- An index and a rate that are not negative: the code's result as one formula, early reads included.
pub extrapolate_index_pos :
    (i r : ℕ) (last now : ℤ)
    → IsInt64 (now -ℤ last)
    → extrapolate_index (pos i) (pos r) last now ≡ pos (grown i r (pos_part (now -ℤ last)))
unfolding extrapolate_index
extrapolate_index_pos i r last now w =
    rw (to_int64_of_IsInt64 (now -ℤ last) w) (growth i r (now -ℤ last) w)

part_mono : (last now later : ℤ) → now ≤ℤ later → pos_part (now -ℤ last) ≤ pos_part (later -ℤ last)
unfolding ◌-ℤ◌
part_mono last now later h = ground arith

mul_mono : (c a b : ℕ) → a ≤ b → c * a ≤ c * b
mul_mono c a b h = grind arith

grown_mono : (i r s t : ℕ) → s ≤ t → (i ≤ grown i r s) × (grown i r s ≤ grown i r t)
grown_mono i r s t h =
    let x = r * s / seconds_per_year in
    let y = r * t / seconds_per_year in
    let k : x ≤ y = omega (arith, mul_mono r s t h) in
    (omega arith, omega (arith, mul_mono i x y k))

-- With an index and a rate that are not negative and time differences that fit an int64, an
-- extrapolated index is at least the stored one, and at a later time at least what it was at an
-- earlier one.
pub extrapolate_index_mono :
    (i r : ℕ) (last now later : ℤ)
    → IsInt64 (now -ℤ last)
    → IsInt64 (later -ℤ last)
    → now ≤ℤ later
    → (pos i ≤ℤ extrapolate_index (pos i) (pos r) last now)
      × (extrapolate_index (pos i) (pos r) last now ≤ℤ extrapolate_index (pos i) (pos r) last later)
extrapolate_index_mono i r last now later w v h =
    let g =
      grown_mono i r (pos_part (now -ℤ last)) (pos_part (later -ℤ last))
        (part_mono last now later h) in
    rw (extrapolate_index_pos i r last now w, extrapolate_index_pos i r last later v)
      (omega (arith, g), omega (arith, g))

-- An event without deltas on a known pool that is older than the pool's last update sets the clock
-- of the pool back: a read at the time of the last update gave the stored index before and adds the
-- interest of the whole interval to it afterwards.
pub handle_event_stale :
    (rc : RateComputer) (m : ℕ) (p : PoolState) (t : ℤ)
    → lookup m rc ≡ some p
    → pos 0 ≤ℤ p.total_supply
    → pos 0 ≤ℤ p.total_borrow
    → t <ℤ p.last_update_timestamp
    → IsInt64 (t -ℤ p.last_update_timestamp)
    → IsInt64 (p.last_update_timestamp -ℤ t)
    → (rc' : RateComputer) × (q : PoolState) × (handle_event rc m none none t ≡ some rc')
      × (lookup m rc' ≡ some q)
      × (q.last_update_timestamp ≡ t)
      × (current_borrow_index rc m p.last_update_timestamp ≡ some p.borrow_index)
      × (current_borrow_index rc' m p.last_update_timestamp
          ≡ some (
              ray_mul p.borrow_index (
                calculate_linear_interest q.current_borrow_rate
                  (pos_part (p.last_update_timestamp -ℤ t)))))
unfolding current_borrow_index
handle_event_stale rc m p t e hs hb old w v =
    let (rc', q, a, b, _, i) =
      handle_event_known rc m (suc m) p none none t e hs hb (omega arith) in
    let kept : q.borrow_index ≡ p.borrow_index =
      i.borrow_index ∙ extrapolate_index_early _ _ _ _ w (omega arith) in
    (
      rc',
      q,
      a,
      b,
      i.stamped,
      rw (e, current_borrow_index) (rw (extrapolate_index_same p.borrow_index)),
      rw (b, current_borrow_index)
          (rw (i.stamped, kept) (ap some (extrapolate_index_late _ _ _ _ v old))),
    )

-- A calibration returns a pool whose indices read at the timestamp of the chain are those of the
-- chain, whose rates are those of the model and whose totals are unchanged.
pub calibrated_lem :
    (p : PoolState) (chain_borrow_index chain_liquidity_index t : ℤ)
    → (q : PoolState) × (calibrated p chain_borrow_index chain_liquidity_index t ≡ some q)
      × IsCurrent q
      × (borrow_index_at q t ≡ chain_borrow_index)
      × (liquidity_index_at q t ≡ chain_liquidity_index)
      × (q.total_supply ≡ p.total_supply)
      × (q.total_borrow ≡ p.total_borrow)
unfolding calibrated
calibrated_lem p b l t =
    let (q, e) =
      recalculate_rates-total
        (record p { borrow_index = b; liquidity_index = l; last_update_timestamp = t }) in
    let c = recalculate_rates-IsCurrent _ q e in
    (
      q,
      e,
      c.0,
      rw (c.3, c.5) (extrapolate_index_same b _ t),
      rw (c.4, c.5) (extrapolate_index_same l _ t),
      c.1,
      c.2,
    )
