-- ===== src/Scanner/Totals.antt =====
-- internal/liquidation/scanner/scanner.go: the health factor from the amounts of a position.
use defi_demo.Base.{
  ℕ, zero, suc, ◌+◌, ◌*◌, ◌/◌, ◌^◌, ◌≤◌, ◌<◌, ◌≡◌, ◌⊎◌, refl, ap, ◌∙◌, true, Option, none, some,
  List, [], ◌∷◌, map, arith, inl, inr,
}
use defi_demo.Base.Int.{ℤ, pos, ltb_ℤ, +ℤ_pos, *ℤ_pos}
use defi_demo.WadRay.{ray, wad_ray_ratio}
use defi_demo.WadRay.Interest.{pos_laws, ray_div_pos, ray_mul_pos, ray_to_wad_pos, wad_to_ray_pos}
use defi_demo.Positions.{CollateralEntry, DebtEntry, UserPosition}
use defi_demo.Scanner.{
  IndexProvider, or_ray, actual_balance, value_usd, weighted_collateral, total_debt,
  calculate_health_factor,
}
use defi_demo.Scanner.Health.{calculate_health_factor-threshold}

-- Amounts that are not negative: a collateral, and a debt, whose threshold has no meaning.
pub record Amounts : Type 0 where
  pub market_id : ℕ
  pub asset_address : ℕ
  pub balance : ℕ
  pub user_index : Option ℕ
  pub threshold : ℕ
  pub bonus : ℕ
  pub price : ℕ
  pub decimals : ℕ

abbrev pub pos_index : Option ℕ → Option ℤ
pos_index none = none
pos_index (some i) = some (pos i)

abbrev pub collateral_of : Amounts → CollateralEntry
collateral_of a = record {
  market_id = a.market_id;
  asset_address = a.asset_address;
  supply_balance = pos a.balance;
  supply_index = pos_index a.user_index;
  liquidation_threshold = pos a.threshold;
  liquidation_bonus = pos a.bonus;
  price_usd = pos a.price;
  decimals = pos a.decimals;
}

abbrev pub debt_of : Amounts → DebtEntry
debt_of a = record {
  market_id = a.market_id;
  asset_address = a.asset_address;
  borrow_balance = pos a.balance;
  borrow_index = pos_index a.user_index;
  price_usd = pos a.price;
  decimals = pos a.decimals;
}

-- The quotient, rounded to the nearest.
abbrev pub rounded : ℕ → ℕ → ℕ
rounded n d = (n + d / 2) / d

-- A principal grows by the index now over the user's index; a user without one has the principal.
abbrev pub accrued : ℕ → Option ℕ → ℕ → ℕ
accrued principal none now = principal
accrued principal (some zero) now = principal
accrued principal (some (suc u)) now =
    rounded (rounded (principal * 10 ^ 9 * rounded (now * 10 ^ 27) (suc u)) (10 ^ 27)) (10 ^ 9)

-- The index of a market, 1 in ray when it is not known.
abbrev pub index_now : Option ℕ → ℕ
index_now none = 10 ^ 27
index_now (some i) = i

-- The value in ray.
abbrev pub worth : (ℕ → Option ℕ) → Amounts → ℕ
worth index a =
    accrued a.balance a.user_index (index_now (index a.market_id))
    * a.price
    / 10 ^ a.decimals
    * 10 ^ 9

-- Each collateral counts for its value times its own threshold.
abbrev pub backing : (ℕ → Option ℕ) → List Amounts → ℕ
backing index [] = 0
backing index (a ∷ amounts) =
    rounded (worth index a * a.threshold) (10 ^ 27) + backing index amounts

abbrev pub owed : (ℕ → Option ℕ) → List Amounts → ℕ
owed index [] = 0
owed index (a ∷ amounts) = worth index a + owed index amounts

actual_balance_pos :
    (b : ℕ) (u : Option ℕ) (now : ℕ)
    → actual_balance (pos b) (pos_index u) (pos now) ≡ some (pos (accrued b u now))
unfolding actual_balance
actual_balance_pos b none now = refl
actual_balance_pos b (some zero) now = refl
actual_balance_pos b (some (suc u)) now =
    let positive : ltb_ℤ (pos 0) (pos (suc u)) ≡ true = ground arith in
    rw
      (
        positive,
        ray_div_pos now (suc u) (omega arith),
        wad_to_ray_pos b,
        ray_mul_pos (b * wad_ray_ratio) ((now * ray + suc u / 2) / suc u),
      )
      (ap some (ray_to_wad_pos _))

value_usd_pos : (b price d : ℕ) → value_usd (pos b) (pos price) (pos d) ≡ pos (b * price / 10 ^ d)
unfolding value_usd
value_usd_pos b price d = simp pos_laws

or_ray_pos : (i : Option ℕ) → or_ray (pos_index i) ≡ pos (index_now i)
or_ray_pos none = refl
or_ray_pos (some i) = refl

module _ (provider : IndexProvider) (now : ℤ) (index : ℕ → Option ℕ) where
  weighted_collateral_pos :
      (amounts : List Amounts)
      → ((m : ℕ) → provider.current_liquidity_index m now ≡ pos_index (index m))
      → weighted_collateral provider now (map collateral_of amounts)
        ≡ some (pos (backing index amounts))
  unfolding weighted_collateral
  weighted_collateral_pos [] known = refl
  weighted_collateral_pos (a ∷ amounts) known =
      let b = accrued a.balance a.user_index (index_now (index a.market_id)) in
      let v = b * a.price / 10 ^ a.decimals in
      rw
        (
          known a.market_id,
          or_ray_pos (index a.market_id),
          actual_balance_pos a.balance a.user_index (index_now (index a.market_id)),
          weighted_collateral_pos amounts known,
          value_usd_pos b a.price a.decimals,
          wad_to_ray_pos v,
          ray_mul_pos (v * wad_ray_ratio) a.threshold,
        )
        (ap some (+ℤ_pos _ (backing index amounts)))

  total_debt_pos :
      (amounts : List Amounts)
      → ((m : ℕ) → provider.current_borrow_index m now ≡ pos_index (index m))
      → total_debt provider now (map debt_of amounts) ≡ some (pos (owed index amounts))
  unfolding total_debt
  total_debt_pos [] known = refl
  total_debt_pos (a ∷ amounts) known =
      let b = accrued a.balance a.user_index (index_now (index a.market_id)) in
      let v = b * a.price / 10 ^ a.decimals in
      rw
        (
          known a.market_id,
          or_ray_pos (index a.market_id),
          actual_balance_pos a.balance a.user_index (index_now (index a.market_id)),
          total_debt_pos amounts known,
          value_usd_pos b a.price a.decimals,
          wad_to_ray_pos v,
        )
        (ap some (+ℤ_pos _ (owed index amounts)))

zero-cases : (n : ℕ) → (n ≡ 0) ⊎ ((m : ℕ) × (n ≡ suc m))
zero-cases zero = inl refl
zero-cases (suc m) = inr (m, refl)

calculate_health_factor-free :
    (p : UserPosition) (provider : IndexProvider) (now collateral : ℤ)
    → weighted_collateral provider now p.collaterals ≡ some collateral
    → total_debt provider now p.debts ≡ some (pos 0)
    → calculate_health_factor p provider now ≡ some (pos (1000 * 10 ^ 27))
unfolding calculate_health_factor
calculate_health_factor-free p provider now collateral e f =
    rw (e, f) (ap some (*ℤ_pos 1000 (10 ^ 27)))

-- For a position whose amounts, indices, prices, thresholds and decimals are not negative,
-- CalculateHealthFactor returns. Each balance grows by the index of its market now over the index
-- of the user, 1 where the market has none, and not at all for a user without an index or with 0,
-- and counts at its price; each collateral counts for its own threshold of its value. Without a
-- debt the factor is 1000 in ray; else it is the quotient of the weighted collateral and the debt,
-- rounded to the nearest in ray.
pub calculate_health_factor_lem :
    (p : UserPosition) (provider : IndexProvider) (now : ℤ) (liquidity borrow : ℕ → Option ℕ)
    (collaterals debts : List Amounts)
    → p.collaterals ≡ map collateral_of collaterals
    → p.debts ≡ map debt_of debts
    → ((m : ℕ) → provider.current_liquidity_index m now ≡ pos_index (liquidity m))
    → ((m : ℕ) → provider.current_borrow_index m now ≡ pos_index (borrow m))
    → (hf : ℕ) × (calculate_health_factor p provider now ≡ some (pos hf))
      × (((owed borrow debts ≡ 0) × (hf ≡ 1000 * 10 ^ 27))
          ⊎ ((0 < owed borrow debts)
              × (hf * owed borrow debts
                  ≤ backing liquidity collaterals * 10 ^ 27 + owed borrow debts / 2)
              × (backing liquidity collaterals * 10 ^ 27 + owed borrow debts / 2
                  < (hf + 1) * owed borrow debts)))
calculate_health_factor_lem p provider now liquidity borrow collaterals debts cs ds known_l
      known_b =
    let e =
      ap (weighted_collateral provider now) cs
      ∙ weighted_collateral_pos provider now liquidity collaterals known_l in
    let f = ap (total_debt provider now) ds ∙ total_debt_pos provider now borrow debts known_b in
    elim (zero-cases (owed borrow debts)) [
      | inl nothing ↦ (
        1000 * 10 ^ 27,
        calculate_health_factor-free p provider now _ e (f ∙ ap (λ (n : ℕ). some (pos n)) nothing),
        inl (nothing, refl),
      )
      | inr (d, debt) ↦
          let (hf, g, low, high) =
            calculate_health_factor-threshold p provider now (backing liquidity collaterals) d e
              (f ∙ ap (λ (n : ℕ). some (pos n)) debt) in
          (hf, g, inr (rw debt (omega arith), rw debt low, rw debt high))
    ]
