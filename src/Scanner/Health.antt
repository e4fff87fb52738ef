-- ===== src/Scanner/Health.antt =====
-- internal/liquidation/scanner/scanner.go: health factors, and the positions that are found.
use defi_demo.Base.{
  ℕ, ◌+◌, ◌*◌, ◌≤◌, ◌<◌, ◌/◌, ◌≡◌, refl, subst, sym, true, false, Option, none, some, List, [], ◌∷◌,
  nat_eq, ◌==◌, arith, inl, inr, Bool-cases, All, get_elem?, suc,
}
use defi_demo.Base.Assoc.{Map, lookup}
use defi_demo.Base.Int.{ℤ, pos, ◌+ℤ◌, ◌*ℤ◌, ltb_ℤ, is_zero, div_ℤ}
use defi_demo.WadRay.{ray, ray_div, ray_mul, ray_to_wad, wad_to_ray}
use defi_demo.WadRay.Interest.{ray_div_pos}
use defi_demo.Positions.{CollateralEntry, DebtEntry, UserPosition}
use defi_demo.Scanner.{
  IndexProvider, or_ray, actual_balance, value_usd, weighted_collateral, total_debt,
  calculate_health_factor, is_liquidatable, liquidatable_of,
}

positive_nonzero : (z : ℤ) → ltb_ℤ (pos 0) z ≡ true → is_zero z ≡ false
positive_nonzero z h = ground arith

ray_div-some : (a b : ℤ) → is_zero b ≡ false → (q : ℤ) × (ray_div a b ≡ some q)
unfolding ray_div
ray_div-some a b h = (div_ℤ (a *ℤ pos ray +ℤ div_ℤ b (pos 2)) b, rw (ray_div, h) refl)

actual_balance-total :
    (principal : ℤ) (user_index : Option ℤ) (current : ℤ)
    → (b : ℤ) × (actual_balance principal user_index current ≡ some b)
unfolding actual_balance
actual_balance-total principal none current = (principal, refl)
actual_balance-total principal (some u) current = elim (Bool-cases (ltb_ℤ (pos 0) u)) [
  | inl positive ↦
      let (q, e) = ray_div-some current u (positive_nonzero u positive) in
      (ray_to_wad (ray_mul (wad_to_ray principal) q), rw (positive, e) refl)
  | inr other ↦ (principal, rw other refl)
]

weighted_collateral-total :
    (provider : IndexProvider) (now : ℤ) (cs : List CollateralEntry)
    → (t : ℤ) × (weighted_collateral provider now cs ≡ some t)
unfolding weighted_collateral
weighted_collateral-total provider now [] = (pos 0, refl)
weighted_collateral-total provider now (c ∷ cs) =
    let (b, e) =
      actual_balance-total c.supply_balance c.supply_index
        (or_ray (provider.current_liquidity_index c.market_id now)) in
    let (t, rest) = weighted_collateral-total provider now cs in
    (
      ray_mul (wad_to_ray (value_usd b c.price_usd c.decimals)) c.liquidation_threshold +ℤ t,
      rw (e, rest) refl,
    )

total_debt-total :
    (provider : IndexProvider) (now : ℤ) (ds : List DebtEntry)
    → (t : ℤ) × (total_debt provider now ds ≡ some t)
unfolding total_debt
total_debt-total provider now [] = (pos 0, refl)
total_debt-total provider now (d ∷ ds) =
    let (b, e) =
      actual_balance-total d.borrow_balance d.borrow_index
        (or_ray (provider.current_borrow_index d.market_id now)) in
    let (t, rest) = total_debt-total provider now ds in
    (wad_to_ray (value_usd b d.price_usd d.decimals) +ℤ t, rw (e, rest) refl)

-- No division by zero, whatever the position and the indices.
pub calculate_health_factor-total :
    (p : UserPosition) (provider : IndexProvider) (now : ℤ)
    → (hf : ℤ) × (calculate_health_factor p provider now ≡ some hf)
unfolding calculate_health_factor
calculate_health_factor-total p provider now =
    let (collateral, e) = weighted_collateral-total provider now p.collaterals in
    let (debt, f) = total_debt-total provider now p.debts in
    elim (Bool-cases (is_zero debt)) [
      | inl nothing ↦ (pos 1000 *ℤ pos ray, rw (e, f, nothing) refl)
      | inr some_debt ↦
          let (q, g) = ray_div-some collateral debt some_debt in (q, rw (e, f, some_debt) g)
    ]

below : (n d : ℕ) → n / d * d ≤ n
below n d = grind arith

above : (n d : ℕ) → 0 < d → n < (n / d + 1) * d
above n d h = grind arith

-- With totals that are not negative and a debt that is not 0, the health factor is the greatest
-- number whose product with the debt is at most the weighted collateral in ray plus half of the
-- debt: the quotient rounded to the nearest.
pub calculate_health_factor-threshold :
    (p : UserPosition) (provider : IndexProvider) (now : ℤ) (collateral debt : ℕ)
    → weighted_collateral provider now p.collaterals ≡ some (pos collateral)
    → total_debt provider now p.debts ≡ some (pos (suc debt))
    → (hf : ℕ) × (calculate_health_factor p provider now ≡ some (pos hf))
      × (hf * suc debt ≤ collateral * ray + suc debt / 2)
      × (collateral * ray + suc debt / 2 < (hf + 1) * suc debt)
unfolding calculate_health_factor
calculate_health_factor-threshold p provider now collateral debt e f =
    let n = collateral * ray + suc debt / 2 in
    let some_debt : is_zero (pos (suc debt)) ≡ false = ground arith in
    (
      n / suc debt,
      rw (e, f, some_debt) (ray_div_pos collateral (suc debt) (omega arith)),
      below n (suc debt),
      above n (suc debt) (omega arith),
    )

liquidatable_of_sound :
    (m : Map ℕ UserPosition)
    → All (λ (p : UserPosition). is_liquidatable p ≡ true) (liquidatable_of m)
unfolding liquidatable_of
liquidatable_of_sound [] = tt
liquidatable_of_sound ((user, p) ∷ m) = elim (Bool-cases (is_liquidatable p)) [
  | inl danger ↦ rw danger (danger, liquidatable_of_sound m)
  | inr safe ↦ rw safe (liquidatable_of_sound m)
]

abbrev IsDangerous : Option UserPosition → Type 0
IsDangerous none = Unit
IsDangerous (some p) = is_liquidatable p ≡ true

head_danger :
    (v : ℕ) (p q : UserPosition) (m : Map ℕ UserPosition)
    → some p ≡ some q
    → is_liquidatable p ≡ true
    → (i : ℕ) × (get_elem? (liquidatable_of ((v, q) ∷ m)) i ≡ some p)
unfolding liquidatable_of
head_danger v p q m e danger =
    let danger2 : is_liquidatable q ≡ true = subst IsDangerous e danger in (0, rw danger2 (sym e))

tail_danger :
    (v : ℕ) (p q : UserPosition) (m : Map ℕ UserPosition)
    → (i : ℕ) × (get_elem? (liquidatable_of m) i ≡ some p)
    → (i : ℕ) × (get_elem? (liquidatable_of ((v, q) ∷ m)) i ≡ some p)
unfolding liquidatable_of
tail_danger v p q m (i, e) = elim (Bool-cases (is_liquidatable q)) [
  | inl danger ↦ (suc i, rw danger e)
  | inr safe ↦ (i, rw safe e)
]

-- A position of the map whose health factor is below 1 is among those that FindLiquidatable
-- returns.
pub liquidatable_of_complete :
    (user : ℕ) (p : UserPosition) (m : Map ℕ UserPosition)
    → lookup user m ≡ some p
    → is_liquidatable p ≡ true
    → (i : ℕ) × (get_elem? (liquidatable_of m) i ≡ some p)
unfolding lookup
liquidatable_of_complete user p [] h danger = ground arith
liquidatable_of_complete user p ((v, q) ∷ m) h danger = elim (Bool-cases (v == user)) [
  | inl same ↦ head_danger v p q m (sym (rw same at h)) danger
  | inr other ↦ tail_danger v p q m (liquidatable_of_complete user p m (rw other at h) danger)
]
