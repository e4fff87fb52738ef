-- ===== src/Examples/Queue.antt =====
-- The scanner and the account's calldata on concrete positions.
use defi_demo.Base.{
  ℕ, ◌+◌, ◌*◌, ◌/◌, ◌^◌, ◌≤◌, ◌<◌, ◌≡◌, ◌⊎◌, inl, refl, true, List, Option, none, some, [], ◌∷◌,
  ◌++◌, arith, nat_eq,
}
use defi_demo.Base.Assoc.{lookup}
use defi_demo.Base.Bytes.{to_word}
use defi_demo.Base.Int.{ℤ, pos, div_ℤ, ◌*ℤ◌, ◌+ℤ◌}
use defi_demo.WadRay.{ray, ray_mul, ray_div, ray_to_wad, wad_to_ray}
use defi_demo.Positions.{UserPosition, Scanner, new_scanner}
use defi_demo.Scanner.{
  IndexProvider, actual_balance, value_usd, weighted_collateral, total_debt,
  calculate_health_factor, set_position, remove_position,
}
use defi_demo.Scanner.Ordered.{IsQueue, set_position-IsQueue, remove_position-IsQueue}
use defi_demo.Scanner.Runs.{Call, set, remove, renew, run, view_after, no_positions, run_refines}
use defi_demo.Positions.Kept.{Holds}
use defi_demo.Scanner.Totals.{
  Amounts, collateral_of, debt_of, owed, backing, calculate_health_factor_lem,
}
use defi_demo.Executor.{liquidation_calldata}
use defi_demo.Executor.Calldata.{liquidation_calldata_lem}

abbrev provider : IndexProvider
provider = record {
  current_borrow_index = λ (m : ℕ) (t : ℤ). some (pos ray);
  current_liquidity_index = λ (m : ℕ) (t : ℤ). none;
}

abbrev pub position : ℕ → Option ℤ → Option ℕ → UserPosition
position user factor place = record {
  user_address = user;
  chain_id = 1;
  collaterals =
      record {
        market_id = 1;
        asset_address = 21;
        supply_balance = pos 100;
        supply_index = none;
        liquidation_threshold = pos ray;
        liquidation_bonus = pos 0;
        price_usd = pos 3;
        decimals = pos 0;
      }
      ∷ [];
  debts =
      record {
        market_id = 2;
        asset_address = 22;
        borrow_balance = pos 50;
        borrow_index = none;
        price_usd = pos 2;
        decimals = pos 0;
      }
      ∷ [];
  health_factor = factor;
  total_collateral_usd = none;
  total_debt_usd = none;
  heap_index = place;
}

abbrev calls : List Call
calls =
    set (position 7 none none)
    ∷ set (position 8 (some (pos 5)) none)
    ∷ renew provider (pos 0)
    ∷ remove 7
    ∷ []

run_refines_example :
    (after : Scanner) × (run calls new_scanner ≡ some after)
    × IsQueue after
    × Holds (view_after calls no_positions) after
run_refines_example = run_refines calls

empty-IsQueue : IsQueue new_scanner
unfolding lookup
empty-IsQueue = record {
  indexed = λ i user. refl;
  ordered = λ c p q. absurd (omega arith);
  placed = λ v. inl refl;
}

-- A scanner of two positions.
abbrev two : Scanner
two =
    set_position (position 8 (some (pos 5)) none) (set_position (position 7 none none) new_scanner)

one-IsQueue : IsQueue (set_position (position 7 none none) new_scanner)
one-IsQueue = set_position-IsQueue (position 7 none none) new_scanner empty-IsQueue

set_position-IsQueue_example : IsQueue two
set_position-IsQueue_example =
    set_position-IsQueue (position 8 (some (pos 5)) none)
      (set_position (position 7 none none) new_scanner) one-IsQueue

two-IsQueue : IsQueue two
two-IsQueue =
    set_position-IsQueue (position 8 (some (pos 5)) none)
      (set_position (position 7 none none) new_scanner) one-IsQueue

remove_position-IsQueue_example :
    IsQueue (remove_position 7 two) × (lookup 7 (remove_position 7 two).positions ≡ none)
remove_position-IsQueue_example = remove_position-IsQueue 7 two two-IsQueue

-- A collateral of 100 at the price 3 and a threshold of 0.8, and a debt of 50 at the price 2 that has
-- grown by a half.
abbrev held : Amounts
held = record {
  market_id = 1;
  asset_address = 21;
  balance = 100 * 10 ^ 9;
  user_index = none;
  threshold = 8 * 10 ^ 26;
  bonus = 0;
  price = 3;
  decimals = 0;
}

abbrev borrowed : Amounts
borrowed = record {
  market_id = 2;
  asset_address = 22;
  balance = 50 * 10 ^ 9;
  user_index = some (2 * 10 ^ 27);
  threshold = 0;
  bonus = 0;
  price = 2;
  decimals = 0;
}

abbrev grown_provider : IndexProvider
grown_provider = record {
  current_borrow_index = λ (m : ℕ) (t : ℤ). some (pos (3 * 10 ^ 27));
  current_liquidity_index = λ (m : ℕ) (t : ℤ). none;
}

abbrev no_index : ℕ → Option ℕ
no_index m = none

abbrev grown_index : ℕ → Option ℕ
grown_index m = some (3 * 10 ^ 27)

abbrev holder : UserPosition
holder = record (position 7 none none) {
  collaterals = collateral_of held ∷ [];
  debts = debt_of borrowed ∷ [];
}

calculate_health_factor_lem_example :
    (hf : ℕ) × (calculate_health_factor holder grown_provider (pos 0) ≡ some (pos hf))
    × (((owed grown_index (borrowed ∷ []) ≡ 0) × (hf ≡ 1000 * 10 ^ 27))
        ⊎ ((0 < owed grown_index (borrowed ∷ []))
            × (hf * owed grown_index (borrowed ∷ [])
                ≤ backing no_index (held ∷ []) * 10 ^ 27 + owed grown_index (borrowed ∷ []) / 2)
            × (backing no_index (held ∷ []) * 10 ^ 27 + owed grown_index (borrowed ∷ []) / 2
                < (hf + 1) * owed grown_index (borrowed ∷ []))))
calculate_health_factor_lem_example =
    calculate_health_factor_lem holder grown_provider (pos 0) no_index grown_index (held ∷ [])
      (borrowed ∷ []) refl refl (λ m. refl) (λ m. refl)

-- The health factor of the holder: 240 of 150.
holder-factor : calculate_health_factor holder grown_provider (pos 0) ≡ some (pos (16 * 10 ^ 26))
unfolding calculate_health_factor weighted_collateral total_debt actual_balance value_usd ray_mul
    ray_div wad_to_ray ray_to_wad div_ℤ ◌*ℤ◌ ◌+ℤ◌
holder-factor = refl

liquidation_calldata_lem_example :
    liquidation_calldata (0 ∷ 166 ∷ 113 ∷ 141 ∷ []) 21 22 23 (pos 1000) true
    ≡ some (
        (0 ∷ 166 ∷ 113 ∷ 141 ∷ [])
        ++ (to_word 32 21
            ++ (to_word 32 22 ++ (to_word 32 23 ++ (to_word 32 1000 ++ to_word 32 1)))))
liquidation_calldata_lem_example =
    liquidation_calldata_lem (0 ∷ 166 ∷ 113 ∷ 141 ∷ []) 21 22 23 1000 true refl (omega arith)
      (omega arith) (omega arith) (omega arith)
