-- ===== src/Executor/Calldata.antt =====
-- internal/liquidation/executor/executor.go, BuildLiquidationCalldata: the calldata word by word.
use mathlib.Core.List.{append_assoc}
use defi_demo.Base.{
  ℕ, ◌+◌, ◌-◌, ◌^◌, ◌≤◌, ◌<◌, ◌≡◌, refl, ap, sym, ◌∙◌, Bool, true, false, some, List, [], ◌∷◌, ◌++◌,
  if◌then◌else◌, length, replicate, arith, ltb,
}
use defi_demo.Base.Bytes.{
  bytes, to_word, length-to_word, copy_at, copy_at-skip, copy_at-word, to_word-pad, bytes-to_word,
}
use defi_demo.Base.Int.{pos}
use defi_demo.Executor.{address_part, amount_part, liquidation_calldata}

abbrev pub zeros : List ℕ
zeros = replicate 32 0

-- A 20-byte address in a blank word.
pub address_word :
    (a : ℕ) (rest : List ℕ)
    → a < 256 ^ 20
    → copy_at (zeros ++ rest) 12 (to_word 20 a) ≡ to_word 32 a ++ rest
address_word a rest h =
    copy_at-word (to_word 20 a) rest 12 (omega (arith, length-to_word))
      (omega (arith, length-to_word))
    ∙ sym (append_assoc (replicate 12 0) (to_word 20 a) rest)
    ∙ ap (λ (z : List ℕ). z ++ rest) (to_word-pad 12 20 32 a refl h (omega arith))

-- An amount of at most 32 bytes in a blank word.
pub amount_word :
    (n : ℕ) (rest : List ℕ)
    → n < 256 ^ 32
    → copy_at (zeros ++ rest) (32 - length (bytes n)) (bytes n) ≡ to_word 32 n ++ rest
amount_word n rest h =
    let (fits, e) = bytes-to_word 32 n h in
    copy_at-word (bytes n) rest (32 - length (bytes n)) fits refl
    ∙ sym (append_assoc (replicate (32 - length (bytes n)) 0) (bytes n) rest)
    ∙ ap (λ (z : List ℕ). z ++ rest) e

pub not_ltb : (a b : ℕ) → b ≤ a → ltb a b ≡ false
not_ltb a b h = ground arith

-- Copies behind the selector and the words that are already there.
module _ (sig : List ℕ) (hs : length sig ≡ 4) where
  selector_part :
      copy_at (replicate 164 0) 0 sig ≡ sig ++ (zeros ++ (zeros ++ (zeros ++ (zeros ++ zeros))))
  unfolding copy_at
  selector_part = rw hs

  -- The start of the word after `n` words.
  pub word1 : (xs src : List ℕ) (k : ℕ) → copy_at (sig ++ xs) (4 + k) src ≡ sig ++ copy_at xs k src
  word1 xs src k = copy_at-skip sig xs src k (4 + k) (omega (arith, hs))

  pub after_word :
      (a : ℕ) (xs src : List ℕ) (k m : ℕ)
      → m ≡ 32 + k
      → copy_at (to_word 32 a ++ xs) m src ≡ to_word 32 a ++ copy_at xs k src
  after_word a xs src k m h =
      copy_at-skip (to_word 32 a) xs src k m (omega (arith, h, length-to_word 32 a))

  module _ (c d b : ℕ) (hc : c < 256 ^ 20) (hd : d < 256 ^ 20) (hb : b < 256 ^ 20) where
    address_part_lem :
        address_part sig c d b
        ≡ sig ++ (to_word 32 c ++ (to_word 32 d ++ (to_word 32 b ++ (zeros ++ zeros))))
    unfolding address_part
    address_part_lem = rw (
      selector_part,
      word1 _ (to_word 20 c) 12,
      address_word c _ hc,
      word1 _ (to_word 20 d) 44,
      after_word c _ (to_word 20 d) 12 44 refl,
      address_word d _ hd,
      word1 _ (to_word 20 b) 76,
      after_word c _ (to_word 20 b) 44 76 refl,
      after_word d _ (to_word 20 b) 12 44 refl,
      address_word b _ hb,
    )

    module _ (n : ℕ) (hn : n < 256 ^ 32) where
      amount_part_lem :
          amount_part (address_part sig c d b) (pos n)
          ≡ some
              (sig ++ (to_word 32 c ++ (to_word 32 d ++ (to_word 32 b ++ (to_word 32 n ++ zeros)))))
      unfolding amount_part
      amount_part_lem =
          let (fits, e) = bytes-to_word 32 n hn in
          let l = length (bytes n) in
          let same : n + 0 ≡ n = omega arith in
          let small : ltb 132 l ≡ false = not_ltb 132 l (omega arith) in
          let at : 132 - l ≡ 4 + (96 + (32 - l)) = omega arith in
          rw (
            same,
            small,
            at,
            address_part_lem,
            word1 _ (bytes n) (96 + (32 - l)),
            after_word c _ (bytes n) (64 + (32 - l)) (96 + (32 - l)) (omega arith),
            after_word d _ (bytes n) (32 + (32 - l)) (64 + (32 - l)) (omega arith),
            after_word b _ (bytes n) (32 - l) (32 + (32 - l)) (omega arith),
            amount_word n _ hn,
          )

      flag_lem :
          copy_at
            (sig ++ (to_word 32 c ++ (to_word 32 d ++ (to_word 32 b ++ (to_word 32 n ++ zeros)))))
            163
            (1 ∷ [])
          ≡ sig
            ++ (to_word 32 c
                ++ (to_word 32 d ++ (to_word 32 b ++ (to_word 32 n ++ copy_at zeros 31 (1 ∷ [])))))
      flag_lem = rw (
        word1 _ (1 ∷ []) 159,
        after_word c _ (1 ∷ []) 127 159 refl,
        after_word d _ (1 ∷ []) 95 127 refl,
        after_word b _ (1 ∷ []) 63 95 refl,
        after_word n _ (1 ∷ []) 31 63 refl,
      )

true_word : copy_at zeros 31 (1 ∷ []) ≡ to_word 32 1
unfolding copy_at to_word
true_word = refl

false_word : zeros ≡ to_word 32 0
unfolding to_word
false_word = refl

-- For a selector of 4 bytes, addresses of 20 bytes and an amount that is not negative and below
-- 2^256, the calldata that the code copies together is the ABI encoding: the selector, then a word
-- of 32 bytes for each of the three addresses, the amount and the flag.
pub liquidation_calldata_lem :
    (sig : List ℕ) (collateral_asset debt_asset borrower amount : ℕ) (receive_a_token : Bool)
    → length sig ≡ 4
    → collateral_asset < 256 ^ 20
    → debt_asset < 256 ^ 20
    → borrower < 256 ^ 20
    → amount < 256 ^ 32
    → liquidation_calldata sig collateral_asset debt_asset borrower (pos amount) receive_a_token
      ≡ some (
          sig
          ++ (to_word 32 collateral_asset
              ++ (to_word 32 debt_asset
                  ++ (to_word 32 borrower
                      ++ (to_word 32 amount ++ to_word 32 (if receive_a_token then 1 else 0))))))
unfolding liquidation_calldata
liquidation_calldata_lem sig c d b n true hs hc hd hb hn =
    rw (amount_part_lem sig hs c d b hc hd hb n hn, flag_lem sig hs c d b hc hd hb n hn, true_word)
liquidation_calldata_lem sig c d b n false hs hc hd hb hn =
    rw (amount_part_lem sig hs c d b hc hd hb n hn, sym false_word)
